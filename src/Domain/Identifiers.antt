-- ===== src/Domain/Identifiers.antt =====
-- include/cmlb/domain/identifiers.hpp. The phantom tag of a `StrongId` exists only for the compiler,
-- so an identifier is its underlying value: a signed number, or the bytes of a string.
use cpp_mirror_leech_bot.Prelude.{Bytes}
use cpp_mirror_leech_bot.Prelude.Integers.{ℤ}

abbrev pub ChatId : Type 0
ChatId = ℤ

abbrev pub UserId : Type 0
UserId = ℤ

abbrev pub MessageId : Type 0
MessageId = ℤ

abbrev pub CallbackQueryId : Type 0
CallbackQueryId = ℤ

abbrev pub Gid : Type 0
Gid = Bytes

abbrev pub TaskId : Type 0
TaskId = Bytes
