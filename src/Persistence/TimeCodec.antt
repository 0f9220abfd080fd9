-- ===== src/Persistence/TimeCodec.antt =====
-- src/infrastructure/persistence/time_codec.hpp as its clients see it: a time point as text, and back.
-- The child Iso8601 has the code.
pub mod Iso8601
pub mod RoundTrip
use cpp_mirror_leech_bot.Prelude.{◌≡◌, Bytes}
use cpp_mirror_leech_bot.Core.Error.{Result, ok}
use cpp_mirror_leech_bot.Domain.Task.{TimePoint}
use cpp_mirror_leech_bot.Application.Ports.{IsDated, whole_ms}

pub record TimeCodec : Type 0 where
  pub to_iso8601 : TimePoint → Bytes
  pub parse_iso8601 : Bytes → Result TimePoint
  pub parse-to : (t : TimePoint) → IsDated t → parse_iso8601 (to_iso8601 t) ≡ ok (whole_ms t)
