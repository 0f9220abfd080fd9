-- ===== src/Presentation/CommandParser.antt =====
-- src/presentation/command_parser.cpp: the text of a message as a command.
pub mod Shape
pub mod RoundTrip
use cpp_mirror_leech_bot.Prelude.{
  ℕ, Bool, true, false, not, ◌&&◌, Option, none, some, List, [], ◌∷◌, map, if◌then◌else◌, ◌==◌,
  is_empty, Bytes, to_lower, is_space,
}
use cpp_mirror_leech_bot.Domain.Identifiers.{UserId, ChatId, MessageId}

pub record CommandRequest : Type 0 where
  pub command : Bytes
  pub arguments : Bytes
  pub full_text : Bytes
  pub sender : UserId
  pub chat : ChatId
  pub source_message : MessageId

-- The two loops of `trim`.
unfoldable pub trim_start : Bytes → Bytes
trim_start [] = []
trim_start (c ∷ s) = if is_space c then trim_start s else c ∷ s

unfoldable pub trim_end : Bytes → Bytes
trim_end [] = []
trim_end (c ∷ s) = let rest = trim_end s in if is_space c && is_empty rest then [] else c ∷ rest

unfoldable pub trim : Bytes → Bytes
trim text = trim_end (trim_start text)

unfoldable pub to_lower_ascii : Bytes → Bytes
to_lower_ascii text = map to_lower text

-- The bytes before the first one that `stop` accepts, and those after it.
unfoldable pub before : (ℕ → Bool) → Bytes → Bytes
before stop [] = []
before stop (c ∷ s) = let rest = before stop s in if stop c then [] else c ∷ rest

unfoldable pub after : (ℕ → Bool) → Bytes → Bytes
after stop [] = []
after stop (c ∷ s) = if stop c then s else after stop s

abbrev pub is_at : ℕ → Bool
is_at c = c == b'@'

-- The command's name without the mention of the bot, and the rest.
unfoldable pub parse_body : Bytes → Bytes → UserId → ChatId → MessageId → Option CommandRequest
parse_body text body sender chat msg =
    let head = before is_at (before is_space body) in
    if is_empty head
    then none
    else some (record {
      command = to_lower_ascii head;
      arguments = trim (after is_space body);
      full_text = text;
      sender = sender;
      chat = chat;
      source_message = msg;
    })

unfoldable pub parse_trimmed : Bytes → Bytes → UserId → ChatId → MessageId → Option CommandRequest
parse_trimmed text [] sender chat msg = none
parse_trimmed text (c ∷ body) sender chat msg =
    if c == b'/' then parse_body text body sender chat msg else none

unfoldable pub parse : Bytes → UserId → ChatId → MessageId → Option CommandRequest
parse text sender chat msg = parse_trimmed text (trim text) sender chat msg
