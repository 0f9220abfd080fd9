-- ===== src/Presentation/CommandParser/RoundTrip.antt =====
-- Commands as users write them are read as meant.
use cpp_mirror_leech_bot.Prelude.{
  ℕ, ◌≡◌, refl, ap, ◌∙◌, true, false, Option, none, some, [], ◌∷◌, ◌++◌, arith, is_empty, Bytes,
  is_space, All,
}
use cpp_mirror_leech_bot.Domain.Identifiers.{UserId, ChatId, MessageId}
use cpp_mirror_leech_bot.Presentation.CommandParser.{
  trim_start, trim_end, trim, to_lower_ascii, before, after, is_at, parse_body, parse_trimmed,
  parse,
}
use cpp_mirror_leech_bot.Presentation.CommandParser.Shape.{first_is_space, last_is_space}

-- No white space at all.
abbrev pub IsSolid : Bytes → Type 0
IsSolid s = All (λ c. is_space c ≡ false) s

abbrev pub IsBlank : Bytes → Type 0
IsBlank s = All (λ c. is_space c ≡ true) s

-- Nothing, or the mention of a bot.
abbrev pub mention : Option Bytes → Bytes
mention none = []
mention (some bot) = b'@' ∷ bot

abbrev pub IsMention : Option Bytes → Type 0
IsMention none = Unit
IsMention (some bot) = IsSolid bot

append-is_empty : (a b : Bytes) → is_empty b ≡ false → is_empty (a ++ b) ≡ false
append-is_empty [] b h = h
append-is_empty (c ∷ a) b h = refl

last_is_space-cons :
    (c : ℕ) (s : Bytes) → is_empty s ≡ false → last_is_space (c ∷ s) ≡ last_is_space s
last_is_space-cons c [] h = ground arith
last_is_space-cons c (d ∷ s) h = refl

last_is_space-append : (a b : Bytes) → is_empty b ≡ false → last_is_space (a ++ b) ≡ last_is_space b
last_is_space-append [] b h = refl
last_is_space-append (c ∷ a) b h =
    last_is_space-cons c (a ++ b) (append-is_empty a b h) ∙ last_is_space-append a b h

trim_end-blank : (a b : Bytes) → IsBlank b → trim_end (a ++ b) ≡ trim_end a
unfolding trim_end
trim_end-blank [] [] h = refl
trim_end-blank [] (d ∷ b) h = let rest = trim_end-blank [] b h.1 in ground arith
trim_end-blank (c ∷ a) b h = let rest = trim_end-blank a b h in ground arith

trim_start-blank : (a b : Bytes) → IsBlank a → trim_start (a ++ b) ≡ trim_start b
unfolding trim_start
trim_start-blank [] b h = refl
trim_start-blank (c ∷ a) b h = let rest = trim_start-blank a b h.1 in ground arith

before-solid : (a b : Bytes) → IsSolid a → before is_space (a ++ b' ' ∷ b) ≡ a
unfolding before is_space
before-solid [] b h = refl
before-solid (c ∷ a) b h = let rest = before-solid a b h.1 in ground arith

after-solid : (a b : Bytes) → IsSolid a → after is_space (a ++ b' ' ∷ b) ≡ b
unfolding after is_space
after-solid [] b h = refl
after-solid (c ∷ a) b h = let rest = after-solid a b h.1 in ground arith

trim_end_self : (s : Bytes) → last_is_space s ≡ false → trim_end s ≡ s
unfolding trim_end
trim_end_self [] h = refl
trim_end_self (c ∷ []) h = ground arith
trim_end_self (c ∷ d ∷ s) h = let rest = trim_end_self (d ∷ s) h in ground arith

trim_start_self : (s : Bytes) → first_is_space s ≡ false → trim_start s ≡ s
unfolding trim_start
trim_start_self [] h = refl
trim_start_self (c ∷ s) h = ground arith

-- A byte that a user may type in a command's name.
abbrev pub IsNameByte : ℕ → Type 0
IsNameByte c = (is_space c ≡ false) × (is_at c ≡ false)

before_at-name :
    (name : Bytes) (m : Option Bytes)
    → All IsNameByte name
    → before is_at (name ++ mention m) ≡ name
unfolding before
before_at-name [] none h = refl
before_at-name [] (some bot) h = refl
before_at-name (c ∷ name) m h = let rest = before_at-name name m h.1 in ground arith

head-IsSolid :
    (name : Bytes) (m : Option Bytes)
    → All IsNameByte name
    → IsMention m
    → IsSolid (name ++ mention m)
unfolding is_space
head-IsSolid [] none h k = tt
head-IsSolid [] (some bot) h k = (refl, k)
head-IsSolid (c ∷ name) m h k = (h.0.0, head-IsSolid name m h.1 k)

-- The text of a command: its name, perhaps the bot it is meant for, and its arguments.
abbrev pub command_text : Bytes → Option Bytes → Bytes → Bytes
command_text name m arguments = b'/' ∷ ((name ++ mention m) ++ b' ' ∷ arguments)

pub record IsArguments (s : Bytes) : Type 0 where
  pub present : is_empty s ≡ false
  pub begins : first_is_space s ≡ false
  pub ends : last_is_space s ≡ false

trim-command_text :
    (lead trail name : Bytes) (m : Option Bytes) (arguments : Bytes)
    → IsBlank lead
    → IsBlank trail
    → IsArguments arguments
    → trim (lead ++ (command_text name m arguments ++ trail)) ≡ command_text name m arguments
unfolding trim is_space trim_start
trim-command_text lead trail name m arguments hl ht ha =
    let text = command_text name m arguments in
    let last =
      last_is_space-append (b'/' ∷ (name ++ mention m)) (b' ' ∷ arguments) refl
      ∙ last_is_space-cons b' ' arguments ha.present
      ∙ ha.ends in
    ap trim_end (trim_start-blank lead (text ++ trail) hl)
    ∙ trim_end-blank text trail ht
    ∙ trim_end_self text last

parse_command :
    (text name : Bytes) (m : Option Bytes) (arguments : Bytes) (sender : UserId) (chat : ChatId)
    (msg : MessageId)
    → is_empty name ≡ false
    → All IsNameByte name
    → IsMention m
    → IsArguments arguments
    → parse_trimmed text (command_text name m arguments) sender chat msg
      ≡ some (record {
        command = to_lower_ascii name;
        arguments = arguments;
        full_text = text;
        sender = sender;
        chat = chat;
        source_message = msg;
      })
unfolding parse_trimmed parse_body trim
parse_command text name m arguments sender chat msg hn hb hm ha =
    let solid = head-IsSolid name m hb hm in
    let head = before-solid (name ++ mention m) arguments solid in
    let short = before_at-name name m hb in
    let rest = after-solid (name ++ mention m) arguments solid in
    let start = trim_start_self arguments ha.begins in
    let end = trim_end_self arguments ha.ends in grind arith

-- White space around a command is dropped, its name is lower-cased, the mention of the bot is removed
-- from it, and the arguments are kept as they are: for a name without white space and `@`, a mention
-- without white space, and arguments that are not empty and neither begin nor end with white space.
pub parse-command_text :
    (lead trail name : Bytes) (m : Option Bytes) (arguments : Bytes) (sender : UserId)
    (chat : ChatId) (msg : MessageId)
    → IsBlank lead
    → IsBlank trail
    → is_empty name ≡ false
    → All IsNameByte name
    → IsMention m
    → IsArguments arguments
    → parse (lead ++ (command_text name m arguments ++ trail)) sender chat msg
      ≡ some (record {
        command = to_lower_ascii name;
        arguments = arguments;
        full_text = lead ++ (command_text name m arguments ++ trail);
        sender = sender;
        chat = chat;
        source_message = msg;
      })
unfolding parse
parse-command_text lead trail name m arguments sender chat msg hl ht hn hb hm ha =
    let text = lead ++ (command_text name m arguments ++ trail) in
    ap (λ s. parse_trimmed text s sender chat msg)
      (trim-command_text lead trail name m arguments hl ht ha)
    ∙ parse_command text name m arguments sender chat msg hn hb hm ha
