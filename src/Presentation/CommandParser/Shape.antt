-- ===== src/Presentation/CommandParser/Shape.antt =====
-- What every parsed command looks like.
use cpp_mirror_leech_bot.Prelude.{
  ℕ, ◌≡◌, refl, Bool, true, false, not, ◌&&◌, some, [], ◌∷◌, arith, leb, ◌==◌, is_empty, Bytes,
  to_lower, is_space, All, if◌then◌else◌,
}
use cpp_mirror_leech_bot.Domain.Identifiers.{UserId, ChatId, MessageId}
use cpp_mirror_leech_bot.Presentation.CommandParser.{
  CommandRequest, trim_start, trim_end, trim, to_lower_ascii, before, after, is_at, parse_body,
  parse_trimmed, parse,
}

-- A byte of a command's name: no capital, no white space and no `@`.
abbrev pub is_plain : ℕ → Bool
is_plain c = not (leb b'A' c && leb c b'Z') && (not (is_space c) && not (c == b'@'))

abbrev pub IsPlain : ℕ → Type 0
IsPlain c = is_plain c ≡ true

abbrev pub first_is_space : Bytes → Bool
first_is_space [] = false
first_is_space (c ∷ s) = is_space c

abbrev pub last_is_space : Bytes → Bool
last_is_space [] = false
last_is_space (c ∷ []) = is_space c
last_is_space (c ∷ s) = last_is_space s

pub record IsNormal (r : CommandRequest) : Type 0 where
  pub named : is_empty r.command ≡ false
  pub plain : All IsPlain r.command
  pub begins : first_is_space r.arguments ≡ false
  pub ends : last_is_space r.arguments ≡ false

trim_start-first : (s : Bytes) → first_is_space (trim_start s) ≡ false
unfolding trim_start
trim_start-first [] = refl
trim_start-first (c ∷ s) = ground (arith, trim_start-first s)

trim_end-first : (s : Bytes) → first_is_space s ≡ false → first_is_space (trim_end s) ≡ false
unfolding trim_end
trim_end-first [] h = refl
trim_end-first (c ∷ s) h = ground arith

last-cons : (c : ℕ) (s : Bytes) → is_empty s ≡ false → last_is_space (c ∷ s) ≡ last_is_space s
last-cons c [] h = ground arith
last-cons c (d ∷ s) h = refl

trim_end-last_cons :
    (c : ℕ) (rest : Bytes)
    → last_is_space rest ≡ false
    → last_is_space (if is_space c && is_empty rest then [] else c ∷ rest) ≡ false
trim_end-last_cons c [] h = ground arith
trim_end-last_cons c (d ∷ rest) h = ground arith

trim_end-last : (s : Bytes) → last_is_space (trim_end s) ≡ false
unfolding trim_end
trim_end-last [] = refl
trim_end-last (c ∷ s) = trim_end-last_cons c (trim_end s) (trim_end-last s)

to_lower-IsPlain : (c : ℕ) → is_space c ≡ false → is_at c ≡ false → IsPlain (to_lower c)
unfolding to_lower is_space
to_lower-IsPlain c not_space not_at = ground arith

head-IsPlain : (body : Bytes) → All IsPlain (to_lower_ascii (before is_at (before is_space body)))
unfolding to_lower_ascii before
head-IsPlain [] = tt
head-IsPlain (c ∷ s) = let rest = head-IsPlain s in let one = to_lower-IsPlain c in ground arith

map-is_empty : (s : Bytes) → is_empty (to_lower_ascii s) ≡ is_empty s
unfolding to_lower_ascii
map-is_empty [] = refl
map-is_empty (c ∷ s) = refl

parse_body-IsNormal :
    (text body : Bytes) (sender : UserId) (chat : ChatId) (msg : MessageId) (r : CommandRequest)
    → parse_body text body sender chat msg ≡ some r
    → IsNormal r
unfolding parse_body trim
parse_body-IsNormal text body sender chat msg r h =
    let plain = head-IsPlain body in
    let named = map-is_empty (before is_at (before is_space body)) in
    let begins =
      trim_end-first (trim_start (after is_space body)) (trim_start-first (after is_space body)) in
    let ends = trim_end-last (trim_start (after is_space body)) in ground arith

parse_trimmed-IsNormal :
    (text s : Bytes) (sender : UserId) (chat : ChatId) (msg : MessageId) (r : CommandRequest)
    → parse_trimmed text s sender chat msg ≡ some r
    → IsNormal r
unfolding parse_trimmed
parse_trimmed-IsNormal text [] sender chat msg r h = ground arith
parse_trimmed-IsNormal text (c ∷ body) sender chat msg r h =
    let normal = parse_body-IsNormal text body sender chat msg r in ground arith

-- A parsed command's name is not empty and has no capital, no white space and no `@`, and its
-- arguments neither begin nor end with white space.
pub parse-IsNormal :
    (text : Bytes) (sender : UserId) (chat : ChatId) (msg : MessageId) (r : CommandRequest)
    → parse text sender chat msg ≡ some r
    → IsNormal r
unfolding parse
parse-IsNormal text sender chat msg r h =
    parse_trimmed-IsNormal text (trim text) sender chat msg r h
