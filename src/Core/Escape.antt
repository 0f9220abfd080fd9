-- ===== src/Core/Escape.antt =====
-- `escape_html` of src/core/formatting.cpp, over the bytes of a text.
use cpp_mirror_leech_bot.Prelude.{
  ℕ, ◌*◌, ◌≤◌, ◌≡◌, ◌≢◌, refl, ap, [], ◌∷◌, ◌++◌, ◌∙◌, arith, ◌==◌, if◌then◌else◌, length,
  length-append, All, All-append, Bytes, bytes, bytes_eq,
}

-- The four cases of the `switch`: `&amp;`, `&lt;`, `&gt;`, or the byte itself.
escape_byte : ℕ → Bytes
escape_byte ch =
    if ch == b'&'
    then b'&' ∷ b'a' ∷ b'm' ∷ b'p' ∷ b';' ∷ []
    else if ch == b'<'
    then b'&' ∷ b'l' ∷ b't' ∷ b';' ∷ []
    else if ch == b'>'
    then b'&' ∷ b'g' ∷ b't' ∷ b';' ∷ []
    else ch ∷ []

unfoldable pub escape_html : Bytes → Bytes
unfolding escape_byte
escape_html [] = []
escape_html (ch ∷ text) = escape_byte ch ++ escape_html text

-- A byte that can neither open nor close a tag.
abbrev pub IsInert : ℕ → Type 0
IsInert c = (c ≢ b'<') × (c ≢ b'>')

escape_byte-IsInert : (ch : ℕ) → All IsInert (escape_byte ch)
unfolding escape_byte
escape_byte-IsInert ch = ground arith

escape_html-IsInert : (text : Bytes) → All IsInert (escape_html text)
unfolding escape_html
escape_html-IsInert [] = tt
escape_html-IsInert (ch ∷ text) =
    All-append IsInert (escape_byte ch) (escape_html text) (escape_byte-IsInert ch)
      (escape_html-IsInert text)

-- How a client reads escaped text: bytes stand for themselves, and a named entity for its byte.
data Mode : Type 0 where
  plain : Mode
  entity : Bytes → Mode

entity_byte : Bytes → Bytes
unfolding bytes bytes_eq
entity_byte name =
    if bytes_eq name (bytes "amp")
    then b'&' ∷ []
    else if bytes_eq name (bytes "lt")
    then b'<' ∷ []
    else if bytes_eq name (bytes "gt")
    then b'>' ∷ []
    else []

read_byte : Mode → ℕ → Bytes × Mode
read_byte plain c = if c == b'&' then ([], entity []) else (c ∷ [], plain)
read_byte (entity name) c =
    if c == b';' then (entity_byte name, plain) else ([], entity (name ++ c ∷ []))

read_from : Mode → Bytes → Bytes
read_from mode [] = []
read_from mode (c ∷ rest) = let (out, mode') = read_byte mode c in out ++ read_from mode' rest

pub unescape : Bytes → Bytes
unfolding read_from read_byte entity_byte
unescape text = read_from plain text

read-escape_byte :
    (ch : ℕ) (rest : Bytes) → read_from plain (escape_byte ch ++ rest) ≡ ch ∷ read_from plain rest
unfolding escape_byte read_from read_byte entity_byte
read-escape_byte ch rest = ground arith

unescape-escape_html : (text : Bytes) → unescape (escape_html text) ≡ text
unfolding unescape escape_html
unescape-escape_html [] = refl
unescape-escape_html (ch ∷ text) =
    read-escape_byte ch (escape_html text) ∙ ap (λ (t : Bytes). ch ∷ t) (unescape-escape_html text)

-- Whatever the text, its escaped form holds no `<` and no `>`, so that it opens and closes no tag; and it
-- loses nothing: a client reads back exactly the text that was escaped.
pub escape_html-IsSafe :
    (text : Bytes) → All IsInert (escape_html text) × (unescape (escape_html text) ≡ text)
escape_html-IsSafe text = (escape_html-IsInert text, unescape-escape_html text)

length-escape_byte : (ch : ℕ) → length (escape_byte ch) ≤ 5
unfolding escape_byte
length-escape_byte ch = ground arith

-- Escaping makes a text at most five times as long.
pub length-escape_html : (text : Bytes) → length (escape_html text) ≤ 5 * length text
unfolding escape_html
length-escape_html [] = omega arith
length-escape_html (ch ∷ text) = omega (
  arith,
  length-append (escape_byte ch) (escape_html text),
  length-escape_byte ch,
  length-escape_html text,
)
