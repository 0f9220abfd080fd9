-- ===== src/Examples/Core.antt =====
-- Text, durations and sizes.
use cpp_mirror_leech_bot.Prelude.{All, ◌≡◌, [], ◌∷◌, Bytes}
use cpp_mirror_leech_bot.Core.Escape.{escape_html, unescape, IsInert, escape_html-IsSafe}

-- `<&>`
abbrev tag : Bytes
tag = b'<' ∷ b'&' ∷ b'>' ∷ []

escape_html-IsSafe_example : All IsInert (escape_html tag) × (unescape (escape_html tag) ≡ tag)
escape_html-IsSafe_example = escape_html-IsSafe tag

-- Five letters and a character of two bytes.
abbrev long_text : Bytes
long_text = b'a' ∷ 195 ∷ 169 ∷ b'b' ∷ b'c' ∷ b'd' ∷ b'e' ∷ []
