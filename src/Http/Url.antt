-- ===== src/Http/Url.antt =====
-- `parse_url`, `same_origin` and `resolve_redirect` of src/infrastructure/http/beast_http_client.cpp.
use cpp_mirror_leech_bot.Prelude.{
  ℕ, Bool, true, false, not, ◌&&◌, ◌||◌, ◌==◌, leb, Option, none, some, [], ◌∷◌, ◌++◌,
  if◌then◌else◌, is_empty, Bytes, bytes, bytes_eq, starts_with, drop,
}
use cpp_mirror_leech_bot.Http.{iequals}

pub record ParsedUrl : Type 0 where
  pub https : Bool
  pub host : Bytes
  pub port : Bytes
  pub target : Bytes

-- The text before the first such byte, and the rest from it on.
unfoldable pub split_first : ℕ → Bytes → Bytes × Bytes
split_first c [] = ([], [])
split_first c (x ∷ s) =
    let (before, rest) = split_first c s in if x == c then ([], x ∷ s) else (x ∷ before, rest)

-- The texts before and after the last such byte.
unfoldable pub split_last : ℕ → Bytes → Option (Bytes × Bytes)
split_last c [] = none
split_last c (x ∷ s) = elim (split_last c s) [
  | some (before, after) ↦ some (x ∷ before, after)
  | none ↦ if x == c then some ([], s) else none
]

unfoldable pub contains : ℕ → Bytes → Bool
contains c [] = false
contains c (x ∷ s) = x == c || contains c s

unfoldable pub all_digits : Bytes → Bool
all_digits [] = true
all_digits (c ∷ s) = (leb b'0' c && leb c b'9') && all_digits s

unfoldable pub default_port : Bool → Bytes
unfolding bytes
default_port https = if https then bytes "443" else bytes "80"

-- The host and the port of an authority, of which the port is the default one where there is no colon.
unfoldable pub host_and_port : Bool → Bytes → Option (Bytes × Bytes)
host_and_port https authority = elim (split_last b':' authority) [
  | some (host, port) ↦
      if is_empty host || is_empty port || not (all_digits port) then none else some (host, port)
  | none ↦ if is_empty authority then none else some (authority, default_port https)
]

-- What follows the scheme.
unfoldable pub parse_rest : Bool → Bytes → Option ParsedUrl
parse_rest https rest =
    let (authority, path) = split_first b'/' rest in
    if contains b'@' authority then none else elim (host_and_port https authority) [
      | none ↦ none
      | some (host, port) ↦ some (record {
        https = https;
        host = host;
        port = port;
        target = if is_empty path then b'/' ∷ [] else path;
      })
    ]

unfoldable pub parse_url : Bytes → Option ParsedUrl
unfolding bytes
parse_url url =
    if starts_with (bytes "https://") url
    then parse_rest true (drop 8 url)
    else if starts_with (bytes "http://") url
    then parse_rest false (drop 7 url)
    else none

unfoldable pub same_origin : ParsedUrl → ParsedUrl → Bool
same_origin a b =
    ((a.https && b.https) || (not a.https && not b.https))
    && iequals a.host b.host
    && bytes_eq a.port b.port

-- The host, with the port where it is not the default one.
unfoldable pub host_with_port : ParsedUrl → Bytes
host_with_port u =
    if bytes_eq u.port (default_port u.https) then u.host else u.host ++ b':' ∷ u.port

unfoldable pub base_of : ParsedUrl → Bytes
unfolding bytes
base_of u = (if u.https then bytes "https://" else bytes "http://") ++ host_with_port u

-- A target without its last segment.
unfoldable pub parent_of : Bytes → Bytes
parent_of target = elim (split_last b'/' target) [
  | some (before, after) ↦ before ++ b'/' ∷ []
  | none ↦ b'/' ∷ []
]

unfoldable pub resolve_redirect : ParsedUrl → Bytes → Option Bytes
unfolding bytes
resolve_redirect current location =
    if is_empty location
    then none
    else if starts_with (bytes "http://") location || starts_with (bytes "https://") location
    then some location
    else if starts_with (b'/' ∷ []) location
    then some (base_of current ++ location)
    else some (base_of current ++ parent_of current.target ++ location)
