-- ===== src/Core/Json.antt =====
-- The values of nlohmann::json, of which parsing and printing are parameters: a parser gives a value or
-- the text of its exception, and so do the failures of an access.
use cpp_mirror_leech_bot.Prelude.{
  Bool, Option, none, some, ◌⊎◌, inl, inr, if◌then◌else◌, Bytes, bytes_eq,
}
use cpp_mirror_leech_bot.Prelude.Integers.{ℤ}

mutual
  pub data Json : Type 0 where
    null : Json
    boolean : Bool → Json
    number : ℤ → Json
    string : Bytes → Json
    array object : Members → Json

  -- The members of an object, or the elements of an array under empty keys.
  pub data Members : Type 0 where
    stop : Members
    member : Bytes → Json → Members → Members

pub record JsonLibrary : Type 0 where
  pub parse : Bytes → Bytes ⊎ Json
  pub dump : Json → Bytes
  pub at_what : Bytes → Json → Bytes
  pub get_what : Json → Bytes

-- The value of a key among the members.
unfoldable pub lookup : Bytes → Members → Option Json
lookup key stop = none
lookup key (member k v rest) =
    let later = lookup key rest in if bytes_eq k key then some v else later

-- The member of an object.
unfoldable pub find : Bytes → Json → Option Json
find key (object ms) = lookup key ms
find key _ = none

unfoldable pub as_string : Json → Option Bytes
as_string (string s) = some s
as_string _ = none

unfoldable pub as_number : Json → Option ℤ
as_number (number n) = some n
as_number _ = none

-- `value(key, "")`, for a member that is a string where there is one.
unfoldable pub string_or : Bytes → Bytes → Json → Bytes
string_or key default v = elim (find key v) [
  | none ↦ default
  | some m ↦ elim (as_string m) [ none ↦ default | some s ↦ s ]
]

module _ (library : JsonLibrary) where
  -- `at(key).get<std::string>()`.
  unfoldable pub at_string : Bytes → Json → Bytes ⊎ Bytes
  at_string key v = elim (find key v) [
    | none ↦ inl (library.at_what key v)
    | some m ↦ elim (as_string m) [ none ↦ inl (library.get_what m) | some s ↦ inr s ]
  ]

  -- `json::parse(body).at(key).get<std::string>()`.
  unfoldable pub parsed_string : Bytes → Bytes → Bytes ⊎ Bytes
  parsed_string key body = elim (library.parse body) [
    | inl what ↦ inl what
    | inr v ↦ at_string key v
  ]
