-- ===== src/Domain/Authority.antt =====
-- include/cmlb/domain/authority.hpp, src/domain/authority.cpp: who may run what.
pub mod Laws
use cpp_mirror_leech_bot.Prelude.{
  ℕ, Bool, true, false, ◌||◌, List, [], ◌∷◌, map, leb, if◌then◌else◌, Bytes, bytes, bytes_eq,
  to_lower,
}
use cpp_mirror_leech_bot.Prelude.Integers.{ℤ, eq_ℤ}
use cpp_mirror_leech_bot.Domain.Identifiers.{UserId, ChatId}

pub data Permission : Type 0 where
  anyone user admin owner : Permission

-- `static_cast<int>(permission)`.
abbrev pub level : Permission → ℕ
level anyone = 0
level user = 1
level admin = 2
level owner = 3

unfoldable pub to_string : Permission → Bytes
unfolding bytes
to_string anyone = bytes "anyone"
to_string user = bytes "user"
to_string admin = bytes "admin"
to_string owner = bytes "owner"

-- The comparisons of `from_string`, on the lower-cased input.
unfoldable pub from_lower : Bytes → Permission
unfolding bytes bytes_eq
from_lower lower =
    if bytes_eq lower (bytes "owner")
    then owner
    else if bytes_eq lower (bytes "admin") || bytes_eq lower (bytes "sudo")
    then admin
    else if bytes_eq lower (bytes "user")
    then user
    else anyone

unfoldable pub from_string : Bytes → Permission
unfolding from_lower to_lower
from_string input = from_lower (map to_lower input)

pub record Authority : Type 0 where
  pub owner_id : UserId
  pub sudo_users : List UserId
  pub authorized_chats : List ChatId

-- `std::ranges::find(ids, id) != ids.end()`.
unfoldable pub contains : List ℤ → ℤ → Bool
contains [] id = false
contains (x ∷ xs) id = eq_ℤ x id || contains xs id

unfoldable pub of : Authority → UserId → ChatId → Permission
of a user_id chat =
    if eq_ℤ user_id a.owner_id
    then owner
    else if contains a.sudo_users user_id
    then admin
    else if contains a.authorized_chats chat
    then user
    else anyone

unfoldable pub can_run : Authority → UserId → ChatId → Permission → Bool
unfolding of
can_run a user_id chat required = leb (level required) (level (of a user_id chat))
