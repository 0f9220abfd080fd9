-- ===== src/Domain/Authority/Laws.antt =====
-- What the permission model grants: levels include one another, and the access lists decide them.
use cpp_mirror_leech_bot.Prelude.{
  ◌≡◌, refl, ◌↔◌, ◌⊎◌, inl, inr, true, List, [], ◌∷◌, map, arith, Bytes, to_lower,
}
use cpp_mirror_leech_bot.Prelude.Integers.{ℤ, eq_ℤ_iff}
use cpp_mirror_leech_bot.Domain.Identifiers.{UserId, ChatId}
use cpp_mirror_leech_bot.Domain.Authority.{
  Permission, anyone, user, admin, owner, to_string, from_lower, from_string, Authority, contains,
  can_run,
}

-- An identifier stands in a list.
abbrev pub IsListed : ℤ → List ℤ → Type 0
IsListed id [] = ⊥
IsListed id (x ∷ xs) = (x ≡ id) ⊎ IsListed id xs

contains-IsListed : (xs : List ℤ) (id : ℤ) → contains xs id ≡ true → IsListed id xs
unfolding contains
contains-IsListed [] id h = cc
contains-IsListed (x ∷ xs) id h = ground (arith, (eq_ℤ_iff x id).0, contains-IsListed xs id)

IsListed-contains : (xs : List ℤ) (id : ℤ) → IsListed id xs → contains xs id ≡ true
unfolding contains
IsListed-contains [] id h = absurd h
IsListed-contains (x ∷ xs) id (inl e) = ground (arith, (eq_ℤ_iff x id).1 e)
IsListed-contains (x ∷ xs) id (inr m) = ground (arith, IsListed-contains xs id m)

-- Who may run a command that asks for a level: everybody, a member of a listed chat, a sudo user,
-- or the owner, each level with all the rights of those below it.
abbrev pub Allowed : Authority → UserId → ChatId → Permission → Type 0
Allowed a user_id chat anyone = Unit {0}
Allowed a user_id chat user =
    (user_id ≡ a.owner_id) ⊎ (IsListed user_id a.sudo_users ⊎ IsListed chat a.authorized_chats)
Allowed a user_id chat admin = (user_id ≡ a.owner_id) ⊎ IsListed user_id a.sudo_users
Allowed a user_id chat owner = user_id ≡ a.owner_id

can_run-Allowed :
    (a : Authority) (user_id : UserId) (chat : ChatId) (required : Permission)
    → can_run a user_id chat required ≡ true
    → Allowed a user_id chat required
unfolding can_run
can_run-Allowed a user_id chat anyone h = tt
can_run-Allowed a user_id chat _ h = ground (
  arith,
  (eq_ℤ_iff user_id a.owner_id).0,
  contains-IsListed a.sudo_users user_id,
  contains-IsListed a.authorized_chats chat,
)

Allowed-can_run :
    (a : Authority) (user_id : UserId) (chat : ChatId) (required : Permission)
    → Allowed a user_id chat required
    → can_run a user_id chat required ≡ true
unfolding can_run
Allowed-can_run a user_id chat anyone h = ground arith
Allowed-can_run a user_id chat _ h = ground (
  arith,
  (eq_ℤ_iff user_id a.owner_id).1,
  IsListed-contains a.sudo_users user_id,
  IsListed-contains a.authorized_chats chat,
)

-- A command runs exactly for those that its level allows: the owner runs all, a sudo user what asks
-- for admin or less, and a member of an authorized chat what asks for user or less.
pub can_run_iff :
    (a : Authority) (user_id : UserId) (chat : ChatId) (required : Permission)
    → (can_run a user_id chat required ≡ true) ↔ Allowed a user_id chat required
can_run_iff a user_id chat required =
    (can_run-Allowed a user_id chat required, Allowed-can_run a user_id chat required)

-- A printed permission is read back, in any mix of upper and lower case.
pub from_string-to_string :
    (p : Permission) (input : Bytes) → map to_lower input ≡ to_string p → from_string input ≡ p
unfolding from_string to_string
from_string-to_string p input h = rw h (by_case p)
  where
    by_case : (q : Permission) → from_lower (to_string q) ≡ q
    by_case anyone = refl
    by_case user = refl
    by_case admin = refl
    by_case owner = refl
