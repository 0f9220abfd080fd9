-- ===== src/Application/Registry.antt =====
-- include/cmlb/application/active_task_registry.hpp: the flags by which `/cancel` reaches a running
-- task. A `shared_ptr<atomic<bool>>` is the address of a flag in `flags`, so a flag that a guard
-- holds lives on after its entry of the map is erased. The mutex makes each operation one step, but
-- that `cancel` stores into the flag that it found after it releases the mutex, which is here one
-- step too: no operation reads a flag but the coroutine that holds it.
pub mod Invariant
pub mod Delivery
use cpp_mirror_leech_bot.Prelude.{
  ℕ, zero, suc, Bool, true, false, Option, none, some, List, [], ◌∷◌, ◌++◌, if◌then◌else◌, length,
  Bytes, bytes_eq,
}
use cpp_mirror_leech_bot.Domain.Identifiers.{TaskId}

pub record Registry : Type 0 where
  pub map : List (TaskId × ℕ)
  pub flags : List Bool

abbrev pub empty : Registry
empty = record { map = []; flags = [] }

unfoldable pub slot : TaskId → List (TaskId × ℕ) → Option ℕ
slot id [] = none
slot id ((j, p) ∷ rest) = if bytes_eq j id then some p else slot id rest

unfoldable pub erase : TaskId → List (TaskId × ℕ) → List (TaskId × ℕ)
erase id [] = []
erase id ((j, p) ∷ rest) =
    let others = erase id rest in if bytes_eq j id then others else (j, p) ∷ others

-- `flag->load()`; an address is always that of a flag.
unfoldable pub load : ℕ → List Bool → Bool
load p [] = false
load zero (b ∷ flags) = b
load (suc p) (b ∷ flags) = load p flags

-- `flag->store(true)`.
unfoldable pub raise : ℕ → List Bool → List Bool
raise p [] = []
raise zero (b ∷ flags) = true ∷ flags
raise (suc p) (b ∷ flags) = b ∷ raise p flags

-- A new entry with a new flag, or the flag that the entry has.
unfoldable pub register_task : TaskId → Registry → ℕ × Registry
register_task id r = elim (slot id r.map) [
  | none ↦
      (length r.flags, record { map = (id, length r.flags) ∷ r.map; flags = r.flags ++ false ∷ [] })
  | some p ↦ (p, r)
]

unfoldable pub unregister : TaskId → Registry → Registry
unregister id r = record r { map = erase id r.map }

unfoldable pub cancel : TaskId → Registry → Bool × Registry
cancel id r = elim (slot id r.map) [
  | none ↦ (false, r)
  | some p ↦ (true, record r { flags = raise p r.flags })
]

-- `ActiveTaskGuard`: it registers when it is made, and unregisters its task when it is destroyed.
pub record Guard : Type 0 where
  pub id : TaskId
  pub flag : ℕ

unfoldable pub make_guard : TaskId → Registry → Guard × Registry
unfolding register_task
make_guard id r = let (p, r') = register_task id r in (record { id = id; flag = p }, r')

unfoldable pub destroy_guard : Guard → Registry → Registry
unfolding unregister
destroy_guard g r = unregister g.id r

unfoldable pub cancelled : Guard → Registry → Bool
cancelled g r = load g.flag r.flags
