-- ===== src/Application/Registry/Invariant.antt =====
-- Every entry of the registry has a flag of its own.
use cpp_mirror_leech_bot.Prelude.{
  ℕ, zero, suc, ◌<◌, ◌≡◌, refl, Bool, false, none, some, List, [], ◌∷◌, arith, if◌then◌else◌,
  length, length-append, bytes_eq, bytes_eq_iff,
}
use cpp_mirror_leech_bot.Domain.Identifiers.{TaskId}
use cpp_mirror_leech_bot.Application.Registry.{
  Registry, empty, slot, erase, raise, register_task, unregister, cancel,
}

-- The operations, as calls that other tasks make.
pub data Op : Type 0 where
  register drop signal : TaskId → Op

unfoldable pub apply : Op → Registry → Registry
unfolding register_task unregister cancel
apply (register id) r = (register_task id r).1
apply (drop id) r = unregister id r
apply (signal id) r = (cancel id r).1

-- Each entry points to a flag, and two entries of different tasks to different flags.
pub record IsSound (r : Registry) : Type 0 where
  pub inside : (id : TaskId) (p : ℕ) → slot id r.map ≡ some p → p < length r.flags
  pub apart : (id j : TaskId) (p : ℕ) → slot id r.map ≡ some p → slot j r.map ≡ some p → id ≡ j

pub slot-erase :
    (id j : TaskId) (map : List (TaskId × ℕ))
    → slot j (erase id map) ≡ (if bytes_eq id j then none else slot j map)
unfolding slot erase
slot-erase id j [] = ground arith
slot-erase id j ((i, p) ∷ map) =
    ground (arith, slot-erase id j map, bytes_eq_iff i id, bytes_eq_iff i j, bytes_eq_iff id j)

length-raise : (p : ℕ) (flags : List Bool) → length (raise p flags) ≡ length flags
unfolding raise
length-raise p [] = refl
length-raise zero (b ∷ flags) = refl
length-raise (suc p) (b ∷ flags) = omega (arith, length-raise p flags)

empty-IsSound : IsSound empty
unfolding slot
empty-IsSound = record { inside = λ id p h. cc; apart = λ id j p h k. cc }

register-IsSound : (id : TaskId) (r : Registry) → IsSound r → IsSound (register_task id r).1
unfolding register_task slot
register-IsSound id r h = record {
  inside = λ j p e. ground (arith, h.inside j p, length-append r.flags (false ∷ []));
  apart = λ i j p e f.
      ground
        (arith, h.apart i j p, h.inside i p, h.inside j p, bytes_eq_iff id i, bytes_eq_iff id j);
}

unregister-IsSound : (id : TaskId) (r : Registry) → IsSound r → IsSound (unregister id r)
unfolding unregister
unregister-IsSound id r h = record {
  inside = λ j p e. ground (arith, h.inside j p, slot-erase id j r.map);
  apart = λ i j p e f. ground (arith, h.apart i j p, slot-erase id i r.map, slot-erase id j r.map);
}

pub map-cancel : (id : TaskId) (r : Registry) → (cancel id r).1.map ≡ r.map
unfolding cancel
map-cancel id r = ground arith

length-flags-cancel : (id : TaskId) (r : Registry) → length (cancel id r).1.flags ≡ length r.flags
unfolding cancel
length-flags-cancel id r = grind (arith, length-raise)

cancel-IsSound : (id : TaskId) (r : Registry) → IsSound r → IsSound (cancel id r).1
cancel-IsSound id r h = record {
  inside = λ j p e. rw length-flags-cancel (h.inside j p (rw map-cancel at e));
  apart = λ i j p e f. h.apart i j p (rw map-cancel at e) (rw map-cancel at f);
}

-- Each operation keeps the flags apart.
pub apply-IsSound : (op : Op) (r : Registry) → IsSound r → IsSound (apply op r)
unfolding apply
apply-IsSound (register id) r h = register-IsSound id r h
apply-IsSound (drop id) r h = unregister-IsSound id r h
apply-IsSound (signal id) r h = cancel-IsSound id r h

-- A sequence of operations.
unfoldable pub perform : List Op → Registry → Registry
perform [] r = r
perform (op ∷ rest) r = perform rest (apply op r)

pub perform-IsSound : (ops : List Op) (r : Registry) → IsSound r → IsSound (perform ops r)
unfolding perform
perform-IsSound [] r h = h
perform-IsSound (op ∷ rest) r h = perform-IsSound rest (apply op r) (apply-IsSound op r h)

-- Whatever the tasks register, drop and cancel, every entry has a flag, and no two tasks share one.
pub reachable-IsSound : (ops : List Op) → IsSound (perform ops empty)
reachable-IsSound ops = perform-IsSound ops empty empty-IsSound
