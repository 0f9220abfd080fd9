-- ===== src/Application/Registry/Delivery.antt =====
-- What a running task sees of a cancellation.
use cpp_mirror_leech_bot.Prelude.{
  ℕ, zero, suc, ◌<◌, ◌≡◌, ◌≢◌, refl, Bool, true, false, Option, none, some, List, [], ◌∷◌, ◌++◌,
  arith, length, All, bytes_eq_self, bytes_eq_iff,
}
use cpp_mirror_leech_bot.Domain.Identifiers.{TaskId}
use cpp_mirror_leech_bot.Application.Registry.{
  Registry, Guard, slot, load, raise, register_task, unregister, cancel, make_guard, cancelled,
}
use cpp_mirror_leech_bot.Application.Registry.Invariant.{
  Op, register, drop, signal, apply, perform, IsSound, apply-IsSound, perform-IsSound, map-cancel,
  slot-erase,
}

load-raise : (p : ℕ) (flags : List Bool) → p < length flags → load p (raise p flags) ≡ true
unfolding load raise
load-raise p [] h = absurd (omega arith)
load-raise zero (b ∷ flags) h = refl
load-raise (suc p) (b ∷ flags) h = load-raise p flags (omega arith)

load-raise_ne : (p q : ℕ) (flags : List Bool) → p ≢ q → load q (raise p flags) ≡ load q flags
unfolding load raise
load-raise_ne p q [] h = refl
load-raise_ne zero zero (b ∷ flags) h = absurd (h refl)
load-raise_ne zero (suc q) (b ∷ flags) h = refl
load-raise_ne (suc p) zero (b ∷ flags) h = refl
load-raise_ne (suc p) (suc q) (b ∷ flags) h = load-raise_ne p q flags (omega arith)

load-append :
    (q : ℕ) (flags : List Bool) → load q flags ≡ true → load q (flags ++ false ∷ []) ≡ true
unfolding load
load-append q [] h = cc
load-append zero (b ∷ flags) h = h
load-append (suc q) (b ∷ flags) h = load-append q flags h

load-append_new :
    (q : ℕ) (flags : List Bool) → load q flags ≡ false → load q (flags ++ false ∷ []) ≡ false
unfolding load
load-append_new zero [] h = refl
load-append_new (suc q) [] h = refl
load-append_new zero (b ∷ flags) h = h
load-append_new (suc q) (b ∷ flags) h = load-append_new q flags h

-- The entry of a guard's task still points to the guard's flag.
abbrev pub Holds : Guard → Registry → Type 0
Holds g r = slot g.id r.map ≡ some g.flag

-- No operation that leaves the guard's entry alone.
abbrev pub Spares : Guard → Op → Type 0
Spares g (drop id) = id ≢ g.id
Spares g _ = Unit {0}

apply-Holds : (g : Guard) (op : Op) (r : Registry) → Spares g op → Holds g r → Holds g (apply op r)
unfolding apply register_task unregister slot
apply-Holds g (register id) r h k = ground (arith, bytes_eq_iff id g.id)
apply-Holds g (drop id) r h k = ground (arith, slot-erase id g.id r.map, bytes_eq_iff id g.id)
apply-Holds g (signal id) r h k = rw map-cancel k

load-raise_up : (p q : ℕ) (flags : List Bool) → load q flags ≡ true → load q (raise p flags) ≡ true
unfolding load raise
load-raise_up p q [] h = cc
load-raise_up zero zero (b ∷ flags) h = refl
load-raise_up zero (suc q) (b ∷ flags) h = h
load-raise_up (suc p) zero (b ∷ flags) h = h
load-raise_up (suc p) (suc q) (b ∷ flags) h = load-raise_up p q flags h

-- A flag that is up stays up.
apply-cancelled :
    (g : Guard) (op : Op) (r : Registry) → cancelled g r ≡ true → cancelled g (apply op r) ≡ true
unfolding apply register_task unregister cancel cancelled
apply-cancelled g (register id) r h = ground (arith, load-append g.flag r.flags)
apply-cancelled g (drop id) r h = h
apply-cancelled g (signal id) r h = grind (arith, load-raise_up)

perform-cancelled :
    (g : Guard) (ops : List Op) (r : Registry)
    → cancelled g r ≡ true
    → cancelled g (perform ops r) ≡ true
unfolding perform
perform-cancelled g [] r h = h
perform-cancelled g (op ∷ rest) r h =
    perform-cancelled g rest (apply op r) (apply-cancelled g op r h)

perform-Holds :
    (g : Guard) (ops : List Op) (r : Registry)
    → All (Spares g) ops
    → Holds g r
    → Holds g (perform ops r)
unfolding perform
perform-Holds g [] r h k = k
perform-Holds g (op ∷ rest) r h k = perform-Holds g rest (apply op r) h.1 (apply-Holds g op r h.0 k)

cancel_raises :
    (g : Guard) (r : Registry)
    → IsSound r
    → Holds g r
    → ((cancel g.id r).0 ≡ true) × (cancelled g (cancel g.id r).1 ≡ true)
unfolding cancel cancelled
cancel_raises g r sound h = ground (arith, load-raise g.flag r.flags, sound.inside g.id g.flag h)

-- A guard that is made points to the flag of its task's entry.
pub make_guard-Holds : (id : TaskId) (r : Registry) → Holds (make_guard id r).0 (make_guard id r).1
unfolding make_guard register_task slot
make_guard-Holds id r = ground (arith, bytes_eq_self id)

-- A cancellation reaches the running task: from a sound registry that holds a guard's entry, after
-- any operations that do not drop its task, `cancel` reports that it found the task, and the guard is
-- cancelled from then on, whatever happens after.
pub cancel_delivered :
    (g : Guard) (r : Registry) (before after : List Op)
    → IsSound r
    → Holds g r
    → All (Spares g) before
    → ((cancel g.id (perform before r)).0 ≡ true)
      × (cancelled g (perform after (cancel g.id (perform before r)).1) ≡ true)
cancel_delivered g r before after sound h spares =
    let s = perform before r in
    let (found, up) =
      cancel_raises g s (perform-IsSound before r sound) (perform-Holds g before r spares h) in
    (found, perform-cancelled g after (cancel g.id s).1 up)

-- The operations of other tasks.
abbrev pub OfOthers : Guard → Op → Type 0
OfOthers g (drop id) = id ≢ g.id
OfOthers g (signal id) = id ≢ g.id
OfOthers g (register id) = Unit {0}

OfOthers-Spares : (g : Guard) (op : Op) → OfOthers g op → Spares g op
OfOthers-Spares g (register id) h = tt
OfOthers-Spares g (drop id) h = h
OfOthers-Spares g (signal id) h = tt

apply_others :
    (g : Guard) (op : Op) (r : Registry)
    → IsSound r
    → Holds g r
    → OfOthers g op
    → cancelled g r ≡ false
    → cancelled g (apply op r) ≡ false
unfolding apply register_task unregister cancelled
apply_others g (register id) r sound h o c = ground (arith, load-append_new g.flag r.flags)
apply_others g (drop id) r sound h o c = c
apply_others g (signal id) r sound h o c = signal_other (slot id r.map) refl
  where
    signal_other : (s : Option ℕ) → slot id r.map ≡ s → load g.flag (cancel id r).1.flags ≡ false
    signal_other none e = ground arith
    signal_other (some p) e =
        ground (arith, load-raise_ne p g.flag r.flags (λ q. o (sound.apart id g.id p e (rw q h))))

-- In a sound registry that holds a guard's entry, a guard that is not cancelled stays so under any
-- operations that neither drop nor cancel its task.
pub cancel_isolated :
    (g : Guard) (ops : List Op) (r : Registry)
    → IsSound r
    → Holds g r
    → All (OfOthers g) ops
    → cancelled g r ≡ false
    → cancelled g (perform ops r) ≡ false
unfolding perform
cancel_isolated g [] r sound h o c = c
cancel_isolated g (op ∷ rest) r sound h o c =
    cancel_isolated g rest (apply op r) (apply-IsSound op r sound)
      (apply-Holds g op r (OfOthers-Spares g op o.0) h) o.1 (apply_others g op r sound h o.0 c)
