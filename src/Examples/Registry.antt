-- ===== src/Examples/Registry.antt =====
-- Two running tasks and their flags.
use cpp_mirror_leech_bot.Prelude.{◌≡◌, refl, true, false, some, List, [], ◌∷◌, Bytes, bytes_eq}
use cpp_mirror_leech_bot.Application.Registry.{Guard, empty, slot, load, cancel, cancelled}
use cpp_mirror_leech_bot.Application.Registry.Invariant.{
  Op, register, drop, signal, apply, perform, IsSound, reachable-IsSound,
}
use cpp_mirror_leech_bot.Application.Registry.Delivery.{cancel_delivered, cancel_isolated}

abbrev one : Bytes
one = b'1' ∷ []

abbrev two : Bytes
two = b'1' ∷ b'2' ∷ []

abbrev two_tasks : List Op
two_tasks = register one ∷ register two ∷ []

-- The guard of the second task.
abbrev second : Guard
second = record { id = two; flag = 1 }

reachable-IsSound_example : IsSound (perform two_tasks empty)
reachable-IsSound_example = reachable-IsSound two_tasks

two_tasks-slot : slot two (perform two_tasks empty).map ≡ some 1
unfolding perform apply slot bytes_eq
two_tasks-slot = refl

cancel_delivered_example :
    ((cancel two (perform (drop one ∷ []) (perform two_tasks empty))).0 ≡ true)
    × (cancelled second (
          perform
            (drop two ∷ [])
            (cancel two (perform (drop one ∷ []) (perform two_tasks empty))).1)
        ≡ true)
cancel_delivered_example =
    cancel_delivered second (perform two_tasks empty) (drop one ∷ []) (drop two ∷ [])
      reachable-IsSound_example two_tasks-slot ((λ e. cc), tt)

two_tasks-cancelled : cancelled second (perform two_tasks empty) ≡ false
unfolding perform apply cancelled load slot bytes_eq
two_tasks-cancelled = refl

cancel_isolated_example :
    cancelled second (perform (signal one ∷ drop one ∷ []) (perform two_tasks empty)) ≡ false
cancel_isolated_example =
    cancel_isolated second (signal one ∷ drop one ∷ []) (perform two_tasks empty)
      reachable-IsSound_example two_tasks-slot (λ e. cc, (λ e. cc, tt)) two_tasks-cancelled
