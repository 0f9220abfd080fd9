-- ===== src/Core/Action.antt =====
-- A coroutine that may fail: from a state to a result and the state after it.
use cpp_mirror_leech_bot.Prelude.{Bool, true, false, Bytes, ◌≡◌, refl, ap, arith}
use cpp_mirror_leech_bot.Core.Error.{ErrorCode, Result, ok, err, error, ok_injective}

abbrev pub Action : Type 0 → Type 0 → Type 0
Action S A = S → S × Result A

module _ {S : Type 0} where
  pub pure : {A : Type 0} → A → Action S A
  pure a s = (s, ok a)

  -- `co_return error(code, message)`.
  pub raise : {A : Type 0} → ErrorCode → Bytes → Action S A
  raise code message s = (s, error code message)

  pub lift : {A : Type 0} → Result A → Action S A
  lift r s = (s, r)

  abbrev continue : {A B : Type 0} → Result A → (A → Action S B) → Action S B
  continue (ok a) f s = f a s
  continue (err e) f s = (s, err e)

  infixl 10 ◌>>=◌ ◌>>◌
  -- The next step where the one before gave a value. Opening this opens `pure`, `raise`, `lift`.
  unfoldable pub ◌>>=◌ : {A B : Type 0} → Action S A → (A → Action S B) → Action S B
  unfolding pure raise lift
  ◌>>=◌ m f s = let (s', r) = m s in continue r f s'

  abbrev pub ◌>>◌ : {A B : Type 0} → Action S A → Action S B → Action S B
  m >> n = m >>= λ _. n

  -- `if (!test) co_return error(code, message);`
  unfoldable pub require : Bool → ErrorCode → Bytes → Action S (Unit {0})
  require true code message s = (s, ok tt)
  require false code message s = (s, error code message)

  -- The result of an action as a value, for a caller that goes on after an error.
  unfoldable pub attempt : {A : Type 0} → Action S A → Action S (Result A)
  attempt m s = let (s', r) = m s in (s', ok r)

  continue_run :
      {A B : Type 0} (p : S × Result A) (f : A → Action S B) (s' : S) (b : B)
      → continue p.1 f p.0 ≡ (s', ok b)
      → (a : A) × (after : S) × (p ≡ (after, ok a)) × (f a after ≡ (s', ok b))
  continue_run (after, ok a) f s' b h = (a, after, refl, h)
  continue_run {B = B} (after, err e) f s' b h =
      absurd (ground (arith, ap (λ (q : S × Result B). q.1) h))

  -- Two steps that succeed both do, one after the other.
  pub bind_run :
      {A B : Type 0} (m : Action S A) (f : A → Action S B) (s s' : S) (b : B)
      → (m >>= f) s ≡ (s', ok b)
      → (a : A) × (after : S) × (m s ≡ (after, ok a)) × (f a after ≡ (s', ok b))
  unfolding ◌>>=◌
  bind_run m f s s' b h = continue_run (m s) f s' b h

  pub pure_run : {A : Type 0} {a b : A} {s s' : S} → pure a s ≡ (s', ok b) → (s ≡ s') × (a ≡ b)
  unfolding pure
  pure_run {A = A} h =
      (ap (λ (q : S × Result A). q.0) h, ok_injective (ap (λ (q : S × Result A). q.1) h))

  pub raise_fails :
      {A : Type 0} {b : A} (code : ErrorCode) (message : Bytes) (s s' : S)
      → ¬ (raise code message s ≡ (s', ok b))
  unfolding raise
  raise_fails {A = A} code message s s' h = ground (arith, ap (λ (q : S × Result A). q.1) h)
