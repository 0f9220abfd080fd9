-- ===== src/Prelude/Sums.antt =====
-- The sum of a function over a list.
use cpp_mirror_leech_bot.Prelude.{
  ℕ, zero, suc, ◌+◌, ◌*◌, ◌≡◌, List, [], ◌∷◌, ◌++◌, arith, replicate,
}

abbrev pub total {ℓ} : {A : Type ℓ} → (A → ℕ) → List A → ℕ
total f [] = 0
total f (a ∷ rest) = f a + total f rest

module _ {ℓ} {A : Type ℓ} (f : A → ℕ) where
  pub total-append : (front back : List A) → total f (front ++ back) ≡ total f front + total f back
  total-append [] back = omega arith
  total-append (a ∷ front) back = omega (arith, total-append front back)

  pub total-replicate : (n : ℕ) (a : A) → total f (replicate n a) ≡ n * f a
  total-replicate zero a = omega arith
  total-replicate (suc n) a = grind (arith, total-replicate n a)

  -- One element apart.
  pub total_at :
      (front back : List A) (a : A)
      → total f (front ++ a ∷ back) ≡ f a + (total f front + total f back)
  total_at front back a = omega (arith, total-append front (a ∷ back))
