-- ===== src/Prelude/Order.antt =====
-- `operator<` on two strings, which compares them byte by byte, and on signed numbers.

use mathlib.Core.Path.{◌≡◌, refl}
use mathlib.Core.Bool.{Bool, true, false, ◌&&◌, ◌||◌}
use mathlib.Core.List.{[], ◌∷◌}
use native.Mathlib.Omega.{arith}
use cpp_mirror_leech_bot.Prelude.Tests.{◌==◌, ltb}
use cpp_mirror_leech_bot.Prelude.Text.{Bytes}
use cpp_mirror_leech_bot.Prelude.Integers.{ℤ, pos, negsuc}

-- `a < b` on two strings.
unfoldable pub bytes_lt : Bytes → Bytes → Bool
bytes_lt _ [] = false
bytes_lt [] (y ∷ ys) = true
bytes_lt (x ∷ xs) (y ∷ ys) = ltb x y || (x == y && bytes_lt xs ys)

pub bytes_lt_irreflexive : (a : Bytes) → bytes_lt a a ≡ false
unfolding bytes_lt
bytes_lt_irreflexive [] = refl
bytes_lt_irreflexive (x ∷ xs) = ground (arith, bytes_lt_irreflexive xs)

-- What is not above `b` and what is not above `a` go together as the order of the bytes does: where `a`
-- does not exceed `b`, and `b` is below `c`, `a` is below `c`.
pub bytes_lt_trans :
    (a b c : Bytes) → bytes_lt b a ≡ false → bytes_lt b c ≡ true → bytes_lt a c ≡ true
unfolding bytes_lt
bytes_lt_trans a b [] h k = ground arith
bytes_lt_trans [] b (z ∷ zs) h k = refl
bytes_lt_trans (x ∷ xs) [] (z ∷ zs) h k = ground arith
bytes_lt_trans (x ∷ xs) (y ∷ ys) (z ∷ zs) h k = ground (arith, bytes_lt_trans xs ys zs)

pub bytes_lt_asymmetric : (a b : Bytes) → bytes_lt a b ≡ true → bytes_lt b a ≡ false
unfolding bytes_lt
bytes_lt_asymmetric [] [] h = refl
bytes_lt_asymmetric [] (y ∷ ys) h = refl
bytes_lt_asymmetric (x ∷ xs) [] h = ground arith
bytes_lt_asymmetric (x ∷ xs) (y ∷ ys) h = ground (arith, bytes_lt_asymmetric xs ys)

-- Not exceeding is transitive.
pub bytes_le_trans :
    (a b c : Bytes) → bytes_lt b a ≡ false → bytes_lt c b ≡ false → bytes_lt c a ≡ false
unfolding bytes_lt
bytes_le_trans [] b c h k = refl
bytes_le_trans (x ∷ xs) [] c h k = ground arith
bytes_le_trans (x ∷ xs) (y ∷ ys) [] h k = ground arith
bytes_le_trans (x ∷ xs) (y ∷ ys) (z ∷ zs) h k = ground (arith, bytes_le_trans xs ys zs)

-- `a < b` on two signed numbers.
abbrev pub lt_ℤ : ℤ → ℤ → Bool
lt_ℤ (pos m) (pos n) = ltb m n
lt_ℤ (negsuc m) (negsuc n) = ltb n m
lt_ℤ (pos m) (negsuc n) = false
lt_ℤ (negsuc m) (pos n) = true
