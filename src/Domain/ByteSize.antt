-- ===== src/Domain/ByteSize.antt =====
-- include/cmlb/domain/byte_size.hpp: byte counts with saturating arithmetic. A `ByteSize` is the
-- number that it holds; `make` refuses the negative ones. `*` is at a factor of a type that
-- `int64_t` holds, since the code casts the factor to `int64_t`.
use cpp_mirror_leech_bot.Prelude.{
  ℕ, zero, suc, ◌+◌, ◌-◌, ◌*◌, ◌/◌, ◌^◌, ◌≤◌, ◌≡◌, ◌||◌, arith, ltb, ◌==◌, if◌then◌else◌, bytes,
}
use Prim.Native.Nat.{min}
use native.Mathlib.Nat.{div-lt_iff_lt-mul}
use cpp_mirror_leech_bot.Prelude.Integers.{ℤ, pos, negsuc, pos_part}
use cpp_mirror_leech_bot.Core.Error.{Result, ok, error, invalid_argument}

-- `std::numeric_limits<std::int64_t>::max()`.
abbrev pub k_max : ℕ
k_max = 2 ^ 63 - 1

pub record ByteSize : Type 0 where
  pub count : ℕ

unfoldable pub make : ℤ → Result ByteSize
make (pos n) = ok (record { count = n })
make (negsuc n) = error invalid_argument (bytes "ByteSize must be non-negative")

-- `operator+`.
unfoldable pub add : ByteSize → ByteSize → ByteSize
add a b =
    if ltb (k_max - a.count) b.count
    then record { count = k_max }
    else record { count = a.count + b.count }

-- `operator*`, by a scalar.
unfoldable pub scale : ByteSize → ℤ → ByteSize
scale a (negsuc f) = record { count = 0 }
scale a (pos f) =
    if f == 0 || a.count == 0
    then record { count = 0 }
    else if ltb (k_max / f) a.count
    then record { count = k_max }
    else record { count = a.count * f }

-- The sum of two sizes in range is their true sum, or the largest size where that is less.
pub add-eq-min :
    (a b : ByteSize)
    → a.count ≤ k_max
    → b.count ≤ k_max
    → (add a b).count ≡ min (a.count + b.count) k_max
unfolding add
add-eq-min a b h k = ground arith

-- The product of a size and a scalar is the true product, cut at zero and at the largest size.
pub scale-eq-min : (a : ByteSize) (f : ℤ) → (scale a f).count ≡ min (a.count * pos_part f) k_max
unfolding scale
scale-eq-min a (negsuc f) = omega arith
scale-eq-min a (pos zero) = ground arith
scale-eq-min a (pos (suc f)) = ground (
  arith,
  (div-lt_iff_lt-mul {k = suc f} {x = k_max} {y = a.count} (omega arith)).0,
  (div-lt_iff_lt-mul {k = suc f} {x = k_max} {y = a.count} (omega arith)).1,
)
