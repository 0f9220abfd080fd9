-- ===== src/Persistence/TimeCodec/Iso8601.antt =====
-- src/infrastructure/persistence/time_codec.hpp: ISO 8601 texts with milliseconds. The calendar of `std::chrono` and the
-- formatter of `fmt` are the record Chrono, with what their documentation says of the years 0 to 9999.
use cpp_mirror_leech_bot.Prelude.{
  ℕ, zero, suc, ◌+◌, ◌-◌, ◌*◌, ◌/◌, ◌%◌, ◌^◌, ◌<◌, ◌≡◌, Bool, true, false, ◌&&◌, ltb, leb, ◌==◌,
  Option, none, some, [], ◌∷◌, ◌++◌, if◌then◌else◌, Bytes, bytes, length, take, drop,
}
use cpp_mirror_leech_bot.Prelude.Integers.{ℤ, pos, negsuc, plus}
use cpp_mirror_leech_bot.Core.Error.{Result, ok, error, deserialization}
use cpp_mirror_leech_bot.Domain.Task.{TimePoint}
use cpp_mirror_leech_bot.Application.Ports.{floor_ms, from_ms}

-- What `floor<milliseconds>` gives, counted from the epoch.
abbrev pub Millis : Type 0
Millis = ℤ

-- Milliseconds within the years 0 to 9999.
abbrev pub IsDatedMs : Millis → Type 0
IsDatedMs (pos n) = n < 253402300800000
IsDatedMs (negsuc n) = n < 62167219200000

-- The milliseconds of a day.
abbrev day_length : ℕ
day_length = 86400000

-- The day of a millisecond, counted from the epoch, and the milliseconds since its midnight.
abbrev pub day_of : Millis → ℤ
day_of (pos n) = pos (n / 86400000)
day_of (negsuc n) = negsuc (n / 86400000)

abbrev pub since_midnight : Millis → ℕ
since_midnight (pos n) = n % 86400000
since_midnight (negsuc n) = 86399999 - n % 86400000

-- Two, three and four digits.
abbrev pub two : ℕ → Bytes → Bytes
two n rest = (48 + n / 10) ∷ (48 + n % 10) ∷ rest

abbrev pub three : ℕ → Bytes → Bytes
three n rest = (48 + n / 100) ∷ two (n % 100) rest

abbrev pub four : ℕ → Bytes → Bytes
four n rest = (48 + n / 1000) ∷ three (n % 1000) rest

-- `%Y-%m-%dT%H:%M:%S` of a date and the milliseconds since midnight.
abbrev pub fields : ℕ → ℕ → ℕ → ℕ → Bytes → Bytes
fields y m d r rest = four y (
    b'-'
    ∷ two m (
        b'-'
        ∷ two d (
            b'T'
            ∷ two (r / 3600000) (
                b':'
                ∷ two (r / 60000 % 60)
                    (b':' ∷ two (r / 1000 % 60) (b'.' ∷ three (r % 1000) rest))))))

-- A day within the years 0 to 9999.
abbrev pub IsDatedDay : ℤ → Type 0
IsDatedDay (pos n) = n < 2932897
IsDatedDay (negsuc n) = n < 719528

-- The calendar: the fields of a day, whether three numbers are a date, and the day of a date. The
-- formatter: the text of a time point in milliseconds.
pub record Chrono : Type 0 where
  pub year : ℤ → ℕ
  pub month : ℤ → ℕ
  pub day : ℤ → ℕ
  pub is_ok : ℕ → ℕ → ℕ → Bool
  pub sys_days : ℕ → ℕ → ℕ → ℤ
  pub format : Millis → Bytes
  pub range : (d : ℤ) → IsDatedDay d → (year d < 10000) × (month d < 13) × (day d < 32)
  pub dates : (d : ℤ) → IsDatedDay d → is_ok (year d) (month d) (day d) ≡ true
  pub days : (d : ℤ) → IsDatedDay d → sys_days (year d) (month d) (day d) ≡ d
  pub format-fields :
      (t : Millis)
      → IsDatedMs t
      → format t
        ≡ fields (year (day_of t)) (month (day_of t)) (day (day_of t)) (since_midnight t) []

abbrev pub is_digit : ℕ → Bool
is_digit c = leb 48 c && leb c 57

-- The loop of `take_int`.
unfoldable pub digits : ℕ → Bytes → Option ℕ
digits v [] = some v
digits v (c ∷ s) = let rest = digits (v * 10 + (c - 48)) s in if is_digit c then rest else none

unfoldable pub take_int : Bytes → ℕ → ℕ → Option ℕ
take_int s offset count =
    if leb (offset + count) (length s) then digits 0 (take count (drop offset s)) else none

-- `s[i] == c`.
abbrev pub has_at : Bytes → ℕ → ℕ → Bool
has_at s i c = elim (drop i s) [ [] ↦ false | ◌∷◌ d rest ↦ d == c ]

-- The fraction of a second, of which three digits count.
unfoldable pub fraction : ℕ → ℕ → Bytes → ℕ
fraction zero frac s = frac
fraction (suc left) frac [] = frac * 10 ^ suc left
fraction (suc left) frac (c ∷ s) =
    let more = fraction left (frac * 10 + (c - 48)) s in
    if is_digit c then more else frac * 10 ^ suc left

unfoldable pub milliseconds : Bytes → ℕ
milliseconds [] = 0
milliseconds (c ∷ s) = if c == b'.' then fraction 3 0 s else 0

-- The value, where there is one and the test holds.
abbrev guarded : Bool → Option ℕ → Option ℕ
guarded test o = if test then o else none

infixl 5 ◌>>=◌
abbrev ◌>>=◌ {ℓ κ} : {A : Type ℓ} {B : Type κ} → Option A → (A → Option B) → Option B
none >>= k = none
some a >>= k = k a

-- The seven fields, where the text has them.
unfoldable pub read_fields : Bytes → Option (ℕ × ℕ × ℕ × ℕ)
read_fields s = do
  y ← take_int s 0 4
  m ← guarded (has_at s 4 b'-') (take_int s 5 2)
  d ← guarded (has_at s 7 b'-') (take_int s 8 2)
  hh ← guarded (has_at s 10 b'T') (take_int s 11 2)
  mm ← guarded (has_at s 13 b':') (take_int s 14 2)
  ss ← guarded (has_at s 16 b':') (take_int s 17 2)
  some (y, m, d, hh * 3600000 + mm * 60000 + ss * 1000 + milliseconds (drop 19 s))

-- Midnight of a day.
abbrev pub midnight : ℤ → Millis
midnight (pos n) = pos (n * 86400000)
midnight (negsuc n) = negsuc (n * 86400000 + 86399999)

module _ (chrono : Chrono) where
  unfoldable pub to_iso8601 : TimePoint → Bytes
  to_iso8601 t = chrono.format (floor_ms t) ++ b'Z' ∷ []

  -- The time point of the fields, where they are a date.
  unfoldable pub of_fields : Bytes → Option (ℕ × ℕ × ℕ × ℕ) → Result TimePoint
  unfolding bytes
  of_fields s none = error deserialization (bytes "Malformed ISO8601 timestamp: " ++ s)
  of_fields s (some (y, m, d, r)) =
      if chrono.is_ok y m d
      then ok (from_ms (plus (midnight (chrono.sys_days y m d)) r))
      else error deserialization (bytes "Out-of-range Y/M/D in timestamp: " ++ s)

  unfoldable pub parse_iso8601 : Bytes → Result TimePoint
  unfolding bytes
  parse_iso8601 s =
      if ltb (length s) 19
      then error deserialization (bytes "ISO8601 timestamp too short: " ++ s)
      else of_fields s (read_fields s)
