-- ===== src/Core/Duration.antt =====
-- `format_duration` and `format_eta` of src/core/formatting.cpp. `fmt`'s `{}` for an integer is the
-- parameter `show` of `render`; the fields that are printed, each a number with its unit, are exact.
use cpp_mirror_leech_bot.Prelude.{
  ℕ, ◌+◌, ◌*◌, ◌/◌, ◌%◌, ◌≤◌, ◌<◌, ◌≡◌, List, [], ◌∷◌, ◌++◌, arith, ltb, leb, if◌then◌else◌, Bytes,
  bytes,
}
use cpp_mirror_leech_bot.Prelude.Integers.{ℤ, pos_part, neg_part}

pub data TimeUnit : Type 0 where
  day hour minute second : TimeUnit

abbrev pub letter : TimeUnit → ℕ
letter day = b'd'
letter hour = b'h'
letter minute = b'm'
letter second = b's'

abbrev pub seconds_in : TimeUnit → ℕ
seconds_in day = 86400
seconds_in hour = 3600
seconds_in minute = 60
seconds_in second = 1

-- A number is below what makes one of the next larger unit.
abbrev pub Fits : TimeUnit → ℕ → Type 0
Fits day n = Unit {0}
Fits hour n = n < 24
Fits minute n = n < 60
Fits second n = n < 60

abbrev pub Field : Type 0
Field = ℕ × TimeUnit

-- The fields of `format_duration`, from the first that is not zero; a negative duration is negated.
unfoldable pub duration_fields : ℤ → List Field
duration_fields duration =
    let total = pos_part duration + neg_part duration in
    let days = total / 86400 in
    let of_day = total % 86400 in
    let hours = of_day / 3600 in
    let of_hour = of_day % 3600 in
    let minutes = of_hour / 60 in
    let seconds = of_hour % 60 in
    if ltb 0 days
    then (days, day) ∷ (hours, hour) ∷ (minutes, minute) ∷ (seconds, second) ∷ []
    else if ltb 0 hours
    then (hours, hour) ∷ (minutes, minute) ∷ (seconds, second) ∷ []
    else if ltb 0 minutes
    then (minutes, minute) ∷ (seconds, second) ∷ []
    else (seconds, second) ∷ []

-- The fields of `format_eta`: the two largest units, and none for a duration that is not positive.
unfoldable pub eta_fields : ℤ → List Field
eta_fields duration =
    let total = pos_part duration in
    let days = total / 86400 in
    let of_day = total % 86400 in
    let hours = of_day / 3600 in
    let of_hour = of_day % 3600 in
    let minutes = of_hour / 60 in
    if leb total 0
    then []
    else if ltb 0 days
    then (days, day) ∷ (hours, hour) ∷ []
    else if ltb 0 hours
    then (hours, hour) ∷ (minutes, minute) ∷ []
    else if ltb 0 minutes
    then (minutes, minute) ∷ (of_hour % 60, second) ∷ []
    else (of_hour, second) ∷ []

module _ (show : ℕ → Bytes) where
  -- `"{}d {}h …"`: the fields with one space between them.
  unfoldable pub render : List Field → Bytes
  render [] = []
  render ((n, u) ∷ []) = show n ++ letter u ∷ []
  render ((n, u) ∷ rest) = show n ++ letter u ∷ b' ' ∷ render rest

  unfoldable pub format_duration : ℤ → Bytes
  format_duration duration = render (duration_fields duration)

  unfoldable pub with_tilde : List Field → Bytes
  with_tilde [] = bytes "--"
  with_tilde fields = b'~' ∷ render fields

  unfoldable pub format_eta : ℤ → Bytes
  format_eta duration = with_tilde (eta_fields duration)

-- What the fields amount to, in seconds.
abbrev pub total_seconds : List Field → ℕ
total_seconds [] = 0
total_seconds ((n, u) ∷ rest) = n * seconds_in u + total_seconds rest

-- Every number Fits its unit.
abbrev pub AllFit : List Field → Type 0
AllFit [] = Unit {0}
AllFit ((n, u) ∷ rest) = Fits u n × AllFit rest

-- The fields of a duration amount to its absolute value, and no number reaches the next unit.
pub duration_fields_exact :
    (duration : ℤ)
    → (total_seconds (duration_fields duration) ≡ pos_part duration + neg_part duration)
      × AllFit (duration_fields duration)
unfolding duration_fields
duration_fields_exact duration = ground arith

-- The seconds that an estimate of this length leaves out are fewer than this.
abbrev pub eta_grain : ℕ → ℕ
eta_grain total = if leb 86400 total then 3600 else if leb 3600 total then 60 else 1

-- An estimate never promises more time than is left, and it leaves out less than an hour where it
-- shows days, less than a minute where it shows hours, and nothing otherwise.
pub eta_fields_bounds :
    (duration : ℤ)
    → (total_seconds (eta_fields duration) ≤ pos_part duration)
      × (pos_part duration < total_seconds (eta_fields duration) + eta_grain (pos_part duration))
      × AllFit (eta_fields duration)
unfolding eta_fields
eta_fields_bounds duration = ground arith
