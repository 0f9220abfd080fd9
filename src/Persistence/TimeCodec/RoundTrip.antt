-- ===== src/Persistence/TimeCodec/RoundTrip.antt =====
-- The millisecond of a time point survives its text.
use cpp_mirror_leech_bot.Prelude.{
  ℕ, ◌/◌, ◌%◌, ◌<◌, ◌≡◌, refl, ap, some, [], ◌∷◌, ◌++◌, arith, Bytes,
}
use cpp_mirror_leech_bot.Prelude.Integers.{pos, negsuc, plus}
use cpp_mirror_leech_bot.Core.Error.{ok}
use cpp_mirror_leech_bot.Domain.Task.{TimePoint}
use cpp_mirror_leech_bot.Application.Ports.{IsDated, floor_ms, from_ms, whole_ms}
use cpp_mirror_leech_bot.Persistence.TimeCodec.{TimeCodec}
use cpp_mirror_leech_bot.Persistence.TimeCodec.Iso8601.{
  Chrono, Millis, IsDatedMs, IsDatedDay, day_of, since_midnight, two, three, four, fields, digits,
  take_int, fraction, milliseconds, read_fields, midnight, to_iso8601, of_fields, parse_iso8601,
}

-- Digits that were written are read.
read_two : (n : ℕ) → n < 100 → digits 0 (two n []) ≡ some n
unfolding digits
read_two n h = ground arith

read_four : (n : ℕ) → n < 10000 → digits 0 (four n []) ≡ some n
unfolding digits
read_four n h = ground arith

read_fraction : (n : ℕ) (rest : Bytes) → n < 1000 → fraction 3 0 (three n rest) ≡ n
unfolding fraction
read_fraction n rest h = ground arith

module _ (y m d r : ℕ) where
  abbrev text : Bytes
  text = fields y m d r (b'Z' ∷ [])

  read_fields-fields :
      y < 10000 → m < 13 → d < 32 → r < 86400000 → read_fields text ≡ some (y, m, d, r)
  unfolding read_fields take_int milliseconds
  read_fields-fields hy hm hd hr =
      rw
        (
          read_four y hy,
          read_two m (omega (arith, hm)),
          read_two d (omega (arith, hd)),
          read_two (r / 3600000) (omega (arith, hr)),
          read_two (r / 60000 % 60) (omega arith),
          read_two (r / 1000 % 60) (omega arith),
          read_fraction (r % 1000) (b'Z' ∷ []) (omega arith),
        )
        (ap (λ x. some (y, m, d, x)) (omega arith))

-- Midnight of the day and the time since then are the time point.
plus-midnight : (t : Millis) → plus (midnight (day_of t)) (since_midnight t) ≡ t
plus-midnight (pos n) = ground arith
plus-midnight (negsuc n) = ground arith

since_midnight_lt : (t : Millis) → since_midnight t < 86400000
since_midnight_lt (pos n) = omega arith
since_midnight_lt (negsuc n) = omega arith

day_of-IsDatedDay : (t : Millis) → IsDatedMs t → IsDatedDay (day_of t)
day_of-IsDatedDay (pos n) h = omega (arith, h)
day_of-IsDatedDay (negsuc n) h = omega (arith, h)

floor_ms-IsDatedMs : (t : TimePoint) → IsDated t → IsDatedMs (floor_ms t)
floor_ms-IsDatedMs (pos n) h = omega (arith, h)
floor_ms-IsDatedMs (negsuc n) h = omega (arith, h)

module _ (chrono : Chrono) where
  parse-format :
      (t : Millis)
      → IsDatedMs t
      → parse_iso8601 chrono (chrono.format t ++ b'Z' ∷ []) ≡ ok (from_ms t)
  unfolding parse_iso8601 of_fields
  parse-format t h =
      let dated = day_of-IsDatedDay t h in
      let (hy, hm, hd) = chrono.range (day_of t) dated in
      let fine = chrono.dates (day_of t) dated in
      let same = chrono.days (day_of t) dated in
      let read =
        read_fields-fields (chrono.year (day_of t)) (chrono.month (day_of t))
          (chrono.day (day_of t)) (since_midnight t) hy hm hd (since_midnight_lt t) in
      rw (chrono.format-fields t h, read, fine, same, plus-midnight t) refl

  -- A time point in the years 0 to 9999 is read back from its ISO 8601 text as the millisecond that it
  -- falls in: exactly, where it has nothing beyond milliseconds.
  pub parse-to_iso8601 :
      (t : TimePoint) → IsDated t → parse_iso8601 chrono (to_iso8601 chrono t) ≡ ok (whole_ms t)
  unfolding to_iso8601
  parse-to_iso8601 t h = parse-format (floor_ms t) (floor_ms-IsDatedMs t h)

  -- The codec of the repositories.
  pub time_codec : TimeCodec
  time_codec = record {
    to_iso8601 = to_iso8601 chrono;
    parse_iso8601 = parse_iso8601 chrono;
    parse-to = parse-to_iso8601;
  }
