-- ===== src/Examples/Time.antt =====
-- The codec of times, over a calendar of twelve months of 31 days.
use cpp_mirror_leech_bot.Prelude.{
  ℕ, ◌+◌, ◌-◌, ◌*◌, ◌/◌, ◌%◌, ◌<◌, ◌≡◌, refl, true, ltb, [], arith, if◌then◌else◌,
}
use cpp_mirror_leech_bot.Prelude.Integers.{ℤ, pos, negsuc}
use cpp_mirror_leech_bot.Core.Error.{ok}
use cpp_mirror_leech_bot.Application.Ports.{whole_ms}
use cpp_mirror_leech_bot.Persistence.TimeCodec.Iso8601.{
  Chrono, IsDatedDay, day_of, since_midnight, fields, to_iso8601, parse_iso8601,
}
use cpp_mirror_leech_bot.Persistence.TimeCodec.RoundTrip.{parse-to_iso8601}

-- The days since the first of January of the year 0.
abbrev index : ℤ → ℕ
index (pos n) = n + 719528
index (negsuc n) = 719527 - n

abbrev plain_days : ℕ → ℕ → ℕ → ℤ
plain_days y m d =
    let i = y * 372 + (m - 1) * 31 + (d - 1) in
    if ltb i 719528 then negsuc (719527 - i) else pos (i - 719528)

plain_days-index :
    (d : ℤ)
    → IsDatedDay d
    → plain_days (index d / 372) (index d % 372 / 31 + 1) (index d % 31 + 1) ≡ d
plain_days-index (pos n) h = ground arith
plain_days-index (negsuc n) h = ground arith

plain_range :
    (d : ℤ)
    → IsDatedDay d
    → (index d / 372 < 10000) × (index d % 372 / 31 + 1 < 13) × (index d % 31 + 1 < 32)
plain_range (pos n) h = ground arith
plain_range (negsuc n) h = ground arith

abbrev plain_calendar : Chrono
plain_calendar = record {
  year = λ d. index d / 372;
  month = λ d. index d % 372 / 31 + 1;
  day = λ d. index d % 31 + 1;
  is_ok = λ y m d. true;
  sys_days = plain_days;
  format = λ t.
      let i = index (day_of t) in
      fields (i / 372) (i % 372 / 31 + 1) (i % 31 + 1) (since_midnight t) [];
  range = plain_range;
  dates = λ d h. refl;
  days = plain_days-index;
  format-fields = λ t h. refl;
}

parse-to_iso8601_example :
    parse_iso8601 plain_calendar (to_iso8601 plain_calendar (negsuc 1499))
    ≡ ok (whole_ms (negsuc 1499))
parse-to_iso8601_example = parse-to_iso8601 plain_calendar (negsuc 1499) (omega arith)
