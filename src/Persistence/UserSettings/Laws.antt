-- ===== src/Persistence/UserSettings/Laws.antt =====
-- What is read of the settings of a user after they were saved.
use cpp_mirror_leech_bot.Prelude.{
  ◌≡◌, ◌≢◌, refl, inl, inr, Bool-cases, Option, none, some, [], ◌∷◌, arith, map, to_lower, bytes,
}
use cpp_mirror_leech_bot.Prelude.Integers.{eq_ℤ, eq_ℤ_iff, eq_ℤ-self}
use cpp_mirror_leech_bot.Core.Error.{AppError, ok, Result-cases}
use cpp_mirror_leech_bot.Domain.Identifiers.{UserId}
use cpp_mirror_leech_bot.Domain.Task.{TimePoint}
use cpp_mirror_leech_bot.Domain.UploadDestination.{
  UploadDestination, telegram, google_drive, rclone, to_string, parse_upload_destination,
  parse_upload_destination-to_string,
}
use cpp_mirror_leech_bot.Application.Ports.{IsDated, whole_ms}
use cpp_mirror_leech_bot.Persistence.TimeCodec.{TimeCodec}
use cpp_mirror_leech_bot.Persistence.UserSettings.{
  UserSettingsRecord, SettingsRow, SettingsTable, select_row, delete_row, row_of, settings_of_row,
  found, get, stamped, save,
}

lower-to_string : (d : UploadDestination) → map to_lower (to_string d) ≡ to_string d
unfolding to_string bytes to_lower
lower-to_string telegram = refl
lower-to_string google_drive = refl
lower-to_string rclone = refl

read-to_string : (d : UploadDestination) → parse_upload_destination (to_string d) ≡ ok d
read-to_string d = parse_upload_destination-to_string d (to_string d) (lower-to_string d)

pub select-delete_row :
    (user other : UserId) (rows : SettingsTable)
    → user ≢ other
    → select_row other (delete_row user rows) ≡ select_row other rows
unfolding select_row delete_row
select-delete_row user other [] ne = refl
select-delete_row user other (r ∷ rows) ne =
    ground (
      arith,
      select-delete_row user other rows ne,
      eq_ℤ_iff r.user_id user,
      eq_ℤ_iff r.user_id other,
    )

-- What a row keeps of a record: of its times the milliseconds.
abbrev pub in_row : UserSettingsRecord → UserSettingsRecord
in_row s = record s { created_at = whole_ms s.created_at; updated_at = whole_ms s.updated_at }

module _ (codec : TimeCodec) where
  -- A record whose times can be written is read back from its row, its times in milliseconds.
  pub settings_of_row-row_of :
      (s : UserSettingsRecord)
      → IsDated s.created_at
      → IsDated s.updated_at
      → settings_of_row codec (row_of codec s) ≡ ok (in_row s)
  unfolding settings_of_row row_of
  settings_of_row-row_of s created updated = ground (
    arith,
    read-to_string s.leech_destination,
    read-to_string s.mirror_destination,
    codec.parse-to s.created_at created,
    codec.parse-to s.updated_at updated,
  )

  pub save_ok :
      (now : TimePoint) (s : UserSettingsRecord) (rows : SettingsTable)
      → (save codec none now s rows).1 ≡ ok tt
  unfolding save
  save_ok now s rows = refl

  select_first :
      (s : UserSettingsRecord) (rows : SettingsTable)
      → select_row s.user_id (row_of codec s ∷ rows) ≡ some (row_of codec s)
  unfolding select_row row_of
  select_first s rows = ground (arith, eq_ℤ-self s.user_id)

  -- What was saved is what `get` gives, stamped with the time of the save, both times in
  -- milliseconds.
  pub get-save_self :
      (now : TimePoint) (s : UserSettingsRecord) (rows : SettingsTable)
      → IsDated (stamped codec now s).created_at
      → IsDated now
      → get codec none s.user_id (save codec none now s rows).0
        ≡ ok (some (in_row (stamped codec now s)))
  unfolding get save found
  get-save_self now s rows created dated =
      rw (select_first (stamped codec now s) (delete_row s.user_id rows))
        (rw (found, settings_of_row-row_of (stamped codec now s) created dated) refl)

  -- The settings of another user are untouched.
  pub get-save_ne :
      (fault get_fault : Option AppError) (now : TimePoint) (s : UserSettingsRecord)
      (other : UserId) (rows : SettingsTable)
      → s.user_id ≢ other
      → get codec get_fault other (save codec fault now s rows).0 ≡ get codec get_fault other rows
  unfolding get save select_row row_of
  get-save_ne (some e) get_fault now s other rows ne = refl
  get-save_ne none (some e) now s other rows ne = refl
  get-save_ne none none now s other rows ne =
      ground (arith, select-delete_row s.user_id other rows ne, eq_ℤ_iff s.user_id other)

  settings_of_row-user :
      (r : SettingsRow) (s : UserSettingsRecord)
      → settings_of_row codec r ≡ ok s
      → s.user_id ≡ r.user_id
  unfolding settings_of_row
  settings_of_row-user r s h = ground arith

  -- What is read for a user is of that user.
  pub get-user :
      (fault : Option AppError) (user : UserId) (rows : SettingsTable) (s : UserSettingsRecord)
      → get codec fault user rows ≡ ok (some s)
      → s.user_id ≡ user
  unfolding get found select_row
  get-user (some e) user rows s h = ground arith
  get-user none user [] s h = ground arith
  get-user none user (r ∷ rows) s h = elim (Bool-cases (eq_ℤ r.user_id user)) [
    | inr other ↦ get-user none user rows s (ground arith)
    | inl own ↦ elim (Result-cases (settings_of_row codec r)) [
      | inr (e, bad) ↦ ground arith
      | inl (t, read) ↦
          let of_row = settings_of_row-user r t read in
          ground (arith, of_row, eq_ℤ_iff r.user_id user)
    ]
  ]
