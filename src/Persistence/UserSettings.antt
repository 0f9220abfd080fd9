-- ===== src/Persistence/UserSettings.antt =====
-- include/cmlb/infrastructure/persistence/user_settings_repository.hpp and
-- src/infrastructure/persistence/sqlite_user_settings_repository.cpp: the preferences of a user, on the
-- rows of the table `user_settings`. `fault` is the error of the pool or of the statement, which leaves
-- the table as it was.
pub mod Laws
use cpp_mirror_leech_bot.Prelude.{
  ℕ, zero, suc, Bool, true, false, Option, none, some, List, [], ◌∷◌, ◌++◌, if◌then◌else◌, Bytes,
  bytes,
}
use cpp_mirror_leech_bot.Prelude.Integers.{ℤ, pos, eq_ℤ}
use cpp_mirror_leech_bot.Core.Error.{AppError, Result, ok, err, error, not_found, ◌>>=◌}
use cpp_mirror_leech_bot.Domain.Identifiers.{UserId}
use cpp_mirror_leech_bot.Domain.Task.{TimePoint}
use cpp_mirror_leech_bot.Domain.UploadDestination.{
  UploadDestination, telegram, google_drive, to_string, parse_upload_destination,
}
use cpp_mirror_leech_bot.Persistence.TimeCodec.{TimeCodec}

pub record UserSettingsRecord : Type 0 where
  pub user_id : UserId
  pub leech_destination : UploadDestination
  pub mirror_destination : UploadDestination
  pub default_thumb_path : Option Bytes
  pub rclone_remote : Option Bytes
  pub gdrive_folder_id : Option Bytes
  pub upload_as_document : Bool
  pub created_at : TimePoint
  pub updated_at : TimePoint

-- A record with the initial values of its fields.
abbrev pub default_settings : UserSettingsRecord
default_settings = record {
  user_id = pos 0;
  leech_destination = telegram;
  mirror_destination = google_drive;
  default_thumb_path = none;
  rclone_remote = none;
  gdrive_folder_id = none;
  upload_as_document = false;
  created_at = pos 0;
  updated_at = pos 0;
}

pub record SettingsRow : Type 0 where
  pub user_id : ℤ
  pub leech_destination : Bytes
  pub mirror_destination : Bytes
  pub default_thumb_path : Option Bytes
  pub rclone_remote : Option Bytes
  pub gdrive_folder_id : Option Bytes
  pub upload_as_document : ℕ
  pub created_at : Bytes
  pub updated_at : Bytes

abbrev pub SettingsTable : Type 0
SettingsTable = List SettingsRow

-- `WHERE user_id = ?`; `user_id` is the primary key.
unfoldable pub select_row : UserId → SettingsTable → Option SettingsRow
select_row user [] = none
select_row user (r ∷ rows) = if eq_ℤ r.user_id user then some r else select_row user rows

unfoldable pub delete_row : UserId → SettingsTable → SettingsTable
delete_row user [] = []
delete_row user (r ∷ rows) =
    let rest = delete_row user rows in if eq_ℤ r.user_id user then rest else r ∷ rest

module _ (codec : TimeCodec) where
  -- What `save` binds to the columns.
  unfoldable pub row_of : UserSettingsRecord → SettingsRow
  row_of s = record {
    user_id = s.user_id;
    leech_destination = to_string s.leech_destination;
    mirror_destination = to_string s.mirror_destination;
    default_thumb_path = s.default_thumb_path;
    rclone_remote = s.rclone_remote;
    gdrive_folder_id = s.gdrive_folder_id;
    upload_as_document = if s.upload_as_document then 1 else 0;
    created_at = codec.to_iso8601 s.created_at;
    updated_at = codec.to_iso8601 s.updated_at;
  }

  abbrev is_set : ℕ → Bool
  is_set zero = false
  is_set (suc n) = true

  -- The record that `get` makes of a row.
  unfoldable pub settings_of_row : SettingsRow → Result UserSettingsRecord
  settings_of_row r = do
    leech ← parse_upload_destination r.leech_destination
    mirror ← parse_upload_destination r.mirror_destination
    created ← codec.parse_iso8601 r.created_at
    updated ← codec.parse_iso8601 r.updated_at
    ok (record {
      user_id = r.user_id;
      leech_destination = leech;
      mirror_destination = mirror;
      default_thumb_path = r.default_thumb_path;
      rclone_remote = r.rclone_remote;
      gdrive_folder_id = r.gdrive_folder_id;
      upload_as_document = is_set r.upload_as_document;
      created_at = created;
      updated_at = updated;
    })

  -- What `get` makes of the row that the query gave, if any.
  unfoldable pub found : Option SettingsRow → Result (Option UserSettingsRecord)
  found none = ok none
  found (some r) = do s ← settings_of_row r; ok (some s)

  unfoldable pub get : Option AppError → UserId → SettingsTable → Result (Option UserSettingsRecord)
  get (some e) user rows = err e
  get none user rows = found (select_row user rows)

  -- The record that `save` stores at a time.
  abbrev pub stamped : TimePoint → UserSettingsRecord → UserSettingsRecord
  stamped now s = record s {
    created_at = if eq_ℤ s.created_at (pos 0) then now else s.created_at;
    updated_at = now;
  }

  unfoldable pub save :
      Option AppError
      → TimePoint
      → UserSettingsRecord
      → SettingsTable
      → SettingsTable × Result (Unit {0})
  save (some e) now s rows = (rows, err e)
  save none now s rows = (row_of (stamped now s) ∷ delete_row s.user_id rows, ok tt)

unfoldable pub remove :
    (ℤ → Bytes) → Option AppError → UserId → SettingsTable → SettingsTable × Result (Unit {0})
unfolding bytes
remove to_string (some e) user rows = (rows, err e)
remove to_string none user rows = elim (select_row user rows) [
  | none ↦
      (rows, error not_found (bytes "user_settings.remove: no row for user_id " ++ to_string user))
  | some r ↦ (delete_row user rows, ok tt)
]
