-- ===== src/Application/UpdateSettings.antt =====
-- src/application/update_user_settings.cpp and src/application/update_bot_settings.cpp: settings are
-- loaded, changed and saved. A mutator may be empty, like the `std::function` of the source. The times
-- and the faults are those of the calls. Log lines are left out.
pub mod Laws
use cpp_mirror_leech_bot.Prelude.{Option, none, some, Bytes, bytes}
use cpp_mirror_leech_bot.Core.Error.{AppError, Result, ok, err, error, invalid_argument}
use cpp_mirror_leech_bot.Domain.Identifiers.{UserId}
use cpp_mirror_leech_bot.Domain.Task.{TimePoint}
use cpp_mirror_leech_bot.Persistence.TimeCodec.{TimeCodec}
use cpp_mirror_leech_bot.Persistence.UserSettings
use cpp_mirror_leech_bot.Persistence.UserSettings.{
  UserSettingsRecord, SettingsTable, default_settings,
}
use cpp_mirror_leech_bot.Persistence.BotSettings
use cpp_mirror_leech_bot.Persistence.BotSettings.{BotSettingsRecord, BotRow, Json}

-- What the calls of one update meet.
pub record SettingsCalls : Type 0 where
  pub load_fault : Option AppError
  pub save_fault : Option AppError
  pub now : TimePoint
  pub saved_at : TimePoint

pub record UpdateUserSettingsRequest : Type 0 where
  pub user : UserId
  pub mutate : Option (UserSettingsRecord → UserSettingsRecord)

-- The record before the mutator: as it was loaded, or a new one for the user.
abbrev pub loaded_or_new : UserId → TimePoint → Option UserSettingsRecord → UserSettingsRecord
loaded_or_new user now none = record default_settings {
  user_id = user;
  created_at = now;
  updated_at = now;
}
loaded_or_new user now (some s) = record s { updated_at = now }

module _ (codec : TimeCodec) where
  -- The save, and the record if it succeeds.
  abbrev pub store_user :
      SettingsCalls → UserSettingsRecord → SettingsTable → SettingsTable × Result UserSettingsRecord
  store_user calls s rows =
      let (rows', saved) = UserSettings.save codec calls.save_fault calls.saved_at s rows in
      (rows', elim saved [ ok done ↦ ok s | err e ↦ err e ])

  unfoldable pub update_user :
      SettingsCalls
      → UpdateUserSettingsRequest
      → SettingsTable
      → SettingsTable × Result UserSettingsRecord
  unfolding bytes
  update_user calls request rows = elim request.mutate [
    | none ↦ (rows, error invalid_argument (bytes "update_user_settings: null mutator"))
    | some change ↦ elim (UserSettings.get codec calls.load_fault request.user rows) [
      | err e ↦ (rows, err e)
      | ok loaded ↦ store_user calls (change (loaded_or_new request.user calls.now loaded)) rows
    ]
  ]

  module _ (json : Json) where
    abbrev store_bot :
        SettingsCalls → BotSettingsRecord → Option BotRow → Option BotRow × Result BotSettingsRecord
    store_bot calls s row =
        let (row', saved) = BotSettings.save codec json calls.save_fault calls.saved_at s row in
        (row', elim saved [ ok done ↦ ok s | err e ↦ err e ])

    unfoldable pub update_bot :
        SettingsCalls
        → Option (BotSettingsRecord → BotSettingsRecord)
        → Option BotRow
        → Option BotRow × Result BotSettingsRecord
    unfolding bytes
    update_bot calls none row =
        (row, error invalid_argument (bytes "update_bot_settings: null mutator"))
    update_bot calls (some change) row = elim (BotSettings.load codec json calls.load_fault row) [
      | err e ↦ (row, err e)
      | ok loaded ↦ store_bot calls (record (change loaded) { updated_at = calls.now }) row
    ]
