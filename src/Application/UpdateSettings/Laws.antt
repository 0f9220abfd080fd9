-- ===== src/Application/UpdateSettings/Laws.antt =====
-- What an update of settings leaves behind.
use cpp_mirror_leech_bot.Prelude.{
  ◌≡◌, ◌≢◌, sym, ◌∙◌, refl, inl, inr, true, Option, none, some, Option-cases, arith,
}
use cpp_mirror_leech_bot.Core.Error.{ok, Result-cases}
use cpp_mirror_leech_bot.Domain.Identifiers.{UserId}
use cpp_mirror_leech_bot.Application.BackendControl.Laws.{is_err}
use cpp_mirror_leech_bot.Persistence.TimeCodec.{TimeCodec}
use cpp_mirror_leech_bot.Persistence.UserSettings.{UserSettingsRecord, SettingsTable, get, save}
use cpp_mirror_leech_bot.Persistence.UserSettings.Laws.{get-user, get-save_ne}
use cpp_mirror_leech_bot.Application.UpdateSettings.{
  SettingsCalls, UpdateUserSettingsRequest, loaded_or_new, update_user,
}

module _ (codec : TimeCodec) (calls : SettingsCalls) (user : UserId) (rows : SettingsTable) where
  loaded-user :
      (loaded : Option UserSettingsRecord)
      → get codec calls.load_fault user rows ≡ ok loaded
      → (loaded_or_new user calls.now loaded).user_id ≡ user
  loaded-user none read = refl
  loaded-user (some s) read = get-user codec calls.load_fault user rows s read

module _ (codec : TimeCodec) (calls : SettingsCalls) (user : UserId)
    (change : UserSettingsRecord → UserSettingsRecord) (rows : SettingsTable) where
  -- The request of the user, with the mutator.
  abbrev pub request : UpdateUserSettingsRequest
  request = record { user = user; mutate = some change }

  -- What the mutator makes of the record that was loaded, or of a new one.
  abbrev pub changed : Option UserSettingsRecord → UserSettingsRecord
  changed before = change (loaded_or_new user calls.now before)

  -- An update that fails, wherever it does, leaves every row as it was.
  pub update_user_refused :
      is_err (update_user codec calls request rows).1 ≡ true
      → (update_user codec calls request rows).0 ≡ rows
  unfolding update_user save
  update_user_refused failed = elim (Result-cases (get codec calls.load_fault user rows)) [
    | inr (e, bad) ↦ ground arith
    | inl (loaded, read) ↦ elim (Option-cases calls.save_fault) [
      | inl e ↦ ground arith
      | inr (e, f) ↦ ground arith
    ]
  ]

  -- Whether the update succeeds or fails, a mutator that leaves the user alone leaves the settings of
  -- every other user as they were.
  pub update_user-others :
      (other : UserId)
      → ((s : UserSettingsRecord) → (change s).user_id ≡ s.user_id)
      → user ≢ other
      → get codec none other (update_user codec calls request rows).0 ≡ get codec none other rows
  unfolding update_user
  update_user-others other tame ne = elim (Result-cases (get codec calls.load_fault user rows)) [
    | inr (e, bad) ↦ ground arith
    | inl (loaded, read) ↦
        let same : (changed loaded).user_id ≡ user =
          tame (loaded_or_new user calls.now loaded)
          ∙ loaded-user codec calls user rows loaded read in
        let others =
          get-save_ne codec calls.save_fault none calls.saved_at (changed loaded) other rows
            (λ e. ne (sym same ∙ e)) in
        ground (arith, others)
  ]
