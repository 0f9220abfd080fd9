-- ===== src/Examples/Callback.antt =====
-- A button that cancels the task of the chat, and an update of settings.
use cpp_mirror_leech_bot.Prelude.{◌≡◌, ◌≢◌, Bool, true, not, none, List, [], ◌∷◌, Bytes}
use cpp_mirror_leech_bot.Prelude.Integers.{ℤ, pos}
use cpp_mirror_leech_bot.Core.Error.{Result, ok}
use cpp_mirror_leech_bot.Domain.Identifiers.{UserId}
use cpp_mirror_leech_bot.Application.BackendControl.Laws.{is_err}
use cpp_mirror_leech_bot.Application.UpdateSettings.{SettingsCalls}
use cpp_mirror_leech_bot.Persistence.UserSettings.{UserSettingsRecord, get}
use cpp_mirror_leech_bot.Presentation.CallbackDispatcher.{
  MessengerCall, answer_callback, Host, handle, dispatch,
}
use cpp_mirror_leech_bot.Presentation.CallbackDispatcher.Answers.{answers, dispatch-answers}
use cpp_mirror_leech_bot.Presentation.CallbackDispatcher.Scope.{IsHostInScope, dispatch-InScope}
use cpp_mirror_leech_bot.Examples.Data.{plain_codec}
use cpp_mirror_leech_bot.Examples.Cancel.{calm, repo, parked}

abbrev toggled : UserSettingsRecord → UserSettingsRecord
toggled s = record s { upload_as_document = not s.upload_as_document }

abbrev quiet_calls : SettingsCalls
quiet_calls = record { load_fault = none; save_fault = none; now = pos 50; saved_at = pos 51 }

abbrev agreeing : List MessengerCall → Result (Unit {0})
agreeing calls = ok tt

abbrev blank : ℤ → Bytes
blank n = []

-- "task:cancel:t1".
abbrev payload : Bytes
payload =
    b't' ∷ b'a' ∷ b's' ∷ b'k' ∷ b':' ∷ b'c' ∷ b'a' ∷ b'n' ∷ b'c' ∷ b'e' ∷ b'l' ∷ b':' ∷ b't' ∷ b'1'
    ∷ []

abbrev host : Host repo
host = record { world = parked; settings = []; messages = [] }

dispatch-answers_example :
    (toast : Bytes) × (alert : Bool) × (before : List MessengerCall) × ((dispatch calm plain_codec
        blank agreeing quiet_calls
        (pos 100)
        (pos 7)
        (pos 3)
        (pos 9)
        payload
        host).1.messages
      ≡ answer_callback (pos 9) toast alert ∷ before)
    × (answers before ≡ 0)
    × (is_err
            (handle calm plain_codec blank agreeing quiet_calls
              (pos 100)
              (pos 7)
              (pos 3)
              payload
              host).0.outcome
          ≡ true
        → alert ≡ true)
dispatch-answers_example =
    dispatch-answers calm plain_codec blank agreeing quiet_calls (pos 100) (pos 7) (pos 3) (pos 9)
      payload host

dispatch-InScope_example :
    let h' =
      (dispatch calm plain_codec blank agreeing quiet_calls
        (pos 100)
        (pos 7)
        (pos 3)
        (pos 9)
        payload
        host).1 in
    IsHostInScope calm plain_codec blank agreeing quiet_calls (pos 100) (pos 7) h'
    × ((other : UserId)
        → pos 7 ≢ other
        → get plain_codec none other h'.settings ≡ get plain_codec none other [])
dispatch-InScope_example =
    dispatch-InScope calm plain_codec blank agreeing quiet_calls (pos 100) (pos 7) (pos 3) (pos 9)
      payload host (tt, tt)
