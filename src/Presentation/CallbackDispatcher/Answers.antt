-- ===== src/Presentation/CallbackDispatcher/Answers.antt =====
-- Every callback is answered, once.
use cpp_mirror_leech_bot.Prelude.{ℕ, suc, ◌≡◌, refl, Bool, true, List, [], ◌∷◌, arith, Bytes}
use cpp_mirror_leech_bot.Prelude.Integers.{ℤ}
use cpp_mirror_leech_bot.Core.Error.{Result}
use cpp_mirror_leech_bot.Domain.Identifiers.{ChatId, UserId, MessageId, CallbackQueryId}
use cpp_mirror_leech_bot.Application.Ports.{TaskRepository}
use cpp_mirror_leech_bot.Application.World.{Environment, Action}
use cpp_mirror_leech_bot.Application.BackendControl.Laws.{is_err}
use cpp_mirror_leech_bot.Application.UpdateSettings.{SettingsCalls}
use cpp_mirror_leech_bot.Persistence.TimeCodec.{TimeCodec}
use cpp_mirror_leech_bot.Persistence.UserSettings.{UserSettingsRecord}
use cpp_mirror_leech_bot.Presentation.CallbackDispatcher.Routes.{handle_cases}
use cpp_mirror_leech_bot.Presentation.CallbackDispatcher.{
  MessengerCall, answer_callback, Reply, Host, close_message, change_settings, run_task, handle,
  dispatch,
}

-- The answers among the calls.
abbrev pub answers : List MessengerCall → ℕ
answers [] = 0
answers (answer_callback query text alert ∷ rest) = suc (answers rest)
answers (_ ∷ rest) = answers rest

module _ {repo : TaskRepository} (env : Environment) (codec : TimeCodec) (show : ℤ → Bytes)
    (messenger : List MessengerCall → Result (Unit {0})) (calls : SettingsCalls) where
  -- A step that gives no answer, and alerts where it fails.
  abbrev IsUnanswered : Host repo → Reply × Host repo → Type 0
  IsUnanswered h p =
      (answers p.1.messages ≡ answers h.messages)
      × (is_err p.0.outcome ≡ true → p.0.ack_as_alert ≡ true)

  closed-IsUnanswered :
      (chat : ChatId) (message : MessageId) (h : Host repo)
      → IsUnanswered h (close_message env codec show messenger calls chat message h)
  unfolding close_message
  closed-IsUnanswered chat message h = ground arith

  changed-IsUnanswered :
      (chat : ChatId) (sender : UserId) (message : MessageId)
      (change : UserSettingsRecord → UserSettingsRecord) (text : Bytes) (h : Host repo)
      → IsUnanswered h
          (change_settings env codec show messenger calls chat sender message change text h)
  unfolding change_settings
  changed-IsUnanswered chat sender message change text h = ground arith

  ran-IsUnanswered :
      (text : Bytes) (action : Action repo (Unit {0})) (h : Host repo)
      → IsUnanswered h (run_task env codec show messenger calls text action h)
  unfolding run_task
  ran-IsUnanswered text action h = ground arith

  handle-IsUnanswered :
      (chat : ChatId) (sender : UserId) (message : MessageId) (text : Bytes) (h : Host repo)
      → IsUnanswered h (handle env codec show messenger calls chat sender message text h)
  handle-IsUnanswered chat sender message text h =
      handle_cases env codec show messenger calls chat sender message h (IsUnanswered h)
        (λ toast alert. (refl, λ e. ground arith)) (closed-IsUnanswered chat message h)
        (λ change toast tame. changed-IsUnanswered chat sender message change toast h)
        (λ toast id. ran-IsUnanswered toast _ h) (λ toast id. ran-IsUnanswered toast _ h)
        (λ toast id. ran-IsUnanswered toast _ h) text

  -- Whatever the payload, and whatever fails, the last call of the messenger is the answer to the query,
  -- no other call is an answer, and an outcome of the handler that is an error is shown as an alert.
  pub dispatch-answers :
      (chat : ChatId) (sender : UserId) (message : MessageId) (query : CallbackQueryId)
      (text : Bytes) (h : Host repo)
      → (toast : Bytes) × (alert : Bool) × (before : List MessengerCall) × ((dispatch env codec show
            messenger calls chat sender message query text h).1.messages
          ≡ answer_callback query toast alert ∷ before)
        × (answers before ≡ answers h.messages)
        × (is_err (handle env codec show messenger calls chat sender message text h).0.outcome
              ≡ true
            → alert ≡ true)
  unfolding dispatch
  dispatch-answers chat sender message query text h =
      let (reply, handled) = handle env codec show messenger calls chat sender message text h in
      let (count, alerts) = handle-IsUnanswered chat sender message text h in
      (reply.ack_text, reply.ack_as_alert, handled.messages, refl, count, alerts)
