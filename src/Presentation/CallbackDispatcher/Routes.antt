-- ===== src/Presentation/CallbackDispatcher/Routes.antt =====
-- The routes of a payload: what holds of each holds of the handler.
use cpp_mirror_leech_bot.Prelude.{
  ◌≡◌, refl, Bool, ◌&&◌, if_elim, List, Bytes, bytes, bytes_eq, is_empty,
}
use cpp_mirror_leech_bot.Prelude.Integers.{ℤ}
use cpp_mirror_leech_bot.Core.Error.{Result, ok}
use cpp_mirror_leech_bot.Domain.Identifiers.{ChatId, UserId, MessageId}
use cpp_mirror_leech_bot.Application.Ports.{TaskRepository}
use cpp_mirror_leech_bot.Application.World.{Environment}
use cpp_mirror_leech_bot.Application.CancelTask
use cpp_mirror_leech_bot.Application.BackendControl
use cpp_mirror_leech_bot.Application.UpdateSettings.{SettingsCalls}
use cpp_mirror_leech_bot.Persistence.TimeCodec.{TimeCodec}
use cpp_mirror_leech_bot.Persistence.UserSettings.{UserSettingsRecord}
use cpp_mirror_leech_bot.Presentation.CallbackDispatcher.{
  MessengerCall, Reply, Host, split_colon, close_message, change_settings, run_task,
  handle_settings, handle_task, handle,
}

module _ {repo : TaskRepository} (env : Environment) (codec : TimeCodec) (show : ℤ → Bytes)
    (messenger : List MessengerCall → Result (Unit {0})) (calls : SettingsCalls) (chat : ChatId)
    (sender : UserId) (message : MessageId) (h : Host repo) (Q : Reply × Host repo → Type 0)
    (quiet : (text : Bytes) (alert : Bool)
      → Q (record { outcome = ok tt; ack_text = text; ack_as_alert = alert }, h))
    (closed : Q (close_message env codec show messenger calls chat message h))
    (changed : (change : UserSettingsRecord → UserSettingsRecord) (text : Bytes)
      → ((s : UserSettingsRecord) → (change s).user_id ≡ s.user_id)
      → Q (change_settings env codec show messenger calls chat sender message change text h))
    (cancelled : (text id : Bytes)
      → Q (
          run_task env codec show messenger calls text
            (CancelTask.execute env (record { task_id = id; chat = chat }))
            h))
    (paused : (text id : Bytes)
      → Q (
          run_task env codec show messenger calls text
            (BackendControl.pause env (record { task_id = id; chat = chat }))
            h))
    (resumed : (text id : Bytes)
      → Q (
          run_task env codec show messenger calls text
            (BackendControl.resume env (record { task_id = id; chat = chat }))
            h)) where
  settings_cases :
      (rest : Bytes) → Q (handle_settings env codec show messenger calls chat sender message rest h)
  unfolding handle_settings
  settings_cases rest =
      let (section, action) = split_colon rest in
      if_elim Q (bytes_eq section (bytes "upload") && bytes_eq action (bytes "cycle")) _ _
        (changed _ _ (λ s. refl))
        (if_elim Q (bytes_eq section (bytes "doc") && bytes_eq action (bytes "toggle")) _ _
          (changed _ _ (λ s. refl)) (quiet _ _))

  task_cases : (rest : Bytes) → Q (handle_task env codec show messenger calls chat rest h)
  unfolding handle_task
  task_cases rest =
      let (verb, id) = split_colon rest in
      if_elim Q (is_empty id) _ _ (quiet _ _) (
        if_elim Q (bytes_eq verb (bytes "cancel")) _ _ (cancelled _ id) (
          if_elim Q (bytes_eq verb (bytes "pause")) _ _ (paused _ id)
            (if_elim Q (bytes_eq verb (bytes "resume")) _ _ (resumed _ id) (quiet _ _))))

  pub handle_cases :
      (text : Bytes) → Q (handle env codec show messenger calls chat sender message text h)
  unfolding handle
  handle_cases text =
      let (head, rest) = split_colon text in
      if_elim Q (bytes_eq head (bytes "close")) _ _ closed (
        if_elim Q (bytes_eq head (bytes "status") && bytes_eq rest (bytes "refresh")) _ _
          (quiet _ _)
          (if_elim Q (bytes_eq head (bytes "settings")) _ _ (settings_cases rest)
            (if_elim Q (bytes_eq head (bytes "task")) _ _ (task_cases rest) (quiet _ _))))
