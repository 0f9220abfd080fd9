-- ===== src/Presentation/CallbackDispatcher.antt =====
-- src/presentation/callback_dispatcher.cpp: the buttons of the inline keyboards. A call of the messenger
-- is answered by an environment that sees all of its calls before. Log lines are left out.
pub mod Routes
pub mod Answers
pub mod Scope
use cpp_mirror_leech_bot.Prelude.{
  ℕ, Bool, true, false, not, ◌&&◌, ◌==◌, Option, some, List, [], ◌∷◌, ◌++◌, if◌then◌else◌, Bytes,
  bytes, bytes_eq, is_empty,
}
use cpp_mirror_leech_bot.Prelude.Integers.{ℤ, pos, eq_ℤ}
use cpp_mirror_leech_bot.Core.Error.{AppError, Result, ok, err, friendly_error_label}
use cpp_mirror_leech_bot.Domain.Identifiers.{ChatId, UserId, MessageId, CallbackQueryId, TaskId}
use cpp_mirror_leech_bot.Domain.UploadDestination.{
  UploadDestination, telegram, google_drive, rclone,
}
use cpp_mirror_leech_bot.Application.Ports.{TaskRepository}
use cpp_mirror_leech_bot.Application.World.{Environment, World, Action}
use cpp_mirror_leech_bot.Application.CancelTask
use cpp_mirror_leech_bot.Application.BackendControl
use cpp_mirror_leech_bot.Application.UpdateSettings.{SettingsCalls, update_user}
use cpp_mirror_leech_bot.Persistence.TimeCodec.{TimeCodec}
use cpp_mirror_leech_bot.Persistence.UserSettings.{UserSettingsRecord, SettingsTable}
use cpp_mirror_leech_bot.Presentation.HtmlRenderer.{render_user_settings}

-- The text before the first colon, and the text after it.
unfoldable pub split_colon : Bytes → Bytes × Bytes
split_colon [] = ([], [])
split_colon (c ∷ s) =
    let (head, tail) = split_colon s in if c == b':' then ([], s) else (c ∷ head, tail)

unfoldable pub next_destination : UploadDestination → UploadDestination
next_destination telegram = google_drive
next_destination google_drive = rclone
next_destination rclone = telegram

-- Rows of buttons, each with its label and its payload.
abbrev pub InlineKeyboard : Type 0
InlineKeyboard = List (List (Bytes × Bytes))

unfoldable pub settings_keyboard : InlineKeyboard
unfolding bytes
settings_keyboard =
    ((bytes "Cycle Upload Destination", bytes "settings:upload:cycle")
      ∷ (bytes "Toggle Document Mode", bytes "settings:doc:toggle")
      ∷ [])
    ∷ ((bytes "Close", bytes "close") ∷ [])
    ∷ []

-- The calls of the messenger.
pub data MessengerCall : Type 0 where
  delete_message : ChatId → MessageId → MessengerCall
  edit_html_with_keyboard : ChatId → MessageId → Bytes → InlineKeyboard → MessengerCall
  answer_callback : CallbackQueryId → Bytes → Bool → MessengerCall

-- The outcome of a payload, and the toast for the user.
pub record Reply : Type 0 where
  pub outcome : Result (Unit {0})
  pub ack_text : Bytes
  pub ack_as_alert : Bool

abbrev pub toast : Bytes → Reply
toast text = record { outcome = ok tt; ack_text = text; ack_as_alert = false }

abbrev pub failure : AppError → Reply
failure e = record { outcome = err e; ack_text = friendly_error_label e.code; ack_as_alert = true }

-- The toast where the step before succeeded, and the failure's label where it did not.
abbrev pub reply_to {ℓ} : {A : Type ℓ} → Bytes → Result A → Reply
reply_to text (ok a) = toast text
reply_to text (err e) = failure e

-- "Refreshing…", with the ellipsis in UTF-8.
abbrev refreshing : Bytes
refreshing = bytes "Refreshing" ++ 226 ∷ 128 ∷ 166 ∷ []

module _ (repo : TaskRepository) where
  -- The use cases' world, the settings, and the messenger's calls so far, latest first.
  pub record Host : Type 0 where
    pub world : World repo
    pub settings : SettingsTable
    pub messages : List MessengerCall

-- A failed answer counts only where nothing failed before.
abbrev first_failure : Result (Unit {0}) → Result (Unit {0}) → Result (Unit {0})
first_failure (err e) ack = err e
first_failure (ok done) ack = ack

module _ {repo : TaskRepository} (env : Environment) (codec : TimeCodec) (show : ℤ → Bytes)
    (messenger : List MessengerCall → Result (Unit {0})) (calls : SettingsCalls) where
  abbrev pub post : MessengerCall → Host repo → Result (Unit {0}) × Host repo
  post c h = (messenger (c ∷ h.messages), record h { messages = c ∷ h.messages })

  unfoldable pub close_message : ChatId → MessageId → Host repo → Reply × Host repo
  close_message chat message h =
      let (deleted, h') = post (delete_message chat message) h in
      if eq_ℤ message (pos 0) then (toast [], h) else (reply_to [] deleted, h')

  -- The record was saved: the host message is repainted, if there is one.
  abbrev pub repaint :
      ChatId → MessageId → Bytes → UserSettingsRecord → Host repo → Reply × Host repo
  repaint chat message text s h =
      let (edited, h') =
        post (edit_html_with_keyboard chat message (render_user_settings show s) settings_keyboard)
          h in
      if eq_ℤ message (pos 0) then (toast text, h) else (reply_to text edited, h')

  abbrev pub after_update :
      ChatId → MessageId → Bytes → Result UserSettingsRecord → Host repo → Reply × Host repo
  after_update chat message text (err e) h = (failure e, h)
  after_update chat message text (ok s) h = repaint chat message text s h

  unfoldable pub change_settings :
      ChatId
      → UserId
      → MessageId
      → (UserSettingsRecord → UserSettingsRecord)
      → Bytes
      → Host repo
      → Reply × Host repo
  change_settings chat sender message change text h =
      let (rows, saved) =
        update_user codec calls (record { user = sender; mutate = some change }) h.settings in
      after_update chat message text saved (record h { settings = rows })

  -- A use case on one task.
  unfoldable pub run_task : Bytes → Action repo (Unit {0}) → Host repo → Reply × Host repo
  run_task text action h =
      let (result, world') = action h.world in (reply_to text result, record h { world = world' })

  unfoldable pub handle_settings :
      ChatId → UserId → MessageId → Bytes → Host repo → Reply × Host repo
  unfolding bytes bytes_eq
  handle_settings chat sender message rest h =
      let (section, action) = split_colon rest in
      if bytes_eq section (bytes "upload") && bytes_eq action (bytes "cycle")
      then change_settings chat sender message
          (λ s. record s { mirror_destination = next_destination s.mirror_destination })
          (bytes "Upload destination updated") h
      else if bytes_eq section (bytes "doc") && bytes_eq action (bytes "toggle")
      then change_settings chat sender message
          (λ s. record s { upload_as_document = not s.upload_as_document })
          (bytes "Setting toggled") h
      else (toast (bytes "Unknown action"), h)

  unfoldable pub handle_task : ChatId → Bytes → Host repo → Reply × Host repo
  unfolding bytes bytes_eq
  handle_task chat rest h =
      let (verb, id) = split_colon rest in
      if is_empty id
      then (
        record { outcome = ok tt; ack_text = bytes "Invalid task action"; ack_as_alert = true },
        h,
      )
      else if bytes_eq verb (bytes "cancel")
      then run_task (bytes "Cancelling task")
          (CancelTask.execute env (record { task_id = id; chat = chat })) h
      else if bytes_eq verb (bytes "pause")
      then run_task (bytes "Task paused")
          (BackendControl.pause env (record { task_id = id; chat = chat })) h
      else if bytes_eq verb (bytes "resume")
      then run_task (bytes "Task resumed")
          (BackendControl.resume env (record { task_id = id; chat = chat })) h
      else (toast (bytes "Unknown action"), h)

  -- The routing of a payload, up to the answer.
  unfoldable pub handle : ChatId → UserId → MessageId → Bytes → Host repo → Reply × Host repo
  unfolding bytes bytes_eq
  handle chat sender message data_text h =
      let (head, rest) = split_colon data_text in
      if bytes_eq head (bytes "close")
      then close_message chat message h
      else if bytes_eq head (bytes "status") && bytes_eq rest (bytes "refresh")
      then (toast refreshing, h)
      else if bytes_eq head (bytes "settings")
      then handle_settings chat sender message rest h
      else if bytes_eq head (bytes "task")
      then handle_task chat rest h
      else (toast (bytes "Unknown action"), h)

  unfoldable pub dispatch :
      ChatId
      → UserId
      → MessageId
      → CallbackQueryId
      → Bytes
      → Host repo
      → Result (Unit {0}) × Host repo
  dispatch chat sender message query data_text h =
      let (reply, handled) = handle chat sender message data_text h in
      let (ack, answered) =
        post (answer_callback query reply.ack_text reply.ack_as_alert) handled in
      (first_failure reply.outcome ack, answered)
