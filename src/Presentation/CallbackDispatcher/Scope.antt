-- ===== src/Presentation/CallbackDispatcher/Scope.antt =====
-- A callback acts on its own chat and on its own sender's settings.
use cpp_mirror_leech_bot.Prelude.{◌≡◌, ◌≢◌, refl, none, List, arith, if_elim, Bytes, All}
use cpp_mirror_leech_bot.Prelude.Integers.{ℤ, pos, eq_ℤ}
use cpp_mirror_leech_bot.Core.Error.{Result, ok, err}
use cpp_mirror_leech_bot.Domain.Identifiers.{ChatId, UserId, MessageId, CallbackQueryId}
use cpp_mirror_leech_bot.Application.Ports.{TaskRepository}
use cpp_mirror_leech_bot.Application.World.{
  Environment, Action, World, find, ignore, backend, send, require, ◌>>=◌,
}
use cpp_mirror_leech_bot.Application.CancelTask.Scope.{AllInScope, execute-InScope}
use cpp_mirror_leech_bot.Application.BackendControl.{ControlRequest, pause, resume}
use cpp_mirror_leech_bot.Application.UpdateSettings.{SettingsCalls}
use cpp_mirror_leech_bot.Application.UpdateSettings.Laws.{update_user-others}
use cpp_mirror_leech_bot.Persistence.TimeCodec.{TimeCodec}
use cpp_mirror_leech_bot.Persistence.UserSettings.{UserSettingsRecord, get}
use cpp_mirror_leech_bot.Presentation.CallbackDispatcher.Routes.{handle_cases}
use cpp_mirror_leech_bot.Presentation.CallbackDispatcher.{
  MessengerCall, delete_message, edit_html_with_keyboard, answer_callback, Reply, Host,
  close_message, after_update, change_settings, run_task, dispatch,
}

-- A call of the messenger that touches only messages of the chat.
abbrev pub IsOfChat : ChatId → MessengerCall → Type 0
IsOfChat chat (delete_message c message) = c ≡ chat
IsOfChat chat (edit_html_with_keyboard c message html keyboard) = c ≡ chat
IsOfChat chat (answer_callback query text alert) = Unit {0}

module _ {repo : TaskRepository} (env : Environment) where
  pause-InScope :
      (request : ControlRequest) (w : World repo)
      → AllInScope env request.chat w
      → AllInScope env request.chat (pause env request w).1
  unfolding pause find backend ignore send require ◌>>=◌
  pause-InScope request w h = ground arith

  resume-InScope :
      (request : ControlRequest) (w : World repo)
      → AllInScope env request.chat w
      → AllInScope env request.chat (resume env request w).1
  unfolding resume find backend ignore send require ◌>>=◌
  resume-InScope request w h = ground arith

module _ {repo : TaskRepository} (env : Environment) (codec : TimeCodec) (show : ℤ → Bytes)
    (messenger : List MessengerCall → Result (Unit {0})) (calls : SettingsCalls) (chat : ChatId)
    (sender : UserId) where
  -- The calls made so far are of the chat.
  abbrev pub IsHostInScope : Host repo → Type 0
  IsHostInScope h = AllInScope env chat h.world × All (IsOfChat chat) h.messages

  -- A step after which they still are, and that leaves the settings of the others alone.
  abbrev Stays : Host repo → Reply × Host repo → Type 0
  Stays h p =
      IsHostInScope p.1
      × ((other : UserId)
          → sender ≢ other
          → get codec none other p.1.settings ≡ get codec none other h.settings)

  closed-Stays :
      (message : MessageId) (h : Host repo)
      → IsHostInScope h
      → Stays h (close_message env codec show messenger calls chat message h)
  unfolding close_message
  closed-Stays message h k =
      if_elim (Stays h) (eq_ℤ message (pos 0)) _ _ (k, λ other ne. refl)
        ((k.0, (refl, k.1)), λ other ne. refl)

  updated-Stays :
      (message : MessageId) (text : Bytes) (saved : Result UserSettingsRecord) (h g : Host repo)
      → IsHostInScope g
      → ((other : UserId)
          → sender ≢ other
          → get codec none other g.settings ≡ get codec none other h.settings)
      → Stays h (after_update env codec show messenger calls chat message text saved g)
  updated-Stays message text (err e) h g k others = (k, others)
  updated-Stays message text (ok s) h g k others =
      if_elim (Stays h) (eq_ℤ message (pos 0)) _ _ (k, others) ((k.0, (refl, k.1)), others)

  changed-Stays :
      (message : MessageId) (change : UserSettingsRecord → UserSettingsRecord) (text : Bytes)
      (h : Host repo)
      → ((s : UserSettingsRecord) → (change s).user_id ≡ s.user_id)
      → IsHostInScope h
      → Stays h (change_settings env codec show messenger calls chat sender message change text h)
  unfolding change_settings
  changed-Stays message change text h tame k =
      updated-Stays message text _ h _ k
        (λ other ne. update_user-others codec calls sender change h.settings other tame ne)

  ran-Stays :
      (text : Bytes) (action : Action repo (Unit {0})) (h : Host repo)
      → IsHostInScope h
      → AllInScope env chat (action h.world).1
      → Stays h (run_task env codec show messenger calls text action h)
  unfolding run_task
  ran-Stays text action h k w = ((w, k.1), λ other ne. refl)

  -- A callback of a chat saves no task of another chat and shows, edits and deletes nothing there, where no
  -- call so far did, and it changes the settings of no other user than its sender, whatever the payload
  -- and however the calls fail.
  pub dispatch-InScope :
      (message : MessageId) (query : CallbackQueryId) (text : Bytes) (h : Host repo)
      → IsHostInScope h
      → let h' = (dispatch env codec show messenger calls chat sender message query text h).1 in
        IsHostInScope h'
        × ((other : UserId)
            → sender ≢ other
            → get codec none other h'.settings ≡ get codec none other h.settings)
  unfolding dispatch
  dispatch-InScope message query text h k =
      let (scope, others) =
        handle_cases env codec show messenger calls chat sender message h (Stays h)
          (λ toast alert. (k, λ other ne. refl)) (closed-Stays message h k)
          (λ change toast tame. changed-Stays message change toast h tame k)
          (λ toast id. ran-Stays toast _ h k (execute-InScope env _ h.world k.0))
          (λ toast id. ran-Stays toast _ h k (pause-InScope env _ h.world k.0))
          (λ toast id. ran-Stays toast _ h k (resume-InScope env _ h.world k.0)) text in
      ((scope.0, (tt, scope.1)), others)
