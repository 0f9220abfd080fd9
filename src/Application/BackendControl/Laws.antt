-- ===== src/Application/BackendControl/Laws.antt =====
-- What `/pause` and `/resume` ask of the backends.
use cpp_mirror_leech_bot.Prelude.{
  ◌≡◌, ◌≢◌, ◌⊎◌, inl, inr, Bool, true, false, none, some, ◌∷◌, arith,
}
use cpp_mirror_leech_bot.Prelude.Integers.{eq_ℤ_iff}
use cpp_mirror_leech_bot.Core.Error.{Result, ok, err}
use cpp_mirror_leech_bot.Domain.Identifiers.{Gid}
use cpp_mirror_leech_bot.Domain.Task.{Task, DownloaderKind, no_downloader, is_terminal}
use cpp_mirror_leech_bot.Application.Ports.{TaskRepository}
use cpp_mirror_leech_bot.Application.World.{
  Environment, World, find_task, pause_download, resume_download, send_html, find, require, ignore,
  backend, send, ◌>>=◌,
}
use cpp_mirror_leech_bot.Application.BackendControl.{
  ControlRequest, paused_html, resumed_html, pause, resume,
}

-- The request is for a task of another chat, for one that has ended, or for one that no downloader
-- has.
abbrev pub IsRefused : ControlRequest → Task → Type 0
IsRefused request t =
    (t.metadata.chat ≢ request.chat)
    ⊎ ((is_terminal t ≡ true) ⊎ ((t.downloader_kind ≡ no_downloader) ⊎ (t.downloader_id ≡ none)))

abbrev pub is_err {ℓ} : {A : Type ℓ} → Result A → Bool
is_err (ok a) = false
is_err (err e) = true

module _ {repo : TaskRepository} (env : Environment) (request : ControlRequest) (w : World repo)
    (t : Task) where
  -- A pause that succeeds was for a live task of the chat, asked its own backend once and no other, and
  -- changed neither the repository nor a flag.
  pub pause_ok :
      (kind : DownloaderKind) (id : Gid)
      → (find env request.task_id w).0 ≡ ok (some t)
      → t.downloader_kind ≡ kind
      → t.downloader_id ≡ some id
      → (pause env request w).0 ≡ ok tt
      → (t.metadata.chat ≡ request.chat)
        × (is_terminal t ≡ false)
        × (kind ≢ no_downloader)
        × ((pause env request w).1.store ≡ w.store)
        × ((pause env request w).1.registry ≡ w.registry)
        × ((pause env request w).1.calls
            ≡ send_html request.chat (paused_html request.task_id)
              ∷ pause_download kind id
              ∷ find_task request.task_id
              ∷ w.calls)
  unfolding pause find backend ignore send require ◌>>=◌
  pause_ok kind id h k i p = ground (arith, eq_ℤ_iff t.metadata.chat request.chat)

  -- A pause of a task of another chat, of one that has ended, or of one without a downloader fails, and
  -- does nothing but look the task up.
  pub pause_refused :
      (find env request.task_id w).0 ≡ ok (some t)
      → IsRefused request t
      → (is_err (pause env request w).0 ≡ true)
        × ((pause env request w).1 ≡ (find env request.task_id w).1)
  unfolding pause require ◌>>=◌
  pause_refused h (inl other) = ground (arith, eq_ℤ_iff t.metadata.chat request.chat)
  pause_refused h (inr (inl ended)) = ground arith
  pause_refused h (inr (inr (inl unbound))) = ground arith
  pause_refused h (inr (inr (inr absent))) = ground arith

  -- A resume that succeeds was for a live task of the chat, asked its own backend once and no other, and
  -- changed neither the repository nor a flag.
  pub resume_ok :
      (kind : DownloaderKind) (id : Gid)
      → (find env request.task_id w).0 ≡ ok (some t)
      → t.downloader_kind ≡ kind
      → t.downloader_id ≡ some id
      → (resume env request w).0 ≡ ok tt
      → (t.metadata.chat ≡ request.chat)
        × (is_terminal t ≡ false)
        × (kind ≢ no_downloader)
        × ((resume env request w).1.store ≡ w.store)
        × ((resume env request w).1.registry ≡ w.registry)
        × ((resume env request w).1.calls
            ≡ send_html request.chat (resumed_html request.task_id)
              ∷ resume_download kind id
              ∷ find_task request.task_id
              ∷ w.calls)
  unfolding resume find backend ignore send require ◌>>=◌
  resume_ok kind id h k i p = ground (arith, eq_ℤ_iff t.metadata.chat request.chat)

  -- A resume of a task of another chat, of one that has ended, or of one without a downloader fails, and
  -- does nothing but look the task up.
  pub resume_refused :
      (find env request.task_id w).0 ≡ ok (some t)
      → IsRefused request t
      → (is_err (resume env request w).0 ≡ true)
        × ((resume env request w).1 ≡ (find env request.task_id w).1)
  unfolding resume require ◌>>=◌
  resume_refused h (inl other) = ground (arith, eq_ℤ_iff t.metadata.chat request.chat)
  resume_refused h (inr (inl ended)) = ground arith
  resume_refused h (inr (inr (inl unbound))) = ground arith
  resume_refused h (inr (inr (inr absent))) = ground arith
