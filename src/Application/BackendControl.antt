-- ===== src/Application/BackendControl.antt =====
-- src/application/pause_task.cpp and src/application/resume_task.cpp: `/pause` and `/resume`, which differ
-- only in the call of the backend and in their texts. Log lines are left out.
pub mod Laws
use cpp_mirror_leech_bot.Prelude.{
  Bool, true, false, not, ◌||◌, Option, none, some, ◌++◌, if◌then◌else◌, Bytes, bytes,
}
use cpp_mirror_leech_bot.Prelude.Integers.{eq_ℤ}
use cpp_mirror_leech_bot.Core.Error.{not_found, permission_denied, invalid_state}
use cpp_mirror_leech_bot.Domain.Identifiers.{ChatId, Gid, TaskId}
use cpp_mirror_leech_bot.Domain.Task.{
  DownloaderKind, no_downloader, aria2, qbittorrent, Task, is_terminal,
}
use cpp_mirror_leech_bot.Application.Ports.{TaskRepository}
use cpp_mirror_leech_bot.Application.World.{
  Environment, Action, Call, pause_download, resume_download, pure, raise, ◌>>=◌, ◌>>◌, require,
  ignore, find, backend, send,
}

-- `PauseTaskRequest` and `ResumeTaskRequest`.
pub record ControlRequest : Type 0 where
  pub task_id : TaskId
  pub chat : ChatId

abbrev pub paused_html : TaskId → Bytes
paused_html id =
    bytes "<b><u>Paused</u></b>\n<b>Task:</b> <code>"
    ++ (id ++ bytes "</code>\n<blockquote>Paused at the download backend.</blockquote>")

abbrev pub resumed_html : TaskId → Bytes
resumed_html id =
    bytes "<b><u>Resumed</u></b>\n<b>Task:</b> <code>"
    ++ (id ++ bytes "</code>\n<blockquote>Resumed at the download backend.</blockquote>")

module _ {repo : TaskRepository} (env : Environment) where
  -- The task, or the error that there is none.
  or_missing : Bytes → Option Task → Action repo Task
  or_missing message none = raise not_found message
  or_missing message (some t) = pure t

  -- The downloader that the task is bound to, or the error that it is not bound.
  bound_to : Bytes → DownloaderKind → Option Gid → Action repo (DownloaderKind × Gid)
  bound_to message no_downloader id = raise invalid_state message
  bound_to message kind none = raise invalid_state message
  bound_to message kind (some id) = pure (kind, id)

  unfoldable pub pause : ControlRequest → Action repo (Unit {0})
  unfolding or_missing bound_to
  pause request = do
    loaded ← find env request.task_id
    t ← or_missing (bytes "pause: task not found") loaded
    require (eq_ℤ t.metadata.chat request.chat) permission_denied
        (bytes "pause: task belongs to a different chat")
    require (not (is_terminal t)) invalid_state (bytes "pause: task already in a terminal state")
    (kind, id) ←
        bound_to (bytes "pause: task has no downloader binding (still queued?)") t.downloader_kind
          t.downloader_id
    backend env (pause_download kind id)
    ignore (send env request.chat (paused_html request.task_id))

  unfoldable pub resume : ControlRequest → Action repo (Unit {0})
  unfolding or_missing bound_to
  resume request = do
    loaded ← find env request.task_id
    t ← or_missing (bytes "resume: task not found") loaded
    require (eq_ℤ t.metadata.chat request.chat) permission_denied
        (bytes "resume: task belongs to a different chat")
    require (not (is_terminal t)) invalid_state (bytes "resume: task already in a terminal state")
    (kind, id) ←
        bound_to (bytes "resume: task has no downloader binding") t.downloader_kind t.downloader_id
    backend env (resume_download kind id)
    ignore (send env request.chat (resumed_html request.task_id))
