-- ===== src/Application/CancelTask.antt =====
-- src/application/cancel_task.cpp: `/cancel` and `/cancelall`. Log lines are left out.
pub mod Outcomes
pub mod Scope
use cpp_mirror_leech_bot.Prelude.{
  ℕ, suc, ◌+◌, Bool, true, false, not, Option, none, some, List, [], ◌∷◌, ◌++◌, if◌then◌else◌,
  Bytes, bytes,
}
use cpp_mirror_leech_bot.Prelude.Integers.{eq_ℤ}
use cpp_mirror_leech_bot.Core.Error.{
  AppError, Result, ok, err, not_found, permission_denied, invalid_state,
}
use cpp_mirror_leech_bot.Domain.Identifiers.{ChatId, Gid, TaskId}
use cpp_mirror_leech_bot.Domain.Task.{
  DownloaderKind, no_downloader, aria2, qbittorrent, Task, is_terminal, mark_cancelled,
}
use cpp_mirror_leech_bot.Application.Ports.{TaskRepository}
use cpp_mirror_leech_bot.Application.World.{
  Environment, World, Action, remove_download, pure, raise, lift, ◌>>=◌, ◌>>◌, require, ignore,
  find, save, incomplete, backend, send, time, signal,
}

pub record CancelTaskRequest : Type 0 where
  pub task_id : TaskId
  pub chat : ChatId

-- `CancelAllResult`.
pub record CancelAllResult : Type 0 where
  pub cancelled : ℕ
  pub failed : ℕ

abbrev cancelling_html : TaskId → Bytes
cancelling_html id =
    bytes "<b><u>Cancelling</u></b>\n<b>Task:</b> <code>"
    ++ (id ++ bytes "</code>\n<blockquote>Graceful shutdown signal sent.</blockquote>")

abbrev cancelled_html : TaskId → Bytes
cancelled_html id =
    bytes "<b><u>Cancelled</u></b>\n<b>Task:</b> <code>"
    ++ (id ++ bytes "</code>\n<blockquote>Task stopped and marked cancelled.</blockquote>")

abbrev bulk_html : (ℕ → Bytes) → CancelAllResult → Bytes
bulk_html show r =
    bytes "<b><u>Bulk Cancel</u></b>\n<b>Cancelled:</b> <code>"
    ++ (show r.cancelled
        ++ (bytes "</code>\n<b>Failed:</b> <code>" ++ (show r.failed ++ bytes "</code>")))

-- `++result.cancelled` or `++result.failed`.
count_outcome : Result (Unit {0}) → CancelAllResult → CancelAllResult
count_outcome (ok done) r = record r { cancelled = r.cancelled + 1 }
count_outcome (err e) r = record r { failed = r.failed + 1 }

module _ {repo : TaskRepository} (env : Environment) where
  -- The task, or the error that there is none.
  or_not_found : Option Task → Action repo Task
  or_not_found none = raise not_found (bytes "cancel: task not found")
  or_not_found (some t) = pure t

  -- The removal at the backend that the task is bound to, if it is bound.
  unfoldable pub release : DownloaderKind → Option Gid → Action repo (Unit {0})
  release kind none = pure tt
  release no_downloader (some id) = pure tt
  release aria2 (some id) = ignore (backend env (remove_download aria2 id true))
  release qbittorrent (some id) = ignore (backend env (remove_download qbittorrent id true))

  -- Without a running coroutine the teardown is done here.
  unfoldable pub teardown : CancelTaskRequest → Task → Action repo (Unit {0})
  teardown request t = do
    release t.downloader_kind t.downloader_id
    now ← time env
    lift (mark_cancelled now t).1
    save env (mark_cancelled now t).0
    ignore (send env request.chat (cancelled_html request.task_id))

  unfoldable pub acknowledge : CancelTaskRequest → Action repo (Unit {0})
  acknowledge request = ignore (send env request.chat (cancelling_html request.task_id))

  unfoldable pub execute : CancelTaskRequest → Action repo (Unit {0})
  unfolding or_not_found
  execute request = do
    loaded ← find env request.task_id
    t ← or_not_found loaded
    require (eq_ℤ t.metadata.chat request.chat) permission_denied
        (bytes "cancel: task belongs to a different chat")
    require (not (is_terminal t)) invalid_state (bytes "cancel: task already in a terminal state")
    signalled ← signal request.task_id
    if signalled then acknowledge request else teardown request t

  -- One round of the loop: a task of another chat is passed over.
  unfoldable pub sweep_one :
      ChatId → Task → CancelAllResult × World repo → CancelAllResult × World repo
  unfolding count_outcome
  sweep_one chat t (r, w) =
      let (outcome, w') = execute (record { task_id = t.metadata.id; chat = chat }) w in
      if eq_ℤ t.metadata.chat chat then (count_outcome outcome r, w') else (r, w)

  unfoldable pub sweep :
      ChatId → List Task → CancelAllResult × World repo → CancelAllResult × World repo
  sweep chat [] s = s
  sweep chat (t ∷ rest) s = sweep chat rest (sweep_one chat t s)

  -- The loop as a step of the use case.
  sweep_all : ChatId → List Task → Action repo CancelAllResult
  sweep_all chat tasks w =
      let (r, w') = sweep chat tasks (record { cancelled = 0; failed = 0 }, w) in (ok r, w')

  unfoldable pub cancel_all : ChatId → Action repo CancelAllResult
  unfolding sweep_all
  cancel_all chat = do
    tasks ← incomplete env
    result ← sweep_all chat tasks
    ignore (send env chat (bulk_html env.show result))
    pure result
