-- ===== src/Domain/Task/Machine.antt =====
-- The transitions of a task as one step function over its methods, and the diagram that it follows.
use cpp_mirror_leech_bot.Prelude.{◌≡◌, ◌⊎◌, ◌↔◌, inl, inr, refl, false, arith, Bytes}
use mathlib.Core.Path.{subst}
use cpp_mirror_leech_bot.Core.Error.{AppError, Result, ok, err, invalid_state}
use cpp_mirror_leech_bot.Domain.Identifiers.{Gid}
use cpp_mirror_leech_bot.Domain.Task.{
  TaskState, queued, downloading, processing, uploading, completed, failed, cancelled,
  DownloaderKind, TimePoint, Task, is_terminal_state, start_download, begin_processing,
  begin_upload, mark_completed, mark_failed, mark_cancelled, attach_downloader,
}

-- The methods that change a task. A caller that attaches a downloader names a real one.
pub data Method : Type 0 where
  start process upload complete cancel : Method
  fail : Bytes → Method
  attach : Gid → DownloaderKind → Method

unfoldable pub call : Method → TimePoint → Task → Task × Result (Unit {0})
unfolding start_download begin_processing begin_upload mark_completed mark_failed mark_cancelled
    attach_downloader
call start now t = start_download now t
call process now t = begin_processing now t
call upload now t = begin_upload now t
call complete now t = mark_completed now t
call cancel now t = mark_cancelled now t
call (fail reason) now t = mark_failed reason now t
call (attach id kind) now t = (attach_downloader id kind now t, ok tt)

-- The diagram of the lifecycle: which method leads from which state to which.
pub data Edge : Method → TaskState → TaskState → Type 0 where
  picked_up : Edge start queued downloading
  downloaded : Edge process downloading processing
  direct : Edge upload downloading uploading
  processed : Edge upload processing uploading
  delivered : Edge complete uploading completed
  broken :
      {s : TaskState} {reason : Bytes} → is_terminal_state s ≡ false → Edge (fail reason) s failed
  stopped : {s : TaskState} → is_terminal_state s ≡ false → Edge cancel s cancelled
  rebound : {s : TaskState} {id : Gid} {kind : DownloaderKind} → Edge (attach id kind) s s

ruleset edges = (picked_up, downloaded, direct, processed, delivered, broken, stopped, rebound)

call-Edge :
    (m : Method) (now : TimePoint) (t : Task)
    → (call m now t).1 ≡ ok tt
    → Edge m t.state (call m now t).0.state
unfolding call
call-Edge (attach id kind) now t h = rebound
call-Edge _ now t h = grind (arith, edges)

Edge-call :
    {m : Method} {r s : TaskState} (now : TimePoint) (t : Task)
    → Edge m r s
    → t.state ≡ r
    → ((call m now t).1 ≡ ok tt) × ((call m now t).0.state ≡ s)
unfolding call
Edge-call now t picked_up h = ground arith
Edge-call now t (broken live) h = ground arith
Edge-call now t (stopped live) h = ground arith
Edge-call now t _ h = ground arith

-- A method succeeds exactly along an edge of the diagram that starts in the task's state, and
-- leads where that edge leads.
pub call-iff-Edge :
    (m : Method) (now : TimePoint) (t : Task) (s : TaskState)
    → (((call m now t).1 ≡ ok tt) × ((call m now t).0.state ≡ s)) ↔ Edge m t.state s
call-iff-Edge m now t s =
    (λ h. subst (λ r. Edge m t.state r) h.1 (call-Edge m now t h.0), λ e. Edge-call now t e refl)

-- A call that is refused reports `InvalidState`, and leaves the whole task as it was.
pub call_refused :
    (m : Method) (now : TimePoint) (t : Task) {e : AppError}
    → (call m now t).1 ≡ err e
    → (e.code ≡ invalid_state) × ((call m now t).0 ≡ t)
unfolding call
call_refused m now t h = ground arith

-- After any call the task went along an edge, or is what it was.
pub call-cases :
    (m : Method) (now : TimePoint) (t : Task)
    → Edge m t.state (call m now t).0.state ⊎ ((call m now t).0 ≡ t)
call-cases m now t = split (call m now t).1 refl
  where
    split :
        (r : Result (Unit {0}))
        → (call m now t).1 ≡ r
        → Edge m t.state (call m now t).0.state ⊎ ((call m now t).0 ≡ t)
    split (ok tt) h = inl (call-Edge m now t h)
    split (err e) h = inr (call_refused m now t h).1
