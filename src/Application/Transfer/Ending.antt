-- ===== src/Application/Transfer/Ending.antt =====
-- How a transfer ends: what its result says of the task, of the uploads and of what was saved.
use cpp_mirror_leech_bot.Prelude.{
  ℕ, suc, ◌≡◌, ◌⊎◌, inl, refl, Bool, false, if◌then◌else◌, Option, none, some, List, [], ◌∷◌, arith,
  Bytes, bytes,
}
use mathlib.Core.Path.{subst}
use cpp_mirror_leech_bot.Core.Error.{AppError, Result, ok, err, cancelled_error, internal_error}
use cpp_mirror_leech_bot.Domain.Identifiers.{TaskId}
use cpp_mirror_leech_bot.Domain.Task.{
  TimePoint, is_terminal_state, is_terminal, downloading, uploading, completed, failed, cancelled,
  Task, begin_upload, mark_completed, mark_failed, mark_cancelled,
}
use cpp_mirror_leech_bot.Application.Transfer.Status.{UploadResult}
use cpp_mirror_leech_bot.Application.Transfer.{
  Flavour, to_cloud, to_telegram, Point, polling, feeding, checking, draining, concluding, finished,
  Effect, save_task, remove_download, edit_html, upload_directory, upload_file, Transfer, Input,
  Reason, asked_to_stop, download_failed, upload_failed, fail_task, conclude, poll, enter_upload,
  feed, check, succeed, on_directory, on_file, upload_all, fall_back, finish, start, front,
  error_of, first_or_unknown,
}
use cpp_mirror_leech_bot.Application.Transfer.Steps.{
  Setting, resume, resume_at, with_result, Reach, Reach_induction,
}

-- The task as the repository holds it after these effects, the latest first.
abbrev pub last_saved : List Effect → Option Task
last_saved [] = none
last_saved (save_task t ∷ effects) = some t
last_saved (_ ∷ effects) = last_saved effects

-- What a result says of the task.
abbrev pub Told : Result TaskId → Task → Type 0
Told (ok id) t = (t.state ≡ completed) × (t.metadata.id ≡ id)
Told (err e) t =
    ((t.state ≡ failed) × (t.error_message ≡ some e.message))
    ⊎ ((t.state ≡ cancelled) × (e.code ≡ cancelled_error))

pub record IsEnded (r : Result TaskId) (c : Transfer) : Type 0 where
  pub idle : c.pipeline.in_flight ≡ 0
  pub saved : last_saved c.effects ≡ some c.task
  pub told : Told r c.task

-- While it goes on, the task is downloading, or uploading once an upload was started.
abbrev pub IsUnderway : Transfer → Type 0
IsUnderway c = c.task.state ≡ (if c.transitioned then uploading else downloading)

abbrev pub IsConsistentAt : Point → Transfer → Type 0
IsConsistentAt (finished r) c = IsEnded r c
IsConsistentAt concluding c = (c.pipeline.in_flight ≡ 0) × IsUnderway c
IsConsistentAt _ c = IsUnderway c

abbrev IsConsistent : Transfer → Type 0
IsConsistent c = IsConsistentAt c.point c

fail_task-IsConsistent :
    (stage : Bytes) (e : AppError) (i : Input) (c : Transfer)
    → c.pipeline.in_flight ≡ 0
    → is_terminal_state c.task.state ≡ false
    → IsConsistent (fail_task stage e i c)
unfolding fail_task mark_failed is_terminal
fail_task-IsConsistent stage e i c idle h = ground arith

conclude-IsConsistent :
    (f : Flavour) (reason : Reason) (i : Input) (c : Transfer)
    → c.pipeline.in_flight ≡ 0
    → is_terminal_state c.task.state ≡ false
    → IsConsistent (conclude f reason i c)
unfolding conclude mark_cancelled is_terminal
conclude-IsConsistent f asked_to_stop i c idle h = ground arith
conclude-IsConsistent f (download_failed e) i c idle h =
    fail_task-IsConsistent (bytes "download") e i c idle h
conclude-IsConsistent f upload_failed i c idle h =
    fail_task-IsConsistent (bytes "upload") (first_or_unknown c.pipeline.first_error) i
      (record c { effects = remove_download false ∷ c.effects }) idle h

poll-IsConsistent : (b : Bool) (i : Input) (c : Transfer) → IsUnderway c → IsConsistent (poll b i c)
unfolding poll
poll-IsConsistent b i c h = ground arith

check-IsConsistent : (c : Transfer) → IsUnderway c → IsConsistent (check c)
unfolding check
check-IsConsistent c h = ground arith

enter_upload-IsUnderway : (i : Input) (c : Transfer) → IsUnderway c → IsUnderway (enter_upload i c)
unfolding enter_upload begin_upload
enter_upload-IsUnderway i c h = ground arith

feed-IsConsistent :
    (pool : ℕ) (i : Input) (files : List Bytes) (c : Transfer)
    → IsUnderway c
    → IsConsistent (feed pool i files c)
unfolding feed
feed-IsConsistent pool i [] c h = h
feed-IsConsistent pool i (file ∷ rest) c h =
    let kept = enter_upload-IsUnderway i c h in ground arith

-- Nothing is in flight and the task is not over.
record IsClosing (c : Transfer) : Type 0 where
  idle : c.pipeline.in_flight ≡ 0
  state : (c.task.state ≡ uploading) ⊎ ((c.task.state ≡ downloading) × (c.transitioned ≡ false))

succeed-IsConsistent :
    (f : Flavour) (o : Option UploadResult) (i : Input) (c : Transfer)
    → IsClosing c
    → IsConsistent (succeed f o i c)
unfolding succeed begin_upload mark_completed
succeed-IsConsistent f o i c h = ground arith

IsClosing-not_terminal : (c : Transfer) → IsClosing c → is_terminal_state c.task.state ≡ false
IsClosing-not_terminal c h = ground arith

on_directory-IsConsistent :
    (f : Flavour) (r : Result (List UploadResult)) (i : Input) (c : Transfer)
    → IsClosing c
    → IsConsistent (on_directory f r i c)
unfolding on_directory
on_directory-IsConsistent f (err e) i c h =
    fail_task-IsConsistent (bytes "upload") e i c h.idle (IsClosing-not_terminal c h)
on_directory-IsConsistent to_telegram (ok []) i c h =
    fail_task-IsConsistent (bytes "upload")
      (error_of internal_error (bytes "upload produced no results")) i c h.idle
      (IsClosing-not_terminal c h)
on_directory-IsConsistent to_cloud (ok []) i c h = succeed-IsConsistent to_cloud none i c h
on_directory-IsConsistent to_cloud (ok (r ∷ rest)) i c h =
    succeed-IsConsistent to_cloud (some r) i c h
on_directory-IsConsistent to_telegram (ok (r ∷ rest)) i c h =
    succeed-IsConsistent to_telegram (some r) i c h

on_file-IsConsistent :
    (f : Flavour) (r : Result UploadResult) (i : Input) (c : Transfer)
    → IsClosing c
    → IsConsistent (on_file f r i c)
unfolding on_file
on_file-IsConsistent f (err e) i c h =
    fail_task-IsConsistent (bytes "upload") e i c h.idle (IsClosing-not_terminal c h)
on_file-IsConsistent f (ok r) i c h = succeed-IsConsistent f (some r) i c h

upload_all-IsConsistent :
    (f : Flavour) (files : List Bytes) (path : Option Bytes) (i : Input) (c : Transfer)
    → IsClosing c
    → IsConsistent (upload_all f files path i c)
unfolding upload_all
upload_all-IsConsistent f [] path i c h =
    fail_task-IsConsistent (bytes "download")
      (error_of internal_error (bytes "downloader reported no produced files")) i c h.idle
      (IsClosing-not_terminal c h)
upload_all-IsConsistent f (file ∷ files) (some path) i c h =
    on_directory-IsConsistent f i.directory i
      (record c { effects = upload_directory path ∷ c.effects })
      (record { idle = h.idle; state = h.state })
upload_all-IsConsistent f (file ∷ files) none i c h =
    on_file-IsConsistent f i.file i (record c { effects = upload_file file ∷ c.effects })
      (record { idle = h.idle; state = h.state })

fall_back-IsConsistent :
    (f : Flavour) (html : Bytes) (i : Input) (c : Transfer) (begun : Task × Result (Unit {0}))
    → IsClosing c
    → ((begun.1 ≡ ok tt) → begun.0.state ≡ uploading)
    → IsConsistent (fall_back f html i c begun)
fall_back-IsConsistent f html i c (t, err e) h up =
    fail_task-IsConsistent (bytes "state") e i c h.idle (IsClosing-not_terminal c h)
fall_back-IsConsistent f html i c (t, ok tt) h up =
    upload_all-IsConsistent f c.final_status.files c.final_status.save_path i
      (record c { task = t; effects = edit_html html ∷ save_task t ∷ c.effects })
      (record { idle = h.idle; state = inl (up refl) })

begin_upload-uploading :
    (now : TimePoint) (t : Task)
    → (begin_upload now t).1 ≡ ok tt
    → (begin_upload now t).0.state ≡ uploading
unfolding begin_upload
begin_upload-uploading now t h = ground arith

finish-IsConsistent :
    (f : Flavour) (html : Bytes) (i : Input) (c : Transfer)
    → IsClosing c
    → IsConsistent (finish f html i c)
unfolding finish
finish-IsConsistent f html i c h =
    let one = succeed-IsConsistent f (front c.pipeline.results) i c h in
    let all =
      fall_back-IsConsistent f html i c (begin_upload i.now c.task) h
        (begin_upload-uploading i.now c.task) in
    ground arith

resume_at-IsConsistent :
    (s : Setting) (p : Point) (i : Input) (c : Transfer)
    → IsConsistentAt p c
    → c.point ≡ p
    → IsConsistent (resume_at s p i c)
unfolding resume_at
resume_at-IsConsistent s polling i c h at = poll-IsConsistent s.pipelining i c h
resume_at-IsConsistent s (feeding files) i c h at = feed-IsConsistent s.pool i files c h
resume_at-IsConsistent s checking i c h at = check-IsConsistent c h
resume_at-IsConsistent s (draining reason) i c h at =
    let drained = conclude-IsConsistent s.flavour reason i c in ground arith
resume_at-IsConsistent s concluding i c h at =
    finish-IsConsistent s.flavour s.announcement i c (record { idle = h.0; state = ground arith })
resume_at-IsConsistent s (finished r) i c h at = ground arith

with_result-IsConsistent :
    (r : Result UploadResult) (p : Point) (c : Transfer) (n : ℕ)
    → c.pipeline.in_flight ≡ suc n
    → IsConsistentAt p c
    → IsConsistentAt p (with_result r c)
with_result-IsConsistent r concluding c n e h = absurd (ground arith)
with_result-IsConsistent r (finished x) c n e h = let idle = h.idle in ground arith
with_result-IsConsistent r _ c n e h = h

-- A transfer of a downloading task that reaches a result has no upload in flight, and the last task
-- that it saved is the task as it stands: completed where the result is the task's identifier; where
-- it is an error, failed with the error's message, or cancelled with the code for cancellations.
pub Reach-IsEnded :
    (s : Setting) (t : Task) (r : Result TaskId) {c : Transfer}
    → t.state ≡ downloading
    → Reach s (start t) c
    → c.point ≡ finished r
    → IsEnded r c
unfolding start resume
Reach-IsEnded s t r {c} begun reach at =
    subst (λ p. IsConsistentAt p c) at
      (Reach_induction s IsConsistent (λ i d h. resume_at-IsConsistent s d.point i d h refl)
        (λ x d n e h. with_result-IsConsistent x d.point d n e h) reach begun)
