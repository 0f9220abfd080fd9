-- ===== src/Application/Transfer/Frozen.antt =====
-- What happens to files that were not yet offered to the uploads when the download completed.
use cpp_mirror_leech_bot.Prelude.{◌≡◌, refl, Bool, true, false, List, arith, Bytes}
use cpp_mirror_leech_bot.Core.Error.{Result, ok, err}
use cpp_mirror_leech_bot.Application.Transfer.Status.{UploadResult}
use cpp_mirror_leech_bot.Application.Transfer.Uploads.{Pipeline, finish_upload}
use cpp_mirror_leech_bot.Application.Transfer.{
  Flavour, Point, polling, feeding, checking, draining, concluding, finished, Transfer, Input,
  Reason, asked_to_stop, download_failed, upload_failed, conclude, poll, check, finish, succeed,
  fail_task, upload_all, on_directory, on_file,
}
use cpp_mirror_leech_bot.Application.Transfer.Steps.{
  Setting, resume, resume_at, Reach, Reach_induction,
}
use cpp_mirror_leech_bot.Application.Transfer.Pool.{conclude-pipeline, finish-pipeline}

-- The loop is past the files of the last status.
abbrev pub is_feeding : Point → Bool
is_feeding (feeding files) = true
is_feeding _ = false

-- The download is done, its files have been offered, and the queue is `queue`.
record IsFrozen (queue : List Bytes) (c : Transfer) : Type 0 where
  done : c.download_complete ≡ true
  past : is_feeding c.point ≡ false
  unchanged : c.pipeline.queued ≡ queue

pub conclude-done :
    (f : Flavour) (reason : Reason) (i : Input) (c : Transfer)
    → ((conclude f reason i c).download_complete ≡ c.download_complete)
      × (is_feeding (conclude f reason i c).point ≡ false)
unfolding conclude fail_task
conclude-done f asked_to_stop i c = (refl, refl)
conclude-done f (download_failed e) i c = (refl, refl)
conclude-done f upload_failed i c = (refl, refl)

pub finish-done :
    (f : Flavour) (html : Bytes) (i : Input) (c : Transfer)
    → ((finish f html i c).download_complete ≡ c.download_complete)
      × (is_feeding (finish f html i c).point ≡ false)
unfolding finish upload_all on_directory on_file fail_task succeed
finish-done f html i c = ground arith

resume_at-IsFrozen :
    (s : Setting) (queue : List Bytes) (p : Point) (i : Input) (c : Transfer)
    → c.point ≡ p
    → IsFrozen queue c
    → IsFrozen queue (resume_at s p i c)
unfolding resume_at poll check
resume_at-IsFrozen s queue polling i c at h = ground arith
resume_at-IsFrozen s queue (feeding files) i c at h = ground arith
resume_at-IsFrozen s queue checking i c at h = ground arith
resume_at-IsFrozen s queue (draining reason) i c at h =
    let kept = conclude-pipeline s.flavour reason i c in
    let done = conclude-done s.flavour reason i c in ground arith
resume_at-IsFrozen s queue concluding i c at h =
    let kept = finish-pipeline s.flavour s.announcement i c in
    let done = finish-done s.flavour s.announcement i c in ground arith
resume_at-IsFrozen s queue (finished r) i c at h = h

finish_upload-queued :
    (r : Result UploadResult) (p : Pipeline) → (finish_upload r p).queued ≡ p.queued
unfolding finish_upload
finish_upload-queued (ok r) p = refl
finish_upload-queued (err e) p = refl

-- Once the download is complete and its files have been gone through, no step ever queues another
-- file, in every continuation of the transfer.
pub Reach-queued :
    (s : Setting) (c : Transfer) {d : Transfer}
    → c.download_complete ≡ true
    → is_feeding c.point ≡ false
    → Reach s c d
    → d.pipeline.queued ≡ c.pipeline.queued
unfolding resume
Reach-queued s c done past r =
    (Reach_induction s (IsFrozen c.pipeline.queued)
      (λ i d h. resume_at-IsFrozen s c.pipeline.queued d.point i d refl h)
      (λ x d n e h. let kept = finish_upload-queued x d.pipeline in ground arith) r
      (record { done = done; past = past; unchanged = refl })).unchanged
