-- ===== src/Application/Transfer/Pool.antt =====
-- The uploads of a transfer: the pool is respected, every queued file is uploaded once, and the
-- counters account for all.
use cpp_mirror_leech_bot.Prelude.{
  ℕ, suc, ◌+◌, ◌≤◌, ◌≡◌, refl, Bool, true, false, List, [], ◌∷◌, arith, length, Bytes,
  length-append, Option,
}
use cpp_mirror_leech_bot.Core.Error.{Result, ok, err}
use cpp_mirror_leech_bot.Domain.Task.{Task}
use cpp_mirror_leech_bot.Application.Transfer.Status.{UploadResult}
use cpp_mirror_leech_bot.Application.Transfer.Uploads.{
  Pipeline, is_queued, can_spawn_more, spawn_upload, finish_upload,
}
use cpp_mirror_leech_bot.Application.Transfer.{
  Flavour, Point, polling, feeding, checking, draining, concluding, finished, Transfer, Input,
  Reason, asked_to_stop, conclude, poll, feed, check, finish, start, fail_task, succeed, upload_all,
  on_directory, on_file, enter_upload,
}
use cpp_mirror_leech_bot.Application.Transfer.Steps.{
  Setting, resume, resume_at, Reach, Reach_induction,
}

-- No path stands twice.
abbrev pub AllDistinct : List Bytes → Type 0
AllDistinct [] = Unit {0}
AllDistinct (file ∷ rest) = (is_queued file rest ≡ false) × AllDistinct rest

pub record IsSound (pool : ℕ) (p : Pipeline) : Type 0 where
  pub within : p.in_flight ≤ pool
  pub counted : p.completed + p.failed + p.in_flight ≡ length p.queued
  pub distinct : AllDistinct p.queued
  pub kept : length p.results ≡ p.completed

spawn-IsSound :
    (pool : ℕ) (file : Bytes) (p : Pipeline)
    → can_spawn_more pool p ≡ true
    → IsSound pool p
    → IsSound pool (spawn_upload file p)
unfolding can_spawn_more spawn_upload
spawn-IsSound pool file p room h = ground arith

finish-IsSound :
    (pool n : ℕ) (r : Result UploadResult) (p : Pipeline)
    → p.in_flight ≡ suc n
    → IsSound pool p
    → IsSound pool (finish_upload r p)
unfolding finish_upload
finish-IsSound pool n (ok r) p e h = record {
  within = ground arith;
  counted = ground arith;
  distinct = h.distinct;
  kept = omega (arith, length-append p.results (r ∷ []), h.kept);
}
finish-IsSound pool n (err x) p e h = ground arith

-- Only the feeding of files changes the uploads.
pub conclude-pipeline :
    (f : Flavour) (reason : Reason) (i : Input) (c : Transfer)
    → (conclude f reason i c).pipeline ≡ c.pipeline
unfolding conclude
conclude-pipeline f asked_to_stop i c = refl
conclude-pipeline f _ i c = refl

poll-pipeline : (b : Bool) (i : Input) (c : Transfer) → (poll b i c).pipeline ≡ c.pipeline
unfolding poll
poll-pipeline b i c = ground arith

check-pipeline : (c : Transfer) → (check c).pipeline ≡ c.pipeline
unfolding check
check-pipeline c = ground arith

succeed-pipeline :
    (f : Flavour) (o : Option UploadResult) (i : Input) (c : Transfer)
    → (succeed f o i c).pipeline ≡ c.pipeline
unfolding succeed
succeed-pipeline f o i c = ground arith

pub finish-pipeline :
    (f : Flavour) (html : Bytes) (i : Input) (c : Transfer)
    → (finish f html i c).pipeline ≡ c.pipeline
unfolding finish upload_all on_directory on_file fail_task succeed
finish-pipeline f html i c = ground arith

enter_upload-pipeline : (i : Input) (c : Transfer) → (enter_upload i c).pipeline ≡ c.pipeline
unfolding enter_upload
enter_upload-pipeline i c = ground arith

feed-IsSound :
    (pool : ℕ) (i : Input) (files : List Bytes) (c : Transfer)
    → IsSound pool c.pipeline
    → IsSound pool (feed pool i files c).pipeline
unfolding feed
feed-IsSound pool i [] c h = h
feed-IsSound pool i (file ∷ rest) c h =
    let kept = enter_upload-pipeline i c in
    let after = spawn-IsSound pool file c.pipeline in ground arith

resume_at-IsSound :
    (s : Setting) (p : Point) (i : Input) (c : Transfer)
    → IsSound s.pool c.pipeline
    → IsSound s.pool (resume_at s p i c).pipeline
unfolding resume_at
resume_at-IsSound s polling i c h = let kept = poll-pipeline s.pipelining i c in ground arith
resume_at-IsSound s (feeding files) i c h = feed-IsSound s.pool i files c h
resume_at-IsSound s checking i c h = let kept = check-pipeline c in ground arith
resume_at-IsSound s (draining reason) i c h =
    let kept = conclude-pipeline s.flavour reason i c in ground arith
resume_at-IsSound s concluding i c h =
    let kept = finish-pipeline s.flavour s.announcement i c in ground arith
resume_at-IsSound s (finished r) i c h = h

-- Whenever the uploads end and whatever the downloader reports: never more uploads are in flight than
-- the pool allows, no file is queued twice, every queued file is in flight, completed or failed, and
-- there is one result for each that is completed.
pub Reach-IsSound :
    (s : Setting) (t : Task) {c : Transfer} → Reach s (start t) c → IsSound s.pool c.pipeline
unfolding start resume
Reach-IsSound s t r =
    Reach_induction s (λ c. IsSound s.pool c.pipeline) (λ i c h. resume_at-IsSound s c.point i c h)
      (λ x c n e h. finish-IsSound s.pool n x c.pipeline e h) r
      (record { within = ground arith; counted = refl; distinct = tt; kept = refl })
