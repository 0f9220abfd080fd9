-- ===== src/Application/Transfer/Settling.antt =====
-- A transfer comes to its end once the download has.
use cpp_mirror_leech_bot.Prelude.{ℕ, zero, suc, ◌≤◌, ◌≡◌, refl, Bool, true, arith, Bytes}
use cpp_mirror_leech_bot.Core.Error.{Result, ok, err}
use cpp_mirror_leech_bot.Domain.Identifiers.{TaskId}
use cpp_mirror_leech_bot.Application.Transfer.Status.{UploadResult}
use cpp_mirror_leech_bot.Application.Transfer.Uploads.{Pipeline, finish_upload}
use cpp_mirror_leech_bot.Application.Transfer.{
  Flavour, Reason, asked_to_stop, download_failed, upload_failed, Point, polling, feeding, checking,
  draining, concluding, finished, Transfer, Input, poll, check, conclude, finish, fail_task,
  succeed, upload_all, on_directory, on_file,
}
use cpp_mirror_leech_bot.Application.Transfer.Steps.{
  Setting, resume, resume_at, with_result, Step, runs, upload_ends, Reach, here, next,
}
use cpp_mirror_leech_bot.Application.Transfer.Pool.{conclude-pipeline, finish-pipeline}

-- How many runs of the coroutine are left at most when no upload is in flight.
abbrev runs_left : Point → ℕ
runs_left (finished r) = 0
runs_left (draining reason) = 1
runs_left concluding = 1
runs_left checking = 2
runs_left polling = 3
runs_left (feeding files) = 4

-- Either the coroutine gives up, or the download is done.
abbrev pub IsSettling : Point → Bool → Type 0
IsSettling (draining reason) done = Unit {0}
IsSettling (finished r) done = Unit {0}
IsSettling (feeding files) done = ⊥
IsSettling _ done = done ≡ true

record IsIdle (left : ℕ) (c : Transfer) : Type 0 where
  idle : c.pipeline.in_flight ≡ 0
  settling : IsSettling c.point c.download_complete
  few : runs_left c.point ≤ left

conclude-left :
    (f : Flavour) (reason : Reason) (i : Input) (c : Transfer)
    → runs_left (conclude f reason i c).point ≡ 0
unfolding conclude fail_task
conclude-left f asked_to_stop i c = refl
conclude-left f (download_failed e) i c = refl
conclude-left f upload_failed i c = refl

finish-left :
    (f : Flavour) (html : Bytes) (i : Input) (c : Transfer)
    → runs_left (finish f html i c).point ≡ 0
unfolding finish upload_all on_directory on_file fail_task succeed
finish-left f html i c = ground arith

IsSettling-over : (p : Point) (done : Bool) → runs_left p ≡ 0 → IsSettling p done
IsSettling-over p done h = ground arith

resume_at-IsIdle :
    (s : Setting) (left : ℕ) (p : Point) (i : Input) (c : Transfer)
    → c.point ≡ p
    → IsIdle (suc left) c
    → IsIdle left (resume_at s p i c)
unfolding resume_at poll check
resume_at-IsIdle s left polling i c at h = ground arith
resume_at-IsIdle s left (feeding files) i c at h = ground arith
resume_at-IsIdle s left checking i c at h = ground arith
resume_at-IsIdle s left (draining reason) i c at h =
    let same = conclude-pipeline s.flavour reason i c in
    let over = conclude-left s.flavour reason i c in
    let ends =
      IsSettling-over (conclude s.flavour reason i c).point
        (conclude s.flavour reason i c).download_complete over in
    let idle = h.idle in ground arith
resume_at-IsIdle s left concluding i c at h =
    let same = finish-pipeline s.flavour s.announcement i c in
    let over = finish-left s.flavour s.announcement i c in
    let ends =
      IsSettling-over (finish s.flavour s.announcement i c).point
        (finish s.flavour s.announcement i c).download_complete over in
    let idle = h.idle in ground arith
resume_at-IsIdle s left (finished r) i c at h = ground arith

after-Step : (s : Setting) {c d e : Transfer} → Step s c d → Reach s d e → Reach s c e
after-Step s first here = next here first
after-Step s first (next r last) = next (after-Step s first r) last

one_less :
    (x : Result UploadResult) (p : Pipeline) (n : ℕ)
    → p.in_flight ≡ suc n
    → (finish_upload x p).in_flight ≡ n
unfolding finish_upload
one_less (ok r) p n e = omega arith
one_less (err x) p n e = omega arith

-- The state after a number of uploads ended, with any result for each.
abbrev pub uploads_end : (ℕ → Result UploadResult) → ℕ → Transfer → Transfer
uploads_end x zero c = c
uploads_end x (suc n) c = uploads_end x n (with_result (x n) c)

record IsDrained (s : Setting) (c d : Transfer) : Type 0 where
  reach : Reach s c d
  idle : d.pipeline.in_flight ≡ 0
  point : d.point ≡ c.point
  done : d.download_complete ≡ c.download_complete

drained :
    (s : Setting) (x : ℕ → Result UploadResult) (n : ℕ) (c : Transfer)
    → c.pipeline.in_flight ≡ n
    → IsDrained s c (uploads_end x n c)
drained s x zero c e = record { reach = here; idle = e; point = refl; done = refl }
drained s x (suc n) c e =
    let h = drained s x n (with_result (x n) c) (one_less (x n) c.pipeline n e) in
    record {
      reach = after-Step s (upload_ends (x n) e) h.reach;
      idle = h.idle;
      point = h.point;
      done = h.done;
    }

run_left :
    (s : Setting) (i : Input) (left : ℕ) (c : Transfer)
    → IsIdle (suc left) c
    → IsIdle left (resume s i c)
unfolding resume
run_left s i left c h = resume_at-IsIdle s left c.point i c refl h

over-finished : (p : Point) → runs_left p ≤ 0 → (r : Result TaskId) × (p ≡ finished r)
over-finished (finished r) h = (r, refl)
over-finished _ h = absurd (omega arith)

few_runs : (p : Point) (done : Bool) → IsSettling p done → runs_left p ≤ 3
few_runs p done h = ground arith

-- Where the coroutine gives up, or the download is complete and its files have been gone through, and
-- whatever each upload in flight gives: once all of these have ended, three runs of the coroutine lead
-- to a result, whatever each of them meets; and the transfer does get there by its steps.
pub settles :
    (s : Setting) (x : ℕ → Result UploadResult) (i j k : Input) (c : Transfer)
    → IsSettling c.point c.download_complete
    → let d = resume s k (resume s j (resume s i (uploads_end x c.pipeline.in_flight c))) in
      ((r : Result TaskId) × (d.point ≡ finished r)) × Reach s c d
settles s x i j k c h =
    let d = uploads_end x c.pipeline.in_flight c in
    let drain = drained s x c.pipeline.in_flight c refl in
    let calm : IsIdle 3 d = record {
      idle = drain.idle;
      settling = rw (drain.point, drain.done) h;
      few = rw drain.point (few_runs c.point c.download_complete h);
    } in
    let last = run_left s k 0 _ (run_left s j 1 _ (run_left s i 2 d calm)) in
    (
      over-finished (resume s k (resume s j (resume s i d))).point last.few,
      next (next (next drain.reach (runs i)) (runs j)) (runs k),
    )
