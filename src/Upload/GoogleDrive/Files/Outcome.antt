-- ===== src/Upload/GoogleDrive/Files/Outcome.antt =====
-- What the pool of files answers when its last worker has left.
use cpp_mirror_leech_bot.Prelude.{
  ℕ, suc, ◌+◌, ◌≤◌, ◌≡◌, ◌⊎◌, refl, inl, inr, true, false, none, List, [], ◌∷◌, arith,
}
use cpp_mirror_leech_bot.Prelude.Sums.{total, total-replicate, total_at}
use cpp_mirror_leech_bot.Core.Error.{AppError, Result, ok, err}
use cpp_mirror_leech_bot.Application.Transfer.Status.{UploadResult}
use cpp_mirror_leech_bot.Upload.GoogleDrive.Files.{
  DirShared, FileWorker, idle, claiming, uploading, exited, is_live, advance, joined, FilePool,
  started, at_work, runs, Reach, here, next,
}
use cpp_mirror_leech_bot.Upload.GoogleDrive.Files.Calm.{
  alive, gone, outcomes, claimed, claimed_past, pending, done, IsCause, IsRaised, advance-live,
  advance-IsRaised, advance-IsCalm,
}

module _ (files : ℕ) (outcome : ℕ → Result UploadResult) (f : Result UploadResult → ℕ) where
  record IsKept (crew : ℕ) (p : FilePool) : Type 0 where
    live : p.shared.live_workers ≡ total alive p.workers
    all : total alive p.workers + total gone p.workers ≡ crew
    rest :
        IsRaised files outcome f p.shared
        ⊎ ((p.shared.abort ≡ false)
            × ((p.shared.first_error ≡ none)
                × ((done files outcome f p.shared.results
                        + total (pending files outcome f) p.workers
                      ≡ claimed files outcome f p.shared.next_index)
                    × ((total gone p.workers ≡ 0) ⊎ (files ≤ p.shared.next_index)))))

  alive_one : (w : FileWorker) → is_live w ≡ true → alive w ≡ 1
  unfolding is_live
  alive_one w h = ground arith

  alive_or_gone : (w : FileWorker) → alive w + gone w ≡ 1
  alive_or_gone idle = omega arith
  alive_or_gone claiming = omega arith
  alive_or_gone (uploading idx) = omega arith
  alive_or_gone exited = omega arith

  step-IsKept :
      (crew : ℕ) (front back : List FileWorker) (w : FileWorker) (s : DirShared)
      → is_live w ≡ true
      → IsKept crew (at_work front w back s)
      → IsKept crew (
          at_work front
            (advance files outcome false w s).0
            back
            (advance files outcome false w s).1)
  step-IsKept crew front back w s lives h =
      let w' = (advance files outcome false w s).0 in
      let one = alive_one w lives in
      let some_live : 1 ≤ s.live_workers =
        omega (arith, h.live, one, total_at alive front back w) in
      record {
        live = omega (
          arith,
          advance-live files outcome f w s lives some_live,
          h.live,
          one,
          total_at alive front back w,
          total_at alive front back w',
        );
        all = omega (
          arith,
          h.all,
          alive_or_gone w,
          alive_or_gone w',
          total_at alive front back w,
          total_at alive front back w',
          total_at gone front back w,
          total_at gone front back w',
        );
        rest = elim h.rest [
          | inl up ↦ inl (advance-IsRaised files outcome f w s lives up)
          | inr (down, (unseen, (eq, ended))) ↦
              elim (advance-IsCalm files outcome f w s lives down unseen) [
                | inl up ↦ inl up
                | inr calm ↦ inr (
                  calm.down,
                  (
                    calm.unseen,
                    (
                      omega (
                        arith,
                        eq,
                        calm.kept,
                        total_at (pending files outcome f) front back w,
                        total_at (pending files outcome f) front back w',
                      ),
                      elim ended [
                        | inr over ↦ inr (omega (arith, over, calm.more))
                        | inl none_gone ↦ elim calm.ended [
                          | inr over ↦ inr over
                          | inl stays ↦ inl (
                              omega (
                                arith,
                                none_gone,
                                stays,
                                total_at gone front back w,
                                total_at gone front back w',
                              ))
                        ]
                      ],
                    ),
                  ),
                )
              ]
        ];
      }

  reachable-IsKept :
      (n : ℕ) {steps : ℕ} {p : FilePool}
      → Reach files outcome false (started n) steps p
      → IsKept n p
  unfolding started
  reachable-IsKept n here = record {
    live = omega (arith, total-replicate alive n idle);
    all = omega (arith, total-replicate alive n idle, total-replicate gone n idle);
    rest = inr (
      refl,
      (
        refl,
        (
          omega (arith, total-replicate (pending files outcome f) n idle),
          inl (omega (arith, total-replicate gone n idle)),
        ),
      ),
    );
  }
  reachable-IsKept n (next r (runs true front back w s lives allowed)) =
      absurd (ground (arith, allowed refl))
  reachable-IsKept n (next r (runs false front back w s lives allowed)) =
      step-IsKept n front back w s lives (reachable-IsKept n r)

  -- A worker that is gone uploads nothing.
  all_gone : (ws : List FileWorker) → total alive ws ≡ 0 → total (pending files outcome f) ws ≡ 0
  all_gone [] h = refl
  all_gone (exited ∷ ws) h = omega (arith, all_gone ws (omega (arith, h)))
  all_gone (idle ∷ ws) h = absurd (omega (arith, h))
  all_gone (claiming ∷ ws) h = absurd (omega (arith, h))
  all_gone (uploading idx ∷ ws) h = absurd (omega (arith, h))

  -- Without a cancellation, and in whatever order the workers run: where the directory is reported as
  -- uploaded, its results are those of all its files, each as often as the files have it, since every
  -- weight of an outcome sums up to the same; and where it is not, the error is that of an upload.
  pub joined-IsComplete :
      (n steps : ℕ) (p : FilePool)
      → Reach files outcome false (started (suc n)) steps p
      → p.shared.live_workers ≡ 0
      → ((e : AppError) × (joined p.shared ≡ err e) × IsCause files outcome f e)
        ⊎ ((joined p.shared ≡ ok p.shared.results)
            × (total (λ r. f (ok r)) p.shared.results ≡ total f (outcomes outcome files)))
  unfolding joined
  joined-IsComplete n steps p r none_live =
      let h = reachable-IsKept (suc n) r in
      let flying = all_gone p.workers (omega (arith, h.live, none_live)) in
      elim h.rest [
        | inl (up, (e, seen, cause)) ↦ inl (e, rw seen refl, cause)
        | inr (down, (unseen, (eq, ended))) ↦ elim ended [
          | inl none_gone ↦ absurd (omega (arith, none_gone, h.all, h.live, none_live))
          | inr over ↦ inr (
            rw unseen refl,
            omega (arith, eq, flying, claimed_past files outcome f p.shared.next_index over),
          )
        ]
      ]
