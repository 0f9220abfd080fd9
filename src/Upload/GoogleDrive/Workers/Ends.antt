-- ===== src/Upload/GoogleDrive/Workers/Ends.antt =====
-- Every order of the workers comes to an end.
use mathlib.Core.Path.{subst}
use cpp_mirror_leech_bot.Prelude.{
  ℕ, suc, ◌+◌, ◌-◌, ◌*◌, ◌≤◌, ◌≡◌, ◌⊎◌, refl, ap, sym, ◌∙◌, inl, inr, true, ◌||◌, ◌==◌, List, [],
  ◌∷◌, ◌++◌, length, arith, if_elim, Bytes,
}
use cpp_mirror_leech_bot.Prelude.Sums.{total, total-append, total-replicate}
use cpp_mirror_leech_bot.Upload.GoogleDrive.Plan.{ChunkPlan}
use cpp_mirror_leech_bot.Upload.GoogleDrive.Chunk.{ChunkOutcome, failed, stopped, settled}
use cpp_mirror_leech_bot.Upload.GoogleDrive.Workers.{
  Shared, Worker, starting, idle, claiming, uploading, exited, Input, length_at, record_error,
  leave, count_bytes, claim, finish_file, settle, end_chunk, advance, Pool, started,
}
use cpp_mirror_leech_bot.Upload.GoogleDrive.Workers.Steps.{
  is_live, IsStopped, at_work, Step, runs, Reach, here, next,
}
use cpp_mirror_leech_bot.Upload.GoogleDrive.Workers.Fair.{alive}
use cpp_mirror_leech_bot.Upload.GoogleDrive.Workers.Whole.{reachable-IsAccounted}

-- The runs that a worker has before its next claim, and three for each chunk that is not claimed.
abbrev rank : Worker → ℕ
rank starting = 3
rank idle = 2
rank claiming = 1
rank (uploading idx) = 3
rank exited = 0

abbrev left_of : List ChunkPlan → Shared → ℕ
left_of chunks s = 3 * (length chunks - s.next_index)

module _ (show : ℕ → Bytes) (path : Bytes) (chunks : List ChunkPlan) where
  -- A worker that leaves or goes back to the test of the flag, and claims nothing.
  abbrev IsRelease : Shared → Worker × Shared → Type 0
  IsRelease s p = (rank p.0 ≤ 2) × (p.1.next_index ≡ s.next_index)

  finish_file-IsRelease :
      (n : ℕ) (parsed : Bytes ⊎ Bytes) (s : Shared)
      → IsRelease s (finish_file show path chunks n parsed s)
  unfolding finish_file count_bytes record_error leave
  finish_file-IsRelease n (inl what) s = (omega arith, refl)
  finish_file-IsRelease n (inr id) s = (omega arith, refl)

  end_chunk-IsRelease :
      (idx : ℕ) (i : Input) (o : ChunkOutcome) (s : Shared)
      → IsRelease s (end_chunk show path chunks idx i o s)
  unfolding end_chunk settle count_bytes record_error leave
  end_chunk-IsRelease idx i (failed e) s = (omega arith, refl)
  end_chunk-IsRelease idx i stopped s = (omega arith, refl)
  end_chunk-IsRelease idx i (settled code body) s =
      if_elim (IsRelease s) s.abort _ _ (omega arith, refl)
        (if_elim (IsRelease s) (code == 200 || code == 201) _ _
          (finish_file-IsRelease (length_at idx chunks) i.parsed s)
          (if_elim (IsRelease s) (code == 308) _ _ (omega arith, refl) (omega arith, refl)))

  advance-rank :
      (i : Input) (w : Worker) (s : Shared)
      → is_live w ≡ true
      → suc (
          rank (advance show path chunks i w s).0
          + left_of chunks (advance show path chunks i w s).1)
        ≤ rank w + left_of chunks s
  unfolding advance claim record_error leave is_live
  advance-rank i starting s lives = ground arith
  advance-rank i idle s lives = ground arith
  advance-rank i claiming s lives = ground arith
  advance-rank i (uploading idx) s lives =
      let (low, same) = end_chunk-IsRelease idx i i.outcome s in rw same (omega (arith, low))
  advance-rank i exited s lives = absurd cc

  abbrev measure : Pool → ℕ
  measure p = total rank p.workers + left_of chunks p.shared

module _ (show : ℕ → Bytes) (path : Bytes) (chunks : List ChunkPlan)
    (Allowed : Input → Type 0) where
  -- Every step takes from the measure.
  Reach-measure :
      (p : Pool) {steps : ℕ} {q : Pool}
      → Reach show path chunks Allowed p steps q
      → steps + measure show path chunks q ≤ measure show path chunks p
  Reach-measure p here = omega arith
  Reach-measure p (next r (runs i front back w s lives flag allowed)) =
      let before = Reach-measure p r in
      let less = advance-rank show path chunks i w s lives in
      let w' = (advance show path chunks i w s).0 in
      omega (
        arith,
        before,
        less,
        total-append rank front (w ∷ back),
        total-append rank front (w' ∷ back),
      )

-- A worker that has not left, if there is one.
find_live :
    (ws : List Worker)
    → (total alive ws ≡ 0)
      ⊎ ((front : List Worker) × (w : Worker) × (back : List Worker) × (ws ≡ front ++ w ∷ back)
          × (is_live w ≡ true))
unfolding is_live
find_live [] = inl refl
find_live (exited ∷ ws) = elim (find_live ws) [
  | inl none_left ↦ inl (omega (arith, none_left))
  | inr (front, w, back, e, live) ↦ inr (exited ∷ front, w, back, ap (λ ws. exited ∷ ws) e, live)
]
find_live (starting ∷ ws) = inr ([], starting, ws, refl, refl)
find_live (idle ∷ ws) = inr ([], idle, ws, refl, refl)
find_live (claiming ∷ ws) = inr ([], claiming, ws, refl, refl)
find_live (uploading idx ∷ ws) = inr ([], uploading idx, ws, refl, refl)

-- In whatever order the workers run and whatever they meet: after at most three runs for each worker
-- and each chunk no run is left; and until the last worker has left, one of them can run.
pub run-IsBounded :
    (show : ℕ → Bytes) (path : Bytes) (chunks : List ChunkPlan) (Allowed : Input → Type 0)
    (n steps : ℕ) (p : Pool) (i : Input)
    → Reach show path chunks Allowed (started n) steps p
    → IsStopped i.outcome p.shared
    → Allowed i
    → (steps ≤ 3 * (n + length chunks))
      × ((p.shared.live_workers ≡ 0) ⊎ ((q : Pool) × Step show path chunks Allowed p q))
unfolding started
run-IsBounded show path chunks Allowed n steps p i r flag allowed =
    let bound = Reach-measure show path chunks Allowed (started n) r in
    let h = reachable-IsAccounted show path chunks Allowed n steps p r in
    (
      omega (arith, bound, total-replicate rank n starting),
      elim (find_live p.workers) [
        | inl none_live ↦ inl (h.live ∙ none_live)
        | inr (front, w, back, e, lives) ↦ inr (
          _,
          subst
              (λ ws.
                Step show path chunks Allowed (record { shared = p.shared; workers = ws })
                  (at_work front (advance show path chunks i w p.shared).0 back
                    (advance show path chunks i w p.shared).1))
              (sym e) (runs i front back w p.shared lives flag allowed),
        )
      ],
    )
