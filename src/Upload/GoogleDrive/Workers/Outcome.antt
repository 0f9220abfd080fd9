-- ===== src/Upload/GoogleDrive/Workers/Outcome.antt =====
-- A session that reports success has uploaded the whole file.
use cpp_mirror_leech_bot.Prelude.{
  ℕ, suc, ◌≡◌, ◌⊎◌, refl, inl, inr, false, ◌||◌, ◌==◌, leb, some, Option-cases, List, length, arith,
  if_elim, if_cases, Bytes,
}
use cpp_mirror_leech_bot.Core.Error.{AppError, ok}
use cpp_mirror_leech_bot.Upload.GoogleDrive.Plan.{ChunkPlan, plan}
use cpp_mirror_leech_bot.Upload.GoogleDrive.Chunk.{ChunkOutcome, failed, stopped, settled}
use cpp_mirror_leech_bot.Upload.GoogleDrive.Workers.{
  Shared, Worker, starting, idle, claiming, uploading, exited, Input, length_at, record_error,
  leave, count_bytes, claim, finish_file, settle, end_chunk, advance, joined, Pool, started,
}
use cpp_mirror_leech_bot.Upload.GoogleDrive.Workers.Steps.{Reach, Reach_induction}
use cpp_mirror_leech_bot.Upload.GoogleDrive.Workers.Whole.{joined-Whole}

-- The flag is raised only with an error.
abbrev IsExplained : Shared → Type 0
IsExplained s = (s.abort ≡ false) ⊎ ((e : AppError) × (s.first_error ≡ some e))

record_error-IsExplained : (e : AppError) (s : Shared) → IsExplained (record_error e s)
unfolding record_error
record_error-IsExplained e s = elim (Option-cases s.first_error) [
  | inl none_yet ↦ inr (e, ground (arith, none_yet))
  | inr (first, seen) ↦ inr (first, ground (arith, seen))
]

-- A run in which no cancellation is seen.
abbrev pub IsUncancelled : Input → Type 0
IsUncancelled i = i.cancelled ≡ false

module _ (show : ℕ → Bytes) (path : Bytes) (chunks : List ChunkPlan) where
  finish_file-IsExplained :
      (n : ℕ) (parsed : Bytes ⊎ Bytes) (s : Shared)
      → IsExplained s
      → IsExplained (finish_file show path chunks n parsed s).1
  unfolding finish_file count_bytes leave
  finish_file-IsExplained n (inl what) s h = record_error-IsExplained _ s
  finish_file-IsExplained n (inr id) s h = h

  end_chunk-IsExplained :
      (idx : ℕ) (i : Input) (o : ChunkOutcome) (s : Shared)
      → IsExplained s
      → IsExplained (end_chunk show path chunks idx i o s).1
  unfolding end_chunk settle count_bytes leave
  end_chunk-IsExplained idx i (failed e) s h = record_error-IsExplained e s
  end_chunk-IsExplained idx i stopped s h = h
  end_chunk-IsExplained idx i (settled code body) s h =
      let Q = λ (p : Worker × Shared). IsExplained p.1 in
      if_elim Q s.abort _ _ h (
        if_elim Q (code == 200 || code == 201) _ _
          (finish_file-IsExplained (length_at idx chunks) i.parsed s h)
          (if_elim Q (code == 308) _ _ h (record_error-IsExplained _ s)))

  advance-IsExplained :
      (i : Input) (w : Worker) (s : Shared)
      → IsUncancelled i
      → IsExplained s
      → IsExplained (advance show path chunks i w s).1
  unfolding advance claim leave
  advance-IsExplained i starting s calm h =
      let Q = λ (p : Worker × Shared). IsExplained p.1 in
      if_elim Q i.opened _ _ h (record_error-IsExplained _ s)
  advance-IsExplained i idle s calm h =
      let Q = λ (p : Worker × Shared). IsExplained p.1 in
      if_elim Q s.abort _ _ h (if_cases Q i.cancelled _ _ (λ e. ground (arith, e, calm)) (λ e. h))
  advance-IsExplained i claiming s calm h =
      let Q = λ (p : Worker × Shared). IsExplained p.1 in
      if_elim Q (leb (length chunks) s.next_index) _ _ h
        (if_elim Q i.complete_read _ _ h (record_error-IsExplained _ _))
  advance-IsExplained i (uploading idx) s calm h = end_chunk-IsExplained idx i i.outcome s h
  advance-IsExplained i exited s calm h = h

-- A session in which no cancellation is seen and that gives an identifier, when the last worker has left,
-- has uploaded every byte of the file: whatever the number of workers, the configured size of a chunk,
-- the replies and the order in which the workers run.
pub joined_ok-Whole :
    (show : ℕ → Bytes) (path : Bytes) (chunk_size size n steps : ℕ) (p : Pool) (id : Bytes)
    → Reach show path (plan chunk_size size) IsUncancelled (started (suc n)) steps p
    → p.shared.live_workers ≡ 0
    → joined p.shared ≡ ok id
    → p.shared.bytes_uploaded ≡ size
unfolding joined started
joined_ok-Whole show path chunk_size size n steps p id r none_live good =
    let explained =
      Reach_induction show path (plan chunk_size size) IsUncancelled (λ q. IsExplained q.shared)
        (started (suc n))
        (λ i front back w s lives flag calm h.
          advance-IsExplained show path (plan chunk_size size) i w s calm h)
        r (inl refl) in
    let whole = joined-Whole show path IsUncancelled chunk_size size n steps p r none_live in
    elim whole.1 [
      | inr all_bytes ↦ all_bytes
      | inl up ↦ elim explained [
        | inl down ↦ ground (arith, up, down)
        | inr (e, seen) ↦ ground (arith, seen, good)
      ]
    ]
