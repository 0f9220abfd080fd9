-- ===== src/Upload/GoogleDrive/Workers/Fair.antt =====
-- What one run of a worker does to the count of the workers and to the sum of the bytes.

use cpp_mirror_leech_bot.Prelude.{
  ℕ, zero, suc, ◌+◌, ◌≤◌, ◌≡◌, ◌∙◌, ◌⊎◌, refl, inl, inr, true, false, ◌||◌, ◌==◌, Bool-cases, leb,
  List, [], ◌∷◌, length, take, leb→le, arith, if_elim, if_cases, Bytes,
}
use cpp_mirror_leech_bot.Core.Error.{AppError}
use cpp_mirror_leech_bot.Upload.GoogleDrive.Plan.{ChunkPlan}
use cpp_mirror_leech_bot.Upload.GoogleDrive.Plan.Tiling.{lengths}
use cpp_mirror_leech_bot.Upload.GoogleDrive.Chunk.{ChunkOutcome, failed, stopped, settled}
use cpp_mirror_leech_bot.Upload.GoogleDrive.Workers.{
  Shared, Worker, starting, idle, claiming, uploading, exited, Input, length_at, record_error,
  leave, bail, count_bytes, claim, finish_file, settle, end_chunk, advance,
}
use cpp_mirror_leech_bot.Upload.GoogleDrive.Workers.Steps.{is_live, IsStopped}

-- The bytes of the first chunks.
abbrev pub prefix : List ChunkPlan → ℕ → ℕ
prefix chunks k = lengths (take k chunks)

pub prefix-suc :
    (chunks : List ChunkPlan) (k : ℕ) → prefix chunks (suc k) ≡ prefix chunks k + length_at k chunks
unfolding length_at
prefix-suc [] zero = omega arith
prefix-suc [] (suc k) = omega arith
prefix-suc (c ∷ rest) zero = omega arith
prefix-suc (c ∷ rest) (suc k) = omega (arith, prefix-suc rest k)

-- A worker that has not left, one that has, and the bytes that one is uploading.
abbrev pub alive : Worker → ℕ
alive exited = 0
alive _ = 1

abbrev pub gone : Worker → ℕ
gone exited = 1
gone _ = 0

abbrev pub in_flight : List ChunkPlan → Worker → ℕ
in_flight chunks (uploading idx) = length_at idx chunks
in_flight chunks _ = 0

-- The count of the workers follows the worker; the bytes of the chunks that are claimed are uploaded or
-- in flight, all of them unless the flag is raised; and a worker leaves a flag that is not raised only
-- when no chunk is left.
pub record IsFair (chunks : List ChunkPlan) (w : Worker) (s : Shared) (p : Worker × Shared)
    : Type 0 where
  pub live : p.1.live_workers + alive w ≡ s.live_workers + alive p.0
  pub bytes :
      p.1.bytes_uploaded + in_flight chunks p.0 + prefix chunks s.next_index
      ≤ s.bytes_uploaded + in_flight chunks w + prefix chunks p.1.next_index
  pub whole :
      (p.1.abort ≡ true)
      ⊎ ((s.abort ≡ false)
          × ((p.1.bytes_uploaded + in_flight chunks p.0 + prefix chunks s.next_index
                ≡ s.bytes_uploaded + in_flight chunks w + prefix chunks p.1.next_index)
              × ((s.next_index ≤ p.1.next_index)
                  × ((gone p.0 ≡ 0) ⊎ (length chunks ≤ p.1.next_index)))))

length_at_end : (k : ℕ) (chunks : List ChunkPlan) → length chunks ≤ k → length_at k chunks ≡ 0
unfolding length_at
length_at_end k [] h = refl
length_at_end zero (c ∷ rest) h = absurd (omega (arith, h))
length_at_end (suc k) (c ∷ rest) h = length_at_end k rest (omega (arith, h))

module _ (chunks : List ChunkPlan) (w : Worker) (s : Shared) (lives : is_live w ≡ true) where
  alive_one : alive w ≡ 1
  unfolding is_live
  alive_one = ground arith

  -- A worker that goes on.
  keeps-IsFair :
      (w' : Worker) (s' : Shared)
      → is_live w' ≡ true
      → s'.live_workers ≡ s.live_workers
      → s'.abort ≡ s.abort
      → s'.bytes_uploaded + in_flight chunks w' + prefix chunks s.next_index
        ≡ s.bytes_uploaded + in_flight chunks w + prefix chunks s'.next_index
      → s.next_index ≤ s'.next_index
      → IsFair chunks w s (w', s')
  unfolding is_live
  keeps-IsFair w' s' live' count flag bytes more = record {
    live = ground (arith, alive_one);
    bytes = omega (arith, bytes);
    whole = elim (Bool-cases s.abort) [
      | inl e ↦ inl (flag ∙ e)
      | inr e ↦ inr (e, (bytes, (more, inl (ground arith))))
    ];
  }

  -- A worker that leaves where the flag is raised.
  leave_flagged-IsFair :
      (s' : Shared)
      → 1 ≤ s.live_workers
      → s'.live_workers ≡ s.live_workers
      → s'.abort ≡ true
      → s'.bytes_uploaded ≡ s.bytes_uploaded
      → prefix chunks s.next_index ≤ prefix chunks s'.next_index
      → IsFair chunks w s (leave s')
  unfolding leave
  leave_flagged-IsFair s' one count flag bytes more = record {
    live = omega (arith, alive_one, one, count);
    bytes = omega (arith, bytes, more);
    whole = inl flag;
  }

  bail-IsFair :
      (e : AppError) (s' : Shared)
      → 1 ≤ s.live_workers
      → s'.live_workers ≡ s.live_workers
      → s'.bytes_uploaded ≡ s.bytes_uploaded
      → prefix chunks s.next_index ≤ prefix chunks s'.next_index
      → IsFair chunks w s (bail e s')
  unfolding record_error
  bail-IsFair e s' one count bytes more =
      leave_flagged-IsFair (record_error e s') one count refl bytes more

module _ (show : ℕ → Bytes) (path : Bytes) (chunks : List ChunkPlan) where
  claim-IsFair :
      (i : Input) (s : Shared)
      → 1 ≤ s.live_workers
      → IsFair chunks claiming s (claim show path chunks i s)
  unfolding claim leave is_live
  claim-IsFair i s one =
      let s' : Shared = record s { next_index = suc s.next_index } in
      let grows = prefix-suc chunks s.next_index in
      elim (Bool-cases (leb (length chunks) s.next_index)) [
        | inl e ↦
            let none_left = length_at_end s.next_index chunks (leb→le _ _ e) in
            rw (claim, e)
              (record {
                live = omega (arith, one);
                bytes = omega (arith, grows);
                whole = elim (Bool-cases s.abort) [
                  | inl flag ↦ inl flag
                  | inr flag ↦ inr (
                    flag,
                    (
                      omega (arith, grows, none_left),
                      (omega arith, inr (omega (arith, leb→le _ _ e))),
                    ),
                  )
                ];
              })
        | inr e ↦
            rw (claim, e)
              (if_elim (IsFair chunks claiming s) i.complete_read _ _
                (keeps-IsFair chunks claiming s refl (uploading s.next_index) s' refl refl refl
                  (omega (arith, grows)) (omega arith))
                (bail-IsFair chunks claiming s refl _ s' one refl refl (omega (arith, grows))))
      ]

  -- The bytes of a chunk are no more in flight, but uploaded.
  counted-IsFair :
      (idx : ℕ) (s : Shared)
      → IsFair chunks (uploading idx) s (count_bytes (length_at idx chunks) s)
  unfolding count_bytes is_live
  counted-IsFair idx s =
      keeps-IsFair chunks (uploading idx) s refl idle
        (record s { bytes_uploaded = s.bytes_uploaded + length_at idx chunks }) refl refl refl
        (omega arith) (omega arith)

  finish_file-IsFair :
      (idx : ℕ) (parsed : Bytes ⊎ Bytes) (s : Shared)
      → 1 ≤ s.live_workers
      → IsFair chunks
          (uploading idx)
          s
          (finish_file show path chunks (length_at idx chunks) parsed s)
  unfolding finish_file count_bytes is_live
  finish_file-IsFair idx (inl what) s one =
      bail-IsFair chunks (uploading idx) s refl _ s one refl refl (omega arith)
  finish_file-IsFair idx (inr id) s one =
      keeps-IsFair chunks (uploading idx) s refl idle _ refl refl refl (omega arith) (omega arith)

  settle-IsFair :
      (idx : ℕ) (i : Input) (code : ℕ) (body : Bytes) (s : Shared)
      → 1 ≤ s.live_workers
      → IsFair chunks (uploading idx) s (settle show path chunks idx i code body s)
  unfolding settle is_live
  settle-IsFair idx i code body s one =
      let Q = IsFair chunks (uploading idx) s in
      if_cases Q s.abort _ _
        (λ e. leave_flagged-IsFair chunks (uploading idx) s refl s one refl e refl (omega arith))
        (λ e. if_elim Q (code == 200 || code == 201) _ _ (finish_file-IsFair idx i.parsed s one) (
          if_elim Q (code == 308) _ _ (counted-IsFair idx s)
            (bail-IsFair chunks (uploading idx) s refl _ s one refl refl (omega arith))))

  end_chunk-IsFair :
      (idx : ℕ) (i : Input) (o : ChunkOutcome) (s : Shared)
      → 1 ≤ s.live_workers
      → IsStopped o s
      → IsFair chunks (uploading idx) s (end_chunk show path chunks idx i o s)
  unfolding end_chunk is_live
  end_chunk-IsFair idx i (failed e) s one flag =
      bail-IsFair chunks (uploading idx) s refl e s one refl refl (omega arith)
  end_chunk-IsFair idx i stopped s one flag =
      leave_flagged-IsFair chunks (uploading idx) s refl s one refl flag refl (omega arith)
  end_chunk-IsFair idx i (settled code body) s one flag = settle-IsFair idx i code body s one

  pub advance-IsFair :
      (i : Input) (w : Worker) (s : Shared)
      → is_live w ≡ true
      → 1 ≤ s.live_workers
      → IsStopped i.outcome s
      → IsFair chunks w s (advance show path chunks i w s)
  unfolding advance is_live
  advance-IsFair i starting s live one flag =
      if_elim (IsFair chunks starting s) i.opened _ _
        (keeps-IsFair chunks starting s refl idle s refl refl refl refl (omega arith))
        (bail-IsFair chunks starting s refl _ s one refl refl (omega arith))
  advance-IsFair i idle s live one flag =
      if_cases (IsFair chunks idle s) s.abort _ _
        (λ e. leave_flagged-IsFair chunks idle s refl s one refl e refl (omega arith))
        (λ e.
          if_elim (IsFair chunks idle s) i.cancelled _ _
            (leave_flagged-IsFair chunks idle s refl (record s { abort = true }) one refl refl refl
              (omega arith))
            (keeps-IsFair chunks idle s refl claiming s refl refl refl refl (omega arith)))
  advance-IsFair i claiming s live one flag = claim-IsFair i s one
  advance-IsFair i (uploading idx) s live one flag = end_chunk-IsFair idx i i.outcome s one flag
  advance-IsFair i exited s live one flag = absurd cc
