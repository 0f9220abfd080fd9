-- ===== src/Upload/GoogleDrive/Workers.antt =====
-- The workers of `upload_resumable` in src/infrastructure/upload/google_drive_uploader.cpp, which take the
-- chunks of the plan by index. A worker runs from one access of the shared state to the next, and any of
-- them may run at any time. Reading a file, a chunk's outcome and what is parsed are inputs.
pub mod Steps
pub mod Fair
pub mod Whole
pub mod Ends
pub mod Outcome
use cpp_mirror_leech_bot.Prelude.{
  ℕ, zero, suc, ◌+◌, ◌-◌, ◌⊎◌, inl, inr, Bool, true, false, not, ◌&&◌, ◌||◌, ◌==◌, leb, Option,
  none, some, List, [], ◌∷◌, ◌++◌, length, replicate, if◌then◌else◌, is_empty, Bytes, bytes,
}
use Prim.Native.Nat.{min, max}
use cpp_mirror_leech_bot.Prelude.Integers.{ℤ, pos_part}
use cpp_mirror_leech_bot.Core.Error.{
  AppError, Result, ok, err, error, io_error, json_parse, google_drive_api,
}
use cpp_mirror_leech_bot.Upload.GoogleDrive.Plan.{ChunkPlan}
use cpp_mirror_leech_bot.Upload.GoogleDrive.Chunk.{ChunkOutcome, failed, stopped, settled}

pub record Shared : Type 0 where
  pub next_index : ℕ
  pub live_workers : ℕ
  pub bytes_uploaded : ℕ
  pub abort : Bool
  pub first_error : Option AppError
  pub file_id : Bytes

-- Where a worker goes on: at its start, at the test of the flag, at the claim of an index, with the
-- outcome of a chunk, or nowhere.
pub data Worker : Type 0 where
  starting idle claiming exited : Worker
  uploading : ℕ → Worker

-- What one run of a worker meets.
pub record Input : Type 0 where
  pub opened : Bool
  pub cancelled : Bool
  pub complete_read : Bool
  pub outcome : ChunkOutcome
  pub parsed : Bytes ⊎ Bytes

-- The length of the chunk at an index.
unfoldable pub length_at : ℕ → List ChunkPlan → ℕ
length_at idx [] = 0
length_at zero (c ∷ rest) = c.length
length_at (suc idx) (c ∷ rest) = length_at idx rest

-- Only the first error is kept; every one raises the flag.
unfoldable pub record_error : AppError → Shared → Shared
record_error e s = record s {
  first_error = elim s.first_error [ none ↦ some e | some first ↦ some first ];
  abort = true;
}

-- The guard's destructor.
unfoldable pub leave : Shared → Worker × Shared
leave s = (exited, record s { live_workers = s.live_workers - 1 })

abbrev pub bail : AppError → Shared → Worker × Shared
bail e s = leave (record_error e s)

unfoldable pub count_bytes : ℕ → Shared → Worker × Shared
count_bytes n s = (idle, record s { bytes_uploaded = s.bytes_uploaded + n })

module _ (show : ℕ → Bytes) (path : Bytes) (chunks : List ChunkPlan) where
  unfoldable pub claim : Input → Shared → Worker × Shared
  unfolding bytes
  claim i s =
      let idx = s.next_index in
      let s' : Shared = record s { next_index = suc idx } in
      if leb (length chunks) idx
      then leave s'
      else if i.complete_read
      then (uploading idx, s')
      else bail
          (record { code = io_error; message = bytes "gdrive: worker short read on " ++ path }) s'

  -- The file identifier of a final reply.
  unfoldable pub finish_file : ℕ → Bytes ⊎ Bytes → Shared → Worker × Shared
  unfolding bytes
  finish_file n (inl what) s =
      bail (record { code = json_parse; message = bytes "gdrive: final chunk parse: " ++ what }) s
  finish_file n (inr id) s = count_bytes n (record s { file_id = id })

  unfoldable pub settle : ℕ → Input → ℕ → Bytes → Shared → Worker × Shared
  unfolding bytes
  settle idx i code body s =
      let n = length_at idx chunks in
      if s.abort
      then leave s
      else if code == 200 || code == 201
      then finish_file n i.parsed s
      else if code == 308
      then count_bytes n s
      else bail
          (record {
            code = google_drive_api;
            message = bytes "gdrive: chunk PUT returned " ++ show code ++ bytes ": " ++ body;
          })
          s

  -- A chunk that is stopped was stopped by the flag, which is never lowered.
  unfoldable pub end_chunk : ℕ → Input → ChunkOutcome → Shared → Worker × Shared
  end_chunk idx i (failed e) s = bail e s
  end_chunk idx i stopped s = leave s
  end_chunk idx i (settled code body) s = settle idx i code body s

  unfoldable pub advance : Input → Worker → Shared → Worker × Shared
  unfolding bytes
  advance i starting s =
      if i.opened
      then (idle, s)
      else bail (record { code = io_error; message = bytes "gdrive: worker cannot open " ++ path })
          s
  advance i idle s =
      if s.abort
      then leave s
      else if i.cancelled
      then leave (record s { abort = true })
      else (claiming, s)
  advance i claiming s = claim i s
  advance i (uploading idx) s = end_chunk idx i i.outcome s
  advance i exited s = (exited, s)

  -- `std::clamp(parallel_chunks_per_file, 1, std::max(1, num_chunks))`.
  unfoldable pub parallelism : ℤ → ℕ
  parallelism configured = min (max 1 (pos_part configured)) (max 1 (length chunks))

-- What the main coroutine goes on with when the last worker has left.
unfoldable pub joined : Shared → Result Bytes
unfolding bytes
joined s = elim s.first_error [
  | some e ↦ err e
  | none ↦
      if is_empty s.file_id
      then error google_drive_api (bytes "gdrive: no chunk returned final response")
      else ok s.file_id
]

-- The shared state and the workers.
pub record Pool : Type 0 where
  pub shared : Shared
  pub workers : List Worker

unfoldable pub started : ℕ → Pool
started n = record {
  shared = record {
    next_index = 0;
    live_workers = n;
    bytes_uploaded = 0;
    abort = false;
    first_error = none;
    file_id = [];
  };
  workers = replicate n starting;
}
