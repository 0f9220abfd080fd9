-- ===== src/Application/Transfer/Uploads.antt =====
-- `PipelineState` of src/application/mirror_url.cpp and the closures over it. Its mutex makes each of
-- these one step. `queued` holds the paths latest first.
use cpp_mirror_leech_bot.Prelude.{
  ℕ, ◌+◌, ◌-◌, Bool, false, ◌||◌, Option, none, some, List, [], ◌∷◌, ◌++◌, if◌then◌else◌, ltb,
  Bytes, bytes_eq,
}
use cpp_mirror_leech_bot.Prelude.Integers.{ℤ, pos, negsuc}
use cpp_mirror_leech_bot.Core.Error.{AppError, Result, ok, err}
use cpp_mirror_leech_bot.Application.Transfer.Status.{UploadResult}

pub record Pipeline : Type 0 where
  pub queued : List Bytes
  pub in_flight : ℕ
  pub completed : ℕ
  pub failed : ℕ
  pub first_error : Option AppError
  pub results : List UploadResult

abbrev pub no_uploads : Pipeline
no_uploads = record {
  queued = [];
  in_flight = 0;
  completed = 0;
  failed = 0;
  first_error = none;
  results = [];
}

-- `upload_pool_size > 0 ? upload_pool_size : 1`, in the constructor.
unfoldable pub pool_size : ℤ → ℕ
pool_size (pos n) = if ltb 0 n then n else 1
pool_size (negsuc n) = 1

-- `queued.contains(file)`.
unfoldable pub is_queued : Bytes → List Bytes → Bool
is_queued file [] = false
is_queued file (q ∷ queued) = bytes_eq q file || is_queued file queued

unfoldable pub can_spawn_more : ℕ → Pipeline → Bool
can_spawn_more pool p = ltb p.in_flight pool

-- `spawn_upload`: nothing for a path that is queued already.
unfoldable pub spawn_upload : Bytes → Pipeline → Pipeline
spawn_upload file p =
    if is_queued file p.queued
    then p
    else record p { queued = file ∷ p.queued; in_flight = p.in_flight + 1 }

abbrev or_first : Option AppError → AppError → Option AppError
or_first none e = some e
or_first (some first) e = some first

-- The end of a spawned upload, once `upload_file` has given its result.
unfoldable pub finish_upload : Result UploadResult → Pipeline → Pipeline
finish_upload (ok r) p = record p {
  in_flight = p.in_flight - 1;
  completed = p.completed + 1;
  results = p.results ++ r ∷ [];
}
finish_upload (err e) p = record p {
  in_flight = p.in_flight - 1;
  failed = p.failed + 1;
  first_error = or_first p.first_error e;
}
