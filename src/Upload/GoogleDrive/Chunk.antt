-- ===== src/Upload/GoogleDrive/Chunk.antt =====
-- The upload of one chunk, in `upload_resumable` of src/infrastructure/upload/google_drive_uploader.cpp: a
-- PUT that is tried again with a new token after a 401, and after a pause where the failure may pass.
-- Whether the worker sees the flag to stop after a pause is a function of the requests so far.
pub mod Bound
use cpp_mirror_leech_bot.Prelude.{
  ℕ, zero, suc, ◌+◌, ◌-◌, Bool, true, false, not, ◌&&◌, ◌||◌, ◌==◌, leb, ltb, List, [], ◌∷◌, ◌++◌,
  if◌then◌else◌, Bytes, bytes,
}
use cpp_mirror_leech_bot.Prelude.Integers.{ℤ, pos_part}
use cpp_mirror_leech_bot.Core.Error.{
  AppError, ErrorCode, Result, ok, err, cancelled_error, google_drive_api,
}
use cpp_mirror_leech_bot.Http.{put, HttpRequest, HttpResponse}
use cpp_mirror_leech_bot.Upload.GoogleDrive.Plan.{ChunkPlan}
use cpp_mirror_leech_bot.Upload.GoogleDrive.{
  Drive, Service, DriveConfig, header, http, acquire_bearer, invalidate_bearer_cache,
}

-- What one PUT came to: no token, no reply, or a reply.
pub data PutOutcome : Type 0 where
  no_bearer no_reply : AppError → PutOutcome
  answered : HttpResponse → PutOutcome

-- What the chunk came to: an error, a stop after a pause, or the status and the body of its reply.
pub data ChunkOutcome : Type 0 where
  failed : AppError → ChunkOutcome
  stopped : ChunkOutcome
  settled : ℕ → Bytes → ChunkOutcome

unfoldable pub is_transient : ℕ → Bool
is_transient code = code == 429 || (leb 500 code && ltb code 600)

unfoldable pub is_cancelled : ErrorCode → Bool
is_cancelled cancelled_error = true
is_cancelled _ = false

module _ (service : Service) (config : DriveConfig) (session_uri : Bytes) (total : ℕ)
    (stop : List HttpRequest → Bool) where
  unfoldable pub chunk_request : ChunkPlan → Bytes → Bytes → HttpRequest
  unfolding bytes
  chunk_request c body bearer = record {
    method = put;
    url = session_uri;
    headers =
        header (bytes "Authorization") bearer
        ∷ header (bytes "Content-Length") (service.show c.length)
        ∷ header (bytes "Content-Range") (
            bytes "bytes "
            ++ service.show c.offset
            ++ bytes "-"
            ++ service.show (c.offset + c.length - 1)
            ++ bytes "/"
            ++ service.show total)
        ∷ [];
    body = body;
  }

  -- One round of the inner loop.
  unfoldable pub put_with_bearer : ChunkPlan → Bytes → Drive → Drive × PutOutcome
  put_with_bearer c body d =
      let (d', bearer) = acquire_bearer service config d in
      elim bearer [
        | err e ↦ (d', no_bearer e)
        | ok token ↦
            let (d'', res) = http service config (chunk_request c body token) d' in
            (d'', elim res [ err e ↦ no_reply e | ok r ↦ answered r ])
      ]

  unfoldable pub is_refused : PutOutcome → Bool
  is_refused (answered r) = r.status_code == 401
  is_refused _ = false

  -- The inner loop: a second round, with a new token, after the first 401.
  unfoldable pub put_once : ChunkPlan → Bytes → Drive → Drive × PutOutcome
  put_once c body d =
      let first = put_with_bearer c body d in
      let again = put_with_bearer c body (invalidate_bearer_cache first.0) in
      if is_refused first.1 then again else first

  -- Whether a failure may pass: another reason than a cancellation, and a status of the service.
  unfoldable pub may_retry : PutOutcome → Bool
  may_retry (no_bearer e) = false
  may_retry (no_reply e) = not (is_cancelled e.code)
  may_retry (answered r) = is_transient r.status_code

  unfoldable pub max_retries : ℕ
  max_retries = pos_part config.max_retries

  -- The outcome where nothing is tried any more.
  unfoldable pub last_outcome : PutOutcome → ChunkOutcome
  unfolding bytes
  last_outcome (no_bearer e) = failed e
  last_outcome (no_reply e) = failed e
  last_outcome (answered r) =
      if is_transient r.status_code
      then failed (record {
        code = google_drive_api;
        message =
            bytes "gdrive: chunk PUT exhausted "
            ++ service.show (max_retries + 1)
            ++ bytes " retries: HTTP "
            ++ service.show r.status_code
            ++ bytes ": "
            ++ r.body;
      })
      else settled r.status_code r.body

  -- The attempts, with the retries that are left.
  unfoldable pub attempts : ℕ → ChunkPlan → Bytes → Drive → Drive × ChunkOutcome
  attempts zero c body d = let (d', o) = put_once c body d in (d', last_outcome o)
  attempts (suc left) c body d =
      let (d', o) = put_once c body d in
      let retried = attempts left c body d' in
      if may_retry o
      then if stop d'.requests then (d', stopped) else retried
      else (d', last_outcome o)

  unfoldable pub put_chunk : ChunkPlan → Bytes → Drive → Drive × ChunkOutcome
  put_chunk c body d = attempts max_retries c body d
