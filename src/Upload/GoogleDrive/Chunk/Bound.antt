-- ===== src/Upload/GoogleDrive/Chunk/Bound.antt =====
-- How often a chunk is tried, and what its outcome can be.
use cpp_mirror_leech_bot.Prelude.{ℕ, ◌≡◌, Bool, false, List, Bytes}
use cpp_mirror_leech_bot.Http.{HttpRequest}
use cpp_mirror_leech_bot.Upload.GoogleDrive.{Service, DriveConfig}
use cpp_mirror_leech_bot.Upload.GoogleDrive.Chunk.{
  ChunkOutcome, failed, stopped, settled, is_transient,
}

module _ (service : Service) (config : DriveConfig) (session_uri : Bytes) (total : ℕ)
    (stop : List HttpRequest → Bool) where
  -- Either an error, a stop, or a status that a retry would not change.
  abbrev pub IsFinal : ChunkOutcome → Type 0
  IsFinal (failed e) = Unit {0}
  IsFinal stopped = Unit {0}
  IsFinal (settled code body) = is_transient code ≡ false
