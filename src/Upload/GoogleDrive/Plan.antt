-- ===== src/Upload/GoogleDrive/Plan.antt =====
-- The chunks of a resumable upload, in src/infrastructure/upload/google_drive_uploader.cpp: aligned to
-- 256 KiB, and together the file. The loop over the offsets recurses on fuel, of which the size of the
-- file is enough.
pub mod Tiling
use cpp_mirror_leech_bot.Prelude.{
  ℕ, zero, suc, ◌+◌, ◌-◌, ◌*◌, ◌/◌, ◌%◌, ◌^◌, ltb, List, [], ◌∷◌, if◌then◌else◌,
}
use Prim.Native.Nat.{min, max}

abbrev pub resumable_alignment : ℕ
resumable_alignment = 262144

abbrev pub multipart_threshold : ℕ
multipart_threshold = 5242880

pub record ChunkPlan : Type 0 where
  pub offset : ℕ
  pub length : ℕ

-- The cast of a `size_t` to `std::int64_t`, a negative one as 0: only its maximum with a positive number
-- is taken.
unfoldable pub to_int64 : ℕ → ℕ
to_int64 n = let bits = n % 2 ^ 64 in if ltb bits (2 ^ 63) then bits else 0

-- The configured size, at least one unit and whole units.
unfoldable pub chunk_bytes : ℕ → ℕ
chunk_bytes chunk_size =
    max (to_int64 chunk_size) resumable_alignment / resumable_alignment * resumable_alignment

-- The loop from an offset on.
unfoldable pub plan_from : ℕ → ℕ → ℕ → ℕ → List ChunkPlan
plan_from zero chunk total offset = []
plan_from (suc fuel) chunk total offset =
    let rest = plan_from fuel chunk total (offset + chunk) in
    if ltb offset total
    then (record { offset = offset; length = min chunk (total - offset) }) ∷ rest
    else []

unfoldable pub plan : ℕ → ℕ → List ChunkPlan
plan chunk_size total = plan_from (suc total) (chunk_bytes chunk_size) total 0
