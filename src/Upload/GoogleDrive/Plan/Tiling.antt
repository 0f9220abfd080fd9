-- ===== src/Upload/GoogleDrive/Plan/Tiling.antt =====
-- The chunks of a plan lie end to end from the start of the file to its end.
use Prim.Native.Nat.{min}
use cpp_mirror_leech_bot.Prelude.{
  ℕ, zero, suc, ◌+◌, ◌-◌, ◌%◌, ◌≤◌, ◌<◌, ◌≡◌, ◌⊎◌, refl, inl, inr, Bool-cases, ltb, leb, leb→le,
  ltb→lt, List, [], ◌∷◌, arith,
}
use cpp_mirror_leech_bot.Upload.GoogleDrive.Plan.{ChunkPlan, chunk_bytes, plan_from, plan}

-- Chunks from an offset to a total, without gap or overlap, none of them empty, each of which but the
-- last has the size of whole units of 256 KiB.
abbrev pub IsTiling : ℕ → ℕ → List ChunkPlan → Type 0
IsTiling offset total [] = offset ≡ total
IsTiling offset total (c ∷ rest) =
    (c.offset ≡ offset)
    × ((0 < c.length)
        × (((c.length % 262144 ≡ 0) ⊎ (offset + c.length ≡ total))
            × IsTiling (offset + c.length) total rest))

chunk_bytes_lem : (n : ℕ) → (0 < chunk_bytes n) × (chunk_bytes n % 262144 ≡ 0)
unfolding chunk_bytes
chunk_bytes_lem n = (omega arith, omega arith)

plan_from_end :
    (fuel chunk total offset : ℕ) → total ≤ offset → plan_from fuel chunk total offset ≡ []
unfolding plan_from
plan_from_end zero chunk total offset h = refl
plan_from_end (suc fuel) chunk total offset h = ground (arith, h)

plan_from-IsTiling :
    (fuel chunk total offset : ℕ)
    → 0 < chunk
    → chunk % 262144 ≡ 0
    → offset ≤ total
    → total < offset + fuel
    → IsTiling offset total (plan_from fuel chunk total offset)
unfolding plan_from
plan_from-IsTiling zero chunk total offset some whole le enough = absurd (omega (arith, le, enough))
plan_from-IsTiling (suc fuel) chunk total offset positive whole le enough =
    elim (Bool-cases (ltb offset total)) [
      | inr e ↦ rw e (ground (arith, e, le))
      | inl e ↦ elim (Bool-cases (leb (offset + chunk) total)) [
        | inl fits ↦
            let size : min chunk (total - offset) ≡ chunk = omega (arith, leb→le _ _ fits) in
            rw (e, size)
              (
                refl,
                (
                  positive,
                  (
                    inl whole,
                    plan_from-IsTiling fuel chunk total (offset + chunk) positive whole
                        (leb→le _ _ fits) (omega (arith, enough, positive)),
                  ),
                ),
              )
        | inr over ↦
            let past : total ≤ offset + chunk = ground (arith, over) in
            let size : min chunk (total - offset) ≡ total - offset = omega (arith, past) in
            let room : offset < total = ltb→lt _ _ e in
            rw (e, size, plan_from_end fuel chunk total (offset + chunk) past)
              (refl, (omega (arith, room), (inr (omega (arith, room)), omega (arith, room))))
      ]
    ]

-- Whatever the configured size of a chunk, the plan of a file tiles it.
pub plan-IsTiling : (chunk_size total : ℕ) → IsTiling 0 total (plan chunk_size total)
unfolding plan
plan-IsTiling chunk_size total =
    let (positive, whole) = chunk_bytes_lem chunk_size in
    plan_from-IsTiling (suc total) (chunk_bytes chunk_size) total 0 positive whole (omega arith)
      (omega arith)

-- The bytes of the chunks.
abbrev pub lengths : List ChunkPlan → ℕ
lengths [] = 0
lengths (c ∷ rest) = c.length + lengths rest

pub IsTiling-lengths :
    (offset total : ℕ) (cs : List ChunkPlan)
    → IsTiling offset total cs
    → offset + lengths cs ≡ total
IsTiling-lengths offset total [] h = omega (arith, h)
IsTiling-lengths offset total (c ∷ rest) h =
    omega (arith, IsTiling-lengths (offset + c.length) total rest h.1.1.1)
