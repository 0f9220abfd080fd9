-- ===== src/Upload/GoogleDrive/Workers/Whole.antt =====
-- What holds of the workers at any time, and of the file when the last of them has left.
use cpp_mirror_leech_bot.Prelude.{
  ℕ, zero, suc, ◌+◌, ◌≤◌, ◌≡◌, ◌⊎◌, refl, ap, ◌∙◌, inl, inr, true, List, [], ◌∷◌, ◌++◌, length,
  length-replicate, arith, Bytes, take,
}
use cpp_mirror_leech_bot.Prelude.Sums.{total, total-replicate, total_at}
use cpp_mirror_leech_bot.Upload.GoogleDrive.Plan.{ChunkPlan, plan}
use cpp_mirror_leech_bot.Upload.GoogleDrive.Plan.Tiling.{lengths, plan-IsTiling, IsTiling-lengths}
use cpp_mirror_leech_bot.Upload.GoogleDrive.Workers.{
  Shared, Worker, starting, idle, claiming, uploading, exited, Input, advance, Pool, started,
}
use cpp_mirror_leech_bot.Upload.GoogleDrive.Workers.Steps.{
  is_live, IsStopped, at_work, Reach, Reach_induction,
}
use cpp_mirror_leech_bot.Upload.GoogleDrive.Workers.Fair.{
  prefix, alive, gone, in_flight, advance-IsFair,
}

pub record IsAccounted (chunks : List ChunkPlan) (p : Pool) : Type 0 where
  pub live : p.shared.live_workers ≡ total alive p.workers
  pub bytes :
      p.shared.bytes_uploaded + total (in_flight chunks) p.workers
      ≤ prefix chunks p.shared.next_index
  pub whole :
      (p.shared.abort ≡ true)
      ⊎ ((p.shared.bytes_uploaded + total (in_flight chunks) p.workers
            ≡ prefix chunks p.shared.next_index)
          × ((total gone p.workers ≡ 0) ⊎ (length chunks ≤ p.shared.next_index)))

alive_one : (w : Worker) → is_live w ≡ true → alive w ≡ 1
unfolding is_live
alive_one w h = ground arith

module _ (show : ℕ → Bytes) (path : Bytes) (chunks : List ChunkPlan)
    (Allowed : Input → Type 0) where
  advance-IsAccounted :
      (i : Input) (front back : List Worker) (w : Worker) (s : Shared)
      → is_live w ≡ true
      → IsStopped i.outcome s
      → Allowed i
      → IsAccounted chunks (at_work front w back s)
      → IsAccounted chunks
          (at_work front (advance show path chunks i w s).0 back (advance show path chunks i w s).1)
  advance-IsAccounted i front back w s lives flag allowed h =
      let one : alive w ≡ 1 = alive_one w lives in
      let some_live : 1 ≤ s.live_workers =
        omega (arith, h.live, one, total_at alive front back w) in
      let fair = advance-IsFair show path chunks i w s lives some_live flag in
      let w' = (advance show path chunks i w s).0 in
      let flying = total_at (in_flight chunks) front back w in
      let flying' = total_at (in_flight chunks) front back w' in
      record {
        live =
            omega
              (arith, fair.live, h.live, total_at alive front back w, total_at alive front back w');
        bytes = omega (arith, fair.bytes, h.bytes, flying, flying');
        whole = elim h.whole [
          | inl up ↦ elim fair.whole [
            | inl up' ↦ inl up'
            | inr (down, rest) ↦ ground (arith, up, down)
          ]
          | inr (eq, left) ↦ elim fair.whole [
            | inl up ↦ inl up
            | inr (down, (eq', (more, ended))) ↦ inr (
              omega (arith, eq, eq', flying, flying'),
              elim ended [
                | inr over ↦ inr over
                | inl stays ↦ elim left [
                  | inr over ↦ inr (omega (arith, over, more))
                  | inl none_gone ↦ inl (
                      omega (
                        arith,
                        none_gone,
                        stays,
                        total_at gone front back w,
                        total_at gone front back w',
                      ))
                ]
              ],
            )
          ]
        ];
      }

  started-IsAccounted : (n : ℕ) → IsAccounted chunks (started n)
  unfolding started
  started-IsAccounted n = record {
    live = omega (arith, total-replicate alive n starting);
    bytes = omega (arith, total-replicate (in_flight chunks) n starting);
    whole = inr (
      omega (arith, total-replicate (in_flight chunks) n starting),
      inl (omega (arith, total-replicate gone n starting)),
    );
  }

  pub reachable-IsAccounted :
      (n steps : ℕ) (p : Pool)
      → Reach show path chunks Allowed (started n) steps p
      → IsAccounted chunks p
  reachable-IsAccounted n steps p r =
      Reach_induction show path chunks Allowed (IsAccounted chunks) (started n) advance-IsAccounted
        r (started-IsAccounted n)

-- Every worker is alive or gone, and one that is gone uploads nothing.
all_gone :
    (chunks : List ChunkPlan) (ws : List Worker)
    → total alive ws ≡ 0
    → (total (in_flight chunks) ws ≡ 0) × (total gone ws ≡ length ws)
all_gone chunks [] h = (refl, refl)
all_gone chunks (exited ∷ ws) h =
    let (flying, left) = all_gone chunks ws (omega (arith, h)) in
    (omega (arith, flying), omega (arith, left))
all_gone chunks (starting ∷ ws) h = absurd (omega (arith, h))
all_gone chunks (idle ∷ ws) h = absurd (omega (arith, h))
all_gone chunks (claiming ∷ ws) h = absurd (omega (arith, h))
all_gone chunks (uploading idx ∷ ws) h = absurd (omega (arith, h))

take-length : (chunks : List ChunkPlan) (k : ℕ) → length chunks ≤ k → take k chunks ≡ chunks
take-length [] zero h = refl
take-length [] (suc k) h = refl
take-length (c ∷ rest) zero h = absurd (omega (arith, h))
take-length (c ∷ rest) (suc k) h = ap (λ cs. c ∷ cs) (take-length rest k (omega (arith, h)))

prefix-le-lengths : (chunks : List ChunkPlan) (k : ℕ) → prefix chunks k ≤ lengths chunks
prefix-le-lengths [] zero = omega arith
prefix-le-lengths [] (suc k) = omega arith
prefix-le-lengths (c ∷ rest) zero = omega arith
prefix-le-lengths (c ∷ rest) (suc k) = omega (arith, prefix-le-lengths rest k)

length_at_work :
    (front back : List Worker) (w w' : Worker)
    → length (front ++ w ∷ back) ≡ length (front ++ w' ∷ back)
length_at_work [] back w w' = refl
length_at_work (x ∷ front) back w w' = ap suc (length_at_work front back w w')

-- When the last worker has left, either the flag is raised, or every byte of the file is uploaded; and
-- never more than those of the file: whatever the number of workers, the configured size of a chunk,
-- the replies and the order in which the workers run.
pub joined-Whole :
    (show : ℕ → Bytes) (path : Bytes) (Allowed : Input → Type 0) (chunk_size size n steps : ℕ)
    (p : Pool)
    → Reach show path (plan chunk_size size) Allowed (started (suc n)) steps p
    → p.shared.live_workers ≡ 0
    → (p.shared.bytes_uploaded ≤ size)
      × ((p.shared.abort ≡ true) ⊎ (p.shared.bytes_uploaded ≡ size))
unfolding started
joined-Whole show path Allowed chunk_size size n steps p r none_live =
    let chunks = plan chunk_size size in
    let h = reachable-IsAccounted show path chunks Allowed (suc n) steps p r in
    let all_bytes = IsTiling-lengths 0 size chunks (plan-IsTiling chunk_size size) in
    let within = prefix-le-lengths chunks p.shared.next_index in
    let (flying, left) = all_gone chunks p.workers (omega (arith, h.live, none_live)) in
    let many =
      Reach_induction show path chunks Allowed (λ q. length q.workers ≡ suc n) (started (suc n))
        (λ i front back w s lives flag allowed e. length_at_work front back _ w ∙ e) r
        (length-replicate (suc n) starting) in
    (
      omega (arith, h.bytes, within, all_bytes),
      elim h.whole [
        | inl up ↦ inl up
        | inr (eq, cause) ↦ elim cause [
          | inl none_gone ↦ absurd (omega (arith, none_gone, left, many))
          | inr over ↦
              let whole = ap lengths (take-length chunks p.shared.next_index over) in
              inr (omega (arith, eq, flying, whole, all_bytes))
        ]
      ],
    )
