-- ===== src/Upload/GoogleDrive/Files/Calm.antt =====
-- What one run of a file worker does to the results and to the files that are claimed.
use cpp_mirror_leech_bot.Prelude.{
  ℕ, zero, suc, ◌+◌, ◌≤◌, ◌≡◌, ◌⊎◌, refl, sym, ap, ◌∙◌, inl, inr, true, false, leb, leb→le, none,
  some, List, [], ◌∷◌, arith, if◌then◌else◌, if_cases,
}
use cpp_mirror_leech_bot.Prelude.Sums.{total, total-append}
use cpp_mirror_leech_bot.Core.Error.{AppError, Result, ok, err, Result-cases}
use cpp_mirror_leech_bot.Application.Transfer.Status.{UploadResult}
use cpp_mirror_leech_bot.Upload.GoogleDrive.Files.{
  DirShared, FileWorker, idle, claiming, uploading, exited, is_live, leave, record_error, settle,
  advance,
}

abbrev pub alive : FileWorker → ℕ
alive exited = 0
alive _ = 1

abbrev pub gone : FileWorker → ℕ
gone exited = 1
gone _ = 0

-- The outcomes of the first files, the last one first.
abbrev pub outcomes : (ℕ → Result UploadResult) → ℕ → List (Result UploadResult)
outcomes outcome zero = []
outcomes outcome (suc k) = outcome k ∷ outcomes outcome k

le_cases : (a k : ℕ) → a ≤ suc k → (a ≤ k) ⊎ (a ≡ suc k)
le_cases a k h = ground (arith, h)

module _ (files : ℕ) (outcome : ℕ → Result UploadResult) (f : Result UploadResult → ℕ) where
  -- The files that are claimed, the one that a worker has, and those in the results.
  abbrev pub claimed : ℕ → ℕ
  claimed zero = 0
  claimed (suc k) = if leb files k then claimed k else f (outcome k) + claimed k

  abbrev pub pending : FileWorker → ℕ
  pending (uploading idx) = f (outcome idx)
  pending _ = 0

  abbrev pub done : List UploadResult → ℕ
  done = total (λ r. f (ok r))

  claimed_within : (k : ℕ) → k ≤ files → claimed k ≡ total f (outcomes outcome k)
  claimed_within zero h = refl
  claimed_within (suc k) h = ground (arith, h, claimed_within k (omega (arith, h)))

  pub claimed_past : (k : ℕ) → files ≤ k → claimed k ≡ total f (outcomes outcome files)
  claimed_past zero h =
      let none_left : 0 ≡ files = omega (arith, h) in
      ap (λ n. total f (outcomes outcome n)) none_left
  claimed_past (suc k) h = elim (le_cases files k h) [
    | inl past ↦ ground (arith, past, claimed_past k past)
    | inr last ↦
        claimed_within (suc k) (omega (arith, last))
        ∙ ap (λ n. total f (outcomes outcome n)) (sym last)
  ]

  -- An error that the upload of a file gave.
  abbrev pub IsCause : AppError → Type 0
  IsCause e = (idx : ℕ) × (outcome idx ≡ err e)

  -- The flag comes with an error.
  abbrev pub IsRaised : DirShared → Type 0
  IsRaised s = (s.abort ≡ true) × ((e : AppError) × (s.first_error ≡ some e) × IsCause e)

  pub record IsCalm (w : FileWorker) (s : DirShared) (p : FileWorker × DirShared) : Type 0 where
    pub down : p.1.abort ≡ false
    pub unseen : p.1.first_error ≡ none
    pub kept :
        done p.1.results + pending p.0 + claimed s.next_index
        ≡ done s.results + pending w + claimed p.1.next_index
    pub more : s.next_index ≤ p.1.next_index
    pub ended : (gone p.0 ≡ 0) ⊎ (files ≤ p.1.next_index)

  pub advance-live :
      (w : FileWorker) (s : DirShared)
      → is_live w ≡ true
      → 1 ≤ s.live_workers
      → (advance files outcome false w s).1.live_workers + 1
        ≡ s.live_workers + alive (advance files outcome false w s).0
  unfolding advance settle leave record_error is_live
  advance-live idle s lives some_live = ground (arith, some_live)
  advance-live claiming s lives some_live = ground (arith, some_live)
  advance-live (uploading idx) s lives some_live = elim (Result-cases (outcome idx)) [
    | inl (r, e) ↦ rw e refl
    | inr (x, e) ↦ rw e (omega (arith, some_live))
  ]
  advance-live exited s lives some_live = absurd cc

  pub advance-IsRaised :
      (w : FileWorker) (s : DirShared)
      → is_live w ≡ true
      → IsRaised s
      → IsRaised (advance files outcome false w s).1
  unfolding advance settle leave record_error is_live
  advance-IsRaised idle s lives h =
      if_cases (λ (p : FileWorker × DirShared). IsRaised p.1) s.abort _ _ (λ e. h)
        (λ e. absurd (ground (arith, h, e)))
  advance-IsRaised claiming s lives h =
      if_cases (λ (p : FileWorker × DirShared). IsRaised p.1) (leb files s.next_index) _ _ (λ e. h)
        (λ e. h)
  advance-IsRaised (uploading idx) s lives h = elim (Result-cases (outcome idx)) [
    | inl (r, e) ↦ rw e h
    | inr (x, e) ↦ let (first, seen, cause) = h.1 in rw (e, seen) (refl, (first, refl, cause))
  ]
  advance-IsRaised exited s lives h = absurd cc

  pub advance-IsCalm :
      (w : FileWorker) (s : DirShared)
      → is_live w ≡ true
      → s.abort ≡ false
      → s.first_error ≡ none
      → IsRaised (advance files outcome false w s).1 ⊎ IsCalm w s (advance files outcome false w s)
  unfolding advance settle leave record_error is_live
  advance-IsCalm idle s lives down unseen =
      if_cases (λ (p : FileWorker × DirShared). IsRaised p.1 ⊎ IsCalm idle s p) s.abort _ _
        (λ e. absurd (ground (arith, e, down)))
        (λ e. inr (record {
          down = down;
          unseen = unseen;
          kept = refl;
          more = omega arith;
          ended = inl refl;
        }))
  advance-IsCalm claiming s lives down unseen =
      if_cases (λ (p : FileWorker × DirShared). IsRaised p.1 ⊎ IsCalm claiming s p)
        (leb files s.next_index) _ _
        (λ e. inr (record {
          down = down;
          unseen = unseen;
          kept = ground (arith, e);
          more = omega arith;
          ended = inr (ground (arith, e, leb→le files s.next_index e));
        }))
        (λ e. inr (record {
          down = down;
          unseen = unseen;
          kept = ground (arith, e);
          more = omega arith;
          ended = inl refl;
        }))
  advance-IsCalm (uploading idx) s lives down unseen = elim (Result-cases (outcome idx)) [
    | inl (r, e) ↦ rw e (
        inr (record {
          down = down;
          unseen = unseen;
          kept = omega (arith, total-append (λ r. f (ok r)) s.results (r ∷ []), ap f e);
          more = omega arith;
          ended = inl refl;
        }))
    | inr (x, e) ↦ let cause : IsCause x = (idx, e) in rw (e, unseen) (inl (refl, (x, refl, cause)))
  ]
  advance-IsCalm exited s lives down unseen = absurd cc
