-- ===== src/Upload/GoogleDrive/Workers/Steps.antt =====
-- The workers as a transition system, its runs, and what no step breaks.
use cpp_mirror_leech_bot.Prelude.{ℕ, suc, ◌≡◌, Bool, true, false, List, ◌∷◌, ◌++◌, Bytes}
use cpp_mirror_leech_bot.Upload.GoogleDrive.Plan.{ChunkPlan}
use cpp_mirror_leech_bot.Upload.GoogleDrive.Chunk.{ChunkOutcome, failed, stopped, settled}
use cpp_mirror_leech_bot.Upload.GoogleDrive.Workers.{Shared, Worker, exited, Input, advance, Pool}

unfoldable pub is_live : Worker → Bool
is_live exited = false
is_live _ = true

-- A chunk is stopped only where the flag is raised.
abbrev pub IsStopped : ChunkOutcome → Shared → Type 0
IsStopped (failed e) s = Unit {0}
IsStopped stopped s = s.abort ≡ true
IsStopped (settled code body) s = Unit {0}

abbrev pub at_work : List Worker → Worker → List Worker → Shared → Pool
at_work front w back s = record { shared = s; workers = front ++ w ∷ back }

-- Runs whose inputs are as asked.
module _ (show : ℕ → Bytes) (path : Bytes) (chunks : List ChunkPlan)
    (Allowed : Input → Type 0) where
  -- One of the workers runs.
  pub data Step : Pool → Pool → Type 0 where
    runs :
        (i : Input) (front back : List Worker) (w : Worker) (s : Shared)
        → is_live w ≡ true
        → IsStopped i.outcome s
        → Allowed i
        → Step (at_work front w back s) (
            at_work front
              (advance show path chunks i w s).0
              back
              (advance show path chunks i w s).1)

  -- A number of steps.
  pub data Reach (p : Pool) : ℕ → Pool → Type 0 where
    here : Reach p 0 p
    next : {n : ℕ} {q r : Pool} → Reach p n q → Step q r → Reach p (suc n) r

  -- What every step keeps holds after any number of them.
  pub Reach_induction :
      (P : Pool → Type 0) (p : Pool)
      → ((i : Input) (front back : List Worker) (w : Worker) (s : Shared)
          → is_live w ≡ true
          → IsStopped i.outcome s
          → Allowed i
          → P (at_work front w back s)
          → P (
              at_work front
                (advance show path chunks i w s).0
                back
                (advance show path chunks i w s).1))
      → {n : ℕ} {q : Pool} → Reach p n q
      → P p
      → P q
  Reach_induction P p keep here h = h
  Reach_induction P p keep (next r (runs i front back w s live flag allowed)) h =
      keep i front back w s live flag allowed (Reach_induction P p keep r h)
