-- ===== src/Application/Transfer/Steps.antt =====
-- The coroutine and its uploads as a transition system.
use cpp_mirror_leech_bot.Prelude.{ℕ, suc, ◌≡◌, Bool, ◌==◌, if◌then◌else◌, Bytes}
use cpp_mirror_leech_bot.Core.Error.{Result}
use cpp_mirror_leech_bot.Application.Transfer.Status.{UploadResult}
use cpp_mirror_leech_bot.Application.Transfer.Uploads.{finish_upload}
use cpp_mirror_leech_bot.Application.Transfer.{
  Flavour, Point, polling, feeding, checking, draining, concluding, finished, Transfer, Input,
  conclude, poll, feed, check, finish,
}

-- What does not change during a transfer: the use case, the size of the pool of uploads, whether the
-- backend allows uploads during the download, and the text that announces the destination.
pub record Setting : Type 0 where
  pub flavour : Flavour
  pub pool : ℕ
  pub pipelining : Bool
  pub announcement : Bytes

-- The coroutine goes on from a point; at `draining` it waits for the uploads in flight.
unfoldable pub resume_at : Setting → Point → Input → Transfer → Transfer
resume_at s polling i c = poll s.pipelining i c
resume_at s (feeding files) i c = feed s.pool i files c
resume_at s checking i c = check c
resume_at s (draining reason) i c =
    if c.pipeline.in_flight == 0 then conclude s.flavour reason i c else c
resume_at s concluding i c = finish s.flavour s.announcement i c
resume_at s (finished r) i c = c

unfoldable pub resume : Setting → Input → Transfer → Transfer
unfolding resume_at
resume s i c = resume_at s c.point i c

-- An upload in flight ends.
abbrev pub with_result : Result UploadResult → Transfer → Transfer
with_result r c = record c { pipeline = finish_upload r c.pipeline }

pub data Step (s : Setting) : Transfer → Transfer → Type 0 where
  runs : {c : Transfer} (i : Input) → Step s c (resume s i c)
  upload_ends :
      {c : Transfer} {n : ℕ} (r : Result UploadResult)
      → c.pipeline.in_flight ≡ suc n
      → Step s c (with_result r c)

pub data Reach (s : Setting) (c : Transfer) : Transfer → Type 0 where
  here : Reach s c c
  next : {d e : Transfer} → Reach s c d → Step s d e → Reach s c e

-- Induction over the steps.
pub Reach_induction :
    (s : Setting) (P : Transfer → Type 0)
    → ((i : Input) (c : Transfer) → P c → P (resume s i c))
    → ((r : Result UploadResult) (c : Transfer) (n : ℕ)
        → c.pipeline.in_flight ≡ suc n
        → P c
        → P (with_result r c))
    → {c d : Transfer} → Reach s c d
    → P c
    → P d
Reach_induction s P keep ends here h = h
Reach_induction s P keep ends (next r (runs i)) h = keep i _ (Reach_induction s P keep ends r h)
Reach_induction s P keep ends (next r (upload_ends x e)) h =
    ends x _ _ e (Reach_induction s P keep ends r h)
