-- ===== src/Upload/GoogleDrive/Files.antt =====
-- The workers that share the files of a directory in `GoogleDriveUploader::upload_directory`, from one
-- point where a worker waits or meets the others to the next. What `upload_file` gives for the file at
-- an index is an argument, and whether a run sees its cancellation.
pub mod Calm
pub mod Outcome
use cpp_mirror_leech_bot.Prelude.{
  ℕ, suc, ◌-◌, ◌≡◌, Bool, true, false, leb, Option, none, some, List, [], ◌∷◌, ◌++◌, if◌then◌else◌,
  replicate,
}
use cpp_mirror_leech_bot.Core.Error.{AppError, Result, ok, err}
use cpp_mirror_leech_bot.Application.Transfer.Status.{UploadResult}

pub record DirShared : Type 0 where
  pub next_index : ℕ
  pub live_workers : ℕ
  pub abort : Bool
  pub first_error : Option AppError
  pub results : List UploadResult

-- Before the test of the flag, before the claim of a file, in the upload of one, or nowhere.
pub data FileWorker : Type 0 where
  idle claiming exited : FileWorker
  uploading : ℕ → FileWorker

unfoldable pub is_live : FileWorker → Bool
is_live exited = false
is_live _ = true

unfoldable pub leave : DirShared → FileWorker × DirShared
leave s = (exited, record s { live_workers = s.live_workers - 1 })

-- Only the first error is kept; every one raises the flag.
unfoldable pub record_error : AppError → DirShared → DirShared
record_error e s = record s {
  first_error = elim s.first_error [ none ↦ some e | some first ↦ some first ];
  abort = true;
}

-- The end of an upload.
unfoldable pub settle : Result UploadResult → DirShared → FileWorker × DirShared
settle (err e) s = leave (record_error e s)
settle (ok r) s = (idle, record s { results = s.results ++ r ∷ [] })

-- One run of a worker, of a pool for a number of files.
unfoldable pub advance :
    ℕ → (ℕ → Result UploadResult) → Bool → FileWorker → DirShared → FileWorker × DirShared
advance files outcome cancelled idle s =
    if s.abort
    then leave s
    else if cancelled
    then leave (record s { abort = true })
    else (claiming, s)
advance files outcome cancelled claiming s =
    let s' : DirShared = record s { next_index = suc s.next_index } in
    if leb files s.next_index then leave s' else (uploading s.next_index, s')
advance files outcome cancelled (uploading idx) s = settle (outcome idx) s
advance files outcome cancelled exited s = (exited, s)

-- What the parent goes on with when the last worker has left.
unfoldable pub joined : DirShared → Result (List UploadResult)
joined s = elim s.first_error [ some e ↦ err e | none ↦ ok s.results ]

-- The shared state and the workers.
pub record FilePool : Type 0 where
  pub shared : DirShared
  pub workers : List FileWorker

unfoldable pub started : ℕ → FilePool
started n = record {
  shared = record {
    next_index = 0;
    live_workers = n;
    abort = false;
    first_error = none;
    results = [];
  };
  workers = replicate n idle;
}

abbrev pub at_work : List FileWorker → FileWorker → List FileWorker → DirShared → FilePool
at_work front w back s = record { shared = s; workers = front ++ w ∷ back }

-- Runs in which a cancellation may be seen or not.
module _ (files : ℕ) (outcome : ℕ → Result UploadResult) (may_cancel : Bool) where
  -- One of the workers runs.
  pub data Step : FilePool → FilePool → Type 0 where
    runs :
        (cancelled : Bool) (front back : List FileWorker) (w : FileWorker) (s : DirShared)
        → is_live w ≡ true
        → (cancelled ≡ true → may_cancel ≡ true)
        → Step (at_work front w back s) (
            at_work front
              (advance files outcome cancelled w s).0
              back
              (advance files outcome cancelled w s).1)

  -- A number of steps.
  pub data Reach (p : FilePool) : ℕ → FilePool → Type 0 where
    here : Reach p 0 p
    next : {n : ℕ} {q r : FilePool} → Reach p n q → Step q r → Reach p (suc n) r
