-- ===== src/Examples/Directory.antt =====
-- The upload of a directory.
use cpp_mirror_leech_bot.Prelude.{
  ℕ, ◌≡◌, ◌⊎◌, refl, Bool, true, false, none, inr, List, [], ◌∷◌, Bytes, bytes, bytes_eq,
  if◌then◌else◌,
}
use cpp_mirror_leech_bot.Prelude.Integers.{pos}
use cpp_mirror_leech_bot.Prelude.Sums.{total}
use cpp_mirror_leech_bot.Core.Error.{AppError, Result, ok, err}
use cpp_mirror_leech_bot.Application.Transfer.Status.{UploadResult}
use cpp_mirror_leech_bot.Core.Json.{string, object, stop, member, JsonLibrary}
use cpp_mirror_leech_bot.Http.{HttpRequest}
use cpp_mirror_leech_bot.Upload.GoogleDrive.{Drive, Service, DriveConfig}
use cpp_mirror_leech_bot.Upload.GoogleDrive.Directory.{
  directory, regular, Entry, Tree, FileWork, FolderIds, walk_entries,
}
use cpp_mirror_leech_bot.Upload.GoogleDrive.Files.{
  FilePool, idle, claiming, uploading, exited, is_live, leave, settle, advance, joined, started,
  Reach, here, next, runs,
}
use cpp_mirror_leech_bot.Upload.GoogleDrive.Files.Calm.{outcomes}
use cpp_mirror_leech_bot.Upload.GoogleDrive.Files.Outcome.{joined-IsComplete}

-- A directory with one file, and one worker for it.
abbrev sent : ℕ → Result UploadResult
sent idx = ok (record { file_id = b'f' ∷ []; link = []; size = pos 1; duration = pos 0 })

abbrev one_file : FilePool
one_file = record {
  shared = record {
    next_index = 2;
    live_workers = 0;
    abort = false;
    first_error = none;
    results = record { file_id = b'f' ∷ []; link = []; size = pos 1; duration = pos 0 } ∷ [];
  };
  workers = exited ∷ [];
}

never : false ≡ true → false ≡ true
never e = e

file_run : Reach 1 sent false (started 1) 5 one_file
unfolding started advance settle leave is_live
file_run =
    next
      (next
        (next
          (next (next here (runs false [] [] idle _ refl never))
            (runs false [] [] claiming _ refl never))
          (runs false [] [] (uploading 0) _ refl never))
        (runs false [] [] idle _ refl never))
      (runs false [] [] claiming _ refl never)

abbrev is_sent : Result UploadResult → ℕ
is_sent (ok r) = 1
is_sent (err e) = 0

joined-IsComplete_example :
    ((e : AppError) × (joined one_file.shared ≡ err e) × ((idx : ℕ) × (sent idx ≡ err e)))
    ⊎ ((joined one_file.shared ≡ ok one_file.shared.results)
        × (total (λ r. is_sent (ok r)) one_file.shared.results ≡ total is_sent (outcomes sent 1)))
joined-IsComplete_example = joined-IsComplete 1 sent is_sent 0 5 one_file file_run refl

abbrev library : JsonLibrary
unfolding bytes
library = record {
  parse = λ body. inr (object (member (bytes "id") (string body) stop));
  dump = λ v. [];
  at_what = λ key v. key;
  get_what = λ v. [];
}

-- Every folder gets the same identifier.
abbrev service : Service
service = record {
  reply = λ requests. ok (record { status_code = 200; headers = []; body = b'i' ∷ [] });
  now = λ requests. 0;
  base64 = λ text. text;
  sign = λ text. ok text;
  json = library;
  show = λ n. n ∷ [];
}

abbrev config : DriveConfig
config = record {
  client_email = [];
  token_uri = [];
  parent_folder_id = [];
  chunk_size = 0;
  parallel_chunks_per_file = pos 4;
  parallel_files_per_directory = pos 4;
  max_retries = pos 6;
}

abbrev drive : Drive
drive = record {
  cached_token = record { value = b'B' ∷ []; expires_at = pos 3600000 };
  requests = [];
}

-- The directory `d` with the file `d/f`.
abbrev inner : Bytes
inner = b'd' ∷ b'/' ∷ b'f' ∷ []

abbrev tree : Tree
tree = record {
  is_directory = λ path. true;
  walk = λ path. [];
  parent_path = λ path. if bytes_eq path inner then b'd' ∷ [] else [];
  file_name = λ path. path;
}

abbrev entries : List (Bytes ⊎ Entry)
entries =
    inr (record { path = b'd' ∷ []; relative = inr (b'd' ∷ []); kind = directory })
    ∷ inr (record { path = inner; relative = inr inner; kind = regular })
    ∷ []

abbrev root : FolderIds
root = ([], b'r' ∷ []) ∷ []

abbrev found : List FileWork
found = (record { source = inner; parent_id = b'i' ∷ [] }) ∷ []

abbrev unseen : List HttpRequest → Bool
unseen requests = false

-- The drive after the walk.
abbrev made : Drive
made = (walk_entries service config tree true unseen (b'r' ∷ []) entries root [] drive).0
