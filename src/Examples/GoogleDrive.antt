-- ===== src/Examples/GoogleDrive.antt =====
-- An upload of one chunk, and a folder with a file and a folder in it.
use cpp_mirror_leech_bot.Prelude.{
  ℕ, ◌+◌, ◌*◌, ◌≤◌, ◌≡◌, ◌⊎◌, refl, Bool, true, false, none, inr, List, [], ◌∷◌, length, Bytes,
  bytes, bytes_eq, if◌then◌else◌,
}
use cpp_mirror_leech_bot.Prelude.Integers.{pos}
use cpp_mirror_leech_bot.Core.Error.{Result, ok}
use cpp_mirror_leech_bot.Core.Json.{Json, string, object, stop, member, JsonLibrary, array, Members}
use cpp_mirror_leech_bot.Http.{HttpRequest, HttpResponse}
use cpp_mirror_leech_bot.Upload.GoogleDrive.{Drive, Service, DriveConfig}
use cpp_mirror_leech_bot.Upload.GoogleDrive.Plan.{ChunkPlan, plan, plan_from, chunk_bytes, to_int64}
use cpp_mirror_leech_bot.Upload.GoogleDrive.Plan.Tiling.{IsTiling, plan-IsTiling}
use cpp_mirror_leech_bot.Upload.GoogleDrive.Folder.{folder_mime, list_url}
use cpp_mirror_leech_bot.Upload.GoogleDrive.Folder.Count.{
  Forest, sized, unsized, folder, empty, grow, bytes_in,
}
use cpp_mirror_leech_bot.Upload.GoogleDrive.Chunk.{settled, max_retries}
use cpp_mirror_leech_bot.Upload.GoogleDrive.Workers.{
  Input, Pool, started, starting, idle, claiming, uploading, exited, advance, claim, end_chunk,
  settle, finish_file, count_bytes, leave, joined, length_at,
}
use cpp_mirror_leech_bot.Upload.GoogleDrive.Workers.Steps.{Reach, here, next, runs, Step, is_live}
use cpp_mirror_leech_bot.Upload.GoogleDrive.Workers.Ends.{run-IsBounded}
use cpp_mirror_leech_bot.Upload.GoogleDrive.Workers.Outcome.{IsUncancelled, joined_ok-Whole}

plan-IsTiling_example : IsTiling 0 300000 (plan 1 300000)
plan-IsTiling_example = plan-IsTiling 1 300000

abbrev show : ℕ → Bytes
show n = n ∷ []

abbrev path : Bytes
path = b'p' ∷ []

-- Everything goes well, and the reply names the file.
abbrev fine : Input
fine = record {
  opened = true;
  cancelled = false;
  complete_read = true;
  outcome = settled 200 [];
  parsed = inr (b'f' ∷ []);
}

abbrev last : Pool
last = record {
  shared = record {
    next_index = 2;
    live_workers = 0;
    bytes_uploaded = 1;
    abort = false;
    first_error = none;
    file_id = b'f' ∷ [];
  };
  workers = exited ∷ [];
}

-- One worker, from its start to its end.
whole_run : Reach show path (plan 1 1) IsUncancelled (started 1) 6 last
unfolding started advance claim end_chunk settle finish_file count_bytes leave plan plan_from
    chunk_bytes to_int64 is_live length_at
whole_run =
    next
      (next
        (next
          (next
            (next (next here (runs fine [] [] starting _ refl tt refl))
              (runs fine [] [] idle _ refl tt refl))
            (runs fine [] [] claiming _ refl tt refl))
          (runs fine [] [] (uploading 0) _ refl tt refl))
        (runs fine [] [] idle _ refl tt refl))
      (runs fine [] [] claiming _ refl tt refl)

last-joined : joined last.shared ≡ ok (b'f' ∷ [])
unfolding joined
last-joined = refl

joined_ok-Whole_example : last.shared.bytes_uploaded ≡ 1
joined_ok-Whole_example =
    joined_ok-Whole show path 1 1 0 6 last (b'f' ∷ []) whole_run refl last-joined

run-IsBounded_example :
    (6 ≤ 3 * (1 + length (plan 1 1)))
    × ((last.shared.live_workers ≡ 0)
        ⊎ ((q : Pool) × Step show path (plan 1 1) IsUncancelled last q))
run-IsBounded_example =
    run-IsBounded show path (plan 1 1) IsUncancelled 1 6 last fine whole_run tt refl

-- The texts of Drive: `i` is a reply with an identifier.
abbrev library : JsonLibrary
library = record {
  parse = λ body. inr (object (member (b'i' ∷ []) (string body) stop));
  dump = λ v. [];
  at_what = λ key v. key;
  get_what = λ v. [];
}

-- A service that is always busy.
abbrev busy : Service
busy = record {
  reply = λ requests. ok (record { status_code = 503; headers = []; body = [] });
  now = λ requests. 0;
  base64 = λ text. text;
  sign = λ text. ok text;
  json = library;
  show = show;
}

abbrev config : DriveConfig
config = record {
  client_email = [];
  token_uri = [];
  parent_folder_id = [];
  chunk_size = 0;
  parallel_chunks_per_file = pos 4;
  parallel_files_per_directory = pos 4;
  max_retries = pos 6;
}

-- A token that holds for an hour.
abbrev authorized : Drive
authorized = record {
  cached_token = record { value = b'B' ∷ []; expires_at = pos 3600000 };
  requests = [];
}

abbrev never : List HttpRequest → Bool
never requests = false

abbrev one_byte : ChunkPlan
one_byte = record { offset = 0; length = 1 }

-- A folder `a` with a file of 5 bytes and a folder `b`, which holds a file whose size is not known.
abbrev forest : Forest
forest = grow (sized 5) (grow (folder (b'b' ∷ []) (grow unsized empty)) empty)

abbrev plain_file : Json
plain_file = object stop

abbrev sized_file : Json
unfolding bytes
sized_file = object (member (bytes "size") (string (bytes "5")) stop)

abbrev folder_b : Json
unfolding bytes folder_mime
folder_b =
    object (
      member (bytes "id") (string (b'b' ∷ []))
        (member (bytes "mimeType") (string folder_mime) stop))

-- Drive answers by the URL: with the children of `b`, or with those of `a`.
abbrev answers : List HttpRequest → Result HttpResponse
unfolding list_url
answers [] = ok (record { status_code = 404; headers = []; body = [] })
answers (r ∷ before) = ok (record {
  status_code = 200;
  headers = [];
  body =
      if bytes_eq r.url (list_url busy config true never (b'b' ∷ []) [])
      then b'b' ∷ []
      else b'a' ∷ [];
})

abbrev listed : Bytes → List Json
listed body = if bytes_eq body (b'b' ∷ []) then plain_file ∷ [] else sized_file ∷ folder_b ∷ []

abbrev members : List Json → Members
members [] = stop
members (v ∷ rest) = member [] v (members rest)

abbrev listing : JsonLibrary
unfolding bytes
listing = record library {
  parse = λ body. inr (object (member (bytes "files") (array (members (listed body))) stop));
}

abbrev drive : Service
drive = record busy { reply = answers; json = listing }

forest_bytes : bytes_in forest ≡ 5
unfolding bytes_in
forest_bytes = refl
