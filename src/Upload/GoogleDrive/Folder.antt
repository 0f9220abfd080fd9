-- ===== src/Upload/GoogleDrive/Folder.antt =====
-- The folders of Google Drive, in src/infrastructure/upload/google_drive_uploader.cpp: creating, listing,
-- counting, copying and removing. The loops over the pages and over the folders go on for as long as
-- Drive names more, so they recurse on fuel, and give nothing where it runs out. An access of a member
-- with another type than the one asked for, which leaves the coroutine, is taken as its default.
pub mod Count
use cpp_mirror_leech_bot.Prelude.{
  ℕ, zero, suc, ◌+◌, ◌*◌, ◌-◌, ◌%◌, ◌^◌, Bool, true, false, not, ◌&&◌, ◌||◌, ◌==◌, leb, ltb, Option,
  none, some, inl, inr, List, [], ◌∷◌, ◌++◌, if◌then◌else◌, is_empty, Bytes, bytes, bytes_eq,
  is_space,
}
use cpp_mirror_leech_bot.Prelude.Integers.{ℤ, pos, negsuc}
use cpp_mirror_leech_bot.Core.Action.{Action, pure, raise, lift, ◌>>=◌, ◌>>◌, require}
use cpp_mirror_leech_bot.Core.Error.{
  Result, ok, err, error, json_parse, google_drive_api, invalid_state, not_found, cancelled_error,
}
use cpp_mirror_leech_bot.Core.Json.{
  Json, string, array, object, Members, stop, member, find, as_string, string_or, parsed_string,
}
use cpp_mirror_leech_bot.Http.{get, post, delete, HttpRequest, HttpResponse}
use cpp_mirror_leech_bot.Upload.GoogleDrive.{
  Drive, Service, DriveConfig, header, http, acquire_bearer, url_escape, is_success,
}

unfoldable pub folder_mime : Bytes
unfolding bytes
folder_mime = bytes "application/vnd.google-apps.folder"

-- The elements of an array.
unfoldable pub elements : Members → List Json
elements stop = []
elements (member key v rest) = v ∷ elements rest

unfoldable pub files_of : Json → List Json
unfolding bytes
files_of doc = elim (find (bytes "files") doc) [ some (array ms) ↦ elements ms | _ ↦ [] ]

unfoldable pub next_page : Json → Option Bytes
unfolding bytes
next_page doc = elim (find (bytes "nextPageToken") doc) [ none ↦ none | some m ↦ as_string m ]

-- A child of a folder, as the count sees it.
pub data Child : Type 0 where
  subfolder : Bytes → Child
  file : Option ℤ → Child

unfoldable pub digits_value : ℕ → Bytes → ℕ
digits_value acc [] = acc
digits_value acc (c ∷ rest) =
    let more = digits_value (acc * 10 + (c - b'0')) rest in
    if leb b'0' c && leb c b'9' then more else acc

unfoldable pub starts_digit : Bytes → Bool
starts_digit [] = false
starts_digit (c ∷ rest) = leb b'0' c && leb c b'9'

unfoldable pub skip_space : Bytes → Bytes
skip_space [] = []
skip_space (c ∷ rest) = let more = skip_space rest in if is_space c then more else c ∷ rest

-- `negsuc` of a number's predecessor, for a number that is not 0.
unfoldable pub negated : ℕ → ℤ
negated zero = pos 0
negated (suc n) = negsuc n

unfoldable pub signed_value : Bytes → Option ℤ
signed_value [] = none
signed_value (c ∷ rest) =
    let unsigned_value = λ (s : Bytes).
      (if starts_digit s && leb (digits_value 0 s) (2 ^ 63 - 1)
        then some (pos (digits_value 0 s))
        else none) in
    if c == b'-'
    then if starts_digit rest && leb (digits_value 0 rest) (2 ^ 63)
      then some (negated (digits_value 0 rest))
      else none
    else if c == b'+'
    then unsigned_value rest
    else unsigned_value (c ∷ rest)

-- `std::stoll`, where it does not throw.
unfoldable pub stoll : Bytes → Option ℤ
stoll s = signed_value (skip_space s)

unfoldable pub child_of : Json → Child
unfolding bytes
child_of v =
    if bytes_eq (string_or (bytes "mimeType") [] v) folder_mime
    then subfolder (string_or (bytes "id") [] v)
    else file (elim (find (bytes "size") v) [ some (string s) ↦ stoll s | _ ↦ none ])

-- The 64 bits of a signed number.
unfoldable pub bits_64 : ℤ → ℕ
bits_64 (pos n) = n % 2 ^ 64
bits_64 (negsuc n) = 2 ^ 64 - 1 - n % 2 ^ 64

-- `CountResult`, by the bits of its two `int` and of its `std::int64_t`, which wrap around.
pub record Totals : Type 0 where
  pub files : ℕ
  pub folders : ℕ
  pub total_bytes : ℕ

unfoldable pub count_child : Child → Totals × List Bytes → Totals × List Bytes
count_child (subfolder id) (t, queue) =
    (record t { folders = suc t.folders % 2 ^ 32 }, if is_empty id then queue else id ∷ queue)
count_child (file none) (t, queue) = (record t { files = suc t.files % 2 ^ 32 }, queue)
count_child (file (some n)) (t, queue) = (
  record t { files = suc t.files % 2 ^ 32; total_bytes = (t.total_bytes + bits_64 n) % 2 ^ 64 },
  queue,
)

-- The loop over the children; the queue is taken from where it grows.
unfoldable pub count_children : List Json → Totals × List Bytes → Totals × List Bytes
count_children [] p = p
count_children (v ∷ rest) p = count_children rest (count_child (child_of v) p)

module _ (list : Bytes → Action Drive (Option (List Json)))
    (cancelled : List HttpRequest → Bool) where
  -- The loop over the folders.
  unfoldable pub count_folders : ℕ → Totals → List Bytes → Action Drive (Option Totals)
  unfolding bytes
  count_folders fuel t [] d = (d, ok (some t))
  count_folders zero t (here ∷ queue) d = (d, ok none)
  count_folders (suc fuel) t (here ∷ queue) d =
      let (d', listed) = list here d in
      if cancelled d.requests
      then (d, error cancelled_error (bytes "gdrive: count cancelled"))
      else elim listed [
        | err e ↦ (d', err e)
        | ok none ↦ (d', ok none)
        | ok (some children) ↦
            let (t', queue') = count_children children (t, queue) in count_folders fuel t' queue' d'
      ]

abbrev pub drive_error : (ℕ → Bytes) → Bytes → HttpResponse → Bytes
drive_error show what res = what ++ show res.status_code ++ bytes ": " ++ res.body

module _ (service : Service) (config : DriveConfig) (ready : Bool)
    (cancelled : List HttpRequest → Bool) where
  -- `json::parse(body).at("id")`.
  unfoldable pub parsed_id : Bytes → HttpResponse → Action Drive Bytes
  unfolding bytes
  parsed_id what res = elim (parsed_string service.json (bytes "id") res.body) [
    | inl text ↦ raise json_parse (what ++ text)
    | inr id ↦ pure id
  ]

  unfoldable pub create_folder : Bytes → Bytes → Action Drive Bytes
  unfolding bytes
  create_folder name parent = do
    bearer ← acquire_bearer service config
    res ← http service config (record {
      method = post;
      url = bytes "https://www.googleapis.com/drive/v3/files";
      headers =
          header (bytes "Authorization") bearer
          ∷ header (bytes "Content-Type") (bytes "application/json; charset=UTF-8")
          ∷ [];
      body = service.json.dump (
          object (
            member (bytes "name") (string name) (
              member (bytes "mimeType") (string folder_mime)
                (member (bytes "parents") (array (member [] (string parent) stop)) stop))));
    })
    require (is_success res.status_code) google_drive_api
        (drive_error service.show (bytes "gdrive: create folder returned ") res)
    parsed_id (bytes "gdrive: create folder parse: ") res

  unfoldable pub list_url : Bytes → Bytes → Bytes
  unfolding bytes
  list_url parent token =
      bytes "https://www.googleapis.com/drive/v3/files?q="
      ++ url_escape (39 ∷ parent ++ 39 ∷ [])
      ++ bytes "+in+parents+and+trashed%3Dfalse"
      ++ bytes "&fields=nextPageToken,files(id,name,mimeType,size)"
      ++ bytes "&pageSize=1000"
      ++ (if is_empty token then [] else bytes "&pageToken=" ++ url_escape token)

  unfoldable pub parsed_page : HttpResponse → Action Drive Json
  unfolding bytes
  parsed_page res = elim (service.json.parse res.body) [
    | inl what ↦ raise json_parse (bytes "gdrive: list children parse: " ++ what)
    | inr doc ↦ pure doc
  ]

  -- The loop over the pages, with the children so far.
  unfoldable pub list_pages :
      ℕ → Bytes → Bytes → Bytes → List Json → Action Drive (Option (List Json))
  unfolding bytes
  list_pages zero bearer parent token out = pure none
  list_pages (suc fuel) bearer parent token out = do
    res ← http service config (record {
      method = get;
      url = list_url parent token;
      headers = header (bytes "Authorization") bearer ∷ [];
      body = [];
    })
    require (is_success res.status_code) google_drive_api (
        drive_error service.show (bytes "gdrive: list children of " ++ parent ++ bytes " returned ")
          res)
    doc ← parsed_page res
    elim (next_page doc) [
      | none ↦ pure (some (out ++ files_of doc))
      | some next ↦ list_pages fuel bearer parent next (out ++ files_of doc)
    ]
