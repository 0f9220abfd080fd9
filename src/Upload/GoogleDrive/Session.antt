-- ===== src/Upload/GoogleDrive/Session.antt =====
-- The upload of a file in src/infrastructure/upload/google_drive_uploader.cpp, in one request or in a
-- resumable session. What the file system says is a parameter, and what the workers of a session come
-- to is an argument: any shared state that Upload/GoogleDrive/Workers.antt reaches. Progress handlers are
-- left out.
use cpp_mirror_leech_bot.Prelude.{
  ℕ, ◌-◌, ◌⊎◌, Bool, not, leb, Option, none, some, inl, inr, List, [], ◌∷◌, ◌++◌, length,
  if◌then◌else◌, is_empty, Bytes, bytes,
}
use cpp_mirror_leech_bot.Prelude.Integers.{pos}
use cpp_mirror_leech_bot.Core.Action.{Action, pure, raise, lift, ◌>>=◌, ◌>>◌, require, attempt}
use cpp_mirror_leech_bot.Core.Error.{
  Result, ok, err, error, io_error, file_system, google_drive_api, not_found, invalid_state,
  invalid_argument, cancelled_error,
}
use cpp_mirror_leech_bot.Core.Json.{string, array, object, stop, member}
use cpp_mirror_leech_bot.Application.Transfer.Status.{UploadResult}
use cpp_mirror_leech_bot.Http.{post, delete, HttpHeader, HttpRequest, HttpResponse, header_lookup}
use cpp_mirror_leech_bot.Upload.GoogleDrive.{
  Drive, Service, DriveConfig, header, http, acquire_bearer, is_success,
}
use cpp_mirror_leech_bot.Upload.GoogleDrive.Plan.{ChunkPlan, plan, multipart_threshold}
use cpp_mirror_leech_bot.Upload.GoogleDrive.Workers.{Shared, joined}
use cpp_mirror_leech_bot.Upload.GoogleDrive.Folder.{drive_error, parsed_id}

-- A size is a number, or the text of the failure.
pub record FileSystem : Type 0 where
  pub exists : Bytes → Bool
  pub file_size : Bytes → Bytes ⊎ ℕ
  pub content : Bytes → Option Bytes
  pub opens : Bytes → Bool
  pub file_name : Bytes → Bytes

unfoldable pub view_link : Bytes → Bytes
unfolding bytes
view_link id = bytes "https://drive.google.com/file/d/" ++ id ++ bytes "/view"

abbrev boundary : Bytes
unfolding bytes
boundary = bytes "cmlb-mp-7af3b1-XXyy"

abbrev crlf : Bytes
crlf = 13 ∷ 10 ∷ []

unfoldable pub multipart_body : Bytes → Bytes → Bytes
unfolding bytes
multipart_body meta content =
    bytes "--"
    ++ boundary
    ++ crlf
    ++ bytes "Content-Type: application/json; charset=UTF-8"
    ++ crlf
    ++ crlf
    ++ meta
    ++ crlf
    ++ bytes "--"
    ++ boundary
    ++ crlf
    ++ bytes "Content-Type: application/octet-stream"
    ++ crlf
    ++ crlf
    ++ content
    ++ crlf
    ++ bytes "--"
    ++ boundary
    ++ bytes "--"
    ++ crlf

module _ (service : Service) (config : DriveConfig) (files : FileSystem) (ready : Bool)
    (cancelled : List HttpRequest → Bool) where
  time : Action Drive ℕ
  time d = (d, ok (service.now d.requests))

  unfoldable pub metadata : Bytes → Bytes → Bytes
  unfolding bytes
  metadata path parent = service.json.dump (
      object (
        member (bytes "name") (string (files.file_name path))
          (member (bytes "parents") (array (member [] (string parent) stop)) stop)))

  unfoldable pub content_of : Bytes → Action Drive Bytes
  unfolding bytes
  content_of path = elim (files.content path) [
    | none ↦ raise io_error (bytes "gdrive: cannot open " ++ path)
    | some content ↦ pure content
  ]

  unfoldable pub size_of : Bytes → Action Drive ℕ
  unfolding bytes
  size_of path = elim (files.file_size path) [
    | inl what ↦ raise file_system (bytes "gdrive: file_size failed: " ++ what)
    | inr n ↦ pure n
  ]

  abbrev uploaded : Bytes → ℕ → ℕ → ℕ → UploadResult
  uploaded id size started ended = record {
    file_id = id;
    link = view_link id;
    size = pos size;
    duration = pos (ended - started);
  }

  unfoldable pub upload_multipart : Bytes → Bytes → Action Drive UploadResult
  unfolding bytes time
  upload_multipart path parent = do
    started ← time
    content ← content_of path
    bearer ← acquire_bearer service config
    res ← http service config (record {
      method = post;
      url =
          bytes "https://www.googleapis.com/upload/drive/v3/files"
          ++ bytes "?uploadType=multipart&supportsAllDrives=true"
          ++ bytes "&fields=id,name,size,webViewLink,mimeType";
      headers =
          header (bytes "Authorization") bearer
          ∷ header (bytes "Content-Type") (bytes "multipart/related; boundary=" ++ boundary)
          ∷ [];
      body = multipart_body (metadata path parent) content;
    })
    require (is_success res.status_code) google_drive_api
        (drive_error service.show (bytes "gdrive: multipart upload returned ") res)
    id ← parsed_id service config ready cancelled (bytes "gdrive: multipart response parse: ") res
    ended ← time
    pure (uploaded id (length content) started ended)

  -- The address of the session.
  unfoldable pub location_of : HttpResponse → Action Drive Bytes
  unfolding bytes
  location_of res = elim (header_lookup (bytes "location") res.headers) [
    | none ↦ raise google_drive_api (bytes "gdrive: resumable session missing Location header")
    | some uri ↦ pure uri
  ]

  unfoldable pub open_session : Bytes → Bytes → ℕ → Action Drive Bytes
  unfolding bytes
  open_session path parent total = do
    bearer ← acquire_bearer service config
    res ← http service config (record {
      method = post;
      url =
          bytes "https://www.googleapis.com/upload/drive/v3/files"
          ++ bytes "?uploadType=resumable&supportsAllDrives=true"
          ++ bytes "&fields=id,name,size,webViewLink,mimeType";
      headers =
          header (bytes "Authorization") bearer
          ∷ header (bytes "Content-Type") (bytes "application/json; charset=UTF-8")
          ∷ header (bytes "X-Upload-Content-Type") (bytes "application/octet-stream")
          ∷ header (bytes "X-Upload-Content-Length") (service.show total)
          ∷ [];
      body = metadata path parent;
    })
    require (is_success res.status_code) google_drive_api
        (drive_error service.show (bytes "gdrive: resumable init returned ") res)
    location_of res

  -- The credentials, where there is a token.
  abbrev with_bearer : Result Bytes → List HttpHeader
  with_bearer (ok bearer) = header (bytes "Authorization") bearer ∷ []
  with_bearer (err e) = []

  -- The reply, and a failure to get one, reach the log only.
  unfoldable pub abort_resumable_session : Bytes → Action Drive (Unit {0})
  unfolding bytes
  abort_resumable_session session_uri = do
    bearer ← attempt (acquire_bearer service config)
    res ← attempt (
        http service config
          (record { method = delete; url = session_uri; headers = with_bearer bearer; body = [] }))
    pure tt

  -- The session is given up where a worker met an error.
  unfoldable pub close_session : Bytes → Shared → Action Drive Bytes
  close_session session_uri s = elim s.first_error [
    | some e ↦ abort_resumable_session session_uri >> lift (err e)
    | none ↦ lift (joined s)
  ]

  unfoldable pub probe : Bytes → Bytes → Action Drive (Unit {0})
  unfolding bytes
  probe path session_uri =
      if files.opens path
      then pure tt
      else abort_resumable_session session_uri
        >> raise io_error (bytes "gdrive: cannot open " ++ path)

  -- What the workers do to the requests and the token, and the shared state that they leave.
  abbrev pub Run : Type 0
  Run = List ChunkPlan → Bytes → Drive → Drive × Shared

  unfoldable pub run_workers : Run → List ChunkPlan → Bytes → Action Drive Shared
  run_workers run chunks session_uri d = let (d', s) = run chunks session_uri d in (d', ok s)

  unfoldable pub upload_resumable : Run → Bytes → Bytes → Action Drive UploadResult
  unfolding time
  upload_resumable run path parent = do
    started ← time
    total ← size_of path
    session_uri ← open_session path parent total
    probe path session_uri
    s ← run_workers run (plan config.chunk_size total) session_uri
    id ← close_session session_uri s
    ended ← time
    pure (uploaded id total started ended)

  unfoldable pub check_cancelled : Action Drive (Unit {0})
  unfolding bytes
  check_cancelled d =
      if cancelled d.requests
      then (d, error cancelled_error (bytes "gdrive: cancelled"))
      else (d, ok tt)

  abbrev parent_of : Option Bytes → Bytes
  parent_of none = config.parent_folder_id
  parent_of (some id) = id

  unfoldable pub upload_file : Run → Bytes → Option Bytes → Action Drive UploadResult
  unfolding bytes
  upload_file run path folder_id = do
    require ready invalid_state (bytes "gdrive: uploader not ready (credentials missing)")
    require (files.exists path) not_found (bytes "gdrive: file not found: " ++ path)
    size ← size_of path
    require (not (is_empty (parent_of folder_id))) invalid_argument
        (bytes "gdrive: no parent folder id (config + override both empty)")
    check_cancelled
    if leb size multipart_threshold
        then upload_multipart path (parent_of folder_id)
        else upload_resumable run path (parent_of folder_id)
