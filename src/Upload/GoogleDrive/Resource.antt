-- ===== src/Upload/GoogleDrive/Resource.antt =====
-- `copy`, `count` and `remove` of src/infrastructure/upload/google_drive_uploader.cpp, on which the use
-- cases of Application/DriveResource.antt call.
pub mod Counted
use cpp_mirror_leech_bot.Prelude.{
  ℕ, zero, suc, Bool, not, ◌==◌, Option, none, some, List, [], ◌∷◌, ◌++◌, if◌then◌else◌, is_empty,
  Bytes, bytes, bytes_eq, inl, inr,
}
use cpp_mirror_leech_bot.Prelude.Integers.{pos}
use cpp_mirror_leech_bot.Core.Action.{Action, pure, raise, ◌>>=◌, ◌>>◌, require}
use cpp_mirror_leech_bot.Core.Error.{
  ok, error, json_parse, google_drive_api, invalid_state, not_found, cancelled_error,
}
use cpp_mirror_leech_bot.Core.Json.{Json, string, array, object, stop, member, string_or}
use cpp_mirror_leech_bot.Http.{get, post, delete, HttpRequest, HttpResponse}
use cpp_mirror_leech_bot.Upload.GoogleDrive.{
  Drive, Service, DriveConfig, header, http, acquire_bearer, url_escape, is_success,
}
use cpp_mirror_leech_bot.Upload.GoogleDrive.Folder.{
  folder_mime, Totals, count_folders, drive_error, parsed_id, create_folder, list_pages,
}

-- A folder that is copied, and the one that it is copied to.
pub record Frame : Type 0 where
  pub source : Bytes
  pub destination : Bytes

module _ (service : Service) (config : DriveConfig) (ready : Bool)
    (cancelled : List HttpRequest → Bool) where
  unfoldable pub parsed_metadata : HttpResponse → Action Drive Json
  unfolding bytes
  parsed_metadata res = elim (service.json.parse res.body) [
    | inl what ↦ raise json_parse (bytes "gdrive: metadata parse: " ++ what)
    | inr doc ↦ pure doc
  ]

  unfoldable pub fetch_metadata : Bytes → Bytes → Action Drive Json
  unfolding bytes
  fetch_metadata bearer id = do
    res ← http service config (record {
      method = get;
      url =
          bytes "https://www.googleapis.com/drive/v3/files/"
          ++ url_escape id
          ++ bytes "?fields=id,name,mimeType,size,parents";
      headers = header (bytes "Authorization") bearer ∷ [];
      body = [];
    })
    require (not (res.status_code == 404)) not_found (bytes "gdrive: id not found: " ++ id)
    require (is_success res.status_code) google_drive_api
        (drive_error service.show (bytes "gdrive: metadata fetch " ++ id ++ bytes " returned ") res)
    parsed_metadata res

  -- The call that copies a file into a folder.
  unfoldable pub copy_file : Bytes → Bytes → Bytes → Action Drive HttpResponse
  unfolding bytes
  copy_file bearer id target = http service config (record {
    method = post;
    url = bytes "https://www.googleapis.com/drive/v3/files/" ++ url_escape id ++ bytes "/copy";
    headers =
        header (bytes "Authorization") bearer
        ∷ header (bytes "Content-Type") (bytes "application/json; charset=UTF-8")
        ∷ [];
    body =
        service.json.dump
          (object (member (bytes "parents") (array (member [] (string target) stop)) stop));
  })

  -- One child of a folder: a folder is created, and is to be copied; a file is copied.
  unfoldable pub copy_child : Bytes → Bytes → Json → List Frame → Action Drive (List Frame)
  unfolding bytes
  copy_child bearer destination child stack =
      let id = string_or (bytes "id") [] child in
      if is_empty id
      then pure stack
      else if bytes_eq (string_or (bytes "mimeType") [] child) folder_mime
      then (do
        created ←
            create_folder service config ready cancelled
              (string_or (bytes "name") (bytes "item") child) destination
        pure ((record { source = id; destination = created }) ∷ stack))
      else (do
        res ← copy_file bearer id destination
        require (is_success res.status_code) google_drive_api
            (drive_error service.show (bytes "gdrive: child copy returned ") res)
        pure stack)

  unfoldable pub copy_children : Bytes → Bytes → List Json → List Frame → Action Drive (List Frame)
  copy_children bearer destination [] stack = pure stack
  copy_children bearer destination (child ∷ rest) stack = do
    more ← copy_child bearer destination child stack
    copy_children bearer destination rest more

  -- `if cancelled() co_return error(Cancelled, message);`
  unfoldable pub check_cancelled : Bytes → Action Drive (Unit {0})
  check_cancelled message d =
      if cancelled d.requests then (d, error cancelled_error message) else (d, ok tt)

  -- The loop over the folders.
  unfoldable pub copy_folders : ℕ → Bytes → Bytes → List Frame → Action Drive (Option Bytes)
  unfolding bytes
  copy_folders fuel bearer root [] = pure (some root)
  copy_folders zero bearer root (frame ∷ stack) = pure none
  copy_folders (suc fuel) bearer root (frame ∷ stack) = do
    check_cancelled (bytes "gdrive: copy cancelled")
    listed ← list_pages service config ready cancelled fuel bearer frame.source [] []
    elim listed [
      | none ↦ pure none
      | some children ↦ do
        more ← copy_children bearer frame.destination children stack
        copy_folders fuel bearer root more
    ]

  -- The part of `copy` for a folder.
  unfoldable pub copy_folder : ℕ → Bytes → Bytes → Bytes → Bytes → Action Drive (Option Bytes)
  copy_folder fuel bearer source_id name target = do
    root ← create_folder service config ready cancelled name target
    copy_folders fuel bearer root ((record { source = source_id; destination = root }) ∷ [])

  unfoldable pub copy_single : Bytes → Bytes → Bytes → Action Drive (Option Bytes)
  unfolding bytes
  copy_single bearer source_id target = do
    res ← copy_file bearer source_id target
    require (is_success res.status_code) google_drive_api
        (drive_error service.show (bytes "gdrive: copy returned ") res)
    id ← parsed_id service config ready cancelled (bytes "gdrive: copy response parse: ") res
    pure (some id)

  unfoldable pub copy : ℕ → Bytes → Bytes → Action Drive (Option Bytes)
  unfolding bytes
  copy fuel source_id target = do
    require ready invalid_state (bytes "gdrive: uploader not ready")
    bearer ← acquire_bearer service config
    meta ← fetch_metadata bearer source_id
    if bytes_eq (string_or (bytes "mimeType") [] meta) folder_mime
        then copy_folder fuel bearer source_id (string_or (bytes "name") (bytes "copy") meta) target
        else copy_single bearer source_id target

  -- The children of a folder, of which the pages are bounded by the fuel.
  unfoldable pub list_children : ℕ → Bytes → Bytes → Action Drive (Option (List Json))
  list_children fuel bearer id = list_pages service config ready cancelled fuel bearer id [] []

  unfoldable pub count : ℕ → Bytes → Action Drive (Option Totals)
  unfolding bytes
  count fuel folder_id = do
    require ready invalid_state (bytes "gdrive: uploader not ready")
    bearer ← acquire_bearer service config
    count_folders (list_children fuel bearer) cancelled fuel
        (record { files = 0; folders = 0; total_bytes = 0 }) (folder_id ∷ [])

  unfoldable pub remove : Bytes → Action Drive (Unit {0})
  unfolding bytes
  remove file_id = do
    require ready invalid_state (bytes "gdrive: uploader not ready")
    bearer ← acquire_bearer service config
    res ← http service config (record {
      method = delete;
      url = bytes "https://www.googleapis.com/drive/v3/files/" ++ url_escape file_id;
      headers = header (bytes "Authorization") bearer ∷ [];
      body = [];
    })
    require (not (res.status_code == 404)) not_found (bytes "gdrive: file not found: " ++ file_id)
    require (is_success res.status_code) google_drive_api
        (drive_error service.show (bytes "gdrive: delete returned ") res)
