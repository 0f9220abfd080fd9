-- ===== src/Upload/GoogleDrive/Directory.antt =====
-- `GoogleDriveUploader::upload_directory` of src/infrastructure/upload/google_drive_uploader.cpp: the walk
-- that makes the folders and lists the files, and the pool that uploads these. What the directory
-- iterator gives is a parameter, and what the workers come to is an argument: any shared state that
-- Upload/GoogleDrive/Files.antt reaches.

pub mod Mirror
use cpp_mirror_leech_bot.Prelude.{
  Bool, not, Option, none, some, List, [], ◌∷◌, ◌++◌, ◌⊎◌, inl, inr, if◌then◌else◌, is_empty, Bytes,
  bytes, bytes_eq,
}
use cpp_mirror_leech_bot.Core.Action.{Action, pure, raise, lift, ◌>>=◌, ◌>>◌, require}
use cpp_mirror_leech_bot.Core.Error.{
  ok, error, file_system, invalid_state, invalid_argument, cancelled_error,
}
use cpp_mirror_leech_bot.Application.Transfer.Status.{UploadResult}
use cpp_mirror_leech_bot.Http.{HttpRequest}
use cpp_mirror_leech_bot.Upload.GoogleDrive.{Drive, Service, DriveConfig}
use cpp_mirror_leech_bot.Upload.GoogleDrive.Folder.{create_folder}
use cpp_mirror_leech_bot.Upload.GoogleDrive.Files.{DirShared, joined}

pub data EntryKind : Type 0 where
  directory regular other : EntryKind

-- An entry with its path, and its path from the directory on: or why there is none.
pub record Entry : Type 0 where
  pub path : Bytes
  pub relative : Bytes ⊎ Bytes
  pub kind : EntryKind

-- A round of the loop begins with an error of the iterator or with an entry.
pub record Tree : Type 0 where
  pub is_directory : Bytes → Bool
  pub walk : Bytes → List (Bytes ⊎ Entry)
  pub parent_path : Bytes → Bytes
  pub file_name : Bytes → Bytes

pub record FileWork : Type 0 where
  pub source : Bytes
  pub parent_id : Bytes

-- The folders made, latest first, by their path from the directory on.
abbrev pub FolderIds : Type 0
FolderIds = List (Bytes × Bytes)

unfoldable pub find_folder : Bytes → FolderIds → Option Bytes
find_folder path [] = none
find_folder path ((p, id) ∷ rest) =
    let later = find_folder path rest in if bytes_eq p path then some id else later

-- The identifier of the folder, or that of the root.
unfoldable pub folder_of : Bytes → Bytes → FolderIds → Bytes
folder_of root path ids = elim (find_folder path ids) [ some id ↦ id | none ↦ root ]

module _ (service : Service) (config : DriveConfig) (tree : Tree) (ready : Bool)
    (cancelled : List HttpRequest → Bool) where
  unfoldable pub check_cancelled : Action Drive (Unit {0})
  unfolding bytes
  check_cancelled d =
      if cancelled d.requests
      then (d, error cancelled_error (bytes "gdrive: cancelled"))
      else (d, ok tt)

  unfoldable pub relative_of : Bytes ⊎ Bytes → Action Drive Bytes
  unfolding bytes
  relative_of (inl what) = raise file_system (bytes "gdrive: relative() failed: " ++ what)
  relative_of (inr path) = pure path

  -- One entry, with the folders and the files so far, the latter in order.
  unfoldable pub visit :
      Bytes
      → EntryKind
      → Bytes
      → Bytes
      → FolderIds
      → List FileWork
      → Action Drive (FolderIds × List FileWork)
  visit root directory path relative ids work = do
    created ←
        create_folder service config ready cancelled (tree.file_name relative)
          (folder_of root (tree.parent_path relative) ids)
    pure ((relative, created) ∷ ids, work)
  visit root regular path relative ids work = pure (
    ids,
    work
        ++ record { source = path; parent_id = folder_of root (tree.parent_path relative) ids }
          ∷ [],
  )
  visit root other path relative ids work = pure (ids, work)

  -- The loop over the entries.
  unfoldable pub walk_entries :
      Bytes → List (Bytes ⊎ Entry) → FolderIds → List FileWork → Action Drive (List FileWork)
  unfolding bytes
  walk_entries root [] ids work = pure work
  walk_entries root (inl what ∷ rest) ids work =
      raise file_system (bytes "gdrive: directory walk failed: " ++ what)
  walk_entries root (inr e ∷ rest) ids work = do
    check_cancelled
    relative ← relative_of e.relative
    found ← visit root e.kind e.path relative ids work
    walk_entries root rest found.0 found.1

  abbrev parent_of : Option Bytes → Bytes
  parent_of none = config.parent_folder_id
  parent_of (some id) = id

  -- What the workers do to the requests and the token, and the shared state that they leave.
  abbrev pub RunFiles : Type 0
  RunFiles = List FileWork → Drive → Drive × DirShared

  unfoldable pub run_files : RunFiles → List FileWork → Action Drive DirShared
  run_files run work d = let (d', s) = run work d in (d', ok s)

  unfoldable pub upload_directory :
      RunFiles → Bytes → Option Bytes → Action Drive (List UploadResult)
  unfolding bytes
  upload_directory run path folder_id = do
    require ready invalid_state (bytes "gdrive: uploader not ready (credentials missing)")
    require (tree.is_directory path) invalid_argument (bytes "gdrive: not a directory: " ++ path)
    require (not (is_empty (parent_of folder_id))) invalid_argument
        (bytes "gdrive: no parent folder id (config + override both empty)")
    root ← create_folder service config ready cancelled (tree.file_name path) (parent_of folder_id)
    work ← walk_entries root (tree.walk path) (([], root) ∷ []) []
    s ← run_files run work
    lift (joined s)
