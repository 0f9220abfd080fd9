-- ===== src/Upload/GoogleDrive/Directory/Mirror.antt =====
-- What the walk over a directory makes of it.
use cpp_mirror_leech_bot.Prelude.{
  ◌≡◌, ◌⊎◌, inl, inr, Bool, false, List, [], ◌∷◌, ◌++◌, All, Bytes, bytes_eq,
}
use cpp_mirror_leech_bot.Core.Action.{Action}
use cpp_mirror_leech_bot.Core.Error.{ok}
use cpp_mirror_leech_bot.Http.{HttpRequest}
use cpp_mirror_leech_bot.Upload.GoogleDrive.{Drive, Service, DriveConfig}
use cpp_mirror_leech_bot.Upload.GoogleDrive.Folder.{create_folder}
use cpp_mirror_leech_bot.Upload.GoogleDrive.Directory.{
  EntryKind, directory, regular, Entry, Tree, FileWork, FolderIds, folder_of,
}

abbrev pub paths : FolderIds → List Bytes
paths [] = []
paths ((p, id) ∷ rest) = p ∷ paths rest

abbrev folder_at : EntryKind → Bytes ⊎ Bytes → List Bytes
folder_at directory (inr relative) = relative ∷ []
folder_at _ _ = []

-- The directories of a walk, the last one first.
abbrev pub folders : List (Bytes ⊎ Entry) → List Bytes
folders [] = []
folders (inl what ∷ rest) = folders rest
folders (inr e ∷ rest) = folders rest ++ folder_at e.kind e.relative

abbrev placed_at : Tree → Bytes → FolderIds → EntryKind → Bytes → Bytes ⊎ Bytes → List FileWork
placed_at tree root ids regular path (inr relative) =
    (record { source = path; parent_id = folder_of root (tree.parent_path relative) ids }) ∷ []
placed_at tree root ids _ path _ = []

-- The regular files of a walk, in order, each with the folder that its directory has at the end.
abbrev pub placed : Tree → Bytes → FolderIds → List (Bytes ⊎ Entry) → List FileWork
placed tree root ids [] = []
placed tree root ids (inl what ∷ rest) = placed tree root ids rest
placed tree root ids (inr e ∷ rest) =
    placed_at tree root ids e.kind e.path e.relative ++ placed tree root ids rest

-- No directory after a file is the one that the file is in.
abbrev IsFirst : Tree → EntryKind → Bytes ⊎ Bytes → List (Bytes ⊎ Entry) → Type 0
IsFirst tree regular (inr relative) rest =
    All (λ p. bytes_eq p (tree.parent_path relative) ≡ false) (folders rest)
IsFirst tree _ _ rest = Unit {0}

abbrev pub IsParentsFirst : Tree → List (Bytes ⊎ Entry) → Type 0
IsParentsFirst tree [] = Unit {0}
IsParentsFirst tree (inl what ∷ rest) = IsParentsFirst tree rest
IsParentsFirst tree (inr e ∷ rest) = IsFirst tree e.kind e.relative rest × IsParentsFirst tree rest

module _ (service : Service) (config : DriveConfig) (tree : Tree) (ready : Bool)
    (cancelled : List HttpRequest → Bool) (root : Bytes) where
  -- The folder of a path is made: below the one of its parent, or of the root where this has none.
  abbrev make : Bytes → FolderIds → Action Drive Bytes
  make path ids =
      create_folder service config ready cancelled (tree.file_name path)
        (folder_of root (tree.parent_path path) ids)

  -- Drive was asked for these folders, the last one first, and for nothing else, and these are the
  -- identifiers that it gave: from the one drive to the other, beside the folders of before.
  abbrev pub IsMade : FolderIds → FolderIds → Drive → Drive → Type 0
  IsMade [] ids d d' = d ≡ d'
  IsMade ((path, id) ∷ new) ids d d' =
      (between : Drive) × IsMade new ids d between × (make path (new ++ ids) between ≡ (d', ok id))

  -- The folders that an entry adds, and the files.
  record IsVisited (kind : EntryKind) (path relative : Bytes) (ids : FolderIds)
      (work : List FileWork) (d d' : Drive) (found : FolderIds × List FileWork) : Type 0 where
    new : FolderIds
    of_path : paths new ≡ folder_at kind (inr relative)
    all : found.0 ≡ new ++ ids
    files : found.1 ≡ work ++ placed_at tree root ids kind path (inr relative)
    made : IsMade new ids d d'
