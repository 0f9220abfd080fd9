-- ===== src/Application/DriveResource.antt =====
-- src/application/clone_drive_resource.cpp, count_drive_resource.cpp and delete_drive_resource.cpp: the use
-- cases over a resource of Google Drive. The three regexes are written as searches for their leading
-- text with a run of characters of an identifier after it. Log lines are left out.
pub mod Extraction
use cpp_mirror_leech_bot.Prelude.{
  ℕ, Bool, true, false, not, ◌&&◌, ◌||◌, ◌==◌, leb, Option, none, some, List, [], ◌∷◌, ◌++◌, length,
  drop, if◌then◌else◌, is_empty, Bytes, bytes, starts_with,
}
use cpp_mirror_leech_bot.Prelude.Integers.{ℤ}
use cpp_mirror_leech_bot.Core.Error.{
  AppError, Result, ok, err, invalid_argument, invalid_configuration,
}
use cpp_mirror_leech_bot.Core.Escape.{escape_html}
use cpp_mirror_leech_bot.Domain.Identifiers.{ChatId, MessageId, UserId}
use cpp_mirror_leech_bot.Application.Ports.{TaskRepository}
use cpp_mirror_leech_bot.Application.World.{
  Environment, Action, Call, edit_html, copy_drive, count_drive, remove_drive, log, pure, lift,
  ◌>>=◌, ◌>>◌, require, attempt, ignore, send,
}

-- `[a-zA-Z0-9_-]`.
unfoldable pub is_id_char : ℕ → Bool
is_id_char c =
    (leb b'a' c && leb c b'z')
    || (leb b'A' c && leb c b'Z')
    || (leb b'0' c && leb c b'9')
    || c == b'_'
    || c == b'-'

-- The longest run of such characters.
unfoldable pub id_run : Bytes → Bytes
id_run [] = []
id_run (c ∷ s) = let rest = id_run s in if is_id_char c then c ∷ rest else []

-- What stands before the group of a regex: the text after it, where it matches.
abbrev pub Lead : Type 0
Lead = Bytes → Option Bytes

unfoldable pub literal : Bytes → Lead
literal prefix s = if starts_with prefix s then some (drop (length prefix) s) else none

unfoldable pub file_lead : Lead
unfolding bytes
file_lead = literal (bytes "/file/d/")

unfoldable pub folder_lead : Lead
unfolding bytes
folder_lead = literal (bytes "/folders/")

-- `[?&]id=`.
unfoldable pub query_lead : Lead
unfolding bytes
query_lead [] = none
query_lead (c ∷ s) = if c == b'?' || c == b'&' then literal (bytes "id=") s else none

-- The group of a match at the start, or no characters.
unfoldable pub group_at : Lead → Bytes → Bytes
group_at lead s = elim (lead s) [ none ↦ [] | some rest ↦ id_run rest ]

-- The group of the first match, or no characters.
unfoldable pub regex_search : Lead → Bytes → Bytes
regex_search lead [] = []
regex_search lead (c ∷ s) =
    let here = group_at lead (c ∷ s) in
    let later = regex_search lead s in if is_empty here then later else here

unfoldable pub extract_drive_id : Bytes → Bytes
extract_drive_id input =
    let file = regex_search file_lead input in
    let folder = regex_search folder_lead input in
    let query = regex_search query_lead input in
    if not (is_empty file)
    then file
    else if not (is_empty folder)
    then folder
    else if not (is_empty query)
    then query
    else input

-- `CloneRequest`, `CountRequest` and `DeleteDriveRequest`.
pub record DriveRequest : Type 0 where
  pub source_url : Bytes
  pub user : UserId
  pub chat : ChatId

pub record CountResult : Type 0 where
  pub files : ℤ
  pub folders : ℤ
  pub total_bytes : ℤ

-- The replies of Drive and of edits, each decided by the calls so far, and what fmt prints of numbers.
pub record DrivePorts : Type 0 where
  pub copied : List Call → Result Bytes
  pub counted : List Call → Result CountResult
  pub removed : List Call → Result (Unit {0})
  pub edited : List Call → Result (Unit {0})
  pub show : ℤ → Bytes
  pub format_bytes : ℤ → Bytes

abbrev failure_html : Bytes → AppError → Bytes
failure_html title e =
    bytes "<b><u>"
    ++ title
    ++ bytes " Failed</u></b>\n<blockquote>"
    ++ escape_html e.message
    ++ bytes "</blockquote>"

abbrev counted_html : DrivePorts → CountResult → Bytes
counted_html ports c =
    bytes "<b><u>Drive Count</u></b>\n<b>Files:</b> <code>"
    ++ ports.show c.files
    ++ bytes "</code>\n<b>Folders:</b> <code>"
    ++ ports.show c.folders
    ++ bytes "</code>\n<b>Total:</b> <code>"
    ++ ports.format_bytes c.total_bytes
    ++ bytes "</code>"

module _ {repo : TaskRepository} (env : Environment) (ports : DrivePorts) where
  -- A call of Drive.
  drive : {A : Type 0} → (List Call → Result A) → Call → Action repo A
  drive reply c w = (reply (c ∷ w.calls), log repo c w)

  edit : ChatId → MessageId → Bytes → Action repo (Unit {0})
  edit chat message html = drive ports.edited (edit_html chat message html)

  -- The message of progress shows the failure or the success, and the result is handed on.
  unfoldable pub conclude :
      {A : Type 0} → Bytes → (A → Bytes) → ChatId → MessageId → Result A → Action repo A
  unfolding edit drive
  conclude title html chat message (err e) = do
    ignore (edit chat message (failure_html title e))
    lift (err e)
  conclude title html chat message (ok a) = do ignore (edit chat message (html a)); pure a

  unfoldable pub clone : Bytes → DriveRequest → Action repo Bytes
  unfolding drive
  clone target_folder_id request = do
    require (not (is_empty request.source_url)) invalid_argument (bytes "clone: empty source URL")
    require (not (is_empty target_folder_id)) invalid_configuration
        (bytes "clone: target folder id not configured")
    message ←
        send env request.chat
          (bytes "<b><u>Cloning</u></b>\n<blockquote>Drive copy started.</blockquote>")
    copied ←
        attempt
          (drive ports.copied (copy_drive (extract_drive_id request.source_url) target_folder_id))
    conclude (bytes "Clone")
        (λ (id : Bytes).
          bytes "<b><u>Cloned</u></b>\n<b>Drive id:</b> <code>"
          ++ escape_html id
          ++ bytes "</code>")
        request.chat message copied

  unfoldable pub count : DriveRequest → Action repo CountResult
  unfolding drive
  count request = do
    require (not (is_empty request.source_url)) invalid_argument (bytes "count: empty source URL")
    message ←
        send env request.chat
          (bytes "<b><u>Counting</u></b>\n<blockquote>Drive folder scan started.</blockquote>")
    counted ← attempt (drive ports.counted (count_drive (extract_drive_id request.source_url)))
    conclude (bytes "Count") (counted_html ports) request.chat message counted

  -- The answer to a removal.
  unfoldable pub removal : ChatId → Bytes → Result (Unit {0}) → Action repo (Unit {0})
  removal chat id (err e) = do
    ignore (send env chat (failure_html (bytes "Delete") e))
    lift (err e)
  removal chat id (ok done) = do
    ignore (
        send env chat (
          bytes "<b><u>Deleted</u></b>\n<b>Drive id:</b> <code>"
          ++ escape_html id
          ++ bytes "</code>"))
    pure tt

  unfoldable pub delete : DriveRequest → Action repo (Unit {0})
  unfolding drive
  delete request = do
    require (not (is_empty request.source_url)) invalid_argument (bytes "delete: empty source URL")
    let id = extract_drive_id request.source_url
    removed ← attempt (drive ports.removed (remove_drive id))
    removal request.chat id removed
