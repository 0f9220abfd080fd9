-- ===== src/Persistence/TaskRepository.antt =====
-- src/infrastructure/persistence/sqlite_task_repository.cpp: tasks as rows of text, and a task that
-- is read back by replaying its transitions. SQLite itself is the list of rows; a failure of the
-- pool or of a statement is the argument `fault`. The clock is read as `now` for a whole replay,
-- since only its last reading stays in the task.
pub mod Codec
pub mod RoundTrip
pub mod Store
pub mod Queries
pub mod Implements
use cpp_mirror_leech_bot.Prelude.{
  Bool, true, false, not, Option, none, some, List, [], ◌∷◌, ◌++◌, if◌then◌else◌, Bytes, bytes,
  bytes_eq,
}
use cpp_mirror_leech_bot.Prelude.Integers.{ℤ, eq_ℤ}
use cpp_mirror_leech_bot.Core.Error.{
  AppError, Result, ok, err, error, deserialization, not_found, ◌>>=◌,
}
use cpp_mirror_leech_bot.Domain.Identifiers.{UserId, ChatId, MessageId, TaskId}
use cpp_mirror_leech_bot.Domain.Task
use cpp_mirror_leech_bot.Domain.Task.{
  TaskState, queued, downloading, processing, uploading, completed, failed, cancelled, TaskKind,
  mirror, leech, clone, DownloaderKind, no_downloader, aria2, qbittorrent, TimePoint, TaskMetadata,
  Task, kind_to_string, start_download, begin_processing, begin_upload, mark_completed, mark_failed,
  mark_cancelled, attach_downloader,
}
use cpp_mirror_leech_bot.Persistence.TimeCodec.{TimeCodec}

-- The columns of the table `tasks`.
pub record Row : Type 0 where
  pub id : Bytes
  pub user_id : ℤ
  pub chat_id : ℤ
  pub status_message_id : ℤ
  pub kind : Bytes
  pub state : Bytes
  pub source_url : Bytes
  pub error_message : Option Bytes
  pub created_at : Bytes
  pub updated_at : Bytes
  pub downloader_kind : Bytes
  pub downloader_id : Option Bytes

unfoldable pub task_kind_to_string : TaskKind → Bytes
unfolding bytes
task_kind_to_string mirror = bytes "Mirror"
task_kind_to_string leech = bytes "Leech"
task_kind_to_string clone = bytes "Clone"

unfoldable pub parse_kind : Bytes → Result TaskKind
unfolding bytes bytes_eq
parse_kind s =
    if bytes_eq s (bytes "Mirror")
    then ok mirror
    else if bytes_eq s (bytes "Leech")
    then ok leech
    else if bytes_eq s (bytes "Clone")
    then ok clone
    else error deserialization (bytes "Unknown TaskKind: " ++ s)

unfoldable pub parse_downloader_kind : Bytes → Result DownloaderKind
unfolding bytes bytes_eq
parse_downloader_kind s =
    if bytes_eq s (bytes "None")
    then ok no_downloader
    else if bytes_eq s (bytes "Aria2")
    then ok aria2
    else if bytes_eq s (bytes "Qbittorrent")
    then ok qbittorrent
    else error deserialization (bytes "Unknown DownloaderKind: " ++ s)

unfoldable pub parse_state : Bytes → Result TaskState
unfolding bytes bytes_eq
parse_state s =
    if bytes_eq s (bytes "Queued")
    then ok queued
    else if bytes_eq s (bytes "Downloading")
    then ok downloading
    else if bytes_eq s (bytes "Processing")
    then ok processing
    else if bytes_eq s (bytes "Uploading")
    then ok uploading
    else if bytes_eq s (bytes "Completed")
    then ok completed
    else if bytes_eq s (bytes "Failed")
    then ok failed
    else if bytes_eq s (bytes "Cancelled")
    then ok cancelled
    else error deserialization (bytes "Unknown TaskState: " ++ s)

-- One replayed transition: `if (auto r = …; !r) return fail(step, r.error());`.
replay : Bytes → Task × Result (Unit {0}) → Result Task
replay step (t, ok done) = ok t
replay step (t, err e) =
    error deserialization
      (bytes "reconstitute step '" ++ (step ++ (bytes "' failed: " ++ e.message)))

-- `attach_downloader_if_set()`.
attach_if_set : DownloaderKind → Option Bytes → TimePoint → Task → Task
attach_if_set no_downloader downloader_id now t = t
attach_if_set kind none now t = t
attach_if_set kind (some id) now t = attach_downloader id kind now t

-- `error_message.value_or("(unknown)")`.
abbrev reason_or_unknown : Option Bytes → Bytes
reason_or_unknown none = bytes "(unknown)"
reason_or_unknown (some reason) = reason

module _ (now : TimePoint) (attach : Task → Task) where
  -- The `switch` of `reconstitute`, on a new task.
  drive : TaskState → Option Bytes → Task → Result Task
  unfolding replay start_download begin_processing begin_upload mark_completed mark_failed
      mark_cancelled
  drive queued message t = ok (attach t)
  drive downloading message t = do
    t₁ ← replay (bytes "start_download") (start_download now t)
    ok (attach t₁)
  drive processing message t = do
    t₁ ← replay (bytes "start_download") (start_download now t)
    t₂ ← replay (bytes "begin_processing") (begin_processing now t₁)
    ok (attach t₂)
  drive uploading message t = do
    t₁ ← replay (bytes "start_download") (start_download now t)
    t₂ ← replay (bytes "begin_upload") (begin_upload now t₁)
    ok (attach t₂)
  drive completed message t = do
    t₁ ← replay (bytes "start_download") (start_download now t)
    t₂ ← replay (bytes "begin_upload") (begin_upload now t₁)
    t₃ ← replay (bytes "mark_completed") (mark_completed now t₂)
    ok (attach t₃)
  drive failed message t =
      replay (bytes "mark_failed") (mark_failed (reason_or_unknown message) now (attach t))
  drive cancelled message t = replay (bytes "mark_cancelled") (mark_cancelled now (attach t))

unfoldable pub reconstitute :
    TimePoint
    → TaskMetadata
    → TaskState
    → Option Bytes
    → DownloaderKind
    → Option Bytes
    → Result Task
unfolding Task.new drive attach_if_set attach_downloader
reconstitute now metadata target message kind id =
    drive now (attach_if_set kind id now) target message (Task.new metadata)
