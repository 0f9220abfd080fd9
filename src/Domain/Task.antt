-- ===== src/Domain/Task.antt =====
-- include/cmlb/domain/task.hpp, src/domain/task.cpp: a task and its transitions. A method of `Task`
-- takes the time that `touch_` reads from the clock, and gives the task after it and its result.
pub mod Machine
pub mod Runs
use cpp_mirror_leech_bot.Prelude.{
  Bool, true, false, ◌||◌, not, Option, none, some, ◌++◌, if◌then◌else◌, Bytes, bytes,
}
use cpp_mirror_leech_bot.Prelude.Integers.{ℤ}
use cpp_mirror_leech_bot.Core.Error.{Result, ok, error, invalid_state}
use cpp_mirror_leech_bot.Domain.Identifiers.{UserId, ChatId, MessageId, Gid, TaskId}

pub data TaskState : Type 0 where
  queued downloading processing uploading completed failed cancelled : TaskState

unfoldable pub to_string : TaskState → Bytes
unfolding bytes
to_string queued = bytes "Queued"
to_string downloading = bytes "Downloading"
to_string processing = bytes "Processing"
to_string uploading = bytes "Uploading"
to_string completed = bytes "Completed"
to_string failed = bytes "Failed"
to_string cancelled = bytes "Cancelled"

pub data TaskKind : Type 0 where
  mirror leech clone : TaskKind

pub data DownloaderKind : Type 0 where
  no_downloader aria2 qbittorrent : DownloaderKind

unfoldable pub kind_to_string : DownloaderKind → Bytes
unfolding bytes
kind_to_string no_downloader = bytes "None"
kind_to_string aria2 = bytes "Aria2"
kind_to_string qbittorrent = bytes "Qbittorrent"

-- A time point of the system clock, in nanoseconds from its epoch.
abbrev pub TimePoint : Type 0
TimePoint = ℤ

pub record TaskMetadata : Type 0 where
  pub id : TaskId
  pub user : UserId
  pub chat : ChatId
  pub status_message : MessageId
  pub kind : TaskKind
  pub source_url : Bytes
  pub created_at : TimePoint
  pub updated_at : TimePoint

pub record Task : Type 0 where
  pub metadata : TaskMetadata
  pub state : TaskState
  pub error_message : Option Bytes
  pub downloader_id : Option Gid
  pub downloader_kind : DownloaderKind

-- The constructor.
unfoldable pub new : TaskMetadata → Task
new metadata = record {
  metadata = metadata;
  state = queued;
  error_message = none;
  downloader_id = none;
  downloader_kind = no_downloader;
}

abbrev pub is_terminal_state : TaskState → Bool
is_terminal_state completed = true
is_terminal_state failed = true
is_terminal_state cancelled = true
is_terminal_state _ = false

unfoldable pub is_terminal : Task → Bool
is_terminal t = is_terminal_state t.state

-- `state_ == s`.
abbrev pub is_state : TaskState → TaskState → Bool
is_state queued queued = true
is_state downloading downloading = true
is_state processing processing = true
is_state uploading uploading = true
is_state completed completed = true
is_state failed failed = true
is_state cancelled cancelled = true
is_state _ _ = false

invalid_transition : TaskState → TaskState → Result (Unit {0})
invalid_transition from to =
    error invalid_state
      (bytes "Invalid task transition: " ++ (to_string from ++ (bytes " -> " ++ to_string to)))

-- `touch_()` at the time `now`.
abbrev touch : TimePoint → Task → Task
touch now t = record t { metadata = record t.metadata { updated_at = now } }

-- The body of a transition whose guard is `allowed`.
abbrev move : Bool → TaskState → TimePoint → Task → Task × Result (Unit {0})
move allowed to now t =
    if allowed
    then (touch now (record t { state = to }), ok tt)
    else (t, invalid_transition t.state to)

unfoldable pub start_download : TimePoint → Task → Task × Result (Unit {0})
unfolding invalid_transition
start_download now t = move (is_state t.state queued) downloading now t

unfoldable pub begin_processing : TimePoint → Task → Task × Result (Unit {0})
unfolding invalid_transition
begin_processing now t = move (is_state t.state downloading) processing now t

unfoldable pub begin_upload : TimePoint → Task → Task × Result (Unit {0})
unfolding invalid_transition
begin_upload now t =
    move (is_state t.state downloading || is_state t.state processing) uploading now t

unfoldable pub mark_completed : TimePoint → Task → Task × Result (Unit {0})
unfolding invalid_transition
mark_completed now t = move (is_state t.state uploading) completed now t

unfoldable pub mark_failed : Bytes → TimePoint → Task → Task × Result (Unit {0})
unfolding invalid_transition is_terminal
mark_failed reason now t =
    if is_terminal t
    then (t, invalid_transition t.state failed)
    else (touch now (record t { error_message = some reason; state = failed }), ok tt)

unfoldable pub mark_cancelled : TimePoint → Task → Task × Result (Unit {0})
unfolding invalid_transition is_terminal
mark_cancelled now t = move (not (is_terminal t)) cancelled now t

unfoldable pub attach_downloader : Gid → DownloaderKind → TimePoint → Task → Task
attach_downloader id kind now t =
    touch now (record t { downloader_id = some id; downloader_kind = kind })
