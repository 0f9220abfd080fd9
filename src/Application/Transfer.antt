-- ===== src/Application/Transfer.antt =====
-- The part that src/application/mirror_url.cpp and src/application/leech_url.cpp share word for word: the
-- poll loop with its pipelined uploads, and what follows it. The coroutine runs from one point where
-- it waits or takes the lock to the next; between these, spawned uploads may end at any time.
--
-- An `Input` holds every reply that a step may need; the step reads those of its branch. The signals
-- that `cancel_all_uploads` emits reach the coroutine as uploads that end, like all others. Log lines
-- and the rendering of progress are left out.
pub mod Status
pub mod Uploads
pub mod Steps
pub mod Pool
pub mod Ending
pub mod Frozen
pub mod UseCases
pub mod Settling
use cpp_mirror_leech_bot.Prelude.{
  ℕ, Bool, true, false, not, ◌&&◌, Option, none, some, List, [], ◌∷◌, ◌++◌, if◌then◌else◌, ltb,
  ◌==◌, is_empty, Bytes, bytes,
}
use cpp_mirror_leech_bot.Core.Error.{
  AppError, ErrorCode, Result, ok, err, cancelled_error, aria2_rpc, internal_error, unknown_error,
  friendly_error_label,
}
use cpp_mirror_leech_bot.Core.Escape.{escape_html}
use cpp_mirror_leech_bot.Core.Truncate.{truncate_for_display}
use cpp_mirror_leech_bot.Domain.Identifiers.{TaskId}
use cpp_mirror_leech_bot.Domain.Task.{
  TimePoint, Task, begin_upload, mark_completed, mark_failed, mark_cancelled,
}
use Status.{
  DownloadState, queued, downloading, paused, complete, failed, seeding, removed, DownloadStatus,
  no_status, UploadResult,
}
use Uploads.{Pipeline, no_uploads, is_queued, can_spawn_more, spawn_upload}

-- The two use cases, where they differ.
pub data Flavour : Type 0 where
  to_cloud to_telegram : Flavour

-- Why the coroutine gives up: asked to stop, after a failure of the download, or of an upload.
pub data Reason : Type 0 where
  asked_to_stop : Reason
  download_failed : AppError → Reason
  upload_failed : Reason

-- Where the coroutine stands.
pub data Point : Type 0 where
  polling : Point
  feeding : List Bytes → Point
  checking : Point
  draining : Reason → Point
  concluding : Point
  finished : Result TaskId → Point

-- What it did to the repository, the downloader, the uploader and the status message.
pub data Effect : Type 0 where
  save_task : Task → Effect
  remove_download : Bool → Effect
  edit_html : Bytes → Effect
  upload_directory : Bytes → Effect
  upload_file : Bytes → Effect

pub record Transfer : Type 0 where
  pub point : Point
  pub task : Task
  pub pipeline : Pipeline
  pub final_status : DownloadStatus
  pub transitioned : Bool
  pub download_complete : Bool
  pub effects : List Effect

pub record Input : Type 0 where
  pub now : TimePoint
  pub cancelled : Bool
  pub status : Result DownloadStatus
  pub directory : Result (List UploadResult)
  pub file : Result UploadResult

-- The loop's start, for a task that its downloader has accepted.
unfoldable pub start : Task → Transfer
start t = record {
  point = polling;
  task = t;
  pipeline = no_uploads;
  final_status = no_status;
  transitioned = false;
  download_complete = false;
  effects = [];
}

unfoldable pub failure_html : Bytes → AppError → Bytes
failure_html stage e =
    bytes "<b><u>Failed</u></b>\n<b>Stage:</b> <code>"
    ++ (escape_html stage
        ++ (bytes "</code>\n<b>Reason:</b> "
            ++ (escape_html (friendly_error_label e.code)
                ++ (bytes "\n<blockquote>"
                    ++ (escape_html (truncate_for_display e.message 512)
                        ++ bytes "</blockquote>")))))

-- `fail_task`.
unfoldable pub fail_task : Bytes → AppError → Input → Transfer → Transfer
fail_task stage e i c =
    let t = (mark_failed e.message i.now c.task).0 in
    record c {
      point = finished (err e);
      task = t;
      effects = edit_html (failure_html stage e) ∷ save_task t ∷ c.effects;
    }

abbrev cancelled_message : Flavour → Bytes
cancelled_message to_cloud = bytes "mirror: cancelled by user"
cancelled_message to_telegram = bytes "leech: cancelled by user"

abbrev error_of : ErrorCode → Bytes → AppError
error_of code message = record { code = code; message = message }

abbrev first_or_unknown : Option AppError → AppError
first_or_unknown none = error_of unknown_error (bytes "upload failed")
first_or_unknown (some e) = e

-- What follows `drain_uploads` once no upload is in flight.
unfoldable pub conclude : Flavour → Reason → Input → Transfer → Transfer
unfolding fail_task
conclude flavour asked_to_stop i c =
    let t = (mark_cancelled i.now c.task).0 in
    record c {
      point = finished (err (error_of cancelled_error (cancelled_message flavour)));
      task = t;
      effects =
          edit_html
            (bytes "<b><u>Cancelled</u></b>\n<blockquote>Task cancelled by request.</blockquote>")
          ∷ save_task t
          ∷ remove_download true
          ∷ c.effects;
    }
conclude flavour (download_failed e) i c = fail_task (bytes "download") e i c
conclude flavour upload_failed i c =
    fail_task (bytes "upload") (first_or_unknown c.pipeline.first_error) i
      (record c { effects = remove_download false ∷ c.effects })

abbrev message_or_default : Option Bytes → Bytes
message_or_default none = bytes "downloader reported error"
message_or_default (some message) = message

abbrev is_ready : DownloadState → Bool
is_ready complete = true
is_ready seeding = true
is_ready _ = false

-- A status that is no error: the download is done where the files are on disk, and the files that are
-- there are offered to the uploads where the backend allows.
unfoldable pub accept_status : Bool → DownloadStatus → Transfer → Transfer
accept_status pipelining s c = record c {
  point = feeding (if pipelining then s.files else []);
  final_status = s;
  download_complete = if is_ready s.state then true else c.download_complete;
}

-- The three ways in which a status ends the loop, and the others.
unfoldable pub on_state : DownloadState → Bool → DownloadStatus → Transfer → Transfer
unfolding accept_status
on_state failed pipelining s c = record c {
  point = draining (download_failed (error_of aria2_rpc (message_or_default s.error_message)));
  final_status = s;
}
on_state removed pipelining s c = record c {
  point =
      draining (download_failed (error_of cancelled_error (bytes "download removed externally")));
  final_status = s;
}
on_state _ pipelining s c = accept_status pipelining s c

unfoldable pub on_status : Bool → Result DownloadStatus → Transfer → Transfer
unfolding on_state
on_status pipelining (err e) c = record c { point = draining (download_failed e) }
on_status pipelining (ok s) c = on_state s.state pipelining s c

-- The head of the loop.
unfoldable pub poll : Bool → Input → Transfer → Transfer
unfolding on_status
poll pipelining i c =
    if i.cancelled
    then record c { point = draining asked_to_stop }
    else if c.download_complete
    then record c { point = checking }
    else on_status pipelining i.status c

abbrev entered : Task × Result (Unit {0}) → Transfer → Transfer
entered (t, ok done) c = record c {
  task = t;
  transitioned = true;
  effects = save_task t ∷ c.effects;
}
entered (t, err e) c = c

-- `if (!transitioned_to_uploading) …`
unfoldable pub enter_upload : Input → Transfer → Transfer
enter_upload i c = if c.transitioned then c else entered (begin_upload i.now c.task) c

-- One file of the status; the pool being full ends the loop over the files.
unfoldable pub feed : ℕ → Input → List Bytes → Transfer → Transfer
unfolding enter_upload spawn_upload can_spawn_more
feed pool i [] c = record c { point = checking }
feed pool i (file ∷ rest) c =
    if not (can_spawn_more pool c.pipeline)
    then record c { point = checking }
    else if is_queued file c.pipeline.queued
    then record c { point = feeding rest }
    else let d = enter_upload i c in
      record d { point = feeding rest; pipeline = spawn_upload file d.pipeline }

-- The termination check, under one lock.
unfoldable pub check : Transfer → Transfer
check c =
    if ltb 0 c.pipeline.failed
    then record c { point = draining upload_failed }
    else if c.download_complete && c.pipeline.in_flight == 0
    then record c { point = concluding }
    else record c { point = polling }

-- `upload_outcome.link.empty() ? file_id : link`.
abbrev outcome_text : Option UploadResult → Bytes
outcome_text none = []
outcome_text (some r) = if is_empty r.link then r.file_id else r.link

unfoldable pub completed_html : Flavour → Option UploadResult → Bytes
completed_html to_cloud outcome =
    bytes "<b><u>Completed</u></b>\n<blockquote>"
    ++ (escape_html (truncate_for_display (outcome_text outcome) 400) ++ bytes "</blockquote>")
completed_html to_telegram outcome =
    bytes "<b><u>Completed</u></b>\n<blockquote>Files uploaded to Telegram.</blockquote>"

abbrev completed_or_failed :
    Flavour → Option UploadResult → Input → Transfer → Task × Result (Unit {0}) → Transfer
completed_or_failed flavour outcome i c (t, err e) = fail_task (bytes "state") e i c
completed_or_failed flavour outcome i c (t, ok done) = record c {
  point = finished (ok t.metadata.id);
  task = t;
  effects =
      edit_html (completed_html flavour outcome) ∷ remove_download false ∷ save_task t ∷ c.effects;
}

-- The last part: the task is completed.
unfoldable pub succeed : Flavour → Option UploadResult → Input → Transfer → Transfer
unfolding fail_task
succeed flavour outcome i c =
    let t = if c.transitioned then c.task else (begin_upload i.now c.task).0 in
    completed_or_failed flavour outcome i (record c { task = t }) (mark_completed i.now t)

abbrev front : List UploadResult → Option UploadResult
front [] = none
front (r ∷ rest) = some r

-- The results of the whole directory: a mirror completes without any, a leech does not.
unfoldable pub on_directory : Flavour → Result (List UploadResult) → Input → Transfer → Transfer
unfolding fail_task succeed
on_directory flavour (err e) i c = fail_task (bytes "upload") e i c
on_directory to_telegram (ok []) i c =
    fail_task (bytes "upload") (error_of internal_error (bytes "upload produced no results")) i c
on_directory flavour (ok results) i c = succeed flavour (front results) i c

unfoldable pub on_file : Flavour → Result UploadResult → Input → Transfer → Transfer
unfolding fail_task succeed
on_file flavour (err e) i c = fail_task (bytes "upload") e i c
on_file flavour (ok r) i c = succeed flavour (some r) i c

-- The upload of everything at once.
unfoldable pub upload_all : Flavour → List Bytes → Option Bytes → Input → Transfer → Transfer
unfolding fail_task on_directory on_file
upload_all flavour [] path i c =
    fail_task (bytes "download")
      (error_of internal_error (bytes "downloader reported no produced files")) i c
upload_all flavour (file ∷ files) (some path) i c =
    on_directory flavour i.directory i (record c { effects = upload_directory path ∷ c.effects })
upload_all flavour (file ∷ files) none i c =
    on_file flavour i.file i (record c { effects = upload_file file ∷ c.effects })

abbrev fall_back : Flavour → Bytes → Input → Transfer → Task × Result (Unit {0}) → Transfer
fall_back flavour html i c (t, err e) = fail_task (bytes "state") e i c
fall_back flavour html i c (t, ok done) =
    upload_all flavour c.final_status.files c.final_status.save_path i
      (record c { task = t; effects = edit_html html ∷ save_task t ∷ c.effects })

-- After the loop: done where the uploads brought anything, and else everything is uploaded now.
-- `html` announces the destination.
unfoldable pub finish : Flavour → Bytes → Input → Transfer → Transfer
unfolding succeed upload_all
finish flavour html i c =
    if ltb 0 c.pipeline.completed
    then succeed flavour (front c.pipeline.results) i c
    else fall_back flavour html i c (begin_upload i.now c.task)
