-- ===== src/Application/Launch.antt =====
-- The launch of `MirrorUrl::execute` and `LeechUrl::execute`, up to the poll loop of
-- Application/Transfer.antt: src/application/mirror_url.cpp and src/application/leech_url.cpp, which differ
-- in the heading of the status message, the kind of the task and what is made of the settings. The
-- settings, the reply of the downloader and the random identifier are ports, decided by the calls so far.
-- The guard is destroyed where the launch fails. Log lines are left out.
pub mod Bound
use cpp_mirror_leech_bot.Prelude.{
  Bool, true, false, not, Option, none, some, List, ◌∷◌, ◌++◌, if◌then◌else◌, Bytes, bytes,
  is_empty,
}
use cpp_mirror_leech_bot.Core.Error.{AppError, Result, ok, err, invalid_argument}
use cpp_mirror_leech_bot.Core.Escape.{escape_html}
use cpp_mirror_leech_bot.Core.Truncate.{truncate_for_display}
use cpp_mirror_leech_bot.Domain.Identifiers.{ChatId, UserId, MessageId, Gid, TaskId}
use cpp_mirror_leech_bot.Domain.Task.{
  TaskKind, mirror, leech, TimePoint, DownloaderKind, aria2, qbittorrent, TaskMetadata, Task, new,
  start_download, mark_failed, attach_downloader,
}
use cpp_mirror_leech_bot.Domain.UploadDestination.{
  UploadDestination, telegram, google_drive, rclone,
}
use cpp_mirror_leech_bot.Persistence.UserSettings.{UserSettingsRecord}
use cpp_mirror_leech_bot.Application.Ports.{TaskRepository}
use cpp_mirror_leech_bot.Application.Registry.{Guard, make_guard, destroy_guard}
use cpp_mirror_leech_bot.Application.Transfer.{Flavour, to_cloud, to_telegram, failure_html}
use cpp_mirror_leech_bot.Application.World.{
  Environment, World, Action, Call, edit_html, get_settings, add_uri, log, pure, raise, lift, ◌>>=◌,
  ◌>>◌, require, attempt, ignore, save, send, time,
}

-- `MirrorRequest` and `LeechRequest`; a leech has no override.
pub record LaunchRequest : Type 0 where
  pub url : Bytes
  pub user : UserId
  pub chat : ChatId
  pub use_qbittorrent : Bool
  pub override_destination : Option UploadDestination

-- The ports that only a launch calls.
pub record LaunchPorts : Type 0 where
  pub settings : List Call → Result (Option UserSettingsRecord)
  pub added : List Call → Result Gid
  pub edited : List Call → Result (Unit {0})
  pub make_task_id : List Call → TaskId

-- Where a mirror uploads to.
unfoldable pub resolve_destination :
    Option UploadDestination → Option UserSettingsRecord → UploadDestination
resolve_destination (some d) settings = d
resolve_destination none none = google_drive
resolve_destination none (some s) = elim s.mirror_destination [
  | google_drive ↦ google_drive
  | rclone ↦ rclone
  | telegram ↦ google_drive
]

-- What an upload is told of the user's settings.
pub record UploadConfig : Type 0 where
  pub folder_id : Option Bytes
  pub rclone_path : Option Bytes
  pub as_document : Bool
  pub thumbnail_path : Option Bytes

abbrev plain_config : UploadConfig
plain_config = record {
  folder_id = none;
  rclone_path = none;
  as_document = false;
  thumbnail_path = none;
}

unfoldable pub upload_config :
    Flavour → UploadDestination → Option UserSettingsRecord → UploadConfig
upload_config flavour destination none = plain_config
upload_config to_cloud google_drive (some s) = record plain_config {
  folder_id = s.gdrive_folder_id;
}
upload_config to_cloud rclone (some s) = record plain_config { rclone_path = s.rclone_remote }
upload_config to_cloud telegram (some s) = plain_config
upload_config to_telegram destination (some s) = record plain_config {
  as_document = s.upload_as_document;
  thumbnail_path = s.default_thumb_path;
}

abbrev pub kind_of : Flavour → TaskKind
kind_of to_cloud = mirror
kind_of to_telegram = leech

abbrev pub backend_of : LaunchRequest → DownloaderKind
backend_of request = if request.use_qbittorrent then qbittorrent else aria2

abbrev empty_url : Flavour → Bytes
empty_url to_cloud = bytes "mirror: empty URL"
empty_url to_telegram = bytes "leech: empty URL"

abbrev pub queued_heading : Flavour → Bytes
queued_heading to_cloud = bytes "<b><u>Queued</u></b>\n<blockquote>"
queued_heading to_telegram = bytes "<b><u>Queued Leech</u></b>\n<blockquote>"

abbrev pub queued_html : Flavour → Bytes → Bytes
queued_html flavour url =
    queued_heading flavour ++ escape_html (truncate_for_display url 200) ++ bytes "</blockquote>"

-- What the loop goes on with.
pub record Launched : Type 0 where
  pub task : Task
  pub guard : Guard
  pub config : UploadConfig

module _ {repo : TaskRepository} (env : Environment) (ports : LaunchPorts) where
  unfoldable pub load_settings : UserId → Action repo (Option UserSettingsRecord)
  load_settings user w =
      (ports.settings (get_settings user ∷ w.calls), log repo (get_settings user) w)

  fresh_id : Action repo TaskId
  fresh_id w = (ok (ports.make_task_id w.calls), w)

  -- `ActiveTaskGuard active_guard{…}` and its destruction.
  open_guard : TaskId → Action repo Guard
  open_guard id w =
      let (guard, registry') = make_guard id w.registry in
      (ok guard, record w { registry = registry' })

  close_guard : Guard → Action repo (Unit {0})
  close_guard guard w = (ok tt, record w { registry = destroy_guard guard w.registry })

  download : DownloaderKind → Bytes → Action repo Gid
  download kind url w = (ports.added (add_uri kind url ∷ w.calls), log repo (add_uri kind url) w)

  edit : ChatId → MessageId → Bytes → Action repo (Unit {0})
  edit chat message html w = (
    ports.edited (edit_html chat message html ∷ w.calls),
    log repo (edit_html chat message html) w,
  )

  -- `fail_task`, and the end of the guard's scope.
  unfoldable pub give_up : {A : Type 0} → Guard → Bytes → AppError → Task → Action repo A
  unfolding edit close_guard
  give_up guard stage e t = do
    now ← time env
    ignore (save env (mark_failed e.message now t).0)
    ignore (edit t.metadata.chat t.metadata.status_message (failure_html stage e))
    close_guard guard
    lift (err e)

  -- The status message and the saved task, queued.
  unfoldable pub enqueue : Flavour → LaunchRequest → Action repo Task
  unfolding fresh_id
  enqueue flavour request = do
    message ← send env request.chat (queued_html flavour request.url)
    now ← time env
    id ← fresh_id
    let t = new (record {
      id = id;
      user = request.user;
      chat = request.chat;
      status_message = message;
      kind = kind_of flavour;
      source_url = request.url;
      created_at = now;
      updated_at = now;
    })
    save env t
    pure t

  -- The task after the reply of the downloader, or its failure.
  unfoldable pub taken : Guard → DownloaderKind → TimePoint → Task → Result Gid → Action repo Task
  taken guard kind now t (err e) = give_up guard (bytes "download") e t
  taken guard kind now t (ok id) =
      let bound = attach_downloader id kind now t in ignore (save env bound) >> pure bound

  -- The downloader takes the task, or the task fails.
  unfoldable pub attach : Guard → LaunchRequest → Task → Action repo Task
  unfolding download
  attach guard request t = do
    gid ← attempt (download (backend_of request) request.url)
    now ← time env
    taken guard (backend_of request) now t gid

  -- The download of a task whose start was allowed.
  unfoldable pub started : Guard → LaunchRequest → Task × Result (Unit {0}) → Action repo Task
  started guard request (t, err e) = give_up guard (bytes "state") e t
  started guard request (t, ok done) = ignore (save env t) >> attach guard request t

  unfoldable pub begin : LaunchRequest → Guard → Task → Action repo Task
  begin request guard t = do now ← time env; started guard request (start_download now t)

  -- The guard, the download and the outcome, for a saved task.
  unfoldable pub follow : LaunchRequest → UploadConfig → Task → Action repo Launched
  unfolding open_guard
  follow request config t = do
    guard ← open_guard t.metadata.id
    bound ← begin request guard t
    pure (record { task = bound; guard = guard; config = config })

  unfoldable pub launch : Flavour → LaunchRequest → Action repo Launched
  unfolding load_settings
  launch flavour request = do
    require (not (is_empty request.url)) invalid_argument (empty_url flavour)
    settings ← load_settings request.user
    let destination = resolve_destination request.override_destination settings
    t ← enqueue flavour request
    follow request (upload_config flavour destination settings) t
