-- ===== src/Application/ShowStatus.antt =====
-- src/application/show_status.cpp: the reply to `/status`. What fmt prints of a floating-point number (a
-- size, a rate, a share, the load) is a record of texts, and the backends' reports are a function of
-- the calls so far. Log lines are left out.
pub mod Hidden
use cpp_mirror_leech_bot.Prelude.{
  ℕ, zero, suc, ◌+◌, ◌-◌, Bool, not, ◌&&◌, ◌||◌, ltb, Option, none, some, List, [], ◌∷◌, ◌++◌,
  length, if◌then◌else◌, is_empty, Bytes, bytes,
}
use cpp_mirror_leech_bot.Prelude.Integers.{ℤ, eq_ℤ}
use cpp_mirror_leech_bot.Core.Error.{Result, ok, err, not_found, permission_denied}
use cpp_mirror_leech_bot.Core.Duration.{format_duration, format_eta}
use cpp_mirror_leech_bot.Core.Escape.{escape_html}
use cpp_mirror_leech_bot.Core.Truncate.{truncate_for_display}
use cpp_mirror_leech_bot.Domain.Identifiers.{ChatId, Gid, TaskId, UserId}
use cpp_mirror_leech_bot.Domain.Task
use cpp_mirror_leech_bot.Domain.Task.{DownloaderKind, no_downloader, aria2, qbittorrent, Task}
use cpp_mirror_leech_bot.Application.Ports.{TaskRepository}
use cpp_mirror_leech_bot.Application.Transfer.Status.{DownloadStatus, to_string}
use cpp_mirror_leech_bot.Application.World.{
  Environment, Action, Call, query_status, log, pure, raise, ◌>>=◌, ◌>>◌, require, ignore, find,
  incomplete, send,
}

pub record StatusRequest : Type 0 where
  pub user : UserId
  pub chat : ChatId
  pub task_id : Option TaskId
  pub include_all_users : Bool

unfoldable pub visible_to_request : Task → StatusRequest → Bool
visible_to_request t request =
    eq_ℤ t.metadata.chat request.chat
    && (request.include_all_users || eq_ℤ t.metadata.user request.user)

-- The downloader that the task is bound to, if there is one and it has the task's identifier.
unfoldable pub downloader_for : DownloaderKind → Option Gid → Option (DownloaderKind × Gid)
downloader_for no_downloader id = none
downloader_for kind none = none
downloader_for kind (some id) = some (kind, id)

-- What is printed of the system, of numbers of bytes, and of a download's share of its total.
pub record Figures : Type 0 where
  pub cpu_usage_percent : Bytes
  pub ram_used_bytes : ℤ
  pub ram_total_bytes : ℤ
  pub disk_used_bytes : ℤ
  pub disk_total_bytes : ℤ
  pub bot_uptime : ℤ
  pub format_bytes : ℤ → Bytes
  pub format_rate : ℤ → Bytes
  pub progress_bar : ℤ → ℤ → Bytes
  pub format_percent : ℤ → ℤ → Bytes

module _ (show : ℕ → Bytes) (figures : Figures) where
  unfoldable pub render_metrics_footer : Bytes
  unfolding bytes
  render_metrics_footer =
      bytes "<b><u>System</u></b>\n<b>CPU:</b> <code>"
      ++ figures.cpu_usage_percent
      ++ bytes "%</code> | <b>RAM:</b> <code>"
      ++ figures.format_bytes figures.ram_used_bytes
      ++ bytes "/"
      ++ figures.format_bytes figures.ram_total_bytes
      ++ bytes "</code> | <b>Disk:</b> <code>"
      ++ figures.format_bytes figures.disk_used_bytes
      ++ bytes "/"
      ++ figures.format_bytes figures.disk_total_bytes
      ++ bytes "</code>\n<b>Bot uptime:</b> <code>"
      ++ format_duration show figures.bot_uptime
      ++ bytes "</code>"

  unfoldable pub render_no_active_tasks : Bytes
  unfolding bytes
  render_no_active_tasks =
      bytes "<b><u>Status</u></b>\n"
      ++ bytes "<blockquote>No active tasks. New mirror and leech jobs will appear "
      ++ bytes "here.</blockquote>\n\n"
      ++ render_metrics_footer

  unfoldable pub render_downloader_status : DownloadStatus → ℕ → Bytes
  unfolding bytes
  render_downloader_status status index =
      let name = if is_empty status.name then bytes "(unnamed download)" else status.name in
      bytes "<b>"
      ++ show index
      ++ bytes ".</b> <code>"
      ++ escape_html name
      ++ bytes "</code>\n"
      ++ figures.progress_bar status.downloaded_bytes status.total_bytes
      ++ bytes " <code>"
      ++ figures.format_percent status.downloaded_bytes status.total_bytes
      ++ bytes "</code>\n<b>Size:</b> <code>"
      ++ figures.format_bytes status.downloaded_bytes
      ++ bytes " / "
      ++ figures.format_bytes status.total_bytes
      ++ bytes "</code>\n<b>Rate:</b> <code>"
      ++ figures.format_rate status.download_speed_bps
      ++ bytes "</code> | <b>ETA:</b> <code>"
      ++ format_eta show status.eta
      ++ bytes "</code>\n<b>State:</b> <code>"
      ++ to_string status.state
      ++ bytes "</code>"

  -- The first downloads, numbered from the one after the index.
  unfoldable pub render_blocks : ℕ → ℕ → List DownloadStatus → Bytes
  unfolding bytes
  render_blocks zero i active = []
  render_blocks (suc left) i [] = []
  render_blocks (suc left) i (status ∷ rest) =
      (if ltb 0 i then bytes "\n\n" else [])
      ++ render_downloader_status status (suc i)
      ++ render_blocks left (suc i) rest

  unfoldable pub render_status_list : List DownloadStatus → Bytes
  unfolding bytes
  render_status_list active =
      let more =
        if ltb 10 (length active)
        then bytes "\n\n<i>... and " ++ show (length active - 10) ++ bytes " more task(s)</i>"
        else [] in
      if is_empty active
      then render_no_active_tasks
      else bytes "<b><u>Active Tasks</u></b>\n"
        ++ render_blocks 10 0 active
        ++ more
        ++ bytes "\n\n"
        ++ render_metrics_footer

  unfoldable pub render_task_without_downloader : Task → Bytes
  unfolding bytes
  render_task_without_downloader t =
      bytes "<b><u>Task Status</u></b>\n<b>Task:</b> <code>"
      ++ t.metadata.id
      ++ bytes "</code>\n<b>State:</b> <code>"
      ++ Task.to_string t.state
      ++ bytes "</code>\n<b>Source:</b>\n<blockquote>"
      ++ escape_html (truncate_for_display t.metadata.source_url 200)
      ++ bytes "</blockquote>\n\n"
      ++ render_metrics_footer

unfoldable pub missing_html : TaskId → Bytes
unfolding bytes
missing_html id =
    bytes "<b><u>Status</u></b>\n<b>Task:</b> <code>"
    ++ id
    ++ bytes "</code>\n<blockquote>Task was not found.</blockquote>"

module _ (report : List Call → Result DownloadStatus) where
  -- The report that the backend makes, if it makes one, and the calls after it.
  unfoldable pub look : Option (DownloaderKind × Gid) → List Call → List DownloadStatus × List Call
  look none calls = ([], calls)
  look (some (kind, id)) calls =
      let calls' = query_status kind id ∷ calls in
      (elim (report calls') [ err e ↦ [] | ok s ↦ s ∷ [] ], calls')

  -- The loop over the incomplete tasks.
  unfoldable pub gather : StatusRequest → List Task → List Call → List DownloadStatus × List Call
  gather request [] calls = ([], calls)
  gather request (t ∷ rest) calls =
      let skipped = gather request rest calls in
      let (seen, calls') = look (downloader_for t.downloader_kind t.downloader_id) calls in
      let (others, calls'') = gather request rest calls' in
      if not (visible_to_request t request) then skipped else (seen ++ others, calls'')

module _ {repo : TaskRepository} (env : Environment) (figures : Figures)
    (report : List Call → Result DownloadStatus) where
  unfoldable pub status : DownloaderKind → Gid → Action repo DownloadStatus
  status kind id w = (report (query_status kind id ∷ w.calls), log repo (query_status kind id) w)

  -- A message, and its error if it cannot be sent.
  unfoldable pub post : ChatId → Bytes → Action repo (Unit {0})
  post chat html w =
      let (sent, w') = send env chat html w in (elim sent [ err e ↦ err e | ok m ↦ ok tt ], w')

  unfoldable pub found_task : ChatId → TaskId → Option Task → Action repo Task
  unfolding bytes
  found_task chat id (some t) = pure t
  found_task chat id none = do
    ignore (send env chat (missing_html id))
    raise not_found (bytes "status: task not found")

  unfoldable pub body_of : Task → Option (DownloaderKind × Gid) → Action repo Bytes
  body_of t none = pure (render_task_without_downloader env.show figures t)
  body_of t (some (kind, id)) = do
    s ← status kind id
    pure (render_status_list env.show figures (s ∷ []))

  -- `if (request.task_id.has_value())`.
  unfoldable pub show_one : StatusRequest → TaskId → Action repo (Unit {0})
  unfolding bytes
  show_one request id = do
    loaded ← find env id
    t ← found_task request.chat id loaded
    require (visible_to_request t request) permission_denied
        (bytes "status: task is not visible to this requester")
    body ← body_of t (downloader_for t.downloader_kind t.downloader_id)
    post request.chat body

  unfoldable pub gathered : StatusRequest → List Task → Action repo (List DownloadStatus)
  gathered request tasks w =
      let (active, calls) = gather report request tasks w.calls in
      (ok active, record w { calls = calls })

  unfoldable pub show_all : StatusRequest → Action repo (Unit {0})
  show_all request = do
    tasks ← incomplete env
    active ← gathered request tasks
    post request.chat (render_status_list env.show figures active)

  unfoldable pub execute : StatusRequest → Action repo (Unit {0})
  execute request = elim request.task_id [ none ↦ show_all request | some id ↦ show_one request id ]
