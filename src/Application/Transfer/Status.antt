-- ===== src/Application/Transfer/Status.antt =====
-- include/cmlb/infrastructure/download/downloader_interface.hpp and
-- include/cmlb/infrastructure/upload/uploader_interface.hpp: what the backends report. The
-- floating-point seed ratio and the peer counts, which no use case reads, are left out.
use cpp_mirror_leech_bot.Prelude.{Option, none, List, [], Bytes, bytes}
use cpp_mirror_leech_bot.Prelude.Integers.{ℤ, pos}
use cpp_mirror_leech_bot.Domain.Identifiers.{Gid}

pub data DownloadState : Type 0 where
  queued downloading paused complete failed seeding removed : DownloadState

pub record DownloadStatus : Type 0 where
  pub id : Gid
  pub name : Bytes
  pub state : DownloadState
  pub total_bytes : ℤ
  pub downloaded_bytes : ℤ
  pub uploaded_bytes : ℤ
  pub download_speed_bps : ℤ
  pub upload_speed_bps : ℤ
  pub eta : ℤ
  pub error_message : Option Bytes
  pub save_path : Option Bytes
  pub files : List Bytes

-- `DownloadStatus final_status;`
abbrev pub no_status : DownloadStatus
no_status = record {
  id = [];
  name = [];
  state = queued;
  total_bytes = pos 0;
  downloaded_bytes = pos 0;
  uploaded_bytes = pos 0;
  download_speed_bps = pos 0;
  upload_speed_bps = pos 0;
  eta = pos 0;
  error_message = none;
  save_path = none;
  files = [];
}

unfoldable pub to_string : DownloadState → Bytes
unfolding bytes
to_string queued = bytes "queued"
to_string downloading = bytes "downloading"
to_string paused = bytes "paused"
to_string complete = bytes "complete"
to_string failed = bytes "error"
to_string seeding = bytes "seeding"
to_string removed = bytes "removed"

pub record UploadResult : Type 0 where
  pub file_id : Bytes
  pub link : Bytes
  pub size : ℤ
  pub duration : ℤ
