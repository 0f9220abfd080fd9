-- ===== src/Persistence/TaskRepository/RoundTrip.antt =====
-- Replaying a task's transitions rebuilds the task.
use cpp_mirror_leech_bot.Prelude.{◌≡◌, Bool, true, false, ◌&&◌, none, arith, if◌then◌else◌}
use cpp_mirror_leech_bot.Core.Error.{ok}
use cpp_mirror_leech_bot.Domain.Task.{
  queued, DownloaderKind, no_downloader, TimePoint, Task, is_state,
}
use cpp_mirror_leech_bot.Domain.Task.Runs.{IsValid}
use cpp_mirror_leech_bot.Application.Ports.{whole_ms, as_read}
use cpp_mirror_leech_bot.Persistence.TaskRepository.{reconstitute}

abbrev is_unbound : DownloaderKind → Bool
is_unbound no_downloader = true
is_unbound _ = false

-- The time of the last update that a read gives: the time of the read, except for a queued task
-- that no downloader has.
abbrev pub time_read : TimePoint → Task → TimePoint
time_read now t =
    if is_state t.state queued && is_unbound t.downloader_kind then t.metadata.updated_at else now

-- The task with what a row keeps of its times.
abbrev pub in_row : Task → Task
in_row t = record t {
  metadata = record t.metadata {
    created_at = whole_ms t.metadata.created_at;
    updated_at = whole_ms t.metadata.updated_at;
  };
}

-- The task that a read of its row gives.
abbrev pub read_at : TimePoint → Task → Task
read_at now t = as_read (time_read now (in_row t)) t

abbrev replayed : TimePoint → Task → Task
replayed now t = record t { metadata = record t.metadata { updated_at = time_read now t } }

-- A valid task that is bound to a downloader by both its parts, or by none, is rebuilt from its
-- fields; only the time of its last update is the time of the reading.
reconstitute_lem :
    (now : TimePoint) (t : Task)
    → IsValid t
    → (t.downloader_kind ≡ no_downloader → t.downloader_id ≡ none)
    → reconstitute now t.metadata t.state t.error_message t.downloader_kind t.downloader_id
      ≡ ok (replayed now t)
unfolding reconstitute
reconstitute_lem now t valid bound = ground arith

-- The fields of a row of a task are replayed to the task that a read gives.
pub reconstitute-in_row :
    (now : TimePoint) (t : Task)
    → IsValid t
    → (t.downloader_kind ≡ no_downloader → t.downloader_id ≡ none)
    → reconstitute now (in_row t).metadata t.state t.error_message t.downloader_kind t.downloader_id
      ≡ ok (read_at now t)
reconstitute-in_row now t valid bound =
    reconstitute_lem now (in_row t) (record { message = valid.message; binding = valid.binding })
      bound
