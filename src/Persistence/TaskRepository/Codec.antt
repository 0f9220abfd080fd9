-- ===== src/Persistence/TaskRepository/Codec.antt =====
-- A task as a row, and a row as a task: the bindings of `save`, and the callbacks of `find` and
-- `collect_tasks`.
use cpp_mirror_leech_bot.Prelude.{◌≡◌, refl}
use cpp_mirror_leech_bot.Core.Error.{Result, ok, ◌>>=◌}
use cpp_mirror_leech_bot.Domain.Task
use cpp_mirror_leech_bot.Domain.Task.{
  TaskState, queued, downloading, processing, uploading, completed, failed, cancelled, TaskKind,
  mirror, leech, clone, DownloaderKind, no_downloader, aria2, qbittorrent, TimePoint, TaskMetadata,
  Task, kind_to_string,
}
use cpp_mirror_leech_bot.Application.Ports.{IsStorable}
use cpp_mirror_leech_bot.Persistence.TimeCodec.{TimeCodec}
use cpp_mirror_leech_bot.Persistence.TaskRepository.{
  Row, task_kind_to_string, parse_kind, parse_state, parse_downloader_kind, reconstitute,
}
use cpp_mirror_leech_bot.Persistence.TaskRepository.RoundTrip.{read_at, reconstitute-in_row}

module _ (codec : TimeCodec) where
  open codec use {to_iso8601, parse_iso8601, parse-to}

  -- The values that `save` binds; an absent text is NULL.
  unfoldable pub row_of : Task → Row
  row_of t = record {
    id = t.metadata.id;
    user_id = t.metadata.user;
    chat_id = t.metadata.chat;
    status_message_id = t.metadata.status_message;
    kind = task_kind_to_string t.metadata.kind;
    state = Task.to_string t.state;
    source_url = t.metadata.source_url;
    error_message = t.error_message;
    created_at = to_iso8601 t.metadata.created_at;
    updated_at = to_iso8601 t.metadata.updated_at;
    downloader_kind = kind_to_string t.downloader_kind;
    downloader_id = t.downloader_id;
  }

  -- What a query makes of a row; the first column that cannot be read is the error.
  unfoldable pub task_of_row : TimePoint → Row → Result Task
  task_of_row now r = do
    kind ← parse_kind r.kind
    state ← parse_state r.state
    created ← parse_iso8601 r.created_at
    updated ← parse_iso8601 r.updated_at
    downloader ← parse_downloader_kind r.downloader_kind
    reconstitute now
        (record {
          id = r.id;
          user = r.user_id;
          chat = r.chat_id;
          status_message = r.status_message_id;
          kind = kind;
          source_url = r.source_url;
          created_at = created;
          updated_at = updated;
        })
        state r.error_message downloader r.downloader_id

  parse_kind-to_string : (k : TaskKind) → parse_kind (task_kind_to_string k) ≡ ok k
  unfolding parse_kind task_kind_to_string
  parse_kind-to_string mirror = refl
  parse_kind-to_string leech = refl
  parse_kind-to_string clone = refl

  parse_state-to_string : (s : TaskState) → parse_state (Task.to_string s) ≡ ok s
  unfolding parse_state Task.to_string
  parse_state-to_string queued = refl
  parse_state-to_string downloading = refl
  parse_state-to_string processing = refl
  parse_state-to_string uploading = refl
  parse_state-to_string completed = refl
  parse_state-to_string failed = refl
  parse_state-to_string cancelled = refl

  parse_downloader_kind-to_string :
      (k : DownloaderKind) → parse_downloader_kind (kind_to_string k) ≡ ok k
  unfolding parse_downloader_kind kind_to_string
  parse_downloader_kind-to_string no_downloader = refl
  parse_downloader_kind-to_string aria2 = refl
  parse_downloader_kind-to_string qbittorrent = refl

  -- Reading the row of a storable task gives the task back, of its creation the
  -- millisecond; only the time of its last update is the time of the reading.
  pub task_of_row-row_of :
      (now : TimePoint) (t : Task) → IsStorable t → task_of_row now (row_of t) ≡ ok (read_at now t)
  unfolding task_of_row row_of
  task_of_row-row_of now t h =
      rw
        (
          parse_kind-to_string,
          parse_state-to_string,
          parse-to t.metadata.created_at h.created,
          parse-to t.metadata.updated_at h.updated,
          parse_downloader_kind-to_string,
        )
        (reconstitute-in_row now t h.valid h.bound)
