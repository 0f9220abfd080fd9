-- ===== src/Examples/Status.antt =====
-- `/status` in a chat that has one task, with a task of another chat in the second store.
use cpp_mirror_leech_bot.Prelude.{◌≡◌, inl, arith, refl, false, none, List, [], ◌∷◌, bytes_eq}
use cpp_mirror_leech_bot.Prelude.Integers.{pos}
use cpp_mirror_leech_bot.Core.Error.{Result, ok}
use cpp_mirror_leech_bot.Domain.Task
use cpp_mirror_leech_bot.Domain.Task.{Task, kind_to_string}
use cpp_mirror_leech_bot.Application.Transfer.Status.{DownloadStatus, no_status}
use cpp_mirror_leech_bot.Application.Registry.{empty}
use cpp_mirror_leech_bot.Application.World
use cpp_mirror_leech_bot.Application.World.{World, Call}
use cpp_mirror_leech_bot.Application.ShowStatus.{StatusRequest, Figures, execute}
use cpp_mirror_leech_bot.Application.ShowStatus.Hidden.{
  SameSeen, nothing, both, only_right, execute-visible,
}
use cpp_mirror_leech_bot.Persistence.TaskRepository.{
  parse_kind, task_kind_to_string, parse_state, parse_downloader_kind, reconstitute,
}
use cpp_mirror_leech_bot.Persistence.TaskRepository.Codec.{row_of, task_of_row}
use cpp_mirror_leech_bot.Persistence.TaskRepository.Store.{
  Table, collect_tasks, where_rows, is_incomplete, incomplete,
}
use cpp_mirror_leech_bot.Persistence.TaskRepository.RoundTrip.{read_at}
use cpp_mirror_leech_bot.Examples.Cancel.{repo, calm, read_task}
use cpp_mirror_leech_bot.Examples.Data.{plain_codec, bound_task, read_time, print_time}

-- A task of another chat.
abbrev foreign_task : Task
foreign_task = record bound_task {
  metadata = record bound_task.metadata { id = b't' ∷ b'2' ∷ []; chat = pos 5 };
}

abbrev one_row : Table
one_row = row_of plain_codec bound_task ∷ []

abbrev shared : Table
shared = row_of plain_codec bound_task ∷ row_of plain_codec foreign_task ∷ []

abbrev alone : World repo
alone = record { store = one_row; registry = empty; calls = [] }

abbrev figures : Figures
figures = record {
  cpu_usage_percent = [];
  ram_used_bytes = pos 0;
  ram_total_bytes = pos 0;
  disk_used_bytes = pos 0;
  disk_total_bytes = pos 0;
  bot_uptime = pos 60;
  format_bytes = λ n. [];
  format_rate = λ n. [];
  progress_bar = λ n total. [];
  format_percent = λ n total. [];
}

abbrev report : List Call → Result DownloadStatus
report calls = ok no_status

abbrev all_of_mine : StatusRequest
all_of_mine = record { user = pos 7; chat = pos 100; task_id = none; include_all_users = false }

alone-incomplete : (World.incomplete calm alone).0 ≡ ok (read_task ∷ [])
unfolding World.incomplete incomplete row_of collect_tasks where_rows is_incomplete bytes_eq
    Task.to_string task_of_row parse_kind task_kind_to_string parse_state parse_downloader_kind
    kind_to_string reconstitute plain_codec read_time print_time
alone-incomplete = refl

shared-incomplete :
    (World.incomplete calm (record alone { store = shared })).0
    ≡ ok (read_task ∷ read_at (pos 90) foreign_task ∷ [])
unfolding World.incomplete incomplete row_of collect_tasks where_rows is_incomplete bytes_eq
    Task.to_string task_of_row parse_kind task_kind_to_string parse_state parse_downloader_kind
    kind_to_string reconstitute plain_codec read_time print_time
shared-incomplete = refl

only_mine : SameSeen all_of_mine (read_task ∷ []) (read_task ∷ read_at (pos 90) foreign_task ∷ [])
only_mine = both read_task (only_right (inl (λ e. ground (arith, e))) nothing)

execute-visible_example :
    ((execute calm figures report all_of_mine alone).0
      ≡ (execute calm figures report all_of_mine (record alone { store = shared })).0)
    × ((execute calm figures report all_of_mine alone).1.calls
        ≡ (execute calm figures report all_of_mine (record alone { store = shared })).1.calls)
execute-visible_example =
    execute-visible calm figures report all_of_mine alone shared (read_task ∷ [])
      (read_task ∷ read_at (pos 90) foreign_task ∷ []) refl alone-incomplete shared-incomplete
      only_mine
