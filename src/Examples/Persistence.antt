-- ===== src/Examples/Persistence.antt =====
-- Tasks in the table.
use cpp_mirror_leech_bot.Prelude.{◌≡◌, refl, none, some, [], ◌∷◌, bytes_eq}
use cpp_mirror_leech_bot.Prelude.Integers.{pos}
use cpp_mirror_leech_bot.Core.Error.{ok}
use cpp_mirror_leech_bot.Domain.Task
use cpp_mirror_leech_bot.Domain.Task.{Task, kind_to_string}
use cpp_mirror_leech_bot.Persistence.TaskRepository.{
  parse_kind, task_kind_to_string, parse_state, parse_downloader_kind, reconstitute,
}
use cpp_mirror_leech_bot.Persistence.TaskRepository.RoundTrip.{read_at}
use cpp_mirror_leech_bot.Persistence.TaskRepository.Codec.{row_of, task_of_row}
use cpp_mirror_leech_bot.Persistence.TaskRepository.Store.{
  Table, collect_tasks, where_rows, is_incomplete, save, find, incomplete, find-save_self,
}
use cpp_mirror_leech_bot.Examples.Data.{
  first_id, bound_task, bound_task-IsStorable, plain_codec, read_time, print_time,
}

find-save_self_example :
    find plain_codec none (pos 90) first_id (save plain_codec none bound_task []).0
    ≡ ok (some (read_at (pos 90) bound_task))
find-save_self_example = find-save_self plain_codec bound_task [] (pos 90) bound_task-IsStorable

-- The rows in the order in which they stand.
abbrev as_they_are : Table → Table
as_they_are rows = rows

abbrev one_row : Table
one_row = row_of plain_codec bound_task ∷ []

one_row_read :
    incomplete plain_codec as_they_are none (pos 90) one_row ≡ ok (read_at (pos 90) bound_task ∷ [])
unfolding incomplete row_of collect_tasks where_rows is_incomplete bytes_eq Task.to_string
    task_of_row parse_kind task_kind_to_string parse_state parse_downloader_kind kind_to_string
    reconstitute plain_codec read_time print_time
one_row_read = refl
