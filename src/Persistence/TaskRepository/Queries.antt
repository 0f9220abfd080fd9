-- ===== src/Persistence/TaskRepository/Queries.antt =====
-- What the queries of many tasks return.
use cpp_mirror_leech_bot.Prelude.{
  ◌≡◌, true, false, Option, none, some, List, [], ◌∷◌, arith, All, Bytes,
}
use cpp_mirror_leech_bot.Core.Error.{AppError, ok}
use cpp_mirror_leech_bot.Domain.Task.{
  TaskState, DownloaderKind, TimePoint, TaskMetadata, Task, is_terminal_state,
}
use cpp_mirror_leech_bot.Persistence.TimeCodec.{TimeCodec}
use cpp_mirror_leech_bot.Persistence.TaskRepository.{Row, parse_state, reconstitute}
use cpp_mirror_leech_bot.Persistence.TaskRepository.Codec.{task_of_row}
use cpp_mirror_leech_bot.Persistence.TaskRepository.Store.{
  Table, collect_tasks, is_incomplete, where_rows, incomplete,
}

reconstitute-state :
    (now : TimePoint) (md : TaskMetadata) (s : TaskState) (m : Option Bytes) (k : DownloaderKind)
    (id : Option Bytes) {t : Task}
    → reconstitute now md s m k id ≡ ok t
    → t.state ≡ s
unfolding reconstitute
reconstitute-state now md s m k id h = ground arith

parse_state_live :
    (r : Row) {s : TaskState}
    → is_incomplete r ≡ true
    → parse_state r.state ≡ ok s
    → is_terminal_state s ≡ false
unfolding is_incomplete parse_state
parse_state_live r h k = ground arith

-- A task on which work remains.
abbrev pub IsLive : Task → Type 0
IsLive t = is_terminal_state t.state ≡ false

abbrev IsIncompleteRow : Row → Type 0
IsIncompleteRow r = is_incomplete r ≡ true

where_rows-All : (rows : Table) → All IsIncompleteRow (where_rows is_incomplete rows)
unfolding where_rows
where_rows-All [] = tt
where_rows-All (r ∷ rows) = ground (arith, where_rows-All rows)

module _ (codec : TimeCodec) where
  task_of_row-IsLive :
      (now : TimePoint) (r : Row) {t : Task}
      → is_incomplete r ≡ true
      → task_of_row codec now r ≡ ok t
      → IsLive t
  unfolding task_of_row
  task_of_row-IsLive now r h k = grind (arith, reconstitute-state, parse_state_live)

  collect_tasks-IsLive :
      (now : TimePoint) (rows : Table) {tasks : List Task}
      → All IsIncompleteRow rows
      → collect_tasks codec now rows ≡ ok tasks
      → All IsLive tasks
  unfolding collect_tasks
  collect_tasks-IsLive now [] h k = ground arith
  collect_tasks-IsLive now (r ∷ rows) h k =
      grind (arith, task_of_row-IsLive now r, collect_tasks-IsLive now rows)

  -- Every task that the query of unfinished tasks returns has work left: none is completed, failed
  -- or cancelled. The engine's `ORDER BY` gives no row that is not in the query.
  pub incomplete-IsLive :
      (by_created : Table → Table)
      → ((P : Row → Type 0) (rows : Table) → All P rows → All P (by_created rows))
      → (fault : Option AppError) (now : TimePoint) (rows : Table) {tasks : List Task}
      → incomplete codec by_created fault now rows ≡ ok tasks
      → All IsLive tasks
  unfolding incomplete
  incomplete-IsLive by_created keep (some e) now rows h = cc
  incomplete-IsLive by_created keep none now rows h =
      collect_tasks-IsLive now _ (keep IsIncompleteRow _ (where_rows-All rows)) h
