-- ===== src/Persistence/TaskRepository/Store.antt =====
-- The five queries of `SqliteTaskRepository`, on the rows of the table `tasks`. `fault` is the error of
-- the pool or of the statement, which leaves the table as it was.
use cpp_mirror_leech_bot.Prelude.{
  ◌≡◌, ◌≢◌, refl, Bool, not, ◌||◌, Option, none, some, List, [], ◌∷◌, ◌++◌, arith, if◌then◌else◌,
  bytes, bytes_eq, bytes_eq_self, bytes_eq_iff,
}
use cpp_mirror_leech_bot.Prelude.Integers.{eq_ℤ}
use cpp_mirror_leech_bot.Core.Error.{AppError, Result, ok, err, error, not_found, ◌>>=◌}
use cpp_mirror_leech_bot.Domain.Identifiers.{TaskId, UserId}
use cpp_mirror_leech_bot.Domain.Task.{TimePoint, Task}
use cpp_mirror_leech_bot.Application.Ports.{IsStorable}
use cpp_mirror_leech_bot.Persistence.TimeCodec.{TimeCodec}
use cpp_mirror_leech_bot.Persistence.TaskRepository.{Row}
use cpp_mirror_leech_bot.Persistence.TaskRepository.Codec.{row_of, task_of_row, task_of_row-row_of}
use cpp_mirror_leech_bot.Persistence.TaskRepository.RoundTrip.{read_at}

abbrev pub Table : Type 0
Table = List Row

-- `DELETE FROM tasks WHERE id = ?`.
unfoldable pub delete_rows : TaskId → Table → Table
delete_rows id [] = []
delete_rows id (r ∷ rows) =
    let rest = delete_rows id rows in if bytes_eq r.id id then rest else r ∷ rest

-- `SELECT … WHERE id = ?`; `id` is the primary key, so there is one row at most.
unfoldable pub select_row : TaskId → Table → Option Row
select_row id [] = none
select_row id (r ∷ rows) = if bytes_eq r.id id then some r else select_row id rows

-- `INSERT OR REPLACE INTO tasks`.
unfoldable pub replace_row : Row → Table → Table
replace_row r rows = r ∷ delete_rows r.id rows

select-delete :
    (id j : TaskId) (rows : Table)
    → select_row j (delete_rows id rows) ≡ (if bytes_eq id j then none else select_row j rows)
unfolding select_row delete_rows
select-delete id j [] = ground arith
select-delete id j (r ∷ rows) =
    ground
      (arith, select-delete id j rows, bytes_eq_iff r.id id, bytes_eq_iff r.id j, bytes_eq_iff id j)

select-replace :
    (r : Row) (j : TaskId) (rows : Table)
    → select_row j (replace_row r rows) ≡ (if bytes_eq r.id j then some r else select_row j rows)
unfolding select_row replace_row
select-replace r j rows = ground (arith, select-delete r.id j rows)

module _ (codec : TimeCodec) where
  unfoldable pub save : Option AppError → Task → Table → Table × Result (Unit {0})
  save (some e) t rows = (rows, err e)
  save none t rows = (replace_row (row_of codec t) rows, ok tt)

  -- What `find` makes of the row that the query gave, if any.
  found : TimePoint → Option Row → Result (Option Task)
  found now none = ok none
  found now (some r) = do t ← task_of_row codec now r; ok (some t)

  unfoldable pub find : Option AppError → TimePoint → TaskId → Table → Result (Option Task)
  unfolding found
  find (some e) now id rows = err e
  find none now id rows = found now (select_row id rows)

  -- `collect_tasks`: every row in turn, up to the first that cannot be read.
  unfoldable pub collect_tasks : TimePoint → Table → Result (List Task)
  collect_tasks now [] = ok []
  collect_tasks now (r ∷ rows) = do
    t ← task_of_row codec now r
    rest ← collect_tasks now rows
    ok (t ∷ rest)

  -- A storable task that was saved is found as it was, but for two times: of that of its creation the
  -- millisecond is kept, and that of its last update is new, except for a queued task without a
  -- downloader, which keeps the millisecond of that one too.
  pub find-save_self :
      (t : Task) (rows : Table) (now : TimePoint)
      → IsStorable t
      → find none now t.metadata.id (save none t rows).0 ≡ ok (some (read_at now t))
  unfolding find save row_of
  find-save_self t rows now storable = rw (
    select-replace (row_of codec t) t.metadata.id rows,
    bytes_eq_self,
    task_of_row-row_of codec now t storable,
  )

  -- Saving one task changes nothing of what is found under another identifier.
  pub find-save_ne :
      (t : Task) (rows : Table) (now : TimePoint) (id : TaskId) (fault : Option AppError)
      → t.metadata.id ≢ id
      → find none now id (save fault t rows).0 ≡ find none now id rows
  unfolding find save row_of
  find-save_ne t rows now id (some e) ne = refl
  find-save_ne t rows now id none ne =
      ground (arith, select-replace (row_of codec t) id rows, bytes_eq_iff t.metadata.id id)

-- `state NOT IN ('Completed', 'Failed', 'Cancelled')`.
unfoldable pub is_incomplete : Row → Bool
unfolding bytes
is_incomplete r = not (
    bytes_eq r.state (bytes "Completed")
    || (bytes_eq r.state (bytes "Failed") || bytes_eq r.state (bytes "Cancelled")))

-- The rows that a test takes.
unfoldable pub where_rows : (Row → Bool) → Table → Table
where_rows test [] = []
where_rows test (r ∷ rows) = let rest = where_rows test rows in if test r then r ∷ rest else rest

-- The queries of many tasks. `by_created` is SQLite's `ORDER BY created_at`, in either direction.
module _ (codec : TimeCodec) (by_created : Table → Table) where
  unfoldable pub incomplete : Option AppError → TimePoint → Table → Result (List Task)
  incomplete (some e) now rows = err e
  incomplete none now rows = collect_tasks codec now (by_created (where_rows is_incomplete rows))

  unfoldable pub for_user : Option AppError → TimePoint → UserId → Table → Result (List Task)
  for_user (some e) now user rows = err e
  for_user none now user rows =
      collect_tasks codec now (by_created (where_rows (λ r. eq_ℤ r.user_id user) rows))

-- `remove`: an error where no row had the identifier.
unfoldable pub remove : Option AppError → TaskId → Table → Table × Result (Unit {0})
remove (some e) id rows = (rows, err e)
remove none id rows = elim (select_row id rows) [
  | none ↦ (rows, error not_found (bytes "remove(TaskId): no task with id " ++ id))
  | some r ↦ (delete_rows id rows, ok tt)
]
