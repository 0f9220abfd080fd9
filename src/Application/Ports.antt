-- ===== src/Application/Ports.antt =====
-- include/cmlb/infrastructure/persistence/task_repository.hpp: the repository of tasks as the use
-- cases see it, with what they rely on. The clock and the fault of a call are its arguments.
use cpp_mirror_leech_bot.Prelude.{◌+◌, ◌*◌, ◌/◌, ◌<◌, ◌≡◌, ◌≢◌, Option, none, some, List}
use cpp_mirror_leech_bot.Prelude.Integers.{ℤ, pos, negsuc}
use cpp_mirror_leech_bot.Core.Error.{AppError, Result, ok, err}
use cpp_mirror_leech_bot.Domain.Identifiers.{TaskId}
use cpp_mirror_leech_bot.Domain.Task.{TimePoint, Task, no_downloader}
use cpp_mirror_leech_bot.Domain.Task.Runs.{IsValid}

-- A time that the ISO 8601 text of a row can name, with a year of four digits.
abbrev pub IsDated : TimePoint → Type 0
IsDated (pos n) = n < 253402300800000000000
IsDated (negsuc n) = n < 62167219200000000000

-- `floor<milliseconds>`: the milliseconds from the epoch, those of a time before it rounded down.
abbrev pub floor_ms : TimePoint → ℤ
floor_ms (pos n) = pos (n / 1000000)
floor_ms (negsuc n) = negsuc (n / 1000000)

-- The time point that a number of milliseconds is.
abbrev pub from_ms : ℤ → TimePoint
from_ms (pos n) = pos (n * 1000000)
from_ms (negsuc n) = negsuc (n * 1000000 + 999999)

-- What a row keeps of a time point: its millisecond.
abbrev pub whole_ms : TimePoint → TimePoint
whole_ms t = from_ms (floor_ms t)

-- A task that its row can hold: valid, bound to a downloader by both parts or by none, and dated.
pub record IsStorable (t : Task) : Type 0 where
  pub valid : IsValid t
  pub bound : t.downloader_kind ≡ no_downloader → t.downloader_id ≡ none
  pub created : IsDated t.metadata.created_at
  pub updated : IsDated t.metadata.updated_at

-- A task as its row gives it back: of the creation the millisecond, and some time of the last update.
abbrev pub as_read : TimePoint → Task → Task
as_read time t = record t {
  metadata = record t.metadata { created_at = whole_ms t.metadata.created_at; updated_at = time };
}

pub record TaskRepository : Type 1 where
  pub Store : Type 0
  pub find : Option AppError → TimePoint → TaskId → Store → Result (Option Task)
  pub save : Option AppError → Task → Store → Store × Result (Unit {0})
  pub incomplete : Option AppError → TimePoint → Store → Result (List Task)
  pub save_ok : (t : Task) (s : Store) → (save none t s).1 ≡ ok tt
  pub save_fault : (e : AppError) (t : Task) (s : Store) → save (some e) t s ≡ (s, err e)
  pub find-save_self :
      (t : Task) (s : Store) (now : TimePoint)
      → IsStorable t
      → (time : TimePoint) × (find none now t.metadata.id (save none t s).0
          ≡ ok (some (as_read time t)))
  pub find-save_ne :
      (t : Task) (s : Store) (now : TimePoint) (id : TaskId) (fault : Option AppError)
      → t.metadata.id ≢ id
      → find none now id (save fault t s).0 ≡ find none now id s
