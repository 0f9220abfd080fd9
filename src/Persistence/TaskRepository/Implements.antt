-- ===== src/Persistence/TaskRepository/Implements.antt =====
-- `SqliteTaskRepository` meets the interface that the use cases rely on.
use cpp_mirror_leech_bot.Prelude.{◌≡◌, refl, none, some}
use cpp_mirror_leech_bot.Core.Error.{AppError, ok, err}
use cpp_mirror_leech_bot.Domain.Task.{Task}
use cpp_mirror_leech_bot.Application.Ports.{TaskRepository}
use cpp_mirror_leech_bot.Persistence.TimeCodec.{TimeCodec}
use cpp_mirror_leech_bot.Persistence.TaskRepository.RoundTrip.{time_read, in_row}
use cpp_mirror_leech_bot.Persistence.TaskRepository.Store.{
  Table, save, find, incomplete, find-save_self, find-save_ne,
}

module _ (codec : TimeCodec) where
  pub save_ok : (t : Task) (rows : Table) → (save codec none t rows).1 ≡ ok tt
  unfolding save
  save_ok t rows = refl

  pub save_fault :
      (e : AppError) (t : Task) (rows : Table) → save codec (some e) t rows ≡ (rows, err e)
  unfolding save
  save_fault e t rows = refl

-- The SQLite repository as the repository of the use cases.
abbrev pub sqlite_repository : TimeCodec → (Table → Table) → TaskRepository
sqlite_repository codec by_created = record {
  Store = Table;
  find = find codec;
  save = save codec;
  incomplete = incomplete codec by_created;
  save_ok = save_ok codec;
  save_fault = save_fault codec;
  find-save_self =
      λ t rows now storable. (time_read now (in_row t), find-save_self codec t rows now storable);
  find-save_ne = find-save_ne codec;
}
