-- ===== src/Examples/Migrations.antt =====
-- A migration that fails half way, over a database that counts the bodies it has run.
use cpp_mirror_leech_bot.Prelude.{
  ℕ, suc, drop, ◌≡◌, refl, ◌==◌, if◌then◌else◌, Option, none, some, [], ◌∷◌, arith, Bytes, bytes,
}
use cpp_mirror_leech_bot.Persistence.SchemaMigrator.{
  Database, Sqlite, ensure_schema_version_table, read_current_version, apply_one, apply_pending,
  migrate, migrations,
}
use cpp_mirror_leech_bot.Persistence.SchemaMigrator.Progress.{
  IsAt, Advances, first, migrate-Advances,
}

-- The second body is refused once.
abbrev counting : Bytes → ℕ → Option ℕ
counting sql n = if n == 2 then none else some (suc n)

abbrev failing : Sqlite ℕ
failing = record {
  exec = counting;
  detail = λ sql n. b'x' ∷ [];
  acquire_fault = none;
  ensure_fault = none;
  read_fault = none;
  begin_fault = λ m. none;
  rollback_fault = λ m. none;
  commit_fault = λ m. none;
}

abbrev at_first : Database ℕ
unfolding bytes
at_first = record { versions = some ((1, bytes "V0001__initial_schema") ∷ []); schema = 1 }

at_first-IsAt : IsAt counting 0 (first 1) at_first
unfolding migrations
at_first-IsAt = record { versions = refl; schema = refl }

second_applied : (migrate failing at_first).0.schema ≡ 2
unfolding migrate ensure_schema_version_table read_current_version apply_pending apply_one
    migrations
second_applied = refl

migrate-Advances_example :
    Advances failing 0 (first 1) (drop 1 migrations) (migrate failing at_first)
migrate-Advances_example = migrate-Advances failing 0 1 at_first (omega arith) at_first-IsAt
