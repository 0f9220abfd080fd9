-- ===== src/Persistence/SchemaMigrator.antt =====
-- include/cmlb/infrastructure/persistence/schema_migrator.hpp and
-- src/infrastructure/persistence/schema_migrator.cpp: the migrations in order, each in a transaction of its
-- own. What SQLite makes of a body, and every failure of a statement, is a parameter; a transaction that
-- is not committed leaves the database as it was.
pub mod Sql
pub mod Progress
use Prim.Native.Nat.{max}
use cpp_mirror_leech_bot.Prelude.{
  ℕ, Option, none, some, List, [], ◌∷◌, ◌++◌, if◌then◌else◌, leb, Bytes, bytes,
}
use cpp_mirror_leech_bot.Core.Error.{
  AppError, Result, ok, err, error, migration_error, database_error,
}
use Sql.{initial_schema_sql, rss_feeds_sql, task_downloader_attachment_sql}

pub record Migration : Type 0 where
  pub version : ℕ
  pub name : Bytes
  pub sql : Bytes

unfoldable pub migrations : List Migration
unfolding bytes
migrations =
    (record { version = 1; name = bytes "V0001__initial_schema"; sql = initial_schema_sql })
    ∷ (record { version = 2; name = bytes "V0002__rss_feeds"; sql = rss_feeds_sql })
    ∷ (record {
      version = 3;
      name = bytes "V0003__task_downloader_attachment";
      sql = task_downloader_attachment_sql;
    })
    ∷ []

-- The rows of `schema_version`, if there is such a table, and all else.
pub record Database (Schema : Type 0) : Type 0 where
  pub versions : Option (List (ℕ × Bytes))
  pub schema : Schema

-- What the statements of one run meet: the body of a migration, or the message of its failure, and the
-- exceptions of the others; and the failure of the pool to hand out a connection.
pub record Sqlite (Schema : Type 0) : Type 0 where
  pub exec : Bytes → Schema → Option Schema
  pub detail : Bytes → Schema → Bytes
  pub acquire_fault : Option AppError
  pub ensure_fault : Option Bytes
  pub read_fault : Option Bytes
  pub begin_fault : Migration → Option Bytes
  pub rollback_fault : Migration → Option Bytes
  pub commit_fault : Migration → Option Bytes

-- `COALESCE(MAX(version), 0)`.
abbrev pub max_version : List (ℕ × Bytes) → ℕ
max_version [] = 0
max_version (row ∷ rest) = max row.0 (max_version rest)

abbrev pub rows_of : Option (List (ℕ × Bytes)) → List (ℕ × Bytes)
rows_of none = []
rows_of (some rows) = rows

abbrev pub entry_of : Migration → ℕ × Bytes
entry_of m = (m.version, m.name)

module _ {Schema : Type 0} (sqlite : Sqlite Schema) where
  -- `CREATE TABLE IF NOT EXISTS schema_version`.
  unfoldable pub ensure_schema_version_table : Database Schema → Database Schema × Result (Unit {0})
  unfolding bytes
  ensure_schema_version_table db = elim sqlite.ensure_fault [
    | some what ↦
        (db, error migration_error (bytes "Failed to ensure schema_version table: " ++ what))
    | none ↦ (record db { versions = some (rows_of db.versions) }, ok tt)
  ]

  unfoldable pub read_current_version : Database Schema → Result ℕ
  unfolding bytes
  read_current_version db = elim sqlite.read_fault [
    | some what ↦ error database_error (bytes "Failed to read schema_version: " ++ what)
    | none ↦ ok (max_version (rows_of db.versions))
  ]

  -- The database with the migration and its row.
  abbrev pub committed : Migration → Schema → Database Schema → Database Schema
  committed m schema db = record {
    versions = some (rows_of db.versions ++ entry_of m ∷ []);
    schema = schema;
  }

  unfoldable pub apply_one : Migration → Database Schema → Database Schema × Result (Unit {0})
  unfolding bytes
  apply_one m db = elim (sqlite.begin_fault m) [
    | some what ↦ (
      db,
      error migration_error
          (bytes "Failed to BEGIN for migration " ++ m.name ++ bytes ": " ++ what),
    )
    | none ↦ elim (sqlite.exec m.sql db.schema) [
      | none ↦ elim (sqlite.rollback_fault m) [
        | some what ↦
            (db, error migration_error (bytes "Migration " ++ m.name ++ bytes " threw: " ++ what))
        | none ↦ (
          db,
          error migration_error
              (bytes "Migration " ++ m.name ++ bytes " failed: " ++ sqlite.detail m.sql db.schema),
        )
      ]
      | some schema ↦ elim (sqlite.commit_fault m) [
        | some what ↦
            (db, error migration_error (bytes "Migration " ++ m.name ++ bytes " threw: " ++ what))
        | none ↦ (committed m schema db, ok tt)
      ]
    ]
  ]

  -- The loop over the registry, up to the first failure.
  unfoldable pub apply_pending :
      ℕ → List Migration → Database Schema → Database Schema × Result (Unit {0})
  apply_pending current [] db = (db, ok tt)
  apply_pending current (m ∷ rest) db =
      let skipped = apply_pending current rest db in
      let (db', applied) = apply_one m db in
      let next = apply_pending current rest db' in
      if leb m.version current
      then skipped
      else elim applied [ err e ↦ (db', err e) | ok done ↦ next ]

  unfoldable pub migrate : Database Schema → Database Schema × Result (Unit {0})
  migrate db = elim sqlite.acquire_fault [
    | some e ↦ (db, err e)
    | none ↦
        let (ensured, fine) = ensure_schema_version_table db in
        elim fine [
          | err e ↦ (ensured, err e)
          | ok done ↦ elim (read_current_version ensured) [
            | err e ↦ (ensured, err e)
            | ok current ↦ apply_pending current migrations ensured
          ]
        ]
  ]

  unfoldable pub current_version : Database Schema → Database Schema × Result ℕ
  current_version db = elim sqlite.acquire_fault [
    | some e ↦ (db, err e)
    | none ↦
        let (ensured, fine) = ensure_schema_version_table db in
        (ensured, elim fine [ err e ↦ err e | ok done ↦ read_current_version ensured ])
  ]
