-- ===== src/Persistence/SchemaMigrator/Sql.antt =====
-- The SQL of src/infrastructure/persistence/schema_migrator.cpp, one line of a literal per text.
use cpp_mirror_leech_bot.Prelude.{List, [], ◌∷◌, ◌++◌, Bytes, bytes}

-- The lines of a literal, each with its line feed.
abbrev joined : List Bytes → Bytes
joined [] = []
joined (line ∷ rest) = line ++ (10 ∷ joined rest)

unfoldable pub initial_schema_sql : Bytes
initial_schema_sql = joined (
    bytes ""
    ∷ bytes "-- ---------------------------------------------------------------------------"
    ∷ bytes "-- V0001__initial_schema.sql"
    ∷ bytes "-- Bootstrap CMLB persistence: version log, bot settings, user settings, tasks."
    ∷ bytes "-- ---------------------------------------------------------------------------"
    ∷ bytes ""
    ∷ bytes "CREATE TABLE IF NOT EXISTS schema_version ("
    ∷ bytes "    version     INTEGER PRIMARY KEY,"
    ∷ bytes "    name        TEXT NOT NULL,"
    ∷ bytes "    applied_at  TEXT NOT NULL DEFAULT (strftime('%Y-%m-%dT%H:%M:%fZ', 'now'))"
    ∷ bytes ");"
    ∷ bytes ""
    ∷ bytes "CREATE TABLE IF NOT EXISTS bot_settings ("
    ∷ bytes "    id                    INTEGER PRIMARY KEY CHECK (id = 1),"
    ∷ bytes "    owner_id              INTEGER NOT NULL DEFAULT 0,"
    ∷ bytes "    sudo_users            TEXT    NOT NULL DEFAULT '[]',"
    ∷ bytes "    authorized_chats      TEXT    NOT NULL DEFAULT '[]',"
    ∷ bytes "    download_dir          TEXT    NOT NULL DEFAULT 'downloads',"
    ∷ bytes "    leech_split_size      INTEGER NOT NULL DEFAULT 2097152000,"
    ∷ bytes "    upload_limit_bytes    INTEGER NOT NULL DEFAULT 0,"
    ∷ bytes "    status_update_interval_ms INTEGER NOT NULL DEFAULT 5000,"
    ∷ bytes "    rss_poll_interval_ms  INTEGER NOT NULL DEFAULT 60000,"
    ∷ bytes
        "    updated_at            TEXT    NOT NULL DEFAULT (strftime('%Y-%m-%dT%H:%M:%fZ', 'now'))"
    ∷ bytes ");"
    ∷ bytes ""
    ∷ bytes "CREATE TABLE IF NOT EXISTS user_settings ("
    ∷ bytes "    user_id              INTEGER PRIMARY KEY,"
    ∷ bytes "    leech_destination    TEXT    NOT NULL DEFAULT 'telegram',"
    ∷ bytes "    mirror_destination   TEXT    NOT NULL DEFAULT 'gdrive',"
    ∷ bytes "    default_thumb_path   TEXT,"
    ∷ bytes "    rclone_remote        TEXT,"
    ∷ bytes "    gdrive_folder_id     TEXT,"
    ∷ bytes "    upload_as_document   INTEGER NOT NULL DEFAULT 0,"
    ∷ bytes
        "    created_at           TEXT    NOT NULL DEFAULT (strftime('%Y-%m-%dT%H:%M:%fZ', 'now')),"
    ∷ bytes
        "    updated_at           TEXT    NOT NULL DEFAULT (strftime('%Y-%m-%dT%H:%M:%fZ', 'now'))"
    ∷ bytes ");"
    ∷ bytes ""
    ∷ bytes "CREATE TABLE IF NOT EXISTS tasks ("
    ∷ bytes "    id                  TEXT    PRIMARY KEY,"
    ∷ bytes "    user_id             INTEGER NOT NULL,"
    ∷ bytes "    chat_id             INTEGER NOT NULL,"
    ∷ bytes "    status_message_id   INTEGER NOT NULL,"
    ∷ bytes "    kind                TEXT    NOT NULL,"
    ∷ bytes "    state               TEXT    NOT NULL,"
    ∷ bytes "    source_url          TEXT    NOT NULL,"
    ∷ bytes "    error_message       TEXT,"
    ∷ bytes "    created_at          TEXT    NOT NULL,"
    ∷ bytes "    updated_at          TEXT    NOT NULL"
    ∷ bytes ");"
    ∷ bytes ""
    ∷ bytes "CREATE INDEX IF NOT EXISTS idx_tasks_user_id ON tasks(user_id);"
    ∷ bytes "CREATE INDEX IF NOT EXISTS idx_tasks_state   ON tasks(state);"
    ∷ [])

unfoldable pub rss_feeds_sql : Bytes
rss_feeds_sql = joined (
    bytes ""
    ∷ bytes "-- ---------------------------------------------------------------------------"
    ∷ bytes "-- V0002__rss_feeds.sql"
    ∷ bytes "-- RSS feed subscriptions polled by the RSS monitor subsystem."
    ∷ bytes "-- ---------------------------------------------------------------------------"
    ∷ bytes ""
    ∷ bytes "CREATE TABLE IF NOT EXISTS rss_feeds ("
    ∷ bytes "    feed_id          INTEGER PRIMARY KEY AUTOINCREMENT,"
    ∷ bytes "    title            TEXT    NOT NULL,"
    ∷ bytes "    url              TEXT    NOT NULL UNIQUE,"
    ∷ bytes "    chat_id          INTEGER NOT NULL,"
    ∷ bytes "    include_regex    TEXT    NOT NULL DEFAULT '',"
    ∷ bytes "    exclude_regex    TEXT    NOT NULL DEFAULT '',"
    ∷ bytes "    last_guid        TEXT    NOT NULL DEFAULT '',"
    ∷ bytes "    last_checked_at  TEXT,"
    ∷ bytes "    enabled          INTEGER NOT NULL DEFAULT 1,"
    ∷ bytes "    created_at       TEXT    NOT NULL DEFAULT (strftime('%Y-%m-%dT%H:%M:%fZ', 'now'))"
    ∷ bytes ");"
    ∷ bytes ""
    ∷ bytes "CREATE INDEX IF NOT EXISTS idx_rss_feeds_enabled ON rss_feeds(enabled);"
    ∷ [])

unfoldable pub task_downloader_attachment_sql : Bytes
task_downloader_attachment_sql = joined (
    bytes ""
    ∷ bytes "-- ---------------------------------------------------------------------------"
    ∷ bytes "-- V0003__task_downloader_attachment.sql"
    ∷ bytes "-- Persist the downloader binding (Gid + kind) per Task so that /cancel,"
    ∷ bytes "-- /pause, /resume can dispatch to the correct downloader without guessing."
    ∷ bytes "-- ---------------------------------------------------------------------------"
    ∷ bytes ""
    ∷ bytes "ALTER TABLE tasks ADD COLUMN downloader_kind TEXT NOT NULL DEFAULT 'None';"
    ∷ bytes "ALTER TABLE tasks ADD COLUMN downloader_id   TEXT;"
    ∷ bytes ""
    ∷ bytes "CREATE INDEX IF NOT EXISTS idx_tasks_downloader_id"
    ∷ bytes "    ON tasks(downloader_id)"
    ∷ bytes " WHERE downloader_id IS NOT NULL;"
    ∷ [])
