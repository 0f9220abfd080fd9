-- ===== src/Persistence.antt =====
-- src/infrastructure/persistence: what is kept in SQLite, and how it is read back.
pub mod TimeCodec
pub mod RssFeeds
pub mod UserSettings
pub mod BotSettings
pub mod SchemaMigrator
pub mod TaskRepository
