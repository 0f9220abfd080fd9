-- ===== src/Rss.antt =====
-- src/infrastructure/rss: reading a feed's document, and polling the feeds.
pub mod DocumentParser
pub mod Poller
