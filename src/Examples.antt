-- ===== src/Examples.antt =====
-- The theorems at work on concrete values.
pub mod Data
mod Rss
mod Launch
mod Http
mod Directory
mod GoogleDrive
mod Drive
mod Status
mod Migrations
mod Time
mod Callback
mod Core
mod Domain
mod Persistence
mod Registry
mod Cancel
mod Control
mod Transfer
mod Presentation
mod Progress
