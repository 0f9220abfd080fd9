-- ===== src/Core.antt =====
-- include/cmlb/core, src/core: errors and text formatting.
pub mod Error
pub mod Action
pub mod Json
pub mod Escape
pub mod Truncate
pub mod Duration
