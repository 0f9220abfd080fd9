-- ===== src/Presentation.antt =====
-- src/presentation: commands and buttons.
pub mod CommandParser
pub mod HtmlRenderer
pub mod CommandDispatcher
pub mod CallbackDispatcher
pub mod ProgressRenderer
