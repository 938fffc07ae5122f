-- ===== src/Markdown.antt =====
-- internal/utils/markdown.go: texts that Telegram reads as Markdown. `Escape` has the functions that
-- escape, `Reading` what a reader makes of their output.
pub mod Escape
pub mod Reading
mod Tests
