-- ===== src/Games.antt =====
-- src/unrealsdk/game: how a game's hooks are chosen, and how BL1E's startup package is replaced.
pub mod Selector
pub mod Startup
mod Tests
