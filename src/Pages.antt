-- ===== src/Pages.antt =====
-- What the list pages of the console have in common.
pub mod Deletion
pub mod Loader
pub mod Switch
mod Tests
