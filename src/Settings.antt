-- ===== src/Settings.antt =====
-- The settings pages: ui/src/pages/settings.
pub mod Security
pub mod Windows
