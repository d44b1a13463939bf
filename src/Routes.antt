-- ===== src/Routes.antt =====
-- The pages of the HTTP routes, ui/src/pages/routes.
pub mod Switches
pub mod Form
pub mod Table
pub mod Canvas
