-- ===== src/Extensions.antt =====
-- The extensions of the data plane, ui/src/pages/extensions.
pub mod Catalog
pub mod Item
pub mod Hub
pub mod Profiles
pub mod Editor
