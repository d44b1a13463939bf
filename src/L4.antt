-- ===== src/L4.antt =====
-- The pages of the L4 stream gateway: ui/src/pages/l4.
pub mod Acl
pub mod Service
pub mod Table
pub mod Preview
