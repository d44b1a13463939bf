-- ===== src/Upstreams.antt =====
-- The pages of the upstreams, ui/src/pages/upstreams.
pub mod Name
pub mod Pool
pub mod Form
pub mod Answer
pub mod Edit
pub mod Listing
pub mod Filter
