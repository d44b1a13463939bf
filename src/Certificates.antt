-- ===== src/Certificates.antt =====
-- The pages of the certificates: ui/src/pages/certificates.
pub mod Form
pub mod Listing
