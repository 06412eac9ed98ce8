-- ===== src/Controller.antt =====
-- internal/controller: the reconcilers.
pub mod Promotion
pub mod Scan
