-- ===== src/Audit.antt =====
-- internal/audit: the tamper-evident record of security decisions.
mod Decimal
mod Escape
pub mod Record
pub mod Chain
pub mod Store
pub mod Recorder
pub mod Archive
pub mod System
