-- ===== src/Compliance.antt =====
-- internal/compliance: the controls of a framework, and what the evidence of a scan closes of them.
pub mod Catalog
pub mod Observed
pub mod Evaluate
