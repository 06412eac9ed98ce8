-- ===== src/Authz.antt =====
-- internal/authz: who may see which models, and how much of a finding they are shown.
pub mod Roles
pub mod Bindings
pub mod Redact
