-- ===== src/Web.antt =====
-- The parts of internal/web that keep a state of their own.
pub mod Fault
pub mod Resilience
pub mod Oidc
