-- ===== src/Directory.antt =====
-- The directory of an environment (internal/core/state_models.go and the lookups of
-- internal/core/state.go and internal/core/state_sync.go).
mod Models
mod Users
pub mod Attributes
pub use Models.*
unfoldable pub use Users.*
