-- ===== src/Sync.antt =====
-- internal/core/state_sync.go: the remote state that an app remembers for the directory, and how it
-- is projected, marked, merged, purged and planned.
pub mod Project
pub mod Mark
pub mod Merge
pub mod Purge
pub mod Plan
pub mod Logs
