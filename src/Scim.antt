-- ===== src/Scim.antt =====
-- internal/core/scim.go and the payloads of internal/core/scim_transport.go: the SCIM sync engine.
pub mod Resource
pub mod Client
pub mod Http
pub mod Progress
pub mod Pass
pub mod Users
pub mod Import
pub mod Groups
pub mod Engine
