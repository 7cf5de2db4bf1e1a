-- ===== src/Orchestration.antt =====
-- internal/orchestration: the domain of spaces, channels, members, permissions and presence.
pub mod EntityId
pub mod Clock
pub mod Domain
pub mod Permission
pub mod Presence
pub mod PresenceHub
pub mod Resume
pub mod Sample
