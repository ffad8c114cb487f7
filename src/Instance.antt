-- ===== src/Instance.antt =====
-- internal/providers/instance: servers for NodeClaims.
pub mod Candidates
pub mod Request
pub mod World
pub mod ListCache
pub mod Create
pub mod Spared
pub mod Reads
pub mod Reboot
