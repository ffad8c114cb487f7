-- ===== src/Instancetype.antt =====
-- internal/providers/instancetype: the catalogue of instance types and what suppresses offerings.
pub mod Unavailable
pub mod Zone
pub mod Resources
pub mod Types
