-- ===== src/Hcloudapi.antt =====
-- internal/hcloudapi: the provider's own view of the Hetzner API.
pub mod Errors
pub mod Scrub
pub mod Redact
pub mod Client
pub mod Labels
pub mod ProviderId
pub mod Servers
pub mod Hcloud
pub mod Conversion
pub mod Adapter
pub mod Catalog
