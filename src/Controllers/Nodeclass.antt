-- ===== src/Controllers/Nodeclass.antt =====
-- internal/controllers/nodeclass: what the controller of a NodeClass works out.
pub mod Hash
pub mod Resolve
pub mod Firewalls
pub mod SshKeys
pub mod Single
pub mod Scope
pub mod Validation
pub mod BootstrapDiscovery
pub mod Reconciler
