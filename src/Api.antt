-- ===== src/Api.antt =====
-- api/v1alpha1: the custom resource `HCloudNodeClass`.
pub mod NodeClass
pub mod Hash
pub mod Bootstrap
