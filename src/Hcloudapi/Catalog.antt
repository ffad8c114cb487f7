-- ===== src/Hcloudapi/Catalog.antt =====
-- internal/hcloudapi/types.go: the server types of Hetzner's catalogue, and the interface `Catalog`.
-- Sizes and prices, which the program takes from floating-point numbers, are numbers here: what is
-- modelled passes them on and does not calculate with them.
use karpenter_provider_hclou.Base.{ℕ, Bool, List, String}
use karpenter_provider_hclou.Base.Map.{Map}
use karpenter_provider_hclou.Hcloudapi.Errors.{Result}

pub record Price : Type 0 where
  pub hourly_net : ℕ
  pub monthly_net : ℕ

pub record ServerTypeLocation : Type 0 where
  pub location : String
  pub network_zone : String
  pub available : Bool
  pub recommended : Bool
  pub deprecated : Bool

pub record ServerType : Type 0 where
  pub id : ℕ
  pub name : String
  pub cores : ℕ
  pub memory_gib : ℕ
  pub disk_gb : ℕ
  pub architecture : String
  pub cpu_type : String
  pub storage_type : String
  pub deprecated : Bool
  pub prices : Map Price
  pub locations : List ServerTypeLocation

-- The interface `Catalog` over a state of the outside world, with the clock.
pub record Catalog : Type 1 where
  pub Cloud : Type 0
  pub now : Cloud → ℕ
  pub server_types : Cloud → Result (List ServerType) × Cloud
  pub primary_ipv4_monthly_net : Cloud → Result ℕ × Cloud
