-- ===== src/Hcloudapi/Servers.antt =====
-- internal/hcloudapi/servers.go: a server, an order for one, and the interface `Servers`. An id is
-- a number, since every id that Hetzner hands out is positive; a time is in nanoseconds.
pub mod Isolated
use karpenter_provider_hclou.Base.{ℕ, Bool, Option, List, String}
use karpenter_provider_hclou.Base.Map.{Map}
use karpenter_provider_hclou.Hcloudapi.Errors.{Result}

pub record Server : Type 0 where
  pub id : ℕ
  pub name : String
  pub server_type : String
  pub location : String
  pub status : String
  pub labels : Map String
  pub image_id : ℕ
  pub created : ℕ
  pub private_ipv4 : String
  pub public_ipv4 : String
  pub network_ids : List ℕ
  pub firewall_ids : List ℕ
  pub placement_group_id : ℕ
  pub has_public_ipv4 : Bool
  pub has_public_ipv6 : Bool

pub record CreateServerRequest : Type 0 where
  pub name : String
  pub server_type : String
  pub location : String
  pub image_id : ℕ
  pub ssh_key_ids : List ℕ
  pub network_ids : List ℕ
  pub firewall_ids : List ℕ
  pub placement_group_id : Option ℕ
  pub user_data : String
  pub labels : Map String
  pub public_ipv4 : Bool
  pub public_ipv6 : Bool

pub record Action : Type 0 where
  pub command : String
  pub status : String
  pub started : ℕ

-- The interface `Servers` over a state of the outside world, which a call may change as it likes:
-- other clients act on the same project, and the clock moves on. `now` is the clock in a state.
pub record Servers : Type 1 where
  pub Cloud : Type 0
  pub now : Cloud → ℕ
  pub create : CreateServerRequest → Cloud → Result Server × Cloud
  pub delete : ℕ → Cloud → Result (Unit {0}) × Cloud
  pub get : ℕ → Cloud → Result (Option Server) × Cloud
  pub get_by_name : String → Cloud → Result (Option Server) × Cloud
  -- `none` in the list is a nil pointer
  pub list : String × String → Cloud → Result (List (Option Server)) × Cloud
  pub reset : ℕ → Cloud → Result (Unit {0}) × Cloud
  pub recent_actions : ℕ → Cloud → Result (List Action) × Cloud
