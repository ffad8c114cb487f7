-- ===== src/Hcloudapi/Hcloud.antt =====
-- The part of hcloud-go that internal/hcloudapi/servers.go calls. Its types stand here with the fields
-- that the program reads and writes; its calls are parameters.
pub mod Documented
use karpenter_provider_hclou.Base.{ℕ, Bool, Option, List, String}
use karpenter_provider_hclou.Base.Map.{Map}
use karpenter_provider_hclou.Hcloudapi.Redact.{Tree}
use karpenter_provider_hclou.Hcloudapi.Servers.{Action}

-- `hcloud.ServerPrivateNet`: the address and the network.
pub record PrivateNet : Type 0 where
  pub ip : Option String
  pub network : Option ℕ

-- The fields of `hcloud.Server` that the program reads; an address is its text, a resource its id or
-- its name.
pub record HcloudServer : Type 0 where
  pub id : ℕ
  pub name : String
  pub status : String
  pub labels : Map String
  pub created : ℕ
  pub server_type : Option String
  pub location : Option String
  pub image : Option ℕ
  pub ipv4 : Option String
  pub ipv4_id : ℕ
  pub ipv6_id : ℕ
  pub placement_group : Option ℕ
  pub firewalls : List ℕ
  pub private_net : List PrivateNet

pub record ServerCreateOpts : Type 0 where
  pub name : String
  pub server_type : String
  pub image : ℕ
  pub location : String
  pub user_data : String
  pub labels : Map String
  pub start_after_create : Bool
  pub automount : Bool
  pub enable_ipv4 : Bool
  pub enable_ipv6 : Bool
  pub ssh_keys : List ℕ
  pub networks : List ℕ
  pub firewalls : List ℕ
  pub placement_group : Option ℕ

-- What a call of hcloud-go returns.
pub data Answer (A : Type 0) : Type 0 where
  answered : A → Answer A
  failed : Tree → Answer A

-- `hcloud.ServerCreateResult`, with actions by their id.
pub record ServerCreateResult : Type 0 where
  pub server : Option HcloudServer
  pub action : ℕ
  pub next_actions : List ℕ

-- The calls of hcloud-go over a state of the outside world; `none` in a list is a nil pointer. The
-- list of actions takes the page size and the order.
pub record Hcloud : Type 1 where
  pub Cloud : Type 0
  pub now : Cloud → ℕ
  pub server_create : ServerCreateOpts → Cloud → Answer ServerCreateResult × Cloud
  pub wait_for : ℕ → List ℕ → Cloud → Answer (Unit {0}) × Cloud
  pub server_delete : ℕ → Cloud → Answer (Unit {0}) × Cloud
  pub server_reset : ℕ → Cloud → Answer (Unit {0}) × Cloud
  pub action_list_for : ℕ → ℕ → List String → Cloud → Answer (List (Option Action)) × Cloud
  pub get_by_id : ℕ → Cloud → Answer (Option HcloudServer) × Cloud
  pub get_by_name : String → Cloud → Answer (Option HcloudServer) × Cloud
  pub all_with_opts : String × String → Cloud → Answer (List (Option HcloudServer)) × Cloud
