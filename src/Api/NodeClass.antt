-- ===== src/Api/NodeClass.antt =====
-- api/v1alpha1: `HCloudNodeClass` with the accessors of defaults.go that the modelled code calls.
-- A pointer is an option, `nil` is `none`.
use karpenter_provider_hclou.Base.{
  ℕ, Bool, true, Option, none, some, List, String, if◌then◌else◌, ◌==◌, string_comparable,
}
use karpenter_provider_hclou.Base.Map.{Map}
use karpenter_provider_hclou.Api.Bootstrap.{BootstrapSpec, KubeletConfiguration}

-- `ImageSelectorTerm` and the other four selectors, which have the same fields.
pub record SelectorTerm : Type 0 where
  pub name : String
  pub id : Option ℕ

-- The fields of the spec that the modelled code reads.
pub record HCloudNodeClassSpec : Type 0 where
  pub image_selector : SelectorTerm
  pub image_drift_policy : String
  pub max_node_age : Option ℕ
  pub locations : List String
  pub network_selector : Option SelectorTerm
  pub firewall_selectors : List SelectorTerm
  pub ssh_key_selectors : List SelectorTerm
  pub placement_group : Option SelectorTerm
  pub public_ipv4 : Option Bool
  pub public_ipv6 : Option Bool
  pub server_labels : Map String
  pub bootstrap : BootstrapSpec
  pub kubelet : KubeletConfiguration

pub record ImageStatus : Type 0 where
  pub id : ℕ
  pub name : String
  pub architecture : String

pub record NetworkStatus : Type 0 where
  pub id : ℕ
  pub name : String
  pub zone : String

pub record FirewallStatus : Type 0 where
  pub id : ℕ
  pub name : String

pub record SshKeyStatus : Type 0 where
  pub id : ℕ
  pub name : String
  pub fingerprint : String

pub record PlacementGroupStatus : Type 0 where
  pub id : ℕ
  pub name : String
  pub server_count : ℕ

pub record LocationStatus : Type 0 where
  pub name : String
  pub network_zone : String

pub record HCloudNodeClassStatus : Type 0 where
  pub image : Option ImageStatus
  pub network : Option NetworkStatus
  pub firewalls : List FirewallStatus
  pub ssh_keys : List SshKeyStatus
  pub placement_group : Option PlacementGroupStatus
  pub locations : List LocationStatus
  pub api_server_endpoint : String
  pub ca_cert_hashes : List String

pub record HCloudNodeClass : Type 0 where
  pub name : String
  pub annotations : Map String
  -- `DeletionTimestamp.IsZero()` is false
  pub deleting : Bool
  -- `StatusConditions().Root().IsTrue()`
  pub ready : Bool
  pub spec : HCloudNodeClassSpec
  pub status : HCloudNodeClassStatus

unfoldable pub public_ipv4_enabled : HCloudNodeClassSpec → Bool
public_ipv4_enabled spec = elim (spec.public_ipv4) [ none ↦ true | some enabled ↦ enabled ]

unfoldable pub public_ipv6_enabled : HCloudNodeClassSpec → Bool
public_ipv6_enabled spec = elim (spec.public_ipv6) [ none ↦ true | some enabled ↦ enabled ]

abbrev pub image_drift_policy_ignore : String
image_drift_policy_ignore = "Ignore"

abbrev pub image_drift_policy_replace : String
image_drift_policy_replace = "Replace"

unfoldable pub image_drift_policy_or_default : HCloudNodeClassSpec → String
image_drift_policy_or_default spec =
    if spec.image_drift_policy == "" then image_drift_policy_ignore else spec.image_drift_policy
