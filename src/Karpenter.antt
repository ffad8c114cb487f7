-- ===== src/Karpenter.antt =====
-- What the provider takes from sigs.k8s.io/karpenter: its requirements and quantities behind an
-- interface, and the fields that the provider reads of its objects.
use karpenter_provider_hclou.Base.{ℕ, Bool, Option, List, String}
use karpenter_provider_hclou.Base.Map.{Map}
use karpenter_provider_hclou.Base.Int.{ℤ}

-- `scheduling.Requirements`, of which the provider uses four operations.
pub record Scheduling : Type 1 where
  pub Requirements : Type 0
  -- `a.Intersects(b) == nil`
  pub intersects : Requirements → Requirements → Bool
  -- `a.IsCompatible(b, AllowUndefinedWellKnownLabels)`
  pub is_compatible : Requirements → Requirements → Bool
  -- `r := a.Get(key)`: `r.Values()[0]` if `r.Len() == 1`
  pub pinned : Requirements → String → Option String
  -- the requirements of an empty spec
  pub unconstrained : Requirements
  -- the keys whose requirement has one value, with that value
  pub pins : Requirements → Map String

-- `cloudprovider.Offering`. A price is a number of 1/730 of the unit in which Hetzner bills a
-- month, so the division by `HoursPerMonth` is exact and keeps the order.
pub record Offering (R : Type 0) : Type 0 where
  pub requirements : R
  pub price : ℕ
  pub available : Bool

-- `cloudprovider.InstanceType`; `allocatable` is what its method `Allocatable` returns.
pub record InstanceType (R : Type 0) : Type 0 where
  pub name : String
  pub requirements : R
  pub offerings : List (Offering R)
  pub capacity : Map ℤ
  pub allocatable : Map ℤ

-- `corev1.Taint`
pub record Taint : Type 0 where
  pub key : String
  pub value : String
  pub effect : String

-- `karpv1.NodeClaim`: `requirements` are those of its spec, `requests` the resources.
pub record NodeClaim (R : Type 0) : Type 0 where
  pub name : String
  pub uid : String
  pub taints : List Taint
  pub startup_taints : List Taint
  pub labels : Map String
  pub annotations : Map String
  pub requirements : R
  pub requests : Map ℤ
  pub node_class_ref : Option String
  pub provider_id : String
  pub capacity : Map ℤ
  pub allocatable : Map ℤ
  pub creation_timestamp : ℕ
  -- the last transition of the condition `Rebooting`, if the claim has that condition
  pub rebooting_since : Option ℕ
