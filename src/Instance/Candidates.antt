-- ===== src/Instance/Candidates.antt =====
-- internal/providers/instance/instance.go: which (type, location) pairs could satisfy a NodeClaim,
-- cheapest first.
pub mod Order
pub mod Members
use karpenter_provider_hclou.Base.{
  ℕ, ◌<◌, Bool, true, false, ◌&&◌, not, Option, none, some, List, [], ◌∷◌, ◌++◌, String, is_empty,
  ltb, if◌then◌else◌, ◌==◌, nat_comparable, string_comparable,
}
use karpenter_provider_hclou.Base.Int.{ℤ, ltb_ℤ}
use karpenter_provider_hclou.Base.Map.{Map, lookup}
use karpenter_provider_hclou.Base.Sort.{sort_stable, text_ltb}
use karpenter_provider_hclou.Karpenter.{Scheduling, Offering, InstanceType, NodeClaim}

pub record Candidate (R : Type 0) : Type 0 where
  pub instance_type : InstanceType R
  pub location : String
  pub price : ℕ

-- `corev1.LabelTopologyRegion`, which request.go names `corev1RegionLabel`.
abbrev pub corev1_region_label : String
corev1_region_label = "topology.kubernetes.io/region"

-- What the comparison of two candidates reads of one.
abbrev pub Key : Type 0
Key = ℕ × String × String

unfoldable pub key : {R : Type 0} → Candidate R → Key
key c = (c.price, c.instance_type.name, c.location)

unfoldable pub less : Key → Key → Bool
less (p, n, l) (q, m, k) =
    if not (p == q) then ltb p q else if not (n == m) then text_ltb n m else text_ltb l k

unfoldable pub requests_fit : Map ℤ → Map ℤ → Bool
requests_fit allocatable [] = true
requests_fit allocatable ((name, requested) ∷ requests) = elim (lookup name allocatable) [
  | none ↦ false
  | some available ↦ if ltb_ℤ available requested then false else requests_fit allocatable requests
]

module _ (s : Scheduling) where
  unfoldable pub resources_fit : NodeClaim s.Requirements → InstanceType s.Requirements → Bool
  unfolding requests_fit
  resources_fit node_claim it = requests_fit it.allocatable node_claim.requests

  -- The inner loop, over the offerings of a type.
  unfoldable pub offered :
      s.Requirements
      → InstanceType s.Requirements
      → List (Offering s.Requirements)
      → List (Candidate s.Requirements)
  offered reqs it [] = []
  offered reqs it (o ∷ os) =
      let rest = offered reqs it os in
      if not o.available
      then rest
      else if not (s.is_compatible reqs o.requirements)
      then rest
      else elim (s.pinned o.requirements corev1_region_label) [
        | none ↦ rest
        | some region ↦ record { instance_type = it; location = region; price = o.price } ∷ rest
      ]

  -- The outer loop, over the types.
  unfoldable pub candidates :
      NodeClaim s.Requirements
      → List (InstanceType s.Requirements)
      → List (Candidate s.Requirements)
  unfolding resources_fit offered
  candidates node_claim [] = []
  candidates node_claim (it ∷ its) =
      let rest = candidates node_claim its in
      if not (s.intersects it.requirements node_claim.requirements)
      then rest
      else if not (resources_fit node_claim it)
      then rest
      else offered node_claim.requirements it it.offerings ++ rest

  unfoldable pub ordered_candidates :
      NodeClaim s.Requirements
      → List (InstanceType s.Requirements)
      → List (Candidate s.Requirements)
  unfolding candidates less key
  ordered_candidates node_claim instance_types =
      sort_stable (λ a b. less (key a) (key b)) (candidates node_claim instance_types)

  unfoldable pub has_candidates :
      NodeClaim s.Requirements → List (InstanceType s.Requirements) → Bool
  unfolding ordered_candidates
  has_candidates node_claim instance_types =
      not (is_empty (ordered_candidates node_claim instance_types))

  unfoldable pub find_instance_type :
      List (InstanceType s.Requirements) → String → Option (InstanceType s.Requirements)
  find_instance_type [] name = none
  find_instance_type (it ∷ its) name =
      if it.name == name then some it else find_instance_type its name
