-- ===== src/Cloudprovider/Drift.antt =====
-- internal/cloudprovider/drift.go: whether a node is still what its NodeClass would produce today.
pub mod SameSet
pub mod Laws
use karpenter_provider_hclou.Base.{
  ℕ, Bool, true, false, ◌&&◌, ◌||◌, not, Option, none, some, List, [], ◌∷◌, String, map, exists,
  contains, is_empty, ltb, is_zero_time, elapsed_gt, if◌then◌else◌, ◌==◌, nat_comparable,
  string_comparable,
}
use karpenter_provider_hclou.Base.Map.{lookup, get}
use karpenter_provider_hclou.Base.Sort.{sort_stable}
use karpenter_provider_hclou.Api.Hash.{annotation_hash, annotation_hash_version, hash_version}
use karpenter_provider_hclou.Api.NodeClass.{
  HCloudNodeClass, public_ipv4_enabled, public_ipv6_enabled, image_drift_policy_or_default,
  image_drift_policy_replace,
}
use karpenter_provider_hclou.Hcloudapi.Errors.{Error, wrapf, Result, ok, err}
use karpenter_provider_hclou.Hcloudapi.Servers.{Server, Servers}
use karpenter_provider_hclou.Karpenter.{NodeClaim}
use karpenter_provider_hclou.Instance.Reads as Instances
use karpenter_provider_hclou.Instance.World.{World}

-- `cloudprovider.DriftReason`; `no_drift` is the empty reason.
pub data DriftReason : Type 0 where
  no_drift node_class_drift location_drift network_drift firewall_drift : DriftReason
  placement_group_drift public_net_drift image_drift node_age_drift : DriftReason

unfoldable pub is_no_drift : DriftReason → Bool
is_no_drift no_drift = true
is_no_drift _ = false

unfoldable pub bool_neq : Bool → Bool → Bool
bool_neq true b = not b
bool_neq false b = b

-- `slices.Compact`: of a run of equal elements, one.
unfoldable pub compact : List ℕ → List ℕ
compact [] = []
compact (x ∷ []) = x ∷ []
compact (x ∷ y ∷ rest) = let more = compact (y ∷ rest) in if x == y then more else x ∷ more

-- `slices.Equal`
unfoldable pub equal : List ℕ → List ℕ → Bool
equal [] [] = true
equal [] (y ∷ ys) = false
equal (x ∷ xs) [] = false
equal (x ∷ xs) (y ∷ ys) = x == y && equal xs ys

-- `slices.Sorted` of numbers, which any sort gives.
unfoldable pub sorted : List ℕ → List ℕ
unfolding sort_stable
sorted xs = sort_stable ltb xs

unfoldable pub same_set : List ℕ → List ℕ → Bool
unfolding sorted compact equal
same_set a b = equal (compact (sorted a)) (compact (sorted b))

unfoldable pub node_class_hash_drift : {R : Type 0} → HCloudNodeClass → NodeClaim R → DriftReason
node_class_hash_drift node_class node_claim =
    if not (get node_class.annotations annotation_hash_version == hash_version)
      || not (get node_claim.annotations annotation_hash_version == hash_version)
    then no_drift
    else elim (lookup annotation_hash node_class.annotations) [
      | none ↦ no_drift
      | some class_hash ↦ elim (lookup annotation_hash node_claim.annotations) [
        | none ↦ no_drift
        | some claim_hash ↦ if not (class_hash == claim_hash) then node_class_drift else no_drift
      ]
    ]

unfoldable pub node_age_drift_of : {R : Type 0} → ℕ → HCloudNodeClass → NodeClaim R → DriftReason
node_age_drift_of now node_class node_claim = elim (node_class.spec.max_node_age) [
  | none ↦ no_drift
  | some max_age ↦
      if is_zero_time node_claim.creation_timestamp
      then no_drift
      else if elapsed_gt now node_claim.creation_timestamp max_age
      then node_age_drift
      else no_drift
]

unfoldable pub location_drifts : HCloudNodeClass → Server → Bool
location_drifts node_class srv =
    if not (is_empty node_class.spec.locations)
      && (not (is_empty node_class.status.locations) && not (srv.location == ""))
    then not (exists (λ l. l.name == srv.location) node_class.status.locations)
    else false

unfoldable pub network_drifts : HCloudNodeClass → Server → Bool
network_drifts node_class srv = elim (node_class.status.network) [
  | none ↦ not (is_empty srv.network_ids)
  | some net ↦ if net.id == 0 then false else not (contains net.id srv.network_ids)
]

unfoldable pub firewalls_drift : HCloudNodeClass → Server → Bool
unfolding same_set
firewalls_drift node_class srv =
    not (same_set (map (λ f. f.id) node_class.status.firewalls) srv.firewall_ids)

unfoldable pub wanted_placement_group : HCloudNodeClass → ℕ
wanted_placement_group node_class = elim (node_class.status.placement_group) [
  | none ↦ 0
  | some pg ↦ pg.id
]

unfoldable pub public_net_drifts : HCloudNodeClass → Server → Bool
unfolding bool_neq
public_net_drifts node_class srv =
    bool_neq (public_ipv4_enabled node_class.spec) srv.has_public_ipv4
    || bool_neq (public_ipv6_enabled node_class.spec) srv.has_public_ipv6

unfoldable pub image_drifts : HCloudNodeClass → Server → Bool
image_drifts node_class srv =
    if image_drift_policy_or_default node_class.spec == image_drift_policy_replace
    then elim (node_class.status.image) [
      | none ↦ false
      | some img ↦ not (img.id == 0) && (not (srv.image_id == 0) && not (img.id == srv.image_id))
    ]
    else false

unfoldable pub server_drift : HCloudNodeClass → Server → DriftReason
unfolding location_drifts network_drifts firewalls_drift wanted_placement_group public_net_drifts
    image_drifts
server_drift node_class srv =
    if location_drifts node_class srv
    then location_drift
    else if network_drifts node_class srv
    then network_drift
    else if firewalls_drift node_class srv
    then firewall_drift
    else if not (wanted_placement_group node_class == srv.placement_group_id)
    then placement_group_drift
    else if public_net_drifts node_class srv
    then public_net_drift
    else if image_drifts node_class srv
    then image_drift
    else no_drift

-- `nodeClassKey`: the name, which is empty without a reference.
unfoldable pub node_class_key : {R : Type 0} → NodeClaim R → String
node_class_key node_claim = elim (node_claim.node_class_ref) [ none ↦ "" | some name ↦ name ]

-- `get_node_class` is the read of a NodeClass by its name through the cluster's API.
module _ {s : Servers} {R : Type 0} (cluster_name : String)
    (get_node_class : String → Result HCloudNodeClass) where
  -- The part of `IsDrifted` that reads the server.
  unfoldable pub running_drift :
      HCloudNodeClass → NodeClaim R → World s → Result DriftReason × World s
  unfolding server_drift
  running_drift node_class node_claim w =
      let (r, w') = Instances.get cluster_name node_claim.provider_id w in
      elim r [
        | err e ↦ (err (wrapf "getting server for drift evaluation, %w" [] e), w')
        | ok none ↦ (ok no_drift, w')
        | ok (some srv) ↦ (ok (server_drift node_class srv), w')
      ]

  -- The part of `IsDrifted` that judges, once the NodeClass is there and ready.
  unfoldable pub judge : HCloudNodeClass → NodeClaim R → World s → Result DriftReason × World s
  unfolding node_class_hash_drift node_age_drift_of running_drift
  judge node_class node_claim w =
      let by_hash = node_class_hash_drift node_class node_claim in
      let by_age = node_age_drift_of (s.now w.cloud) node_class node_claim in
      if not (is_no_drift by_hash)
      then (ok by_hash, w)
      else if not (is_no_drift by_age)
      then (ok by_age, w)
      else running_drift node_class node_claim w

  unfoldable pub is_drifted : NodeClaim R → World s → Result DriftReason × World s
  unfolding node_class_key judge
  is_drifted node_claim w =
      if node_claim.provider_id == ""
      then (ok no_drift, w)
      else elim (get_node_class (node_class_key node_claim)) [
        | err e ↦ (err (wrapf "getting nodeclass for drift evaluation, %w" [] e), w)
        | ok node_class ↦
            if node_class.deleting
            then (ok no_drift, w)
            else if not node_class.ready
            then (ok no_drift, w)
            else judge node_class node_claim w
      ]
