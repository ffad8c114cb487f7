-- ===== src/Cloudprovider.antt =====
-- internal/cloudprovider/cloudprovider.go: what karpenter calls. The NodeClasses are read by
-- `get_node_class` from the cluster's API, `build` makes the instance types of a NodeClass out of the
-- catalogue (`none` before the first fetch), and `render` is the interface `Bootstrapper`.
pub mod Drift
pub mod Claims
pub mod Laws
use karpenter_provider_hclou.Base.{
  ℕ, Bool, true, false, not, Option, none, some, List, [], ◌∷◌, map, String, if◌then◌else◌, ◌==◌,
  string_comparable,
}
use karpenter_provider_hclou.Base.Int.{ℤ}
use karpenter_provider_hclou.Base.Map.{Map}
use karpenter_provider_hclou.Api.NodeClass.{HCloudNodeClass, HCloudNodeClassSpec}
use karpenter_provider_hclou.Cloudprovider.Claims.{to_node_claim, to_node_claim_from_server}
use karpenter_provider_hclou.Hcloudapi.Errors.{
  Error, errorf, wrapf, insufficient_capacity, node_claim_not_found, node_class_not_ready,
  create_error, Result, ok, err, is_not_found,
}
use karpenter_provider_hclou.Hcloudapi.Servers.{Server, Servers}
use karpenter_provider_hclou.Instance.Candidates.{has_candidates}
use karpenter_provider_hclou.Instance.Create as Launch
use karpenter_provider_hclou.Instance.Reads as Instances
use karpenter_provider_hclou.Instance.Reboot as Power
use karpenter_provider_hclou.Instance.World.{World}
use karpenter_provider_hclou.Instancetype.Unavailable.{Unavailable}
use karpenter_provider_hclou.Karpenter.{Scheduling, InstanceType, NodeClaim}

-- The second half of `Delete` and of `Reboot`: what is not found is not-found for karpenter too.
unfoldable pub report : Result (Unit {0}) → Result (Unit {0})
report (ok done) = ok tt
report (err e) = if is_not_found e then err (node_claim_not_found e) else err e

abbrev pub no_provider_id : String → Error
no_provider_id name = node_claim_not_found (errorf "nodeclaim %q has no providerID" (name ∷ []))

-- The struct `CloudProvider`, with `instances` and `unavailable` in the state.
pub record CloudProvider (sched : Scheduling) (s : Servers) : Type 0 where
  pub cluster_name : String
  pub get_node_class : String → Result HCloudNodeClass
  pub build : HCloudNodeClass → Unavailable → Option (List (InstanceType sched.Requirements))
  pub render : HCloudNodeClass → NodeClaim sched.Requirements → s.Cloud → Result String × s.Cloud
  pub hash : HCloudNodeClassSpec → String
  pub capacity_for : String → Option (Map ℤ)

module _ {sched : Scheduling} {s : Servers} (c : CloudProvider sched s) where
  open sched use {Requirements}

  unfoldable pub reboot : NodeClaim Requirements → World s → Result (Unit {0}) × World s
  unfolding report
  reboot node_claim w =
      let requested_at : ℕ = elim (node_claim.rebooting_since) [ none ↦ 0 | some t ↦ t ] in
      let (r, w') =
        Power.reboot c.cluster_name node_claim.provider_id node_claim.name requested_at w in
      if node_claim.provider_id == ""
      then (err (no_provider_id node_claim.name), w)
      else (report r, w')

  unfoldable pub delete : NodeClaim Requirements → World s → Result (Unit {0}) × World s
  unfolding report
  delete node_claim w =
      let (r, w') = Instances.delete c.cluster_name node_claim.provider_id w in
      if node_claim.provider_id == ""
      then (err (no_provider_id node_claim.name), w)
      else (report r, w')

  unfoldable pub get : String → World s → Result (NodeClaim Requirements) × World s
  get provider_id w =
      let (r, w') = Instances.get c.cluster_name provider_id w in
      elim r [
        | err e ↦ (err e, w')
        | ok none ↦
            (err (node_claim_not_found (errorf "server %q not found" (provider_id ∷ []))), w')
        | ok (some srv) ↦ (ok (to_node_claim_from_server sched c.capacity_for srv), w')
      ]

  unfoldable pub list : World s → Result (List (NodeClaim Requirements)) × World s
  list w =
      let (r, w') = Instances.list c.cluster_name w in
      elim r [
        | err e ↦ (err e, w')
        | ok servers ↦ (ok (map (to_node_claim_from_server sched c.capacity_for) servers), w')
      ]

  unfoldable pub resolve_node_class : NodeClaim Requirements → Result HCloudNodeClass
  resolve_node_class node_claim = elim (node_claim.node_class_ref) [
    | none ↦
        err
          (node_class_not_ready (errorf "nodeclaim %q has no nodeClassRef" (node_claim.name ∷ [])))
    | some ref ↦ elim (c.get_node_class ref) [
      | err e ↦ err (node_class_not_ready (wrapf "getting nodeclass %q, %w" (ref ∷ []) e))
      | ok node_class ↦
          if node_class.deleting
          then err (node_class_not_ready (errorf "nodeclass %q is terminating" (ref ∷ [])))
          else if not node_class.ready
          then err (node_class_not_ready (errorf "nodeclass %q is not ready: %s" (ref ∷ [])))
          else ok node_class
    ]
  ]

  unfoldable pub instance_types :
      HCloudNodeClass → World s → Result (List (InstanceType Requirements))
  instance_types node_class w = elim (c.build node_class w.unavailable) [
    | none ↦ err (errorf "the Hetzner server type catalog has not been fetched yet" [])
    | some types ↦ ok types
  ]

  -- `Create` from the check for candidates on.
  unfoldable pub launch :
      HCloudNodeClass
      → NodeClaim Requirements
      → List (InstanceType Requirements)
      → World s
      → Result (NodeClaim Requirements) × World s
  launch node_class node_claim types w =
      if not (has_candidates sched node_claim types)
      then (
        err (
            insufficient_capacity (
              errorf
                "no instance type in this NodeClaim's requirements is offered in any location nodeclass %q allows"
                (node_class.name ∷ []))),
        w,
      )
      else (let (u, cloud) = c.render node_class node_claim w.cloud in
          let w' = record w { cloud = cloud } in
          elim u [
            | err e ↦ (err (create_error e "BootstrapRenderFailed"), w')
            | ok user_data ↦
                let (r, w'') =
                  Launch.create sched s c.cluster_name node_class node_claim types user_data w' in
                elim r [
                  | err e ↦ (err e, w'')
                  | ok (srv, it) ↦
                      (ok (to_node_claim sched c.hash srv it node_claim node_class), w'')
                ]
          ])

  unfoldable pub create :
      NodeClaim Requirements → World s → Result (NodeClaim Requirements) × World s
  unfolding resolve_node_class instance_types launch
  create node_claim w = elim (resolve_node_class node_claim) [
    | err e ↦ (err e, w)
    | ok node_class ↦ elim (instance_types node_class w) [
      | err e ↦ (err e, w)
      | ok types ↦ launch node_class node_claim types w
    ]
  ]
