-- ===== src/Cloudprovider/Laws.antt =====
-- What karpenter gets from the provider's calls.
use mathlib.Core.Path.{subst}
use karpenter_provider_hclou.Base.{
  ◌≡◌, refl, sym, ap, ◌∙◌, inl, inr, true, false, Option, none, some, List, [], ◌∷◌, String, Has, arith,
  eq_iff, Bool-cases, Option-cases, if◌then◌else◌, ◌==◌, string_comparable,
}
use karpenter_provider_hclou.Base.Map.{Map, lookup, insert, get, lookup-insert}
use karpenter_provider_hclou.Api.Hash.{annotation_hash, annotation_hash_version, hash_version}
use karpenter_provider_hclou.Api.NodeClass.{HCloudNodeClass, HCloudNodeClassSpec}
use karpenter_provider_hclou.Cloudprovider.{
  CloudProvider, resolve_node_class, instance_types, launch, create,
}
use karpenter_provider_hclou.Cloudprovider.Claims.{
  to_node_claim, to_node_claim_from_server, server_labels, stamp, pin_labels, label_instance_type,
  label_topology_zone, label_csi_location, capacity_type_label_key, capacity_type_on_demand,
}
use karpenter_provider_hclou.Cloudprovider.Drift.{no_drift, node_class_drift, node_class_hash_drift}
use karpenter_provider_hclou.Hcloudapi.Errors.{Error, Result, ok, err, Result-cases, ok_injective}
use karpenter_provider_hclou.Hcloudapi.Labels.Ownership.{get-lookup}
use karpenter_provider_hclou.Hcloudapi.ProviderId.{provider_id}
use karpenter_provider_hclou.Hcloudapi.Servers.{Server, Servers}
use karpenter_provider_hclou.Instance.Candidates.{has_candidates, corev1_region_label}
use karpenter_provider_hclou.Instance.Create as Launch
use karpenter_provider_hclou.Instance.World.{World}
use karpenter_provider_hclou.Base.Int.{ℤ}
use karpenter_provider_hclou.Hcloudapi.Labels.{label_node_pool}
use karpenter_provider_hclou.Instance.Request.{node_pool_label_key}
use karpenter_provider_hclou.Instancetype.Zone.{legacy_datacenter_for_location}
use karpenter_provider_hclou.Karpenter.{Scheduling, InstanceType, NodeClaim}

-- A stamped NodeClass: its annotations carry the version and the hash of its own spec.
abbrev pub Stamped : (HCloudNodeClassSpec → String) → HCloudNodeClass → Type 0
Stamped hash node_class =
    (lookup annotation_hash_version node_class.annotations ≡ some hash_version)
    × (lookup annotation_hash node_class.annotations ≡ some (hash node_class.spec))

stamp-hash :
    (hash : HCloudNodeClassSpec → String) (nc : HCloudNodeClass) (m : Map String)
    → (lookup annotation_hash_version (stamp hash nc m) ≡ some hash_version)
      × (lookup annotation_hash (stamp hash nc m) ≡ some (hash nc.spec))
unfolding stamp
stamp-hash hash nc m = (
  lookup-insert annotation_hash_version annotation_hash_version hash_version
      (insert annotation_hash (hash nc.spec) m),
  lookup-insert annotation_hash_version annotation_hash hash_version
        (insert annotation_hash (hash nc.spec) m)
      ∙ lookup-insert annotation_hash annotation_hash (hash nc.spec) m,
)

module _ (sched : Scheduling) (hash : HCloudNodeClassSpec → String) where
  open sched use {Requirements}

  to_node_claim-annotations :
      (srv : Server) (it : Option (InstanceType Requirements)) (claim : NodeClaim Requirements)
      (nc : HCloudNodeClass)
      → (to_node_claim sched hash srv it claim nc).annotations ≡ stamp hash nc claim.annotations
  unfolding to_node_claim
  to_node_claim-annotations srv none claim nc = refl
  to_node_claim-annotations srv (some it) claim nc = refl

  -- A claim that `toNodeClaim` makes drifts by its hash from a later state of the NodeClass, once that
  -- is stamped, exactly if the two specs have different hashes.
  node_class_hash_drift-to_node_claim :
      (srv : Server) (it : Option (InstanceType Requirements)) (claim : NodeClaim Requirements)
      (nc later : HCloudNodeClass)
      → Stamped hash later
      → node_class_hash_drift later (to_node_claim sched hash srv it claim nc)
        ≡ (if hash later.spec == hash nc.spec then no_drift else node_class_drift)
  unfolding node_class_hash_drift
  node_class_hash_drift-to_node_claim srv it claim nc later (version, hashed) =
      let made = (to_node_claim sched hash srv it claim nc).annotations in
      let same : stamp hash nc claim.annotations ≡ made =
        sym (to_node_claim-annotations srv it claim nc) in
      let (v, h) = stamp-hash hash nc claim.annotations in
      let v' : get made annotation_hash_version ≡ hash_version =
        get-lookup made annotation_hash_version
          (subst (λ m. lookup annotation_hash_version m ≡ some hash_version) same v) in
      let h' : lookup annotation_hash made ≡ some (hash nc.spec) =
        subst (λ m. lookup annotation_hash m ≡ some (hash nc.spec)) same h in
      let w : get later.annotations annotation_hash_version ≡ hash_version =
        get-lookup later.annotations annotation_hash_version version in
      ground (
        arith,
        eq_iff (hash later.spec) (hash nc.spec),
        eq_iff (get later.annotations annotation_hash_version) hash_version,
        eq_iff (get made annotation_hash_version) hash_version,
      )

-- The labels that say what a server is.
abbrev pub server_keys : List String
server_keys =
    label_instance_type ∷ corev1_region_label ∷ label_csi_location ∷ capacity_type_label_key
    ∷ label_topology_zone ∷ []

server_labels-lookup :
    (srv : Server) (k : String) (m : Map String)
    → lookup k (server_labels srv m) ≡ (
        if label_topology_zone == k
        then some (legacy_datacenter_for_location srv.location)
        else if capacity_type_label_key == k
        then some capacity_type_on_demand
        else if label_csi_location == k
        then some srv.location
        else if corev1_region_label == k
        then some srv.location
        else if label_instance_type == k
        then some srv.server_type
        else lookup k m)
unfolding server_labels
server_labels-lookup srv k m =
    let a = insert label_instance_type srv.server_type m in
    let b = insert corev1_region_label srv.location a in
    let d = insert label_csi_location srv.location b in
    let e = insert capacity_type_label_key capacity_type_on_demand d in
    rw
      (
        lookup-insert label_topology_zone k (legacy_datacenter_for_location srv.location) e,
        lookup-insert capacity_type_label_key k capacity_type_on_demand d,
        lookup-insert label_csi_location k srv.location b,
        lookup-insert corev1_region_label k srv.location a,
        lookup-insert label_instance_type k srv.server_type m,
      )
      refl

server_labels-same :
    (srv : Server) (k : String) (m n : Map String)
    → Has k server_keys
    → lookup k (server_labels srv m) ≡ lookup k (server_labels srv n)
server_labels-same srv k m n h =
    let at =
      λ (j : String) (e : k ≡ j) (v : Option String) (p : lookup j (server_labels srv m) ≡ v)
          (q : lookup j (server_labels srv n) ≡ v).
        subst (λ i. lookup i (server_labels srv m) ≡ lookup i (server_labels srv n)) (sym e)
          (p ∙ sym q) in
    elim h [
      | inl e ↦
          at label_instance_type e (some srv.server_type)
            (server_labels-lookup srv label_instance_type m)
            (server_labels-lookup srv label_instance_type n)
      | inr (inl e) ↦
          at corev1_region_label e (some srv.location)
            (server_labels-lookup srv corev1_region_label m)
            (server_labels-lookup srv corev1_region_label n)
      | inr (inr (inl e)) ↦
          at label_csi_location e (some srv.location)
            (server_labels-lookup srv label_csi_location m)
            (server_labels-lookup srv label_csi_location n)
      | inr (inr (inr (inl e))) ↦
          at capacity_type_label_key e (some capacity_type_on_demand)
            (server_labels-lookup srv capacity_type_label_key m)
            (server_labels-lookup srv capacity_type_label_key n)
      | inr (inr (inr (inr (inl e)))) ↦
          at label_topology_zone e (some (legacy_datacenter_for_location srv.location))
            (server_labels-lookup srv label_topology_zone m)
            (server_labels-lookup srv label_topology_zone n)
      | inr (inr (inr (inr (inr out)))) ↦ absurd out
    ]

pool_key_apart : (k : String) → Has k server_keys → (node_pool_label_key == k) ≡ false
pool_key_apart k (inl e) = subst (λ j. (node_pool_label_key == j) ≡ false) (sym e) refl
pool_key_apart k (inr (inl e)) = subst (λ j. (node_pool_label_key == j) ≡ false) (sym e) refl
pool_key_apart k (inr (inr (inl e))) = subst (λ j. (node_pool_label_key == j) ≡ false) (sym e) refl
pool_key_apart k (inr (inr (inr (inl e)))) =
    subst (λ j. (node_pool_label_key == j) ≡ false) (sym e) refl
pool_key_apart k (inr (inr (inr (inr (inl e))))) =
    subst (λ j. (node_pool_label_key == j) ≡ false) (sym e) refl
pool_key_apart k (inr (inr (inr (inr (inr out))))) = absurd out

module _ (sched : Scheduling) (hash : HCloudNodeClassSpec → String)
    (capacity_for : String → Option (Map ℤ)) (srv : Server) where
  open sched use {Requirements}

  listed_label :
      (k : String) (m : Map String)
      → Has k server_keys
      → lookup k (server_labels srv m)
        ≡ lookup k (to_node_claim_from_server sched capacity_for srv).labels
  unfolding to_node_claim_from_server
  listed_label k m h =
      let pool = get srv.labels label_node_pool in
      let same = server_labels-same srv k m [] h in
      elim (Bool-cases (pool == "")) [
        | inl unpooled ↦ rw (unpooled, to_node_claim_from_server) same
        | inr pooled ↦
            rw (pooled, to_node_claim_from_server)
              (same
                ∙ sym (
                    lookup-insert node_pool_label_key k pool (server_labels srv [])
                    ∙ rw (pool_key_apart k h) refl))
      ]

  -- The claim that `Create` hands back for a server and the claim that `Get` and `List` make of the same
  -- server have the same provider id, the same creation time, and the same labels for the type, the
  -- region, the zone, the location and the capacity type.
  to_node_claim-agrees :
      (it : Option (InstanceType Requirements)) (claim : NodeClaim Requirements)
      (nc : HCloudNodeClass)
      → ((k : String)
          → Has k server_keys
          → lookup k (to_node_claim sched hash srv it claim nc).labels
            ≡ lookup k (to_node_claim_from_server sched capacity_for srv).labels)
        × ((to_node_claim sched hash srv it claim nc).provider_id
            ≡ (to_node_claim_from_server sched capacity_for srv).provider_id)
        × ((to_node_claim sched hash srv it claim nc).creation_timestamp
            ≡ (to_node_claim_from_server sched capacity_for srv).creation_timestamp)
  unfolding to_node_claim to_node_claim_from_server
  to_node_claim-agrees none claim nc = (λ k. listed_label k claim.labels, refl, refl)
  to_node_claim-agrees (some it) claim nc =
      (λ k. listed_label k (pin_labels (sched.pins it.requirements) claim.labels), refl, refl)

module _ (sched : Scheduling) (s : Servers) (c : CloudProvider sched s) where
  open sched use {Requirements}

  -- The claim of a server: the one given, with the server's provider id and creation time, the stamp of
  -- the NodeClass's spec, and the labels that say what the server is.
  pub record IsClaimOf (nc : HCloudNodeClass) (srv : Server) (it : Option
      (InstanceType Requirements)) (claim made : NodeClaim Requirements) : Type 0 where
    pub name : made.name ≡ claim.name
    pub requirements : made.requirements ≡ claim.requirements
    pub identity : made.provider_id ≡ provider_id srv.id
    pub created : made.creation_timestamp ≡ srv.created
    pub version : lookup annotation_hash_version made.annotations ≡ some hash_version
    pub hashed : lookup annotation_hash made.annotations ≡ some (c.hash nc.spec)
    pub typed : lookup "node.kubernetes.io/instance-type" made.labels ≡ some srv.server_type
    pub region : lookup "topology.kubernetes.io/region" made.labels ≡ some srv.location
    pub location : lookup "csi.hetzner.cloud/location" made.labels ≡ some srv.location
    pub zone :
      lookup "topology.kubernetes.io/zone" made.labels
      ≡ some (legacy_datacenter_for_location srv.location)
    pub on_demand : lookup "karpenter.sh/capacity-type" made.labels ≡ some "on-demand"
    pub sized :
      (t : InstanceType Requirements)
      → it ≡ some t
      → (made.capacity ≡ t.capacity) × (made.allocatable ≡ t.allocatable)

  to_node_claim-IsClaimOf :
      (nc : HCloudNodeClass) (srv : Server) (it : Option (InstanceType Requirements))
      (claim : NodeClaim Requirements)
      → IsClaimOf nc srv it claim (to_node_claim sched c.hash srv it claim nc)
  unfolding to_node_claim
  to_node_claim-IsClaimOf nc srv none claim =
      let (version, hashed) = stamp-hash c.hash nc claim.annotations in
      record {
        name = refl;
        requirements = refl;
        identity = refl;
        created = refl;
        version = version;
        hashed = hashed;
        typed = server_labels-lookup srv label_instance_type claim.labels;
        region = server_labels-lookup srv corev1_region_label claim.labels;
        location = server_labels-lookup srv label_csi_location claim.labels;
        zone = server_labels-lookup srv label_topology_zone claim.labels;
        on_demand = server_labels-lookup srv capacity_type_label_key claim.labels;
        sized = λ t e. absurd (untyped e);
      }
    where
      untyped : {t : InstanceType Requirements} → none ≡ some t → ⊥
      untyped e = cc
  to_node_claim-IsClaimOf nc srv (some it) claim =
      let (version, hashed) = stamp-hash c.hash nc claim.annotations in
      let pinned = pin_labels (sched.pins it.requirements) claim.labels in
      record {
        name = refl;
        requirements = refl;
        identity = refl;
        created = refl;
        version = version;
        hashed = hashed;
        typed = server_labels-lookup srv label_instance_type pinned;
        region = server_labels-lookup srv corev1_region_label pinned;
        location = server_labels-lookup srv label_csi_location pinned;
        zone = server_labels-lookup srv label_topology_zone pinned;
        on_demand = server_labels-lookup srv capacity_type_label_key pinned;
        sized = λ t e. (ap (size_of it) e, ap (room_of it) e);
      }
    where
      size_of : InstanceType Requirements → Option (InstanceType Requirements) → Map ℤ
      size_of u none = u.capacity
      size_of u (some t) = t.capacity

      room_of : InstanceType Requirements → Option (InstanceType Requirements) → Map ℤ
      room_of u none = u.allocatable
      room_of u (some t) = t.allocatable

  -- What a claim that is handed back is: user data was rendered for the claim, and the instance provider
  -- was called with that user data, in the state that rendering left, and gave a server.
  abbrev pub Launched :
      NodeClaim Requirements
      → HCloudNodeClass
      → List (InstanceType Requirements)
      → NodeClaim Requirements
      → World s
      → World s
      → Type 0
  Launched claim nc types made w w' =
      (user_data : String) × (cloud : s.Cloud) × (srv : Server) × (it : Option
        (InstanceType Requirements))
      × (has_candidates sched claim types ≡ true)
      × (c.render nc claim w.cloud ≡ (ok user_data, cloud))
      × (Launch.create sched s c.cluster_name nc claim types user_data
          (record w { cloud = cloud })
        ≡ (ok (srv, it), w'))
      × IsClaimOf nc srv it claim made

  clash :
      {e : Error} {made : NodeClaim Requirements} {u v : World s}
      → ◌≡◌ {A = Result (NodeClaim Requirements) × World s} (err e, u) (ok made, v)
      → ⊥
  clash e = cc

  made_eq :
      {m n : NodeClaim Requirements} {u v : World s}
      → ◌≡◌ {A = Result (NodeClaim Requirements) × World s} (ok m, u) (ok n, v)
      → n ≡ m
  made_eq e = cc

  launch-Launched :
      (nc : HCloudNodeClass) (claim made : NodeClaim Requirements)
      (types : List (InstanceType Requirements)) (w w' : World s)
      → launch c nc claim types w ≡ (ok made, w')
      → Launched claim nc types made w w'
  unfolding launch
  launch-Launched nc claim made types w w' h =
      elim (Bool-cases (has_candidates sched claim types)) [
        | inr bare ↦ absurd (clash (rw (bare, launch) at h))
        | inl fits ↦ elim (Result-cases (c.render nc claim w.cloud).0) [
          | inr (e, failed) ↦ absurd (clash (rw (fits, failed, launch) at h))
          | inl (user_data, rendered) ↦
              let v = record w { cloud = (c.render nc claim w.cloud).1 } in
              let run = Launch.create sched s c.cluster_name nc claim types user_data v in
              elim (Result-cases run.0) [
                | inr (e, failed) ↦ absurd (clash (rw (fits, rendered, failed, launch) at h))
                | inl ((srv, it), created) ↦
                    let out = rw (fits, rendered, created, launch) at h in
                    (
                      user_data,
                      v.cloud,
                      srv,
                      it,
                      fits,
                      λ i. (rendered i, v.cloud),
                      λ i. (created i, (out i).1),
                      subst (IsClaimOf nc srv it claim) (sym (made_eq out))
                          (to_node_claim-IsClaimOf nc srv it claim),
                    )
              ]
        ]
      ]

  resolve-ready :
      (claim : NodeClaim Requirements) (nc : HCloudNodeClass)
      → resolve_node_class c claim ≡ ok nc
      → (ref : String) × (claim.node_class_ref ≡ some ref) × (c.get_node_class ref ≡ ok nc)
        × (nc.ready ≡ true)
        × (nc.deleting ≡ false)
  unfolding resolve_node_class
  resolve-ready claim nc h = elim (Option-cases (claim.node_class_ref)) [
    | inl nothing ↦ absurd (ground arith)
    | inr (ref, named) ↦ elim (Result-cases (c.get_node_class ref)) [
      | inr (e, failed) ↦ absurd (ground arith)
      | inl (found, read) ↦ (ref, named, ground arith, ground arith, ground arith)
    ]
  ]

  instance_types-build :
      (nc : HCloudNodeClass) (types : List (InstanceType Requirements)) (w : World s)
      → instance_types c nc w ≡ ok types
      → c.build nc w.unavailable ≡ some types
  unfolding instance_types
  instance_types-build nc types w h = elim (Option-cases (c.build nc w.unavailable)) [
    | inl unfetched ↦ absurd (ground arith)
    | inr (built, there) ↦ there ∙ ap some (ok_injective (rw (there, instance_types) at h))
  ]

  -- When `Create` succeeds, the NodeClass that the claim refers to was read, is not being deleted and is
  -- ready; the instance types are those built from the catalogue for it with the offerings remembered
  -- as unavailable; the claim has a candidate among them; user data was rendered for it; the instance
  -- provider, given that user data, created or adopted a server; and the claim handed back is the one
  -- given with that server's provider id, creation time, type, region, location and zone, on demand,
  -- with the capacity of the type that was ordered, and with the version and the hash of the NodeClass's
  -- spec in its annotations.
  pub create-Launched :
      (claim made : NodeClaim Requirements) (w w' : World s)
      → create c claim w ≡ (ok made, w')
      → (ref : String) × (nc : HCloudNodeClass) × (types : List (InstanceType Requirements))
        × (claim.node_class_ref ≡ some ref)
        × (c.get_node_class ref ≡ ok nc)
        × (nc.ready ≡ true)
        × (nc.deleting ≡ false)
        × (c.build nc w.unavailable ≡ some types)
        × Launched claim nc types made w w'
  unfolding create
  create-Launched claim made w w' h = elim (Result-cases (resolve_node_class c claim)) [
    | inr (e, failed) ↦ absurd (clash (rw (failed, create) at h))
    | inl (nc, found) ↦ elim (Result-cases (instance_types c nc w)) [
      | inr (e, failed) ↦ absurd (clash (rw (found, failed, create) at h))
      | inl (types, built) ↦
          let (ref, named, read, ready, staying) = resolve-ready claim nc found in
          (
            ref,
            nc,
            types,
            named,
            read,
            ready,
            staying,
            instance_types-build nc types w built,
            launch-Launched nc claim made types w w' (rw (found, built, create) at h),
          )
    ]
  ]
