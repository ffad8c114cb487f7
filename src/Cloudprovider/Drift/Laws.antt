-- ===== src/Cloudprovider/Drift/Laws.antt =====
-- When `IsDrifted` asks for a node to be replaced, and that it does not ask so of a fresh one.
use karpenter_provider_hclou.Base.{
  ℕ, ◌≡◌, ◌≢◌, ◌⊎◌, inl, inr, refl, sym, ap, ◌∙◌, Bool, true, false, none, some, List, [], ◌∷◌,
  String, map, Has, exists, arith, eq_iff, Bool-cases, Option-cases, ◌==◌, nat_comparable,
  string_comparable,
}
use karpenter_provider_hclou.Api.NodeClass.{
  HCloudNodeClass, public_ipv4_enabled, public_ipv6_enabled, image_drift_policy_or_default,
  LocationStatus,
}
use karpenter_provider_hclou.Cloudprovider.Drift.{
  DriftReason, no_drift, is_no_drift, same_set, bool_neq, location_drifts, network_drifts,
  firewalls_drift, wanted_placement_group, public_net_drifts, image_drifts, server_drift,
  node_class_hash_drift, node_age_drift_of, node_class_key, running_drift, judge, is_drifted,
}
use karpenter_provider_hclou.Cloudprovider.Drift.SameSet.{same_set_iff}
use karpenter_provider_hclou.Hcloudapi.Errors.{Error, Result, ok, err, Result-cases}
use karpenter_provider_hclou.Hcloudapi.Servers.{Server, CreateServerRequest, Servers}
use karpenter_provider_hclou.Instance.Reads as Instances
use karpenter_provider_hclou.Instance.Request.{
  base_request, request_network_ids, request_placement_group_id, resolved_image_id,
}
use karpenter_provider_hclou.Instance.World.{World}
use karpenter_provider_hclou.Karpenter.{NodeClaim}

-- The server has what the order asked for; an order without a placement group gives id 0.
pub record AsOrdered (req : CreateServerRequest) (srv : Server) : Type 0 where
  pub networks : srv.network_ids ≡ req.network_ids
  pub firewalls : srv.firewall_ids ≡ req.firewall_ids
  pub placement :
      srv.placement_group_id ≡ (elim (req.placement_group_id) [ none ↦ 0 | some id ↦ id ])
  pub ipv4 : srv.has_public_ipv4 ≡ req.public_ipv4
  pub ipv6 : srv.has_public_ipv6 ≡ req.public_ipv6
  pub image : srv.image_id ≡ req.image_id

same_bool : (b : Bool) → bool_neq b b ≡ false
unfolding bool_neq
same_bool true = refl
same_bool false = refl

same_set_refl : (a : List ℕ) → same_set a a ≡ true
same_set_refl a = (same_set_iff a a).1 (λ id. (λ m. m, λ m. m))

exists-location :
    (name : String) (locations : List LocationStatus) (l : LocationStatus)
    → Has l locations
    → l.name ≡ name
    → exists (λ k. k.name == name) locations ≡ true
exists-location name [] l m e = absurd m
exists-location name (k ∷ ks) l (inl h) e = ground (arith, eq_iff k.name name)
exists-location name (k ∷ ks) l (inr h) e = ground (arith, exists-location name ks l h e)

module _ (node_class : HCloudNodeClass) where
  network-fresh :
      (srv : Server)
      → srv.network_ids ≡ request_network_ids node_class
      → network_drifts node_class srv ≡ false
  unfolding network_drifts request_network_ids
  network-fresh srv e = elim (Option-cases (node_class.status.network)) [
    | inl nowhere ↦ ground arith
    | inr (net, there) ↦ ground arith
  ]

  placement-fresh :
      (srv : Server)
      → srv.placement_group_id
        ≡ (elim (request_placement_group_id node_class) [ none ↦ 0 | some id ↦ id ])
      → (wanted_placement_group node_class == srv.placement_group_id) ≡ true
  unfolding wanted_placement_group request_placement_group_id
  placement-fresh srv e = elim (Option-cases (node_class.status.placement_group)) [
    | inl nowhere ↦ ground arith
    | inr (pg, there) ↦ ground arith
  ]

  public-fresh :
      (srv : Server)
      → srv.has_public_ipv4 ≡ public_ipv4_enabled node_class.spec
      → srv.has_public_ipv6 ≡ public_ipv6_enabled node_class.spec
      → public_net_drifts node_class srv ≡ false
  unfolding public_net_drifts
  public-fresh srv four six =
      rw
        (
          four,
          six,
          same_bool (public_ipv4_enabled node_class.spec),
          same_bool (public_ipv6_enabled node_class.spec),
          public_net_drifts,
        )
        refl

  image-fresh :
      (srv : Server)
      → resolved_image_id node_class ≡ some srv.image_id
      → image_drifts node_class srv ≡ false
  unfolding image_drifts resolved_image_id
  image-fresh srv e = elim (Option-cases (node_class.status.image)) [
    | inl nowhere ↦ ground (arith, eq_iff (image_drift_policy_or_default node_class.spec) "Replace")
    | inr (img, there) ↦
        ground (arith, eq_iff (image_drift_policy_or_default node_class.spec) "Replace")
  ]

  location-fresh :
      (srv : Server) (l : LocationStatus)
      → Has l node_class.status.locations
      → l.name ≡ srv.location
      → location_drifts node_class srv ≡ false
  unfolding location_drifts
  location-fresh srv l m e =
      ground (arith, exists-location srv.location node_class.status.locations l m e)

  firewalls-fresh :
      (srv : Server)
      → srv.firewall_ids ≡ map (λ f. f.id) node_class.status.firewalls
      → firewalls_drift node_class srv ≡ false
  unfolding firewalls_drift
  firewalls-fresh srv e =
      rw (e, same_set_refl (map (λ f. f.id) node_class.status.firewalls), firewalls_drift) refl

  -- What an order takes from the NodeClass.
  pub record Ordered (req : CreateServerRequest) : Type 0 where
    pub networks : req.network_ids ≡ request_network_ids node_class
    pub firewalls : req.firewall_ids ≡ map (λ f. f.id) node_class.status.firewalls
    pub placement : req.placement_group_id ≡ request_placement_group_id node_class
    pub ipv4 : req.public_ipv4 ≡ public_ipv4_enabled node_class.spec
    pub ipv6 : req.public_ipv6 ≡ public_ipv6_enabled node_class.spec
    pub image : resolved_image_id node_class ≡ some req.image_id

  base_request-Ordered :
      {R : Type 0} (cluster_name user_data : String) (node_claim : NodeClaim R)
      (req : CreateServerRequest)
      → base_request cluster_name node_class node_claim user_data ≡ ok req
      → Ordered req
  unfolding base_request
  base_request-Ordered c user_data node_claim req h =
      elim (Option-cases (resolved_image_id node_class)) [
        | inl unresolved ↦ absurd (ground arith)
        | inr (id, image) ↦ elim (Bool-cases (c == "")) [
          | inl unnamed ↦ absurd (ground arith)
          | inr named ↦
              let made = rw (image, named, base_request) at h in
              record {
                networks = cc;
                firewalls = cc;
                placement = cc;
                ipv4 = cc;
                ipv6 = cc;
                image = cc;
              }
        ]
      ]

  -- A server that is as `Create` ordered it does not drift from the NodeClass whose status the order
  -- was made from, as long as its location is one of that status.
  pub server_drift-fresh :
      {R : Type 0} (cluster_name user_data : String) (node_claim : NodeClaim R)
      (req : CreateServerRequest) (srv : Server) (l : LocationStatus)
      → base_request cluster_name node_class node_claim user_data ≡ ok req
      → AsOrdered req srv
      → Has l node_class.status.locations
      → l.name ≡ srv.location
      → server_drift node_class srv ≡ no_drift
  unfolding server_drift
  server_drift-fresh c user_data node_claim req srv l based a m e =
      let o = base_request-Ordered c user_data node_claim req based in
      rw
        (
          location-fresh srv l m e,
          network-fresh srv (a.networks ∙ o.networks),
          firewalls-fresh srv (a.firewalls ∙ o.firewalls),
          placement-fresh srv (rw (sym o.placement) a.placement),
          public-fresh srv (a.ipv4 ∙ o.ipv4) (a.ipv6 ∙ o.ipv6),
          image-fresh srv (o.image ∙ ap some (sym a.image)),
          server_drift,
        )
        refl

module _ (s : Servers) (R : Type 0) (cluster_name : String)
    (get_node_class : String → Result HCloudNodeClass) where
  -- Where a reason comes from.
  abbrev pub From : DriftReason → HCloudNodeClass → NodeClaim R → World s → World s → Type 0
  From reason node_class node_claim w w' =
      (reason ≡ node_class_hash_drift node_class node_claim)
      ⊎ (reason ≡ node_age_drift_of (s.now w.cloud) node_class node_claim)
      ⊎ ((srv : Server) × (Instances.get cluster_name node_claim.provider_id w
            ≡ (ok (some srv), w'))
          × (reason ≡ server_drift node_class srv))

  same :
      {a b : DriftReason} {u v : World s}
      → ◌≡◌ {A = Result DriftReason × World s} (ok a, u) (ok b, v)
      → b ≡ a
  same e = cc

  clash :
      {e : Error} {b : DriftReason} {u v : World s}
      → ◌≡◌ {A = Result DriftReason × World s} (err e, u) (ok b, v)
      → ⊥
  clash e = cc

  judge-From :
      (node_class : HCloudNodeClass) (node_claim : NodeClaim R) (w w' : World s)
      (reason : DriftReason)
      → judge cluster_name get_node_class node_class node_claim w ≡ (ok reason, w')
      → reason ≢ no_drift
      → From reason node_class node_claim w w'
  unfolding judge running_drift
  judge-From nc claim w w' reason h declared =
      elim (Bool-cases (is_no_drift (node_class_hash_drift nc claim))) [
        | inr by_hash ↦ inl (same (rw (by_hash, judge) at h))
        | inl not_hash ↦
            elim (Bool-cases (is_no_drift (node_age_drift_of (s.now w.cloud) nc claim))) [
              | inr by_age ↦ inr (inl (same (rw (not_hash, by_age, judge) at h)))
              | inl not_age ↦
                  elim (Result-cases (Instances.get cluster_name claim.provider_id w).0) [
                    | inr (e, failed) ↦
                        absurd (clash (rw (not_hash, not_age, failed, judge, running_drift) at h))
                    | inl (none, gone) ↦
                        absurd (
                          declared (same (rw (not_hash, not_age, gone, judge, running_drift) at h)))
                    | inl (some srv, found) ↦
                        let out = rw (not_hash, not_age, found, judge, running_drift) at h in
                        inr (inr (srv, (λ i. (found i, (out i).1)), same out))
                  ]
            ]
      ]

  -- `IsDrifted` declares a reason only for a launched claim whose NodeClass was read, is not being
  -- deleted and is ready; and the reason is that of the hashes, of the age, or of a server that
  -- `Get` returned. A read that fails or a server that is gone never is a reason.
  pub is_drifted-From :
      (node_claim : NodeClaim R) (w w' : World s) (reason : DriftReason)
      → is_drifted cluster_name get_node_class node_claim w ≡ (ok reason, w')
      → reason ≢ no_drift
      → (node_claim.provider_id ≢ "")
        × (node_class : HCloudNodeClass) × (get_node_class (node_class_key node_claim)
            ≡ ok node_class)
        × (node_class.deleting ≡ false)
        × (node_class.ready ≡ true)
        × From reason node_class node_claim w w'
  unfolding is_drifted
  is_drifted-From claim w w' reason h declared = elim (Bool-cases (claim.provider_id == "")) [
    | inl unlaunched ↦ absurd (declared (same (rw (unlaunched, is_drifted) at h)))
    | inr launched ↦ elim (Result-cases (get_node_class (node_class_key claim))) [
      | inr (e, failed) ↦ absurd (clash (rw (launched, failed, is_drifted) at h))
      | inl (nc, found) ↦ elim (Bool-cases nc.deleting) [
        | inl going ↦ absurd (declared (same (rw (launched, found, going, is_drifted) at h)))
        | inr staying ↦ elim (Bool-cases nc.ready) [
          | inr unready ↦
              absurd (declared (same (rw (launched, found, staying, unready, is_drifted) at h)))
          | inl ready ↦ (
            ground (arith, eq_iff claim.provider_id ""),
            nc,
            found,
            staying,
            ready,
            judge-From nc claim w w' reason (rw (launched, found, staying, ready, is_drifted) at h)
                declared,
          )
        ]
      ]
    ]
  ]
