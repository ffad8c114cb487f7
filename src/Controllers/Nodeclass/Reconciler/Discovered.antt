-- ===== src/Controllers/Nodeclass/Reconciler/Discovered.antt =====
-- That the reconciler of the join parameters keeps the conditions of the resolvers.
use karpenter_provider_hclou.Base.{
  ◌≡◌, refl, inl, inr, false, [], ◌||◌, String, List, is_empty, Bool-cases, Option-cases, ◌==◌,
  string_comparable,
}
use karpenter_provider_hclou.Base.Map.{lookup-insert}
use karpenter_provider_hclou.Bootstrap.ClusterInfo.{
  Failure, config_error, transient, refresh, resolve,
}
use karpenter_provider_hclou.Controllers.Nodeclass.BootstrapDiscovery as BootstrapDiscovery
use karpenter_provider_hclou.Controllers.Nodeclass.BootstrapDiscovery.{
  bootstrap_discovery_ready, invalid_hashes, set_join, misconfigured, publish, give_up_read,
}
use karpenter_provider_hclou.Controllers.Nodeclass.Reconciler.{Answers, discover}
use karpenter_provider_hclou.Controllers.Nodeclass.Reconciler.Kept.{IsTrue, Keeps}
use karpenter_provider_hclou.Controllers.Nodeclass.Resolve.{
  set_condition, note_unreachable, is_unresolved,
}
use karpenter_provider_hclou.Controllers.Nodeclass.Validation.{
  Status, is_true, is_false, is_unknown, Message, Condition, Subject, condition,
}
use karpenter_provider_hclou.Hcloudapi.Errors.{Result, ok, err}

-- The other conditions stay True.
abbrev Spares : Subject → Subject → Type 0
Spares s s' = (k : String) → (bootstrap_discovery_ready == k) ≡ false → IsTrue s k → IsTrue s' k

set_condition-Spares :
    (st : Status) (reason : String) (m : Message) (s : Subject)
    → Spares s (set_condition bootstrap_discovery_ready st reason m s)
unfolding set_condition condition
set_condition-Spares st reason m s k apart h =
    let c : Condition = record {
      status = st;
      reason = reason;
      message = m;
      observed_generation = s.generation;
    } in
    rw (lookup-insert bootstrap_discovery_ready k c s.conditions, apart, condition) h

misconfigured-Spares :
    (reason : String) (m : Message) (s : Subject) → Spares s (misconfigured reason m s).1
unfolding misconfigured set_join condition
misconfigured-Spares reason m s k apart h =
    set_condition-Spares is_false reason m (set_join "" [] s) k apart h

publish-Spares :
    (found : Result (String × List String)) (s : Subject) → Spares s (publish found s).1
unfolding publish set_join condition
publish-Spares (err e) s k apart h = misconfigured-Spares _ _ s k apart h
publish-Spares (ok (endpoint, hashes)) s k apart h =
    elim (Bool-cases (is_empty (invalid_hashes hashes))) [
      | inr malformed ↦ rw (malformed, publish) (misconfigured-Spares _ _ s k apart h)
      | inl valid ↦
          rw (valid, publish)
            (set_condition-Spares is_true bootstrap_discovery_ready ("", [], [])
              (set_join endpoint hashes s) k apart h)
    ]

give_up_read-Spares : (f : Failure) (s : Subject) → Spares s (give_up_read f s).1
unfolding give_up_read note_unreachable condition
give_up_read-Spares (config_error e) s k apart h = misconfigured-Spares _ _ s k apart h
give_up_read-Spares (transient e) s k apart h =
    elim (Bool-cases (is_unresolved (condition s bootstrap_discovery_ready).status)) [
      | inl unset ↦
          rw (unset, give_up_read, note_unreachable)
            (set_condition-Spares is_unknown "ClusterInfoUnreachable" _ s k apart h)
      | inr known ↦ rw (known, give_up_read, note_unreachable) h
    ]

discover-Spares : (a : Answers) (s : Subject) → Spares s (discover a s).1
unfolding discover BootstrapDiscovery.reconcile
discover-Spares a s k apart h =
    let spec = s.node_class.spec.bootstrap in
    let eo = spec.api_server_endpoint in
    let ho = spec.ca_cert_hashes in
    elim (Bool-cases (eo == "" || is_empty ho)) [
      | inr overridden ↦
          rw (overridden, discover, BootstrapDiscovery.reconcile)
            (publish-Spares (resolve eo ho a.discovery) s k apart h)
      | inl needed ↦ elim (Option-cases (refresh a.decoding a.cluster_info a.discovery).0) [
        | inl read ↦
            rw (needed, read, discover, BootstrapDiscovery.reconcile)
              (publish-Spares (resolve eo ho (refresh a.decoding a.cluster_info a.discovery).1) s k
                apart h)
        | inr (f, failed) ↦
            rw (needed, failed, discover, BootstrapDiscovery.reconcile)
              (give_up_read-Spares f s k apart h)
      ]
    ]

pub discover-Keeps : (a : Answers) → Keeps (discover a)
discover-Keeps a s h =
    let keeps = discover-Spares a s in
    (
      keeps "ImageReady" refl h.0,
      keeps "NetworkReady" refl h.1,
      keeps "FirewallsReady" refl h.2,
      keeps "SSHKeysReady" refl h.3,
      keeps "PlacementGroupReady" refl h.4,
    )
