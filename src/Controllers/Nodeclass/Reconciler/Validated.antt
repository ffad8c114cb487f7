-- ===== src/Controllers/Nodeclass/Reconciler/Validated.antt =====
-- That validation keeps the conditions of the resolvers.
use karpenter_provider_hclou.Base.{
  ◌≡◌, refl, inl, inr, Bool, true, false, Option, [], String, is_empty, Bool-cases, Option-cases,
  ◌==◌, string_comparable,
}
use karpenter_provider_hclou.Base.Map.{lookup-insert}
use karpenter_provider_hclou.Catalog.{Snapshot}
use karpenter_provider_hclou.Controllers.Nodeclass.Scope.{Scope, location_scope, excluded}
use karpenter_provider_hclou.Controllers.Nodeclass.Reconciler.{validate}
use karpenter_provider_hclou.Controllers.Nodeclass.Reconciler.Kept.{IsTrue, Keeps}
use karpenter_provider_hclou.Controllers.Nodeclass.Validation.{
  Status, is_true, is_false, is_unknown, Message, Condition, Subject, validation_succeeded,
  required_conditions, condition, is_failed, is_pending, pick, set, set_locations, withdraw,
  is_known, has_foreign_architecture, accept, is_fetched, conclude, place_nodes, reconcile,
}

-- The other conditions stay True.
abbrev Spares : Subject → Subject → Type 0
Spares s s' = (k : String) → (validation_succeeded == k) ≡ false → IsTrue s k → IsTrue s' k

set-Spares :
    (st : Status) (reason : String) (m : Message) (s : Subject) → Spares s (set st reason m s)
unfolding set condition
set-Spares st reason m s k apart h =
    let c : Condition = record {
      status = st;
      reason = reason;
      message = m;
      observed_generation = s.generation;
    } in
    rw (lookup-insert validation_succeeded k c s.conditions, apart, condition) h

withdraw-Spares :
    (st : Status) (reason : String) (m : Message) (s : Subject)
    → Spares s (withdraw st reason m s).1
unfolding withdraw set_locations condition
withdraw-Spares st reason m s k apart h = set-Spares st reason m (set_locations [] s) k apart h

accept-Spares : (scope : Scope) (s : Subject) → Spares s (accept scope s).1
unfolding accept set_locations condition
accept-Spares scope s k apart h = elim (Option-cases (excluded scope)) [
  | inl all ↦
      rw (all, accept)
        (set-Spares is_true validation_succeeded ("", [], []) (set_locations scope.split.in_scope s)
          k apart h)
  | inr ((outside, unknown), narrowed) ↦
      let m : Message = ("spec.locations was narrowed", outside, unknown) in
      let set_true =
        set-Spares is_true "LocationsNarrowed" m (set_locations scope.split.in_scope s) k apart h in
      elim (Bool-cases (is_known m (condition s validation_succeeded))) [
        | inl said ↦ rw (narrowed, said, accept) set_true
        | inr news ↦ rw (narrowed, news, accept) set_true
      ]
]

conclude-Spares :
    (fetched bare : Bool) (scope : Scope) (s : Subject) → Spares s (conclude fetched bare scope s).1
unfolding conclude
conclude-Spares false bare scope s k apart h = withdraw-Spares is_unknown _ _ s k apart h
conclude-Spares true true scope s k apart h = withdraw-Spares is_unknown _ _ s k apart h
conclude-Spares true false scope s k apart h = elim (Bool-cases (is_empty scope.split.in_scope)) [
  | inl nowhere ↦ rw (nowhere, conclude) (withdraw-Spares is_false _ _ s k apart h)
  | inr somewhere ↦ rw (somewhere, conclude) (accept-Spares scope s k apart h)
]

reconcile-Spares : (snapshot : Option Snapshot) (s : Subject) → Spares s (reconcile snapshot s).1
unfolding reconcile place_nodes
reconcile-Spares snapshot s k apart h =
    elim (Bool-cases (is_empty (pick is_failed s required_conditions))) [
      | inr failed ↦ rw (failed, reconcile) (withdraw-Spares is_false _ _ s k apart h)
      | inl sound ↦
          elim (Bool-cases (is_empty (pick (is_pending s.generation) s required_conditions))) [
            | inr pending ↦
                rw (sound, pending, reconcile) (withdraw-Spares is_unknown _ _ s k apart h)
            | inl settled ↦ elim (Bool-cases (has_foreign_architecture s.node_class)) [
              | inl foreign ↦
                  rw (sound, settled, foreign, reconcile) (withdraw-Spares is_false _ _ s k apart h)
              | inr native ↦
                  rw (sound, settled, native, reconcile, place_nodes)
                    (conclude-Spares (is_fetched snapshot)
                      (location_scope snapshot s.node_class).catalog_empty
                      (location_scope snapshot s.node_class) s k apart h)
            ]
          ]
    ]

pub validate-Keeps : (snapshot : Option Snapshot) → Keeps (validate snapshot)
unfolding validate
validate-Keeps snapshot s h =
    let keeps = reconcile-Spares snapshot s in
    (
      keeps "ImageReady" refl h.0,
      keeps "NetworkReady" refl h.1,
      keeps "FirewallsReady" refl h.2,
      keeps "SSHKeysReady" refl h.3,
      keeps "PlacementGroupReady" refl h.4,
    )
