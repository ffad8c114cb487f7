-- ===== src/Controllers/Nodeclass/Single/Full.antt =====
-- That a full placement group stays True.
use mathlib.Core.Path.{subst}
use karpenter_provider_hclou.Base.{ℕ, ◌≡◌, refl, inl, inr, none, some, [], Option-cases}
use karpenter_provider_hclou.Api.NodeClass.{PlacementGroupStatus, SelectorTerm}
use karpenter_provider_hclou.Controllers.Nodeclass.Resolve.{give_up, set_condition}
use karpenter_provider_hclou.Controllers.Nodeclass.Resolve.Conditions.{set_condition-status}
use karpenter_provider_hclou.Controllers.Nodeclass.Single.{
  placement_group_ready, set_placement_group, succeed, capacity_reason, capacity_message,
  reconcile_placement_group,
}
use karpenter_provider_hclou.Controllers.Nodeclass.Single.Settled.{Settles, Chosen, give_up-Settles}
use karpenter_provider_hclou.Controllers.Nodeclass.Validation.{is_true, Subject, resolved_requeue}
use karpenter_provider_hclou.Hcloudapi.Errors.{Error, Result, ok, err, Result-cases}

-- The reconciler after a read that has answered.
placed : PlacementGroupStatus → Subject → Result ℕ × Subject
unfolding set_condition set_placement_group capacity_reason capacity_message
placed pg s = (
  ok resolved_requeue,
  set_condition placement_group_ready is_true (capacity_reason pg) (capacity_message pg, [], [])
      (set_placement_group (some pg) s),
)

-- The placement group reconciler sets a True condition where no group is selected, and none is
-- published, or where the group that is published is what the read of the selector answered, however
-- full it is; a False one only with no group; and an error leaves the NodeClass and the status of the
-- condition.
reconcile_placement_group-Settles :
    (answer : SelectorTerm → Result PlacementGroupStatus) (s : Subject)
    → Settles placement_group_ready
        (λ s'. s'.node_class.status.placement_group)
        (Chosen (λ pg. Unit) s.node_class.spec.placement_group answer)
        s
        (reconcile_placement_group answer s)
unfolding reconcile_placement_group set_placement_group succeed set_condition placed
reconcile_placement_group-Settles answer s =
    elim (Option-cases (s.node_class.spec.placement_group)) [
      | inl unset ↦ subst Outcome (without unset) (
          inl (
            inl (unset, refl),
            set_condition-status placement_group_ready is_true placement_group_ready ("", [], [])
                (set_placement_group none s),
          ))
      | inr (sel, chosen) ↦ elim (Result-cases (answer sel)) [
        | inl (pg, read) ↦ subst Outcome (found sel pg chosen read) (
            inl (
              inr (sel, pg, chosen, read, refl, tt),
              set_condition-status placement_group_ready is_true (capacity_reason pg)
                  (capacity_message pg, [], []) (set_placement_group (some pg) s),
            ))
        | inr (e, failed) ↦ subst Outcome (failure sel e chosen failed) (
            give_up-Settles placement_group_ready "PlacementGroup" "placementGroup" sel
              (set_placement_group none) e s (λ s'. s'.node_class.status.placement_group) _
              (λ st reason m. refl))
      ]
    ]
  where
    Outcome : Result ℕ × Subject → Type 0
    Outcome out =
        Settles placement_group_ready (λ s'. s'.node_class.status.placement_group)
          (Chosen (λ pg. Unit) s.node_class.spec.placement_group answer) s out

    without :
        s.node_class.spec.placement_group ≡ none
        → succeed placement_group_ready (set_placement_group none s)
          ≡ reconcile_placement_group answer s
    without unset = simp (unset, reconcile_placement_group)

    found :
        (sel : SelectorTerm) (pg : PlacementGroupStatus)
        → s.node_class.spec.placement_group ≡ some sel
        → answer sel ≡ ok pg
        → placed pg s ≡ reconcile_placement_group answer s
    found sel pg chosen read = simp (chosen, read, reconcile_placement_group, placed)

    failure :
        (sel : SelectorTerm) (e : Error)
        → s.node_class.spec.placement_group ≡ some sel
        → answer sel ≡ err e
        → give_up placement_group_ready "PlacementGroup" "placementGroup" sel
            (set_placement_group none)
            e
            s
          ≡ reconcile_placement_group answer s
    failure sel e chosen failed = simp (chosen, failed, reconcile_placement_group)
