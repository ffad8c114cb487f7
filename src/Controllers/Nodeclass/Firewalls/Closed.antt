-- ===== src/Controllers/Nodeclass/Firewalls/Closed.antt =====
-- What is published of the firewalls.
use karpenter_provider_hclou.Base.{ℕ, ◌≡◌, ◌⊎◌, refl, inl, inr, [], ◌∷◌, map}
use karpenter_provider_hclou.Api.NodeClass.{FirewallStatus, SelectorTerm}
use karpenter_provider_hclou.Base.Texts.{append_text}
use karpenter_provider_hclou.Controllers.Nodeclass.Firewalls.{
  firewalls_ready, set_firewalls, publish, resolve, reconcile,
}
use karpenter_provider_hclou.Controllers.Nodeclass.Resolve.{
  Gathered, Reads, reads_of, gather, cause_suffix, failure_message, describe_selector,
  set_condition,
}
use karpenter_provider_hclou.Controllers.Nodeclass.Resolve.Conditions.{
  set_condition-status, note_unreachable-keeps,
}
use karpenter_provider_hclou.Controllers.Nodeclass.Resolve.Gathering.{
  AllFound, found_none, Failed, Conclusive, Interrupted, Complete, gather-Complete, gather-Conclusive, gather-Interrupted,
}
use karpenter_provider_hclou.Controllers.Nodeclass.Validation.{
  is_true, is_false, Subject, condition,
}
use karpenter_provider_hclou.Hcloudapi.Errors.{Result, ok, err, Result-cases}

-- All firewalls or none: the whole list with a True condition, where every read found one; no
-- firewall and a False condition where some read failed and none failed transiently; and the error
-- of `Reconcile`, with the old firewalls and the old status of the condition, where one did. No two
-- of the three conditions on the reads hold at once.
abbrev pub AllOrNothing : Reads FirewallStatus → Subject → Result ℕ × Subject → Type 0
AllOrNothing reads s (ok t, s') =
    (AllFound reads s'.node_class.status.firewalls
      × ((condition s' firewalls_ready).status ≡ is_true))
    ⊎ (Failed reads × Conclusive reads
        × (s'.node_class.status.firewalls ≡ [])
        × ((condition s' firewalls_ready).status ≡ is_false))
AllOrNothing reads s (err e, s') =
    Interrupted reads
    × ((condition s' firewalls_ready).status ≡ (condition s firewalls_ready).status)
    × (s'.node_class ≡ s.node_class)

publish-AllOrNothing :
    (reads : Reads FirewallStatus) (g : Gathered FirewallStatus) (s : Subject)
    → Complete reads g
    → Conclusive reads
    → AllOrNothing reads s (ok (publish g s).0, (publish g s).1)
unfolding publish set_firewalls set_condition
publish-AllOrNothing reads g s (inl (full, found)) all =
    rw (full, publish)
      (inl (
        found,
        set_condition-status firewalls_ready is_true firewalls_ready ("", [], [])
            (set_firewalls g.resolved s),
      ))
publish-AllOrNothing reads g s (inr (lost, failed)) all =
    rw (lost, publish)
      (inr (
        failed,
        all,
        refl,
        set_condition-status firewalls_ready is_false
            (append_text "Firewall" (cause_suffix g.cause))
            (failure_message "firewallSelectors" (map (λ sel. describe_selector sel) g.missing)
              g.cause)
            (set_firewalls [] s),
      ))

-- What `Reconcile` publishes after the reads.
resolve-AllOrNothing :
    (reads : Reads FirewallStatus) (s : Subject) → AllOrNothing reads s (resolve reads s)
unfolding resolve set_firewalls set_condition
resolve-AllOrNothing [] s = inl (
  found_none,
  set_condition-status firewalls_ready is_true firewalls_ready ("", [], []) (set_firewalls [] s),
)
resolve-AllOrNothing (read ∷ reads) s = elim (Result-cases (gather (read ∷ reads))) [
  | inl (g, gathered) ↦
      rw (gathered, resolve)
        (publish-AllOrNothing (read ∷ reads) g s (gather-Complete (read ∷ reads) g gathered)
          (gather-Conclusive (read ∷ reads) g gathered))
  | inr (e, unreachable) ↦
      let (status, same) = note_unreachable-keeps firewalls_ready "FirewallsUnreachable" s in
      rw (unreachable, resolve) (gather-Interrupted (read ∷ reads) e unreachable, status, same)
]

-- The firewall reconciler returns without an error exactly where no read of a selector fails
-- transiently. It then publishes the firewalls of all selectors, in their order, with a True condition,
-- or, where some read failed, no firewall with a False condition. Where some read fails
-- transiently, it returns the error and leaves the NodeClass and the status of the condition.
pub reconcile-AllOrNothing :
    (answer : SelectorTerm → Result FirewallStatus) (s : Subject)
    → AllOrNothing (reads_of answer s.node_class.spec.firewall_selectors) s (reconcile answer s)
unfolding reconcile
reconcile-AllOrNothing answer s =
    resolve-AllOrNothing (reads_of answer s.node_class.spec.firewall_selectors) s
