-- ===== src/Controllers/Nodeclass/Firewalls.antt =====
-- internal/controllers/nodeclass/firewall.go: `Reconcile`. Its argument is what a read of a
-- selector answers.
pub mod Closed
use karpenter_provider_hclou.Base.Texts.{append_text}
use karpenter_provider_hclou.Base.{
  ℕ, Bool, true, false, not, Option, none, some, List, [], ◌∷◌, String, is_empty, map,
  if◌then◌else◌,
}
use karpenter_provider_hclou.Api.NodeClass.{FirewallStatus, SelectorTerm}
use karpenter_provider_hclou.Controllers.Nodeclass.Resolve.{
  Gathered, Reads, reads_of, gather, cause_suffix, failure_message, describe_selector,
  set_condition, note_unreachable,
}
use karpenter_provider_hclou.Controllers.Nodeclass.Validation.{
  is_true, is_false, Subject, resolved_requeue, misconfigured_requeue,
}
use karpenter_provider_hclou.Hcloudapi.Errors.{Error, wrapf, Result, ok, err}

abbrev pub firewalls_ready : String
firewalls_ready = "FirewallsReady"

unfoldable pub set_firewalls : List FirewallStatus → Subject → Subject
set_firewalls firewalls s = record s {
  node_class = record s.node_class {
    status = record s.node_class.status { firewalls = firewalls };
  };
}

-- The end of `Reconcile`, after the loop.
unfoldable pub publish : Gathered FirewallStatus → Subject → ℕ × Subject
unfolding set_firewalls set_condition cause_suffix append_text failure_message describe_selector
publish g s =
    if not (is_empty g.missing)
    then (
      misconfigured_requeue,
      set_condition firewalls_ready is_false (append_text "Firewall" (cause_suffix g.cause))
          (failure_message "firewallSelectors" (map (λ sel. describe_selector sel) g.missing)
            g.cause)
          (set_firewalls [] s),
    )
    else (
      resolved_requeue,
      set_condition firewalls_ready is_true firewalls_ready ("", [], [])
          (set_firewalls g.resolved s),
    )

-- `Reconcile` after the reads of the selectors.
unfoldable pub resolve : Reads FirewallStatus → Subject → Result ℕ × Subject
unfolding gather publish note_unreachable
resolve reads s =
    if is_empty reads
    then (
      ok resolved_requeue,
      set_condition firewalls_ready is_true firewalls_ready ("", [], []) (set_firewalls [] s),
    )
    else elim (gather reads) [
      | err e ↦ (
        err (wrapf "resolving firewall, %w" [] e),
        note_unreachable firewalls_ready "FirewallsUnreachable" s,
      )
      | ok g ↦ let (t, s') = publish g s in (ok t, s')
    ]

unfoldable pub reconcile : (SelectorTerm → Result FirewallStatus) → Subject → Result ℕ × Subject
unfolding resolve
reconcile answer s = resolve (reads_of answer s.node_class.spec.firewall_selectors) s
