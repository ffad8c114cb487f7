-- ===== src/Controllers/Nodeclass/SshKeys.antt =====
-- internal/controllers/nodeclass/sshkey.go: `Reconcile`, with the same kind of argument as
-- that of the firewalls.
pub mod Tolerance
use karpenter_provider_hclou.Base.Texts.{append_text}
use karpenter_provider_hclou.Base.{
  ℕ, Bool, true, false, not, Option, none, some, List, [], ◌∷◌, String, is_empty, map,
  if◌then◌else◌, ◌&&◌, ◌==◌, string_comparable,
}
use karpenter_provider_hclou.Api.NodeClass.{SshKeyStatus, SelectorTerm}
use karpenter_provider_hclou.Controllers.Nodeclass.Resolve.{
  Gathered, Reads, reads_of, gather, cause_suffix, failure_message, describe_selector,
  set_condition, note_unreachable,
}
use karpenter_provider_hclou.Controllers.Nodeclass.Validation.{
  is_true, is_false, Message, Condition, condition, Subject, resolved_requeue,
  misconfigured_requeue,
}
use karpenter_provider_hclou.Hcloudapi.Errors.{Error, wrapf, Result, ok, err}

abbrev pub ssh_keys_ready : String
ssh_keys_ready = "SSHKeysReady"

unfoldable pub set_ssh_keys : List SshKeyStatus → Subject → Subject
set_ssh_keys ssh_keys s = record s {
  node_class = record s.node_class { status = record s.node_class.status { ssh_keys = ssh_keys } };
}

unfoldable pub narrowed_message : List SelectorTerm → Message
unfolding describe_selector
narrowed_message missing =
    ("continuing without sshKeySelectors", map (λ sel. describe_selector sel) missing, [])

-- `firstTime` is false: the condition says so already.
unfoldable pub is_narrowed : Message → Condition → Bool
is_narrowed (_, selectors, _) prev =
    let (_, said, _) = prev.message in prev.reason == "SSHKeysNarrowed" && same said selectors
  where
    same : List String → List String → Bool
    same [] [] = true
    same [] (y ∷ ys) = false
    same (x ∷ xs) [] = false
    same (x ∷ xs) (y ∷ ys) = x == y && same xs ys

-- The branch where keys are gone: True, with an event the first time.
unfoldable pub narrow : Message → Subject → Subject
unfolding set_condition condition is_narrowed
narrow message s =
    let prev = condition s ssh_keys_ready in
    let s' = set_condition ssh_keys_ready is_true "SSHKeysNarrowed" message s in
    if is_narrowed message prev then s' else record s' { events = message ∷ s'.events }

-- The end of `Reconcile`, after the loop.
unfoldable pub publish : Gathered SshKeyStatus → Subject → ℕ × Subject
unfolding set_ssh_keys set_condition cause_suffix append_text failure_message describe_selector
    narrowed_message narrow
publish g s =
    if g.fail_closed
    then (
      misconfigured_requeue,
      set_condition ssh_keys_ready is_false (append_text "SSHKey" (cause_suffix g.cause))
          (failure_message "sshKeySelectors" (map (λ sel. describe_selector sel) g.missing) g.cause)
          (set_ssh_keys [] s),
    )
    else if not (is_empty g.missing)
    then (resolved_requeue, narrow (narrowed_message g.missing) (set_ssh_keys g.resolved s))
    else (
      resolved_requeue,
      set_condition ssh_keys_ready is_true ssh_keys_ready ("", [], []) (set_ssh_keys g.resolved s),
    )

-- `Reconcile` after the reads of the selectors.
unfoldable pub resolve : Reads SshKeyStatus → Subject → Result ℕ × Subject
unfolding gather publish note_unreachable
resolve reads s =
    if is_empty reads
    then (
      ok resolved_requeue,
      set_condition ssh_keys_ready is_true ssh_keys_ready ("", [], []) (set_ssh_keys [] s),
    )
    else elim (gather reads) [
      | err e ↦ (
        err (wrapf "resolving ssh key, %w" [] e),
        note_unreachable ssh_keys_ready "SSHKeysUnreachable" s,
      )
      | ok g ↦ let (t, s') = publish g s in (ok t, s')
    ]

unfoldable pub reconcile : (SelectorTerm → Result SshKeyStatus) → Subject → Result ℕ × Subject
unfolding resolve
reconcile answer s = resolve (reads_of answer s.node_class.spec.ssh_key_selectors) s
