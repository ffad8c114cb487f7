-- ===== src/Controllers/Nodeclass/SshKeys/Tolerance.antt =====
-- What is published of the SSH keys.
use karpenter_provider_hclou.Base.{ℕ, ◌≡◌, ◌⊎◌, refl, inl, inr, [], ◌∷◌, is_empty, map, Bool-cases}
use karpenter_provider_hclou.Api.NodeClass.{SshKeyStatus, SelectorTerm}
use karpenter_provider_hclou.Base.Texts.{append_text}
use karpenter_provider_hclou.Controllers.Nodeclass.SshKeys.{
  ssh_keys_ready, set_ssh_keys, is_narrowed, narrowed_message, narrow, publish, resolve, reconcile,
}
use karpenter_provider_hclou.Controllers.Nodeclass.Resolve.{
  Gathered, Reads, reads_of, gather, cause_suffix, failure_message, describe_selector,
  set_condition,
}
use karpenter_provider_hclou.Controllers.Nodeclass.Resolve.Conditions.{
  set_condition-status, note_unreachable-keeps,
}
use karpenter_provider_hclou.Controllers.Nodeclass.Resolve.Gathering.{
  Surviving, no_reads, Rejected, Conclusive, Interrupted, Tolerant, gather-Tolerant, gather-Conclusive, gather-Interrupted,
}
use karpenter_provider_hclou.Controllers.Nodeclass.Validation.{
  is_true, is_false, Message, Subject, condition,
}
use karpenter_provider_hclou.Hcloudapi.Errors.{Result, ok, err, Result-cases}

-- The keys that are still there with a True condition, where every failure says that a key is gone;
-- no key and a False condition where some failure says something else, wherever it stood, and none is
-- transient; and the error of `Reconcile`, with the old keys and the old status of the condition,
-- where some failure is transient. No two of the three conditions on the reads hold at once.
abbrev pub OpenForDeleted : Reads SshKeyStatus → Subject → Result ℕ × Subject → Type 0
OpenForDeleted reads s (ok t, s') =
    (Surviving reads s'.node_class.status.ssh_keys
      × ((condition s' ssh_keys_ready).status ≡ is_true))
    ⊎ (Rejected reads × Conclusive reads
        × (s'.node_class.status.ssh_keys ≡ [])
        × ((condition s' ssh_keys_ready).status ≡ is_false))
OpenForDeleted reads s (err e, s') =
    Interrupted reads
    × ((condition s' ssh_keys_ready).status ≡ (condition s ssh_keys_ready).status)
    × (s'.node_class ≡ s.node_class)

narrow-status :
    (m : Message) (s : Subject)
    → ((condition (narrow m s) ssh_keys_ready).status ≡ is_true)
      × ((narrow m s).node_class ≡ s.node_class)
unfolding narrow condition set_condition
narrow-status m s = elim (Bool-cases (is_narrowed m (condition s ssh_keys_ready))) [
  | inl said ↦
      rw (said, narrow) (set_condition-status ssh_keys_ready is_true "SSHKeysNarrowed" m s, refl)
  | inr news ↦
      rw (news, narrow) (set_condition-status ssh_keys_ready is_true "SSHKeysNarrowed" m s, refl)
]

publish-OpenForDeleted :
    (reads : Reads SshKeyStatus) (g : Gathered SshKeyStatus) (s : Subject)
    → Tolerant reads g
    → Conclusive reads
    → OpenForDeleted reads s (ok (publish g s).0, (publish g s).1)
unfolding publish set_ssh_keys set_condition narrow
publish-OpenForDeleted reads g s (inr (closed, bad)) all =
    rw (closed, publish)
      (inr (
        bad,
        all,
        refl,
        set_condition-status ssh_keys_ready is_false (append_text "SSHKey" (cause_suffix g.cause))
            (failure_message "sshKeySelectors" (map (λ sel. describe_selector sel) g.missing)
              g.cause)
            (set_ssh_keys [] s),
      ))
publish-OpenForDeleted reads g s (inl (tolerated, found)) all = elim (Bool-cases (is_empty g.missing)) [
  | inl full ↦
      rw (tolerated, full, publish)
        (inl (
          found,
          set_condition-status ssh_keys_ready is_true ssh_keys_ready ("", [], [])
              (set_ssh_keys g.resolved s),
        ))
  | inr lost ↦
      let (status, same) = narrow-status (narrowed_message g.missing) (set_ssh_keys g.resolved s) in
      rw (tolerated, lost, publish) (inl (rw (same) found, status))
]

-- What `Reconcile` publishes after the reads.
resolve-OpenForDeleted :
    (reads : Reads SshKeyStatus) (s : Subject) → OpenForDeleted reads s (resolve reads s)
unfolding resolve set_ssh_keys set_condition
resolve-OpenForDeleted [] s = inl (
  no_reads,
  set_condition-status ssh_keys_ready is_true ssh_keys_ready ("", [], []) (set_ssh_keys [] s),
)
resolve-OpenForDeleted (read ∷ reads) s = elim (Result-cases (gather (read ∷ reads))) [
  | inl (g, gathered) ↦
      rw (gathered, resolve)
        (publish-OpenForDeleted (read ∷ reads) g s (gather-Tolerant (read ∷ reads) g gathered)
          (gather-Conclusive (read ∷ reads) g gathered))
  | inr (e, unreachable) ↦
      let (status, same) = note_unreachable-keeps ssh_keys_ready "SSHKeysUnreachable" s in
      rw (unreachable, resolve) (gather-Interrupted (read ∷ reads) e unreachable, status, same)
]

-- The SSH key reconciler returns without an error exactly where no read of a selector fails
-- transiently. It then publishes the keys that are there with a True condition where every failed
-- read says that there is no such key, and no key with a False condition where some read was refused
-- for its configuration or its credential, wherever it stands among the selectors. Where some read
-- fails transiently, it returns the error and leaves the NodeClass and the status of the condition.
pub reconcile-OpenForDeleted :
    (answer : SelectorTerm → Result SshKeyStatus) (s : Subject)
    → OpenForDeleted (reads_of answer s.node_class.spec.ssh_key_selectors) s (reconcile answer s)
unfolding reconcile
reconcile-OpenForDeleted answer s =
    resolve-OpenForDeleted (reads_of answer s.node_class.spec.ssh_key_selectors) s
