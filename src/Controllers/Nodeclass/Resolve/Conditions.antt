-- ===== src/Controllers/Nodeclass/Resolve/Conditions.antt =====
-- What the set operations leave of a condition.
use karpenter_provider_hclou.Base.{
  ◌≡◌, refl, inl, inr, ◌∙◌, true, [], String, Bool-cases, arith, eq_iff,
}
use karpenter_provider_hclou.Base.Map.{lookup-insert}
use karpenter_provider_hclou.Controllers.Nodeclass.Resolve.{
  set_condition, note_unreachable, is_unresolved,
}
use karpenter_provider_hclou.Controllers.Nodeclass.Validation.{
  Status, is_true, is_false, is_unknown, Message, Subject, condition,
}

-- The condition that a set operation sets.
pub set_condition-status :
    (name : String) (st : Status) (reason : String) (m : Message) (s : Subject)
    → (condition (set_condition name st reason m s) name).status ≡ st
unfolding set_condition condition
set_condition-status name st reason m s =
    rw
      (
        lookup-insert name name
            (record {
              status = st;
              reason = reason;
              message = m;
              observed_generation = s.generation;
            })
            s.conditions,
        condition,
        (eq_iff name name).1 refl,
      )
      refl

unresolved : (st : Status) → is_unresolved st ≡ true → is_unknown ≡ st
unfolding is_unresolved
unresolved is_unknown h = refl
unresolved is_true h = absurd (ground arith)
unresolved is_false h = absurd (ground arith)

-- An unreachable API changes no status of the condition and nothing of the NodeClass.
pub note_unreachable-keeps :
    (name reason : String) (s : Subject)
    → ((condition (note_unreachable name reason s) name).status ≡ (condition s name).status)
      × ((note_unreachable name reason s).node_class ≡ s.node_class)
unfolding note_unreachable set_condition
note_unreachable-keeps name reason s = elim (Bool-cases (is_unresolved (condition s name).status)) [
  | inl unset ↦
      rw (unset, note_unreachable)
        (
          set_condition-status name is_unknown reason
                ("the Hetzner API could not be reached", [], []) s
              ∙ unresolved (condition s name).status unset,
          refl,
        )
  | inr known ↦ rw (known, note_unreachable) (refl, refl)
]
