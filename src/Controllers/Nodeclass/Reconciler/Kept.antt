-- ===== src/Controllers/Nodeclass/Reconciler/Kept.antt =====
-- What keeps the conditions of the resolvers True.
use karpenter_provider_hclou.Base.{
  ◌≡◌, refl, inl, inr, ap, none, [], ◌∷◌, String, Bool-cases, string_comparable, ◌==◌,
}
use karpenter_provider_hclou.Base.Map.{lookup-insert}
use karpenter_provider_hclou.Api.NodeClass.{SelectorTerm}
use karpenter_provider_hclou.Base.Texts.{append_text}
use karpenter_provider_hclou.Controllers.Nodeclass.Reconciler.{Reconcile}
use karpenter_provider_hclou.Controllers.Nodeclass.Resolve.{
  set_condition, note_unreachable, is_unresolved, give_up, config_failure,
}
use karpenter_provider_hclou.Controllers.Nodeclass.Validation.{
  is_true, Message, Subject, condition, Condition,
}
use karpenter_provider_hclou.Hcloudapi.Errors.{Error, Result, err, wrapf}

-- Every read fails for now.
abbrev pub IsDown : {A : Type 0} → (SelectorTerm → Result A) → Type 0
IsDown answer =
    (sel : SelectorTerm) → (e : Error) × (answer sel ≡ err e) × (config_failure e ≡ none)

abbrev pub IsTrue : Subject → String → Type 0
IsTrue s name = (condition s name).status ≡ is_true

-- The conditions of the five resolvers are True.
abbrev pub AllTrue : Subject → Type 0
AllTrue s =
    IsTrue s "ImageReady"
    × IsTrue s "NetworkReady"
    × IsTrue s "FirewallsReady"
    × IsTrue s "SSHKeysReady"
    × IsTrue s "PlacementGroupReady"

pub set_condition-IsTrue :
    (name k reason : String) (m : Message) (s : Subject)
    → IsTrue s k
    → IsTrue (set_condition name is_true reason m s) k
unfolding set_condition condition
set_condition-IsTrue name k reason m s h =
    let c : Condition = record {
      status = is_true;
      reason = reason;
      message = m;
      observed_generation = s.generation;
    } in
    elim (Bool-cases (name == k)) [
      | inl here ↦ rw (lookup-insert name k c s.conditions, here, condition) refl
      | inr apart ↦ rw (lookup-insert name k c s.conditions, apart, condition) h
    ]

pub note_unreachable-true :
    (name reason : String) (s : Subject) → IsTrue s name → note_unreachable name reason s ≡ s
unfolding note_unreachable is_unresolved
note_unreachable-true name reason s h = rw (h, note_unreachable) refl

-- A step of the outage: a True condition stays True, whichever it is.
abbrev pub Keeps : Reconcile → Type 0
Keeps reconcile = (s : Subject) → AllTrue s → AllTrue (reconcile s).1

-- A failed read of a single selector changes nothing.
pub give_up-down :
    (name kind what : String) (sel : SelectorTerm) (clear : Subject → Subject) (e : Error)
    (s : Subject)
    → config_failure e ≡ none
    → IsTrue s name
    → give_up name kind what sel clear e s ≡ (err (wrapf "resolving %s, %w" (kind ∷ []) e), s)
unfolding give_up
give_up-down name kind what sel clear e s transient h =
    rw (transient, give_up)
      (ap (λ x. (err (wrapf "resolving %s, %w" (kind ∷ []) e), x))
        (note_unreachable-true name (append_text kind "Unreachable") s h))

-- A reconciler that sets its condition True keeps the others.
pub set_condition-AllTrue :
    (name reason : String) (m : Message) (s : Subject)
    → AllTrue s
    → AllTrue (set_condition name is_true reason m s)
set_condition-AllTrue name reason m s h =
    let keeps : (k : String) → IsTrue s k → IsTrue (set_condition name is_true reason m s) k =
      λ k. set_condition-IsTrue name k reason m s in
    (
      keeps "ImageReady" h.0,
      keeps "NetworkReady" h.1,
      keeps "FirewallsReady" h.2,
      keeps "SSHKeysReady" h.3,
      keeps "PlacementGroupReady" h.4,
    )
