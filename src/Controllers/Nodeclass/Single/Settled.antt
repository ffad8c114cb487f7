-- ===== src/Controllers/Nodeclass/Single/Settled.antt =====
-- What a single selector resolves to.
use mathlib.Core.Path.{subst}
use karpenter_provider_hclou.Base.{
  ℕ, ◌≡◌, ◌≢◌, ◌⊎◌, refl, inl, inr, false, Option, none, some, [], ◌∷◌, String, arith, Bool-cases,
  Option-cases, ◌==◌, eq_iff, string_comparable,
}
use karpenter_provider_hclou.Api.NodeClass.{ImageStatus, NetworkStatus, SelectorTerm}
use karpenter_provider_hclou.Controllers.Nodeclass.Resolve.{
  suffix, give_up, config_failure, failure_message, describe_selector, set_condition,
}
use karpenter_provider_hclou.Base.Texts.{append_text}
use karpenter_provider_hclou.Controllers.Nodeclass.Resolve.Conditions.{
  set_condition-status, note_unreachable-keeps,
}
use karpenter_provider_hclou.Controllers.Nodeclass.Single.{
  image_ready, network_ready, set_image, set_network, succeed, reconcile_image, place_network,
  reconcile_network,
}
use karpenter_provider_hclou.Controllers.Nodeclass.Validation.{
  is_true, is_false, Message, Subject, condition,
}
use karpenter_provider_hclou.Hcloudapi.Errors.{Error, Result, ok, err, Result-cases}

-- The outcomes of a reconciler of one selector: a True condition with what was chosen, a False one
-- with nothing, or an error that leaves the NodeClass and the status of the condition.
abbrev pub Settles :
    {A : Type 0} (name : String) (published : Subject → Option A) (Good : Option A → Type 0)
    → Subject
    → Result ℕ × Subject
    → Type 0
Settles name published Good s (ok t, s') =
    (Good (published s') × ((condition s' name).status ≡ is_true))
    ⊎ ((published s' ≡ none) × ((condition s' name).status ≡ is_false))
Settles name published Good s (err e, s') =
    ((condition s' name).status ≡ (condition s name).status) × (s'.node_class ≡ s.node_class)

-- An optional selector that is unset, with nothing published, or one that was read, with what the
-- read answered and of which `P` holds.
abbrev pub Chosen :
    {A : Type 0} (P : A → Type 0)
    → Option SelectorTerm
    → (SelectorTerm → Result A)
    → Option A
    → Type 0
Chosen {A} P selector answer x =
    ((selector ≡ none) × (x ≡ none))
    ⊎ ((sel : SelectorTerm) × (a : A) × (selector ≡ some sel)
        × (answer sel ≡ ok a)
        × (x ≡ some a)
        × P a)

pub give_up-Settles :
    {A : Type 0} (name kind what : String) (sel : SelectorTerm) (clear : Subject → Subject)
    (e : Error) (s : Subject) (published : Subject → Option A) (Good : Option A → Type 0)
    → ((st : Subject) (reason : String) (m : Message)
        → published (set_condition name is_false reason m (clear st)) ≡ none)
    → Settles name published Good s (give_up name kind what sel clear e s)
unfolding give_up
give_up-Settles name kind what sel clear e s published Good cleared =
    elim (Option-cases (config_failure e)) [
      | inl transient ↦
          rw (transient, give_up) (note_unreachable-keeps name (append_text kind "Unreachable") s)
      | inr (r, permanent) ↦
          let reason = append_text kind (suffix r) in
          let m = failure_message what (describe_selector sel ∷ []) (some (r, e)) in
          rw (permanent, give_up)
            (inr (cleared s reason m, set_condition-status name is_false reason m (clear s)))
    ]

-- The image reconciler publishes the image that the read of its selector answered.
reconcile_image-Settles :
    (answer : SelectorTerm → Result ImageStatus) (s : Subject)
    → Settles image_ready
        (λ s'. s'.node_class.status.image)
        (λ x.
          (img : ImageStatus) × (answer s.node_class.spec.image_selector ≡ ok img) × (x ≡ some img))
        s
        (reconcile_image answer s)
unfolding reconcile_image set_image succeed set_condition
reconcile_image-Settles answer s =
    let sel = s.node_class.spec.image_selector in
    elim (Result-cases (answer sel)) [
      | inl (img, read) ↦ subst Outcome (succeeded img read) (
          inl (
            (img, read, refl),
            set_condition-status image_ready is_true image_ready ("", [], [])
                (set_image (some img) s),
          ))
      | inr (e, failed) ↦ subst Outcome (failure e failed) (
          give_up-Settles image_ready "Image" "imageSelector" sel (set_image none) e s
            (λ s'. s'.node_class.status.image) _ (λ st reason m. refl))
    ]
  where
    Outcome : Result ℕ × Subject → Type 0
    Outcome out =
        Settles image_ready (λ t. t.node_class.status.image)
          (λ x.
            (img : ImageStatus) × (answer s.node_class.spec.image_selector ≡ ok img)
            × (x ≡ some img))
          s out

    succeeded :
        (img : ImageStatus)
        → answer s.node_class.spec.image_selector ≡ ok img
        → succeed image_ready (set_image (some img) s) ≡ reconcile_image answer s
    succeeded img read = simp (read, reconcile_image)

    failure :
        (e : Error)
        → answer s.node_class.spec.image_selector ≡ err e
        → give_up image_ready "Image" "imageSelector" s.node_class.spec.image_selector
            (set_image none)
            e
            s
          ≡ reconcile_image answer s
    failure e failed = simp (failed, reconcile_image)

place_network-Settles :
    (sel : SelectorTerm) (net : NetworkStatus) (answer : SelectorTerm → Result NetworkStatus)
    (s : Subject)
    → s.node_class.spec.network_selector ≡ some sel
    → answer sel ≡ ok net
    → Settles network_ready
        (λ s'. s'.node_class.status.network)
        (Chosen (λ n. n.zone ≢ "") s.node_class.spec.network_selector answer)
        s
        (place_network sel net s)
unfolding place_network set_network succeed set_condition
place_network-Settles sel net answer s chosen read = elim (Bool-cases (net.zone == "")) [
  | inl bare ↦
      rw (bare, place_network)
        (inr (
          refl,
          set_condition-status network_ready is_false "NetworkHasNoSubnet"
              ("network has no subnet", describe_selector sel ∷ [], []) (set_network none s),
        ))
  | inr zoned ↦
      rw (zoned, place_network)
        (inl (
          inr (sel, net, chosen, read, refl, has_zone zoned),
          set_condition-status network_ready is_true network_ready ("", [], [])
              (set_network (some net) s),
        ))
]
  where
    has_zone : (net.zone == "") ≡ false → net.zone ≢ ""
    has_zone z e = ground (arith, eq_iff net.zone "")

-- The network reconciler sets a True condition only where no network is selected, and none is
-- published, or where the network that is published is what the read of the selector answered and has
-- a zone; a False one only with no network; and an error leaves the NodeClass and the status of the
-- condition.
reconcile_network-Settles :
    (answer : SelectorTerm → Result NetworkStatus) (s : Subject)
    → Settles network_ready
        (λ s'. s'.node_class.status.network)
        (Chosen (λ net. net.zone ≢ "") s.node_class.spec.network_selector answer)
        s
        (reconcile_network answer s)
unfolding reconcile_network set_network succeed set_condition
reconcile_network-Settles answer s = elim (Option-cases (s.node_class.spec.network_selector)) [
  | inl unset ↦ subst Outcome (without unset) (
      inl (
        inl (unset, refl),
        set_condition-status network_ready is_true network_ready ("", [], []) (set_network none s),
      ))
  | inr (sel, chosen) ↦ elim (Result-cases (answer sel)) [
    | inl (net, read) ↦
        subst Outcome (placed sel net chosen read)
          (place_network-Settles sel net answer s chosen read)
    | inr (e, failed) ↦ subst Outcome (failure sel e chosen failed) (
        give_up-Settles network_ready "Network" "networkSelector" sel (set_network none) e s
          (λ s'. s'.node_class.status.network) _ (λ st reason m. refl))
  ]
]
  where
    Outcome : Result ℕ × Subject → Type 0
    Outcome out =
        Settles network_ready (λ s'. s'.node_class.status.network)
          (Chosen (λ net. net.zone ≢ "") s.node_class.spec.network_selector answer) s out

    without :
        s.node_class.spec.network_selector ≡ none
        → succeed network_ready (set_network none s) ≡ reconcile_network answer s
    without unset = simp (unset, reconcile_network)

    placed :
        (sel : SelectorTerm) (net : NetworkStatus)
        → s.node_class.spec.network_selector ≡ some sel
        → answer sel ≡ ok net
        → place_network sel net s ≡ reconcile_network answer s
    placed sel net chosen read = simp (chosen, read, reconcile_network)

    failure :
        (sel : SelectorTerm) (e : Error)
        → s.node_class.spec.network_selector ≡ some sel
        → answer sel ≡ err e
        → give_up network_ready "Network" "networkSelector" sel (set_network none) e s
          ≡ reconcile_network answer s
    failure sel e chosen failed = simp (chosen, failed, reconcile_network)
