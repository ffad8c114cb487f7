-- ===== src/Controllers/Nodeclass/Reconciler/Steady.antt =====
-- That no resolver takes a True condition back while its reads fail for now.
use mathlib.Core.Path.{subst}
use karpenter_provider_hclou.Base.{
  ◌≡◌, refl, inl, inr, sym, ◌∙◌, none, some, List, [], ◌∷◌, Option-cases, string_comparable,
}
use karpenter_provider_hclou.Api.NodeClass.{
  ImageStatus, NetworkStatus, FirewallStatus, SshKeyStatus, PlacementGroupStatus, SelectorTerm,
}
use karpenter_provider_hclou.Controllers.Nodeclass.Firewalls as Firewalls
use karpenter_provider_hclou.Controllers.Nodeclass.Resolve.{
  give_up, config_failure, reads_of, gather,
}
use karpenter_provider_hclou.Controllers.Nodeclass.Single.{
  image_ready, network_ready, placement_group_ready, set_image, set_network, set_placement_group,
  succeed, reconcile_image, reconcile_network, reconcile_placement_group,
}
use karpenter_provider_hclou.Controllers.Nodeclass.SshKeys as SshKeys
use karpenter_provider_hclou.Controllers.Nodeclass.Validation.{Subject, condition}
use karpenter_provider_hclou.Hcloudapi.Errors.{Error, Result, err, wrapf}
use karpenter_provider_hclou.Controllers.Nodeclass.Reconciler.Kept.{
  IsDown, AllTrue, Keeps, note_unreachable-true, give_up-down, set_condition-AllTrue,
}

pub image-err :
    (answer : SelectorTerm → Result ImageStatus)
    → IsDown answer
    → (s : Subject) → AllTrue s
    → (e : Error) × (reconcile_image answer s ≡ (err e, s))
unfolding reconcile_image
image-err answer down s h =
    let (e, failed, transient) = down s.node_class.spec.image_selector in
    (wrapf "resolving %s, %w" ("Image" ∷ []) e, given_up e failed transient)
  where
    given_up :
        (e : Error)
        → answer s.node_class.spec.image_selector ≡ err e
        → config_failure e ≡ none
        → reconcile_image answer s ≡ (err (wrapf "resolving %s, %w" ("Image" ∷ []) e), s)
    given_up e failed transient =
        let given : reconcile_image answer s
            ≡ give_up image_ready "Image" "imageSelector" s.node_class.spec.image_selector
                (set_image none) e s =
          simp (failed, reconcile_image) in
        given
        ∙ give_up-down image_ready "Image" "imageSelector" s.node_class.spec.image_selector
            (set_image none) e s transient h.0

pub image-Keeps :
    (answer : SelectorTerm → Result ImageStatus) → IsDown answer → Keeps (reconcile_image answer)
image-Keeps answer down s h =
    let (e, failed) = image-err answer down s h in subst (λ out. AllTrue out.1) (sym failed) h

pub network-Keeps :
    (answer : SelectorTerm → Result NetworkStatus)
    → IsDown answer
    → Keeps (reconcile_network answer)
unfolding reconcile_network set_network succeed condition
network-Keeps answer down s h = elim (Option-cases (s.node_class.spec.network_selector)) [
  | inl unset ↦
      subst (λ out. AllTrue out.1) (without unset)
        (set_condition-AllTrue network_ready network_ready ("", [], []) (set_network none s) h)
  | inr (sel, chosen) ↦
      let (e, failed, transient) = down sel in
      subst (λ out. AllTrue out.1)
        (sym (
          given_up sel e chosen failed
          ∙ give_up-down network_ready "Network" "networkSelector" sel (set_network none) e s
              transient h.1))
        h
]
  where
    without :
        s.node_class.spec.network_selector ≡ none
        → succeed network_ready (set_network none s) ≡ reconcile_network answer s
    without unset = simp (unset, reconcile_network)

    given_up :
        (sel : SelectorTerm) (e : Error)
        → s.node_class.spec.network_selector ≡ some sel
        → answer sel ≡ err e
        → reconcile_network answer s
          ≡ give_up network_ready "Network" "networkSelector" sel (set_network none) e s
    given_up sel e chosen failed = simp (chosen, failed, reconcile_network)

pub placement_group-Keeps :
    (answer : SelectorTerm → Result PlacementGroupStatus)
    → IsDown answer
    → Keeps (reconcile_placement_group answer)
unfolding reconcile_placement_group set_placement_group succeed condition
placement_group-Keeps answer down s h = elim (Option-cases (s.node_class.spec.placement_group)) [
  | inl unset ↦
      subst (λ out. AllTrue out.1) (without unset)
        (set_condition-AllTrue placement_group_ready placement_group_ready ("", [], [])
          (set_placement_group none s) h)
  | inr (sel, chosen) ↦
      let (e, failed, transient) = down sel in
      subst (λ out. AllTrue out.1)
        (sym (
          given_up sel e chosen failed
          ∙ give_up-down placement_group_ready "PlacementGroup" "placementGroup" sel
              (set_placement_group none) e s transient h.4))
        h
]
  where
    without :
        s.node_class.spec.placement_group ≡ none
        → succeed placement_group_ready (set_placement_group none s)
          ≡ reconcile_placement_group answer s
    without unset = simp (unset, reconcile_placement_group)

    given_up :
        (sel : SelectorTerm) (e : Error)
        → s.node_class.spec.placement_group ≡ some sel
        → answer sel ≡ err e
        → reconcile_placement_group answer s
          ≡ give_up placement_group_ready "PlacementGroup" "placementGroup" sel
              (set_placement_group none)
              e
              s
    given_up sel e chosen failed = simp (chosen, failed, reconcile_placement_group)

-- The first read ends the loop over selectors.
gather-down :
    {A : Type 0} (answer : SelectorTerm → Result A) (sel : SelectorTerm) (sels : List SelectorTerm)
    → IsDown answer
    → (e : Error) × (gather (reads_of answer (sel ∷ sels)) ≡ err e)
unfolding gather
gather-down answer sel sels down =
    let (e, failed, transient) = down sel in (e, rw (failed, transient, gather) refl)

pub firewalls-Keeps :
    (answer : SelectorTerm → Result FirewallStatus)
    → IsDown answer
    → Keeps (Firewalls.reconcile answer)
unfolding Firewalls.reconcile Firewalls.set_firewalls condition
firewalls-Keeps answer down s h = go s.node_class.spec.firewall_selectors
  where
    go : (sels : List SelectorTerm) → AllTrue (Firewalls.resolve (reads_of answer sels) s).1
    go [] =
        set_condition-AllTrue Firewalls.firewalls_ready Firewalls.firewalls_ready ("", [], [])
          (Firewalls.set_firewalls [] s) h
    go (sel ∷ sels) =
        let (e, ended) = gather-down answer sel sels down in
        let same : (Firewalls.resolve (reads_of answer (sel ∷ sels)) s).1 ≡ s =
          rw (ended, Firewalls.resolve)
            (note_unreachable-true Firewalls.firewalls_ready "FirewallsUnreachable" s h.2) in
        subst AllTrue (sym same) h

pub ssh_keys-Keeps :
    (answer : SelectorTerm → Result SshKeyStatus) → IsDown answer → Keeps (SshKeys.reconcile answer)
unfolding SshKeys.reconcile SshKeys.set_ssh_keys condition
ssh_keys-Keeps answer down s h = go s.node_class.spec.ssh_key_selectors
  where
    go : (sels : List SelectorTerm) → AllTrue (SshKeys.resolve (reads_of answer sels) s).1
    go [] =
        set_condition-AllTrue SshKeys.ssh_keys_ready SshKeys.ssh_keys_ready ("", [], [])
          (SshKeys.set_ssh_keys [] s) h
    go (sel ∷ sels) =
        let (e, ended) = gather-down answer sel sels down in
        let same : (SshKeys.resolve (reads_of answer (sel ∷ sels)) s).1 ≡ s =
          rw (ended, SshKeys.resolve)
            (note_unreachable-true SshKeys.ssh_keys_ready "SSHKeysUnreachable" s h.3) in
        subst AllTrue (sym same) h
