-- ===== src/Controllers/Nodeclass/Reconciler.antt =====
-- internal/controllers/nodeclass/controller.go and termination.go: one pass of the NodeClass controller.
-- Of the finalizers, the state keeps whether the one of this controller is there.
pub mod Gate
pub mod Kept
pub mod Steady
pub mod Validated
pub mod Discovered
pub mod Outage
use karpenter_provider_hclou.Base.{
  ℕ, ◌*◌, Bool, true, false, not, Option, none, some, List, [], ◌∷◌, String, if◌then◌else◌,
  is_empty,
}
use karpenter_provider_hclou.Base.Sort.{sort_stable, text_ltb}
use karpenter_provider_hclou.Api.NodeClass.{
  ImageStatus, NetworkStatus, FirewallStatus, SshKeyStatus, PlacementGroupStatus, SelectorTerm,
}
use karpenter_provider_hclou.Catalog.{Snapshot}
use karpenter_provider_hclou.Bootstrap.ClusterInfo.{Decoding, ConfigMapAnswer, Discovery}
use karpenter_provider_hclou.Controllers.Nodeclass.BootstrapDiscovery as BootstrapDiscovery
use karpenter_provider_hclou.Controllers.Nodeclass.Firewalls as Firewalls
use karpenter_provider_hclou.Controllers.Nodeclass.Single.{
  reconcile_image, reconcile_network, reconcile_placement_group,
}
use karpenter_provider_hclou.Controllers.Nodeclass.SshKeys as SshKeys
use karpenter_provider_hclou.Controllers.Nodeclass.Validation as Validation
use karpenter_provider_hclou.Controllers.Nodeclass.Validation.{Subject}
use karpenter_provider_hclou.Hcloudapi.Errors.{Error, wrapf, Result, ok, err}

abbrev pub termination_blocked_requeue : ℕ
termination_blocked_requeue = 10 * 60 * 1_000_000_000

abbrev pub conflict_requeue : ℕ
conflict_requeue = 1_000_000_000

-- How the cluster's API answers a patch with an optimistic lock.
pub data PatchAnswer : Type 0 where
  patched conflict gone : PatchAnswer
  refused : Error → PatchAnswer

-- The five reads of a NodeClass's selectors from Hetzner.
pub record Resources : Type 0 where
  pub image : SelectorTerm → Result ImageStatus
  pub network : SelectorTerm → Result NetworkStatus
  pub firewall : SelectorTerm → Result FirewallStatus
  pub ssh_key : SelectorTerm → Result SshKeyStatus
  pub placement_group : SelectorTerm → Result PlacementGroupStatus

abbrev pub Reconcile : Type 0
Reconcile = Subject → Result ℕ × Subject

-- `Validation.Reconcile`, which returns no error.
unfoldable pub validate : Option Snapshot → Reconcile
unfolding Validation.reconcile
validate snapshot s = let (requeue, s') = Validation.reconcile snapshot s in (ok requeue, s')

-- The results and the errors of a loop.
abbrev pub Tally : Type 0
Tally = List ℕ × List Error

unfoldable pub tally : Result ℕ → Tally → Tally
tally (ok requeue) (results, errs) = (requeue ∷ results, errs)
tally (err e) (results, errs) = (results, e ∷ errs)

-- The loop: every reconciler runs, even after one has failed.
unfoldable pub run : List Reconcile → Subject → Tally × Subject
unfolding tally
run [] s = (([], []), s)
run (reconcile ∷ reconcilers) s =
    let (res, s') = reconcile s in let (rest, s'') = run reconcilers s' in (tally res rest, s'')

-- The NodeClass in the cluster, and the events about claims that were waited for.
pub record Object : Type 0 where
  pub subject : Subject
  pub finalizer : Bool
  pub waiting : List (List String)

-- `Finalize`, with what the listing of the NodeClaims and the patch answer.
unfoldable pub finalize : Result (List String) → PatchAnswer → Object → Result ℕ × Object
unfolding sort_stable text_ltb
finalize node_claims answer o = if not o.finalizer then (ok 0, o) else elim node_claims [
  | err e ↦ (err (wrapf "listing nodeclaims using nodeclass, %w" [] e), o)
  | ok names ↦
      if not (is_empty names)
      then (
        ok termination_blocked_requeue,
        record o { waiting = sort_stable text_ltb names ∷ o.waiting },
      )
      else elim answer [
        | patched ↦ (ok 0, record o { finalizer = false })
        | conflict ↦ (ok conflict_requeue, o)
        | gone ↦ (ok 0, o)
        | refused e ↦ (err (wrapf "removing termination finalizer, %w" [] e), o)
      ]
]

-- What a pass gets from outside, in the order of the calls.
pub record Answers : Type 1 where
  pub node_claims : Result (List String)
  pub removal : PatchAnswer
  pub addition : PatchAnswer
  pub resources : Resources
  pub decoding : Decoding
  pub cluster_info : ConfigMapAnswer
  -- what the passes before this one have discovered
  pub discovery : Discovery
  pub catalog : Option Snapshot
  -- `equality.Semantic.DeepEqual`, of what is stored with what the reconcilers made of it
  pub is_same : Subject → Subject → Bool
  pub status : PatchAnswer
  -- `result.Min`
  pub min : List ℕ → ℕ

-- What the loop returns. The first error stands for all of them.
unfoldable pub settle : Answers → Tally → Result ℕ
settle a (results, []) = ok (a.min results)
settle a (results, e ∷ errs) = err e

-- A patch that is refused leaves the object, though not the events.
unfoldable pub keep_events : Subject → Subject → Subject
keep_events s s' = record s { events = s'.events }

-- The status patch by its answer, with what the loop returns: a conflict or a refusal counts only where
-- the loop had no error.
unfoldable pub patch_status :
    PatchAnswer → List Error → Result ℕ → Subject → Object → Result ℕ × Object
unfolding keep_events
patch_status patched errs res s o = (res, record o { subject = s })
patch_status gone errs res s o = (res, record o { subject = keep_events o.subject s })
patch_status conflict [] res s o =
    (ok conflict_requeue, record o { subject = keep_events o.subject s })
patch_status conflict (e ∷ errs) res s o = (res, record o { subject = keep_events o.subject s })
patch_status (refused f) [] res s o = (err f, record o { subject = keep_events o.subject s })
patch_status (refused f) (e ∷ errs) res s o = (res, record o { subject = keep_events o.subject s })

-- The end of `Reconcile`, after the loop.
unfoldable pub write_status : Answers → Tally → Subject → Object → Result ℕ × Object
unfolding settle patch_status
write_status a t s o =
    if a.is_same o.subject s
    then (settle a t, record o { subject = s })
    else patch_status a.status t.1 (settle a t) s o

-- `BootstrapDiscovery.Reconcile`, of which the next pass takes the discovery too.
unfoldable pub discover : Answers → Reconcile
unfolding BootstrapDiscovery.reconcile
discover a s = (BootstrapDiscovery.reconcile a.decoding a.cluster_info a.discovery s).0

-- `reconcilers`, in their order.
unfoldable pub reconcilers : Answers → List Reconcile
unfolding reconcile_image reconcile_network Firewalls.reconcile SshKeys.reconcile
    reconcile_placement_group validate discover
reconcilers a =
    reconcile_image a.resources.image
    ∷ reconcile_network a.resources.network
    ∷ Firewalls.reconcile a.resources.firewall
    ∷ SshKeys.reconcile a.resources.ssh_key
    ∷ reconcile_placement_group a.resources.placement_group
    ∷ discover a
    ∷ validate a.catalog
    ∷ []

-- The part of `Reconcile` after the finalizer is there.
unfoldable pub observe : Answers → Object → Result ℕ × Object
unfolding run reconcilers write_status
observe a o = let (t, s') = run (reconcilers a) o.subject in write_status a t s' o

unfoldable pub reconcile : Answers → Object → Result ℕ × Object
unfolding finalize observe
reconcile a o =
    if o.subject.node_class.deleting
    then finalize a.node_claims a.removal o
    else if o.finalizer
    then observe a o
    else elim (a.addition) [
      | patched ↦ observe a (record o { finalizer = true })
      | gone ↦ observe a o
      | conflict ↦ (ok conflict_requeue, o)
      | refused e ↦ (err e, o)
    ]
