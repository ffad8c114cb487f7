-- ===== src/Controllers/Nodeclass/Reconciler/Outage.antt =====
-- That an outage of Hetzner's API leaves the conditions of a NodeClass True.
use mathlib.Core.Path.{subst}
use karpenter_provider_hclou.Base.{
  ℕ, ◌≡◌, refl, inl, inr, sym, true, false, List, [], ◌∷◌, arith, is_empty, Bool-cases, All,
  string_comparable,
}
use karpenter_provider_hclou.Controllers.Nodeclass.Reconciler.{
  Resources, Reconcile, reconcilers, tally, run, Tally, Answers, Object, PatchAnswer, patched,
  conflict, gone, refused, settle, keep_events, patch_status, write_status, observe, reconcile,
}
use karpenter_provider_hclou.Controllers.Nodeclass.Single.{reconcile_image}
use karpenter_provider_hclou.Controllers.Nodeclass.Validation.{Subject, condition}
use karpenter_provider_hclou.Hcloudapi.Errors.{Error, Result, err}
use karpenter_provider_hclou.Controllers.Nodeclass.Reconciler.Discovered.{discover-Keeps}
use karpenter_provider_hclou.Controllers.Nodeclass.Reconciler.Validated.{validate-Keeps}
use karpenter_provider_hclou.Controllers.Nodeclass.Reconciler.Kept.{IsDown, AllTrue, Keeps}
use karpenter_provider_hclou.Controllers.Nodeclass.Reconciler.Steady.{
  image-err, image-Keeps, network-Keeps, placement_group-Keeps, firewalls-Keeps, ssh_keys-Keeps,
}
use karpenter_provider_hclou.Controllers.Nodeclass.Reconciler.Gate.{reconcile-living}

-- The errors of the resolvers, with the first read failing.
run-error :
    (reconcile : Reconcile) (reconcilers : List Reconcile) (s s' : Subject) (e : Error)
    → reconcile s ≡ (err e, s')
    → is_empty (run (reconcile ∷ reconcilers) s).0.1 ≡ false
unfolding run tally
run-error reconcile reconcilers s s' e h = rw (h, run) refl

-- All reads of all resolvers fail for now.
abbrev pub IsOutage : Resources → Type 0
IsOutage r =
    IsDown r.image
    × IsDown r.network
    × IsDown r.firewall
    × IsDown r.ssh_key
    × IsDown r.placement_group

run-AllTrue :
    (reconcilers : List Reconcile) (s : Subject)
    → All Keeps reconcilers
    → AllTrue s
    → AllTrue (run reconcilers s).1
unfolding run
run-AllTrue [] s keeps h = h
run-AllTrue (reconcile ∷ reconcilers) s keeps h =
    run-AllTrue reconcilers (reconcile s).1 keeps.1 (keeps.0 s h)

-- The loop of a pass, with at least one error.
run-outage :
    (a : Answers) (s : Subject)
    → IsOutage a.resources
    → AllTrue s
    → AllTrue (run (reconcilers a) s).1 × (is_empty (run (reconcilers a) s).0.1 ≡ false)
unfolding reconcilers
run-outage a s down h =
    let r = a.resources in
    let (e, failed) = image-err r.image down.0 s h in
    (
      run-AllTrue (reconcilers a) s
          (
            image-Keeps r.image down.0,
            (
              network-Keeps r.network down.1,
              (
                firewalls-Keeps r.firewall down.2,
                (
                  ssh_keys-Keeps r.ssh_key down.3,
                  (
                    placement_group-Keeps r.placement_group down.4,
                    (discover-Keeps a, (validate-Keeps a.catalog, tt)),
                  ),
                ),
              ),
            ),
          )
          h,
      run-error (reconcile_image r.image) _ s s e failed,
    )

-- The outcome of a pass during an outage.
abbrev pub IsWeathered : Result ℕ × Object → Type 0
IsWeathered out = AllTrue out.1.subject × ((e : Error) × (out.0 ≡ err e))

patch_status-IsWeathered :
    (answer : PatchAnswer) (e : Error) (errs : List Error) (s : Subject) (o : Object)
    → AllTrue s
    → AllTrue o.subject
    → IsWeathered (patch_status answer (e ∷ errs) (err e) s o)
unfolding patch_status keep_events condition
patch_status-IsWeathered patched e errs s o h old = (h, (e, refl))
patch_status-IsWeathered conflict e errs s o h old = (old, (e, refl))
patch_status-IsWeathered gone e errs s o h old = (old, (e, refl))
patch_status-IsWeathered (refused f) e errs s o h old = (old, (e, refl))

-- Whatever the status patch answers, an error of the loop is returned and what was True is stored so.
write_status-IsWeathered :
    (a : Answers) (t : Tally) (s : Subject) (o : Object)
    → AllTrue s
    → AllTrue o.subject
    → is_empty t.1 ≡ false
    → IsWeathered (write_status a t s o)
unfolding write_status settle
write_status-IsWeathered a (results, []) s o h old some_error = absurd (ground arith)
write_status-IsWeathered a (results, e ∷ errs) s o h old some_error =
    elim (Bool-cases (a.is_same o.subject s)) [
      | inl same ↦ rw (same, write_status) (h, (e, refl))
      | inr news ↦ rw (news, write_status) (patch_status-IsWeathered a.status e errs s o h old)
    ]

observe-IsWeathered :
    (a : Answers) (o : Object)
    → IsOutage a.resources
    → AllTrue o.subject
    → IsWeathered (observe a o)
unfolding observe
observe-IsWeathered a o down h =
    let (kept, some_error) = run-outage a o.subject down h in
    write_status-IsWeathered a (run (reconcilers a) o.subject).0 (run (reconcilers a) o.subject).1 o
      kept h some_error

-- While every read from Hetzner fails with an error that is not a permanent failure, a pass over a
-- NodeClass that has the finalizer, is not being deleted, and whose image, network, firewalls, SSH keys
-- and placement group conditions are True leaves all five True in the cluster and returns an error,
-- whatever the read of the join parameters and the status patch answer.
pub reconcile-IsWeathered :
    (a : Answers) (o : Object)
    → o.subject.node_class.deleting ≡ false
    → o.finalizer ≡ true
    → IsOutage a.resources
    → AllTrue o.subject
    → IsWeathered (reconcile a o)
reconcile-IsWeathered a o living has down h =
    subst IsWeathered (sym (reconcile-living a o living has)) (observe-IsWeathered a o down h)
