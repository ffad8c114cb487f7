-- ===== src/Controllers/Nodeclass/Reconciler/Gate.antt =====
-- When the finalizer of a NodeClass is released.
use karpenter_provider_hclou.Base.{
  ◌≡◌, ◌↔◌, ◌∙◌, sym, ap, inl, inr, true, false, [], ◌∷◌, List, String, arith, Bool-cases,
}
use karpenter_provider_hclou.Controllers.Nodeclass.Reconciler.{
  PatchAnswer, patched, conflict, gone, refused, Object, finalize, Answers, Tally, write_status,
  observe, reconcile,
}
use karpenter_provider_hclou.Controllers.Nodeclass.Validation.{Subject}
use karpenter_provider_hclou.Hcloudapi.Errors.{Result, ok, err}

-- The listing of the NodeClaims has answered that there are none, and the patch was accepted.
abbrev pub IsReleased : Result (List String) → PatchAnswer → Type 0
IsReleased node_claims answer = (node_claims ≡ ok []) × (answer ≡ patched)

finalize_iff :
    (node_claims : Result (List String)) (answer : PatchAnswer) (o : Object)
    → o.finalizer ≡ true
    → ((finalize node_claims answer o).1.finalizer ≡ false) ↔ IsReleased node_claims answer
unfolding finalize
finalize_iff (err e) answer o h = ground arith
finalize_iff (ok (n ∷ ns)) answer o h = ground arith
finalize_iff (ok []) patched o h = ground arith
finalize_iff (ok []) conflict o h = ground arith
finalize_iff (ok []) gone o h = ground arith
finalize_iff (ok []) (refused e) o h = ground arith

write_status-finalizer :
    (a : Answers) (t : Tally) (s : Subject) (o : Object)
    → (write_status a t s o).1.finalizer ≡ o.finalizer
unfolding write_status
write_status-finalizer a t s o = ground arith

observe-finalizer : (a : Answers) (o : Object) → (observe a o).1.finalizer ≡ o.finalizer
unfolding observe
observe-finalizer a o = write_status-finalizer a _ _ o

reconcile-deleting :
    (a : Answers) (o : Object)
    → o.subject.node_class.deleting ≡ true
    → reconcile a o ≡ finalize a.node_claims a.removal o
unfolding reconcile
reconcile-deleting a o deleting = simp (deleting, reconcile)

pub reconcile-living :
    (a : Answers) (o : Object)
    → o.subject.node_class.deleting ≡ false
    → o.finalizer ≡ true
    → reconcile a o ≡ observe a o
unfolding reconcile
reconcile-living a o living h = simp (living, h, reconcile)

-- A pass over a NodeClass that has the finalizer leaves it without exactly if the NodeClass is being
-- deleted, the listing of its NodeClaims has answered that there are none, and the patch that removes
-- the finalizer was accepted.
pub reconcile-IsReleased_iff :
    (a : Answers) (o : Object)
    → o.finalizer ≡ true
    → ((reconcile a o).1.finalizer ≡ false)
      ↔ ((o.subject.node_class.deleting ≡ true) × IsReleased a.node_claims a.removal)
reconcile-IsReleased_iff a o h = elim (Bool-cases (o.subject.node_class.deleting)) [
  | inl deleting ↦
      let same = ap (λ out. out.1.finalizer) (reconcile-deleting a o deleting) in
      let gate = finalize_iff a.node_claims a.removal o h in
      (λ released. (deleting, gate.0 (sym same ∙ released)), λ free. same ∙ gate.1 free.1)
  | inr living ↦
      let kept =
        ap (λ out. out.1.finalizer) (reconcile-living a o living h) ∙ observe-finalizer a o ∙ h in
      (
        λ released. absurd (apart (sym kept ∙ released)),
        λ free. absurd (apart (sym free.0 ∙ living)),
      )
]
  where
    apart : true ≡ false → ⊥
    apart e = cc
