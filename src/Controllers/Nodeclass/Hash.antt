-- ===== src/Controllers/Nodeclass/Hash.antt =====
-- internal/controllers/nodeclass/hash/controller.go: the annotations with the hash of a NodeClass's
-- spec, on the NodeClass and, after an upgrade, on its NodeClaims.
pub mod Upgrade
use karpenter_provider_hclou.Base.{
  Bool, true, false, not, ◌&&◌, Option, none, some, List, [], ◌∷◌, ◌++◌, String, is_empty,
  if◌then◌else◌, ◌==◌, string_comparable,
}
use karpenter_provider_hclou.Base.Map.{Map, lookup, insert, get}
use karpenter_provider_hclou.Api.Hash.{annotation_hash, annotation_hash_version, hash_version}
use karpenter_provider_hclou.Api.NodeClass.{HCloudNodeClass, HCloudNodeClassSpec}
use karpenter_provider_hclou.Cloudprovider.Claims.{stamp}
use karpenter_provider_hclou.Hcloudapi.Errors.{Error, Result, ok, err}
use karpenter_provider_hclou.Karpenter.{NodeClaim}

-- How the cluster's API answers a call: `gone` is not-found.
pub data Answer : Type 0 where
  done gone : Answer
  failed : Error → Answer

-- A NodeClaim, and whether it has the condition `Drifted`.
pub record Claim (R : Type 0) : Type 0 where
  pub node_claim : NodeClaim R
  pub drifted : Bool

-- What the cluster's API stores: the NodeClass and the NodeClaims of it.
pub record Store (R : Type 0) : Type 0 where
  pub node_class : HCloudNodeClass
  pub claims : List (Claim R)

-- The answers that the API gives, to the listing, to each patch by the claim's name, and to the patch
-- of the NodeClass.
pub record Answers : Type 0 where
  pub to_list : Option Error
  pub to_claim : String → Answer
  pub to_class : Answer

-- `client.IgnoreNotFound`
unfoldable pub ignore_not_found : Answer → List Error
ignore_not_found done = []
ignore_not_found gone = []
ignore_not_found (failed e) = e ∷ []

-- The object that is stored after a patch.
unfoldable pub stored : {A : Type 0} → Answer → A → A → A
stored done old new = new
stored _ old new = old

unfoldable pub annotate : {R : Type 0} → Map String → Claim R → Claim R
annotate annotations c = record c { node_claim = record c.node_claim { annotations = annotations } }

-- `lo.Assign(nc.Annotations, updates)`
unfoldable pub updated : {R : Type 0} → String → Claim R → Claim R
unfolding annotate
updated hash c =
    let versioned = insert annotation_hash_version hash_version c.node_claim.annotations in
    annotate (if c.drifted then versioned else insert annotation_hash hash versioned) c

-- The body of the loop: a claim with another version changes in any case, so it is patched.
unfoldable pub backfill_one : {R : Type 0} → Answers → String → Claim R → List Error × Claim R
unfolding updated ignore_not_found stored
backfill_one answers hash c =
    if get c.node_claim.annotations annotation_hash_version == hash_version
    then ([], c)
    else (let answer = answers.to_claim c.node_claim.name in
        (ignore_not_found answer, stored answer c (updated hash c)))

unfoldable pub backfill_each :
    {R : Type 0} → Answers → String → List (Claim R) → List Error × List (Claim R)
unfolding backfill_one
backfill_each answers hash [] = ([], [])
backfill_each answers hash (c ∷ cs) =
    let (errs, c') = backfill_one answers hash c in
    let (more, cs') = backfill_each answers hash cs in (errs ++ more, c' ∷ cs')

-- `backfillNodeClaimHashes`: the errors that it combines.
unfoldable pub backfill_node_claim_hashes :
    {R : Type 0} → Answers → String → List (Claim R) → List Error × List (Claim R)
unfolding backfill_each
backfill_node_claim_hashes answers hash claims = elim (answers.to_list) [
  | some e ↦ (e ∷ [], claims)
  | none ↦ backfill_each answers hash claims
]

-- The NodeClass has the annotations already, so that stamping it changes nothing.
unfoldable pub is_stamped : String → HCloudNodeClass → Bool
is_stamped hash node_class =
    get node_class.annotations annotation_hash_version == hash_version
    && elim (lookup annotation_hash node_class.annotations) [ none ↦ false | some h ↦ h == hash ]

module _ {R : Type 0} (hash : HCloudNodeClassSpec → String) (answers : Answers) where
  -- The end of `Reconcile`: a patch that would change nothing is not sent.
  unfoldable pub stamp_class : Store R → List Error × Store R
  unfolding stamp ignore_not_found stored is_stamped
  stamp_class s =
      let nc = s.node_class in
      let nc' = record nc { annotations = stamp hash nc nc.annotations } in
      if is_stamped (hash nc.spec) nc then ([], s) else (
        ignore_not_found answers.to_class,
        record s { node_class = stored answers.to_class nc nc' },
      )

  unfoldable pub after_backfill :
      HCloudNodeClass → List Error × List (Claim R) → List Error × Store R
  unfolding stamp_class
  after_backfill nc (e ∷ errs, claims) = (e ∷ errs, record { node_class = nc; claims = claims })
  after_backfill nc ([], claims) = stamp_class (record { node_class = nc; claims = claims })

  -- `Reconcile`: no error means success.
  unfoldable pub reconcile : Store R → List Error × Store R
  unfolding after_backfill stamp_class backfill_node_claim_hashes
  reconcile s =
      let nc = s.node_class in
      if nc.deleting
      then ([], s)
      else if not (get nc.annotations annotation_hash_version == hash_version)
      then after_backfill nc (backfill_node_claim_hashes answers (hash nc.spec) s.claims)
      else stamp_class s
