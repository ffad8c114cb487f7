-- ===== src/Controllers/Nodeclass/Hash/Upgrade.antt =====
-- That an upgrade which changes the hashes does not replace the fleet.
use karpenter_provider_hclou.Base.{
  ◌≡◌, ◌≢◌, ◌⊎◌, ◌∙◌, refl, ap, inl, inr, true, false, none, some, List, [], ◌∷◌, String, Has,
  arith, eq_iff, Bool-cases, Option-cases, ◌==◌, string_comparable,
}
use karpenter_provider_hclou.Base.Map.{lookup, insert, get, lookup-insert}
use karpenter_provider_hclou.Api.Hash.{annotation_hash, annotation_hash_version, hash_version}
use karpenter_provider_hclou.Api.NodeClass.{HCloudNodeClass, HCloudNodeClassSpec}
use karpenter_provider_hclou.Cloudprovider.Claims.{stamp}
use karpenter_provider_hclou.Cloudprovider.Drift.{no_drift, node_class_hash_drift}
use karpenter_provider_hclou.Controllers.Nodeclass.Hash.{
  Answer, done, gone, failed, Claim, Store, Answers, is_stamped, stored, annotate, updated,
  backfill_one, backfill_each, backfill_node_claim_hashes, stamp_class, after_backfill, reconcile,
}
use karpenter_provider_hclou.Hcloudapi.Errors.{Error}
use karpenter_provider_hclou.Karpenter.{NodeClaim}

module _ {R : Type 0} where
  -- Drift by hash does not judge across versions.
  drift-declines :
      (nc : HCloudNodeClass) (claim : NodeClaim R)
      → (get nc.annotations annotation_hash_version ≢ hash_version)
        ⊎ (get claim.annotations annotation_hash_version ≢ hash_version)
      → node_class_hash_drift nc claim ≡ no_drift
  unfolding node_class_hash_drift
  drift-declines nc claim h = ground (
    arith,
    eq_iff (get nc.annotations annotation_hash_version) hash_version,
    eq_iff (get claim.annotations annotation_hash_version) hash_version,
  )

  drift-agrees :
      (nc : HCloudNodeClass) (claim : NodeClaim R) (h : String)
      → lookup annotation_hash nc.annotations ≡ some h
      → lookup annotation_hash claim.annotations ≡ some h
      → node_class_hash_drift nc claim ≡ no_drift
  unfolding node_class_hash_drift
  drift-agrees nc claim h p q = ground (arith, eq_iff h h)

  -- The hash that a claim was launched with is of another version.
  abbrev pub IsOld : NodeClaim R → Type 0
  IsOld claim = get claim.annotations annotation_hash_version ≢ hash_version

  -- A claim after its turn: it has the new hash, or is still of the old version.
  abbrev After : String → Claim R → Claim R → Type 0
  After hash c c' =
      (c'.node_claim.name ≡ c.node_claim.name)
      × ((lookup annotation_hash c'.node_claim.annotations ≡ some hash) ⊎ IsOld c'.node_claim)

  updated-After : (hash : String) (c : Claim R) → c.drifted ≡ false → After hash c (updated hash c)
  unfolding updated annotate
  updated-After hash c healthy =
      rw (healthy, updated)
        (
          refl,
          inl (
              lookup-insert annotation_hash annotation_hash hash
                (insert annotation_hash_version hash_version c.node_claim.annotations)),
        )

  stored-After :
      (answer : Answer) (hash : String) (c : Claim R)
      → c.drifted ≡ false
      → IsOld c.node_claim
      → After hash c (stored answer c (updated hash c))
  unfolding stored
  stored-After done hash c healthy old = updated-After hash c healthy
  stored-After gone hash c healthy old = (refl, inr old)
  stored-After (failed e) hash c healthy old = (refl, inr old)

  module _ (answers : Answers) where
    backfill_one-After :
        (hash : String) (c : Claim R)
        → c.drifted ≡ false
        → IsOld c.node_claim
        → After hash c (backfill_one answers hash c).1
    unfolding backfill_one
    backfill_one-After hash c healthy old =
        elim (Bool-cases (get c.node_claim.annotations annotation_hash_version == hash_version)) [
          | inl current ↦ absurd (
              old (
                (eq_iff (get c.node_claim.annotations annotation_hash_version) hash_version).0
                  current))
          | inr other ↦
              rw (other, backfill_one)
                (stored-After (answers.to_claim c.node_claim.name) hash c healthy old)
        ]

    Has-backfill_each :
        (hash : String) (c : Claim R) (cs : List (Claim R))
        → Has c cs
        → Has (backfill_one answers hash c).1 (backfill_each answers hash cs).1
    unfolding backfill_each
    Has-backfill_each hash c [] m = absurd m
    Has-backfill_each hash c (d ∷ cs) (inl e) = inl (ap (λ x. (backfill_one answers hash x).1) e)
    Has-backfill_each hash c (d ∷ cs) (inr m) = inr (Has-backfill_each hash c cs m)

    -- The claim is stored, under its name, and does not drift by its hash.
    abbrev pub Quiet : Claim R → Store R → Type 0
    Quiet c s =
        (c' : Claim R) × Has c' s.claims
        × (c'.node_claim.name ≡ c.node_claim.name)
        × (node_class_hash_drift s.node_class c'.node_claim ≡ no_drift)

    backfill-listed :
        (h : String) (claims : List (Claim R))
        → answers.to_list ≡ none
        → backfill_node_claim_hashes answers h claims ≡ backfill_each answers h claims
    unfolding backfill_node_claim_hashes
    backfill-listed h claims e = rw (e, backfill_node_claim_hashes) refl

    backfill-refused :
        (h : String) (claims : List (Claim R)) (e : Error)
        → answers.to_list ≡ some e
        → backfill_node_claim_hashes answers h claims ≡ (e ∷ [], claims)
    unfolding backfill_node_claim_hashes
    backfill-refused h claims e r = rw (r, backfill_node_claim_hashes) refl

    module _ (hash : HCloudNodeClassSpec → String) (c : Claim R) where
      reconcile-deleting :
          (s : Store R) → s.node_class.deleting ≡ true → reconcile hash answers s ≡ ([], s)
      unfolding reconcile
      reconcile-deleting s going = ground arith

      reconcile-backfills :
          (s : Store R)
          → s.node_class.deleting ≡ false
          → get s.node_class.annotations annotation_hash_version ≢ hash_version
          → reconcile hash answers s
            ≡ after_backfill hash answers s.node_class
                (backfill_node_claim_hashes answers (hash s.node_class.spec) s.claims)
      unfolding reconcile
      reconcile-backfills s staying old =
          ground (arith, eq_iff (get s.node_class.annotations annotation_hash_version) hash_version)

      stamped :
          (nc : HCloudNodeClass)
          → lookup annotation_hash (stamp hash nc nc.annotations) ≡ some (hash nc.spec)
      unfolding stamp
      stamped nc =
          lookup-insert annotation_hash_version annotation_hash hash_version
            (insert annotation_hash (hash nc.spec) nc.annotations)
          ∙ lookup-insert annotation_hash annotation_hash (hash nc.spec) nc.annotations

      class-Quiet :
          (answer : Answer) (nc : HCloudNodeClass) (claims : List (Claim R)) (c' : Claim R)
          → get nc.annotations annotation_hash_version ≢ hash_version
          → Has c' claims
          → After (hash nc.spec) c c'
          → Quiet c (record {
            node_class =
                stored answer nc (record nc { annotations = stamp hash nc nc.annotations });
            claims = claims;
          })
      unfolding stored
      class-Quiet done nc claims c' old m (name, inl new) =
          (c', m, name, drift-agrees _ c'.node_claim (hash nc.spec) (stamped nc) new)
      class-Quiet done nc claims c' old m (name, inr still) =
          (c', m, name, drift-declines _ c'.node_claim (inr still))
      class-Quiet gone nc claims c' old m (name, _) =
          (c', m, name, drift-declines nc c'.node_claim (inl old))
      class-Quiet (failed e) nc claims c' old m (name, _) =
          (c', m, name, drift-declines nc c'.node_claim (inl old))

      after_backfill-Quiet :
          (nc : HCloudNodeClass) (errs : List Error) (claims : List (Claim R)) (c' : Claim R)
          → get nc.annotations annotation_hash_version ≢ hash_version
          → Has c' claims
          → After (hash nc.spec) c c'
          → Quiet c (after_backfill hash answers nc (errs, claims)).1
      unfolding after_backfill stamp_class
      after_backfill-Quiet nc [] claims c' old m a =
          elim (Bool-cases (is_stamped (hash nc.spec) nc)) [
            | inl stamped_before ↦
                rw (stamped_before, stamp_class)
                  (c', m, a.0, drift-declines nc c'.node_claim (inl old))
            | inr unstamped ↦
                rw (unstamped, stamp_class) (class-Quiet answers.to_class nc claims c' old m a)
          ]
      after_backfill-Quiet nc (e ∷ errs) claims c' old m (name, _) =
          (c', m, name, drift-declines nc c'.node_claim (inl old))

      -- When the NodeClass is of an older version, `Reconcile` makes no claim of an older version drift by
      -- its hash that had not drifted, whatever the API answers to each call: the back-fill has given the
      -- claim the new hash, or the two versions still do not agree.
      pub reconcile-Quiet :
          (s : Store R)
          → get s.node_class.annotations annotation_hash_version ≢ hash_version
          → Has c s.claims
          → c.drifted ≡ false
          → IsOld c.node_claim
          → Quiet c (reconcile hash answers s).1
      reconcile-Quiet s old m healthy mine = elim (Bool-cases s.node_class.deleting) [
        | inl going ↦
            rw (reconcile-deleting s going)
              (c, m, refl, drift-declines s.node_class c.node_claim (inl old))
        | inr staying ↦
            rw (reconcile-backfills s staying old) (elim (Option-cases answers.to_list) [
              | inr (e, refused) ↦
                  rw (backfill-refused (hash s.node_class.spec) s.claims e refused)
                    (after_backfill-Quiet s.node_class (e ∷ []) s.claims c old m (refl, inr mine))
              | inl listed ↦
                  let h = hash s.node_class.spec in
                  rw (backfill-listed h s.claims listed) (
                    after_backfill-Quiet s.node_class (backfill_each answers h s.claims).0
                      (backfill_each answers h s.claims).1 (backfill_one answers h c).1 old
                      (Has-backfill_each h c s.claims m) (backfill_one-After h c healthy mine))
            ])
      ]
