-- ===== src/Controllers/Nodeclass/Validation/Verdicts.antt =====
-- What the condition that validation sets stands for.
use mathlib.Core.Path.{subst}
use karpenter_provider_hclou.Base.{
  ℕ, ◌≡◌, ◌≢◌, ◌⊎◌, refl, inl, inr, sym, ◌∙◌, Bool, true, false, Option, none, some, eq_iff, string_comparable, List, [], ◌∷◌, String, Has,
  is_empty, arith, Bool-cases, Option-cases, nat_comparable,
}
use karpenter_provider_hclou.Base.Map.{lookup, lookup-insert}
use karpenter_provider_hclou.Catalog.{Snapshot}
use karpenter_provider_hclou.Controllers.Nodeclass.Scope.{Scope, catalog_zones, location_scope, excluded}
use karpenter_provider_hclou.Controllers.Nodeclass.Scope.Offered.{Offers, catalog_zones-empty, catalog_zones-full}
use karpenter_provider_hclou.Hcloudapi.Catalog.{ServerTypeLocation}
use karpenter_provider_hclou.Api.NodeClass.{HCloudNodeClass, ImageStatus}
use karpenter_provider_hclou.Controllers.Nodeclass.Validation.{
  Status, is_true, is_false, is_unknown, Message, Condition, Subject, validation_succeeded,
  required_conditions, condition, is_failed, is_pending, pick, set, set_locations, withdraw,
  has_foreign_architecture, is_known, accept, is_fetched, conclude, place_nodes, reconcile,
}

-- The status of the condition that validation sets, and the locations.
abbrev pub Verdict : Type 0
Verdict = ℕ × Subject

abbrev pub status_of : Verdict → Status
status_of out = (condition out.1 validation_succeeded).status

set-status :
    (st : Status) (reason : String) (m : Message) (s : Subject)
    → (condition (set st reason m s) validation_succeeded).status ≡ st
unfolding set condition
set-status st reason m s =
    rw
      (
        lookup-insert validation_succeeded validation_succeeded
            (record {
              status = st;
              reason = reason;
              message = m;
              observed_generation = s.generation;
            })
            s.conditions,
        condition,
      )
      refl

-- An event changes no condition.
published :
    (s : Subject) (m : Message)
    → (condition (record s { events = m ∷ s.events }) validation_succeeded).status
      ≡ (condition s validation_succeeded).status
unfolding condition
published s m = elim (Option-cases (lookup validation_succeeded s.conditions)) [
  | inl unset ↦ rw (unset, condition) refl
  | inr (c, there) ↦ rw (there, condition) refl
]

withdraw-status :
    (st : Status) (reason : String) (m : Message) (s : Subject)
    → status_of (withdraw st reason m s) ≡ st
unfolding withdraw
withdraw-status st reason m s = set-status st reason m (set_locations [] s)

pick-empty :
    (test : Condition → Bool) (s : Subject) (names : List String) (name : String)
    → is_empty (pick test s names) ≡ true
    → Has name names
    → test (condition s name) ≡ false
unfolding pick
pick-empty test s [] name h m = absurd m
pick-empty test s (n ∷ names) name h m = elim (Bool-cases (test (condition s n))) [
  | inl picked ↦ absurd (not_empty (rw (picked, pick) at h))
  | inr passed ↦ elim m [
    | inl e ↦ subst (λ k. test (condition s k) ≡ false) (sym e) passed
    | inr later ↦ pick-empty test s names name (rw (passed, pick) at h) later
  ]
]
  where
    not_empty : false ≢ true
    not_empty e = cc

none_picked :
    (test : Condition → Bool) (s : Subject) (names : List String)
    → ((name : String) → Has name names → test (condition s name) ≡ false)
    → pick test s names ≡ []
unfolding pick
none_picked test s [] h = refl
none_picked test s (n ∷ names) h =
    rw (h n (inl refl), pick) (none_picked test s names (λ name m. h name (inr m)))

not_false : {st : Status} → st ≡ is_false → st ≡ is_true → ⊥
not_false e f = cc

not_unknown : {st : Status} → st ≡ is_unknown → st ≡ is_true → ⊥
not_unknown e f = cc

apart : {b : Bool} → b ≡ true → b ≡ false → ⊥
apart e f = cc

withdraw-locations :
    (st : Status) (reason : String) (m : Message) (s : Subject)
    → (withdraw st reason m s).1.node_class.status.locations ≡ []
unfolding withdraw set set_locations
withdraw-locations st reason m s = refl

-- The condition is True and was resolved for this generation.
abbrev pub IsResolved : Subject → String → Type 0
IsResolved s name =
    ((condition s name).status ≡ is_true) × ((condition s name).observed_generation ≡ s.generation)

not_failed :
    (s : Subject) (cond : Condition)
    → (cond.status ≡ is_true) × (cond.observed_generation ≡ s.generation)
    → is_failed cond ≡ false
unfolding is_failed
not_failed s cond (e, g) = rw (e, is_failed) refl

not_pending :
    (s : Subject) (cond : Condition)
    → (cond.status ≡ is_true) × (cond.observed_generation ≡ s.generation)
    → is_pending s.generation cond ≡ false
unfolding is_pending
not_pending s cond (e, g) = rw (e, is_pending) (ground arith)

resolved :
    (s : Subject) (cond : Condition)
    → is_failed cond ≡ false
    → is_pending s.generation cond ≡ false
    → (cond.status ≡ is_true) × (cond.observed_generation ≡ s.generation)
unfolding is_failed is_pending
resolved s cond f p = go cond.status refl
  where
    go :
        (st : Status)
        → cond.status ≡ st
        → (cond.status ≡ is_true) × (cond.observed_generation ≡ s.generation)
    go is_true e = (e, ground arith)
    go is_false e = absurd (ground arith)
    go is_unknown e = absurd (ground arith)

narrowed-true :
    (scope : Scope) (t : Subject) (outside unknown : List String)
    → (condition
        (set is_true "LocationsNarrowed"
          ("spec.locations was narrowed", outside, unknown)
          (set_locations scope.split.in_scope t))
        validation_succeeded).status
      ≡ is_true
narrowed-true scope t outside unknown =
    set-status is_true "LocationsNarrowed" ("spec.locations was narrowed", outside, unknown)
      (set_locations scope.split.in_scope t)

accept-verdict :
    (scope : Scope) (t : Subject)
    → (status_of (accept scope t) ≡ is_true)
      × ((accept scope t).1.node_class.status.locations ≡ scope.split.in_scope)
unfolding accept set_locations set
accept-verdict scope t = elim (Option-cases (excluded scope)) [
  | inl all ↦
      rw (all, accept)
        (
          set-status is_true validation_succeeded ("", [], [])
              (set_locations scope.split.in_scope t),
          refl,
        )
  | inr ((outside, unknown), narrowed) ↦
      elim (Bool-cases (
        is_known ("spec.locations was narrowed", outside, unknown)
          (condition t validation_succeeded))) [
            | inl said ↦ rw (narrowed, said, accept) (narrowed-true scope t outside unknown, refl)
            | inr news ↦
                rw (narrowed, news, accept)
                  (
                    published
                          (set is_true "LocationsNarrowed"
                            ("spec.locations was narrowed", outside, unknown)
                            (set_locations scope.split.in_scope t))
                          (("spec.locations was narrowed", outside, unknown))
                        ∙ narrowed-true scope t outside unknown,
                    refl,
                  )
          ]
]

conclude-true :
    (fetched bare : Bool) (scope : Scope) (s : Subject)
    → status_of (conclude fetched bare scope s) ≡ is_true
    → (fetched ≡ true)
      × (is_empty scope.split.in_scope ≡ false)
      × ((conclude fetched bare scope s).1.node_class.status.locations ≡ scope.split.in_scope)
unfolding conclude
conclude-true false bare scope s h = absurd (not_unknown (withdraw-status is_unknown _ _ s) h)
conclude-true true true scope s h = absurd (not_unknown (withdraw-status is_unknown _ _ s) h)
conclude-true true false scope s h = elim (Bool-cases (is_empty scope.split.in_scope)) [
  | inl nowhere ↦ absurd (not_false (withdraw-status is_false _ _ s) (rw (nowhere, conclude) at h))
  | inr somewhere ↦ (refl, somewhere, rw (somewhere, conclude) ((accept-verdict scope s).1))
]

-- The resolved image, if there is one, is for x86 or says nothing.
abbrev pub IsNative : HCloudNodeClass → Type 0
IsNative node_class =
    (img : ImageStatus)
    → node_class.status.image ≡ some img
    → (img.architecture ≡ "") ⊎ (img.architecture ≡ "x86")

native_architecture :
    (nc : HCloudNodeClass) → IsNative nc → has_foreign_architecture nc ≡ false
unfolding has_foreign_architecture
native_architecture nc native = elim (Option-cases (nc.status.image)) [
  | inl unset ↦ rw (unset, has_foreign_architecture) refl
  | inr (img, resolved) ↦ elim (native img resolved) [
    | inl silent ↦
        rw (resolved, (eq_iff img.architecture "").1 silent, has_foreign_architecture) refl
    | inr x86 ↦
        let same = (eq_iff img.architecture "x86").1 x86 in
        rw (resolved, has_foreign_architecture) (ground arith)
  ]
]

Offers-is_fetched :
    (snapshot : Option Snapshot) (l : ServerTypeLocation)
    → Offers snapshot l
    → is_fetched snapshot ≡ true
unfolding is_fetched
Offers-is_fetched none l offers = absurd offers
Offers-is_fetched (some snapshot) l offers = refl

-- With locations on offer, the condition is True or False.
conclude-sighted :
    (fetched bare : Bool) (scope : Scope) (s : Subject)
    → fetched ≡ true
    → bare ≡ false
    → status_of (conclude fetched bare scope s) ≢ is_unknown
unfolding conclude
conclude-sighted false bare scope s f b = absurd (apart f refl)
conclude-sighted true true scope s f b = absurd (apart refl b)
conclude-sighted true false scope s f b = elim (Bool-cases (is_empty scope.split.in_scope)) [
  | inl nowhere ↦
      rw (nowhere, conclude)
        (λ e. apart_false (sym (withdraw-status is_false _ _ s) ∙ e))
  | inr somewhere ↦
      rw (somewhere, conclude) (λ e. apart_true (sym ((accept-verdict scope s).0) ∙ e))
]
  where
    apart_false : is_false ≡ is_unknown → ⊥
    apart_false e = cc

    apart_true : is_true ≡ is_unknown → ⊥
    apart_true e = cc

conclude-blind :
    (fetched bare : Bool) (scope : Scope) (s : Subject)
    → (fetched ≡ false) ⊎ (bare ≡ true)
    → (status_of (conclude fetched bare scope s) ≡ is_unknown)
      × ((conclude fetched bare scope s).1.node_class.status.locations ≡ [])
unfolding conclude
conclude-blind false bare scope s blind = (
  withdraw-status is_unknown "CatalogNotFetched" ("catalog", [], []) s,
  withdraw-locations is_unknown "CatalogNotFetched" ("catalog", [], []) s,
)
conclude-blind true true scope s blind = (
  withdraw-status is_unknown "CatalogEmpty" ("catalog", [], []) s,
  withdraw-locations is_unknown "CatalogEmpty" ("catalog", [], []) s,
)
conclude-blind true false scope s (inl e) = absurd (cc)
conclude-blind true false scope s (inr e) = absurd (cc)

module _ (snapshot : Option Snapshot) (s : Subject) where
  -- `ValidationSucceeded` is True after `Reconcile` only if each of the six required conditions is True
  -- and was resolved for this generation, the image has no foreign architecture, the catalogue was
  -- fetched and offers a location, and the locations written are the scope, which is not empty.
  pub reconcile-true :
      status_of (reconcile snapshot s) ≡ is_true
      → ((name : String) → Has name required_conditions → IsResolved s name)
        × (has_foreign_architecture s.node_class ≡ false)
        × (is_fetched snapshot ≡ true)
        × (is_empty (location_scope snapshot s.node_class).split.in_scope ≡ false)
        × ((reconcile snapshot s).1.node_class.status.locations
            ≡ (location_scope snapshot s.node_class).split.in_scope)
  unfolding reconcile place_nodes
  reconcile-true h = elim (Bool-cases (is_empty (pick is_failed s required_conditions))) [
    | inr failed ↦ absurd (not_false (withdraw-status is_false _ _ s) (rw (failed, reconcile) at h))
    | inl sound ↦
        elim (Bool-cases (is_empty (pick (is_pending s.generation) s required_conditions))) [
          | inr pending ↦
              absurd (
                not_unknown (withdraw-status is_unknown _ _ s)
                  (rw (sound, pending, reconcile) at h))
          | inl settled ↦ elim (Bool-cases (has_foreign_architecture s.node_class)) [
            | inl foreign ↦ absurd (
                not_false (withdraw-status is_false _ _ s)
                  (rw (sound, settled, foreign, reconcile) at h))
            | inr native ↦
                let (fetched, some_left, written) =
                  conclude-true (is_fetched snapshot)
                    (location_scope snapshot s.node_class).catalog_empty
                    (location_scope snapshot s.node_class) s
                    (rw (sound, settled, native, reconcile, place_nodes) at h) in
                (
                  (λ name m.
                      resolved s (condition s name)
                        (pick-empty is_failed s required_conditions name sound m)
                        (pick-empty (is_pending s.generation) s required_conditions name settled
                          m)),
                  native,
                  fetched,
                  some_left,
                  rw (sound, settled, native, reconcile, place_nodes) written,
                )
          ]
        ]
  ]

  -- With every required condition resolved and no image of an architecture other than x86, the
  -- condition is Unknown exactly where the catalogue offers no location: it was not fetched, or it has
  -- no server type for x86 with a location where neither is deprecated. The locations are withdrawn
  -- then.
  pub reconcile-blind :
      ((name : String) → Has name required_conditions → IsResolved s name)
      → IsNative s.node_class
      → (((l : ServerTypeLocation) → ¬ Offers snapshot l)
          → (status_of (reconcile snapshot s) ≡ is_unknown)
            × ((reconcile snapshot s).1.node_class.status.locations ≡ []))
        × ((l : ServerTypeLocation)
          → Offers snapshot l
          → status_of (reconcile snapshot s) ≢ is_unknown)
  unfolding reconcile place_nodes location_scope
  reconcile-blind all native =
      let scope = location_scope snapshot s.node_class in
      rw
        (
          none_picked is_failed s required_conditions
              (λ name m. not_failed s (condition s name) (all name m)),
          none_picked (is_pending s.generation) s required_conditions
              (λ name m. not_pending s (condition s name) (all name m)),
          native_architecture s.node_class native,
          reconcile,
          place_nodes,
        )
        (
          λ bare.
              conclude-blind (is_fetched snapshot) (is_empty (catalog_zones snapshot)) scope s
                (inr (catalog_zones-empty snapshot bare)),
          λ l offers.
              conclude-sighted (is_fetched snapshot) (is_empty (catalog_zones snapshot)) scope s
                (Offers-is_fetched snapshot l offers) (catalog_zones-full snapshot l offers),
        )
