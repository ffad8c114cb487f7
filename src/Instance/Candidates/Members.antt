-- ===== src/Instance/Candidates/Members.antt =====
-- Which offerings become candidates.
use mathlib.Core.List.{Permᴰ}
use mathlib.Core.List.Permᴰ
use mathlib.Core.Path.{subst}
use karpenter_provider_hclou.Base.{
  ◌≡◌, refl, ◌⊎◌, inl, inr, true, some, List, [], ◌∷◌, ◌++◌, Has, Bool-cases, Option-cases, sym,
  ◌∙◌, ap, ◌↔◌,
}
use karpenter_provider_hclou.Base.Sort.Laws.{sort_stable-Perm, Has-Permᴰ}
use karpenter_provider_hclou.Karpenter.{Scheduling, Offering, InstanceType, NodeClaim}
use karpenter_provider_hclou.Instance.Candidates.{
  Candidate, corev1_region_label, key, less, resources_fit, offered, candidates, ordered_candidates,
}

Has-append : {A : Type 0} (a : A) (xs ys : List A) → Has a (xs ++ ys) → Has a xs ⊎ Has a ys
Has-append a [] ys h = inr h
Has-append a (x ∷ xs) ys (inl e) = inl (inl e)
Has-append a (x ∷ xs) ys (inr h) = elim (Has-append a xs ys h) [
  | inl l ↦ inl (inr l)
  | inr r ↦ inr r
]

append-Has : {A : Type 0} (a : A) (xs ys : List A) → Has a xs ⊎ Has a ys → Has a (xs ++ ys)
append-Has a [] ys (inl h) = absurd h
append-Has a [] ys (inr h) = h
append-Has a (x ∷ xs) ys (inl (inl e)) = inl e
append-Has a (x ∷ xs) ys (inl (inr h)) = inr (append-Has a xs ys (inl h))
append-Has a (x ∷ xs) ys (inr h) = inr (append-Has a xs ys (inr h))

module _ (s : Scheduling) (claim : NodeClaim s.Requirements) where
  -- The offering `o` of the type `it` can serve the claim, in the candidate's location.
  pub record Serves (it : InstanceType s.Requirements) (o : Offering s.Requirements)
      (c : Candidate s.Requirements) : Type 0 where
    pub the_type : c.instance_type ≡ it
    pub the_price : c.price ≡ o.price
    pub overlap : s.intersects it.requirements claim.requirements ≡ true
    pub fits : resources_fit s claim it ≡ true
    pub available : o.available ≡ true
    pub compatible : s.is_compatible claim.requirements o.requirements ≡ true
    pub region : s.pinned o.requirements corev1_region_label ≡ some c.location

  module _ (it : InstanceType s.Requirements) (c : Candidate s.Requirements)
      (lap : s.intersects it.requirements claim.requirements ≡ true)
      (fit : resources_fit s claim it ≡ true) where
    abbrev pub FromOne : List (Offering s.Requirements) → Type 0
    FromOne os = (o : Offering s.Requirements) × Has o os × Serves it o c

    later :
        (o : Offering s.Requirements) (os : List (Offering s.Requirements))
        → FromOne os
        → FromOne (o ∷ os)
    later o os (o', m, v) = (o', inr m, v)

    offered-Serves :
        (os : List (Offering s.Requirements))
        → Has c (offered s claim.requirements it os)
        → FromOne os
    unfolding offered
    offered-Serves [] h = absurd h
    offered-Serves (o ∷ os) h = elim (Bool-cases o.available) [
      | inr gone ↦ later o os (offered-Serves os (rw (gone, offered) at h))
      | inl here ↦ elim (Bool-cases (s.is_compatible claim.requirements o.requirements)) [
        | inr clash ↦ later o os (offered-Serves os (rw (here, clash, offered) at h))
        | inl agree ↦ elim (Option-cases (s.pinned o.requirements corev1_region_label)) [
          | inl free ↦ later o os (offered-Serves os (rw (here, agree, free, offered) at h))
          | inr (r, found) ↦ elim (rw (here, agree, found, offered) at h) [
            | inl e ↦ (
              o,
              inl refl,
              record {
                the_type = ap (λ d. d.instance_type) e;
                the_price = ap (λ d. d.price) e;
                overlap = lap;
                fits = fit;
                available = here;
                compatible = agree;
                region = found ∙ ap some (sym (ap (λ d. d.location) e));
              },
            )
            | inr t ↦ later o os (offered-Serves os t)
          ]
        ]
      ]
    ]

  offered-cons :
      (it : InstanceType s.Requirements) (c : Candidate s.Requirements)
      (o : Offering s.Requirements) (os : List (Offering s.Requirements))
      → Has c (offered s claim.requirements it os)
      → Has c (offered s claim.requirements it (o ∷ os))
  unfolding offered
  offered-cons it c o os h = elim (Bool-cases o.available) [
    | inr gone ↦ rw (gone, offered) h
    | inl here ↦ elim (Bool-cases (s.is_compatible claim.requirements o.requirements)) [
      | inr clash ↦ rw (here, clash, offered) h
      | inl agree ↦ elim (Option-cases (s.pinned o.requirements corev1_region_label)) [
        | inl free ↦ rw (here, agree, free, offered) h
        | inr (r, found) ↦ rw (here, agree, found, offered) (inr h)
      ]
    ]
  ]

  served_path :
      (it : InstanceType s.Requirements) (c : Candidate s.Requirements)
      (o : Offering s.Requirements)
      → Serves it o c
      → ◌≡◌ {A = Candidate s.Requirements} c
          (record { instance_type = it; location = c.location; price = o.price })
  served_path it c o v =
      λ i. record { instance_type = v.the_type i; location = c.location; price = v.the_price i }

  Serves-offered :
      (it : InstanceType s.Requirements) (c : Candidate s.Requirements)
      (o : Offering s.Requirements) (os : List (Offering s.Requirements))
      → Has o os
      → Serves it o c
      → Has c (offered s claim.requirements it os)
  unfolding offered
  Serves-offered it c o [] m v = absurd m
  Serves-offered it c o (p ∷ os) (inl e) v =
      subst (λ q. Has c (offered s claim.requirements it (q ∷ os))) e
        (rw (v.available, v.compatible, v.region, offered) (inl (served_path it c o v)))
  Serves-offered it c o (p ∷ os) (inr m) v = offered-cons it c p os (Serves-offered it c o os m v)

  -- What makes a pair a candidate.
  abbrev pub Served : Candidate s.Requirements → List (InstanceType s.Requirements) → Type 0
  Served c its =
      (it : InstanceType s.Requirements) × (o : Offering s.Requirements) × Has it its
      × Has o it.offerings
      × Serves it o c

  among_rest :
      (c : Candidate s.Requirements) (it : InstanceType s.Requirements)
      (its : List (InstanceType s.Requirements))
      → Served c its
      → Served c (it ∷ its)
  among_rest c it its (it', o, m, n, v) = (it', o, inr m, n, v)

  candidates-Served :
      (c : Candidate s.Requirements) (its : List (InstanceType s.Requirements))
      → Has c (candidates s claim its)
      → Served c its
  unfolding candidates
  candidates-Served c [] h = absurd h
  candidates-Served c (it ∷ its) h =
      elim (Bool-cases (s.intersects it.requirements claim.requirements)) [
        | inr apart ↦ among_rest c it its (candidates-Served c its (rw (apart, candidates) at h))
        | inl lap ↦ elim (Bool-cases (resources_fit s claim it)) [
          | inr small ↦
              among_rest c it its (candidates-Served c its (rw (lap, small, candidates) at h))
          | inl fit ↦
              elim (Has-append c (offered s claim.requirements it it.offerings)
                (candidates s claim its) (rw (lap, fit, candidates) at h)) [
                  | inl here ↦
                      let (o, m, v) = offered-Serves it c lap fit it.offerings here in
                      (it, o, inl refl, m, v)
                  | inr t ↦ among_rest c it its (candidates-Served c its t)
                ]
        ]
      ]

  candidates-cons-Has :
      (c : Candidate s.Requirements) (it : InstanceType s.Requirements)
      (its : List (InstanceType s.Requirements))
      → Has c (candidates s claim its)
      → Has c (candidates s claim (it ∷ its))
  unfolding candidates
  candidates-cons-Has c it its h =
      elim (Bool-cases (s.intersects it.requirements claim.requirements)) [
        | inr apart ↦ rw (apart, candidates) h
        | inl lap ↦ elim (Bool-cases (resources_fit s claim it)) [
          | inr small ↦ rw (lap, small, candidates) h
          | inl fit ↦
              rw (lap, fit, candidates)
                (append-Has c (offered s claim.requirements it it.offerings)
                  (candidates s claim its) (inr h))
        ]
      ]

  Served-candidates :
      (c : Candidate s.Requirements) (it : InstanceType s.Requirements)
      (o : Offering s.Requirements) (its : List (InstanceType s.Requirements))
      → Has it its
      → Has o it.offerings
      → Serves it o c
      → Has c (candidates s claim its)
  unfolding candidates
  Served-candidates c it o [] m n v = absurd m
  Served-candidates c it o (jt ∷ its) (inl e) n v =
      subst (λ j. Has c (candidates s claim (j ∷ its))) e
        (rw (v.overlap, v.fits, candidates)
          (append-Has c (offered s claim.requirements it it.offerings) (candidates s claim its)
            (inl (Serves-offered it c o it.offerings n v))))
  Served-candidates c it o (jt ∷ its) (inr m) n v =
      candidates-cons-Has c jt its (Served-candidates c it o its m n v)

  -- The list that `Create` walks holds exactly the pairs that can serve the claim: the type overlaps
  -- the claim's requirements and is large enough, and the offering is available, compatible and
  -- pinned to one region.
  pub ordered_candidates_iff :
      (c : Candidate s.Requirements) (its : List (InstanceType s.Requirements))
      → Has c (ordered_candidates s claim its) ↔ Served c its
  unfolding ordered_candidates
  ordered_candidates_iff c its = (
    λ h. candidates-Served c its (Has-Permᴰ c (sorted its) h),
    λ (it, o, m, n, v). Has-Permᴰ c (Permᴰ.symm (sorted its)) (Served-candidates c it o its m n v),
  )
    where
      sorted :
          (its : List (InstanceType s.Requirements))
          → Permᴰ (ordered_candidates s claim its) (candidates s claim its)
      sorted its = sort_stable-Perm (λ a b. less (key a) (key b)) (candidates s claim its)
