-- ===== src/Instancetype/Types/Sold.antt =====
-- What the catalogue offers.

use mathlib.Core.List.Permᴰ.{symm}
use mathlib.Core.Path.{subst}
use karpenter_provider_hclou.Base.{
  ◌≡◌, ◌↔◌, refl, inl, inr, sym, ap, ◌∙◌, Bool, true, false, not, ◌||◌, none, some, List, [], ◌∷◌,
  String, Has, Has-keep, contains, is_empty, Bool-cases, Option-cases, arith, string_comparable,
}
use karpenter_provider_hclou.Base.Map.{Map, lookup}
use karpenter_provider_hclou.Base.Sort.Laws.{sort_stable-Perm, Has-Permᴰ}
use karpenter_provider_hclou.Hcloudapi.Catalog.{Price, ServerType, ServerTypeLocation}
use karpenter_provider_hclou.Instancetype.Resources.{overhead, allocatable}
use karpenter_provider_hclou.Instancetype.Types.{
  location_filter, offered, Built, Context, offering, offerings, new_instance_type, architectures,
  build_one, build_each, by_name, build,
}
use karpenter_provider_hclou.Karpenter.{Offering}

offered_iff :
    (allowed : List String) (l : ServerTypeLocation) (ls : List ServerTypeLocation)
    → Has l (offered allowed ls)
      ↔ (Has l ls × (location_filter allowed l.location ≡ true) × (l.deprecated ≡ false))
unfolding offered
offered_iff allowed l ls =
    let kept =
      Has-keep (λ l. not (not (location_filter allowed l.location) || l.deprecated)) l ls in
    (
      λ h. let (m, test) = kept.0 h in let (a, b) = (passes _ _).0 test in (m, a, b),
      λ (m, a, b). kept.1 (m, (passes _ _).1 (a, b)),
    )
  where
    passes : (a b : Bool) → (not (not a || b) ≡ true) ↔ ((a ≡ true) × (b ≡ false))
    passes true true = ground arith
    passes true false = ground arith
    passes false b = ground arith

none-ne-some : {A : Type 0} {a : A} → none ≡ some a → ⊥
none-ne-some e = cc

some_injective : {A : Type 0} {a b : A} → some a ≡ some b → a ≡ b
some_injective e = cc

Has-nonempty : {A : Type 0} (a : A) (xs : List A) → Has a xs → is_empty xs ≡ false
Has-nonempty a [] h = absurd h
Has-nonempty a (x ∷ xs) h = refl

current_iff : (a b : Bool) → ((a || not b) ≡ false) ↔ ((a ≡ false) × (b ≡ true))
current_iff true b = ground arith
current_iff false true = ground arith
current_iff false false = ground arith

module _ {R : Type 0} (ctx : Context R) where
  -- A location among those with the price there.
  Priced : Offering R → String → Map Price → List ServerTypeLocation → Type 0
  Priced o name prices ls =
      (l : ServerTypeLocation) × (price : Price) × Has l ls
      × (lookup l.location prices ≡ some price)
      × (o ≡ offering ctx name l price)

  offerings_iff :
      (name : String) (prices : Map Price) (o : Offering R) (ls : List ServerTypeLocation)
      → Has o (offerings ctx name prices ls) ↔ Priced o name prices ls
  unfolding offerings Priced
  offerings_iff name prices o [] = (λ h. absurd h, λ (l, price, m, found, e). absurd m)
  offerings_iff name prices o (x ∷ xs) = elim (Option-cases (lookup x.location prices)) [
    | inl unpriced ↦
        let ih = offerings_iff name prices o xs in
        rw (unpriced, offerings)
          (
            λ h. let (l, price, m, found, e) = ih.0 h in (l, price, inr m, found, e),
            λ (l, price, m, found, e). elim m [
              | inl same ↦ absurd (
                  none-ne-some
                    (sym unpriced ∙ (ap (λ l. lookup l.location prices) (sym same) ∙ found)))
              | inr m' ↦ ih.1 (l, price, m', found, e)
            ],
          )
    | inr (price, priced) ↦
        let ih = offerings_iff name prices o xs in
        rw (priced, offerings)
          (
            λ h. elim h [
              | inl e ↦ (x, price, inl refl, priced, e)
              | inr m ↦ let (l, p, m', found, e) = ih.0 m in (l, p, inr m', found, e)
            ],
            λ (l, p, m, found, e). elim m [
              | inl same ↦ inl (here l x p price same found priced e)
              | inr m' ↦ inr (ih.1 (l, p, m', found, e))
            ],
          )
  ]
    where
      here :
          (l x : ServerTypeLocation) (p price : Price)
          → l ≡ x
          → lookup l.location prices ≡ some p
          → lookup x.location prices ≡ some price
          → o ≡ offering ctx name l p
          → o ≡ offering ctx name x price
      here l x p price same found priced e =
          let equal : p ≡ price =
            some_injective (sym found ∙ (ap (λ l. lookup l.location prices) same ∙ priced)) in
          e ∙ (ap (λ l. offering ctx name l p) same ∙ ap (λ p. offering ctx name x p) equal)

  -- A server type that is looked at.
  abbrev pub IsCurrent : ServerType → Type 0
  IsCurrent st = (st.deprecated ≡ false) × (contains st.architecture (architectures ctx) ≡ true)

  abbrev locations_of : ServerType → List ServerTypeLocation
  locations_of st = offered ctx.node_class.spec.locations st.locations

  -- What an instance type is made of.
  Made : ServerType → Built R → Type 0
  Made st b =
      (b.instance_type.name ≡ st.name)
      × (b.instance_type.offerings ≡ offerings ctx st.name st.prices (locations_of st))
      × (b.overhead ≡ overhead ctx.floats ctx.node_class.spec.kubelet b.instance_type.capacity)
      × (b.instance_type.allocatable ≡ allocatable b.instance_type.capacity b.overhead)

  new_instance_type-Made :
      (st : ServerType) (b : Built R)
      → new_instance_type ctx st (locations_of st) ≡ some b
      → Made st b
  unfolding new_instance_type Made
  new_instance_type-Made st b h =
      elim (Bool-cases (is_empty (offerings ctx st.name st.prices (locations_of st)))) [
        | inl nothing ↦ absurd (none-ne-some (rw (nothing, new_instance_type) at h))
        | inr something ↦
            subst (Made st) (some_injective (rw (something, new_instance_type) at h))
              (refl, refl, refl, refl)
      ]

  build_one-Made :
      (st : ServerType) (b : Built R) → build_one ctx st ≡ some b → IsCurrent st × Made st b
  unfolding build_one
  build_one-Made st b h =
      elim (Bool-cases (st.deprecated || not (contains st.architecture (architectures ctx)))) [
        | inl out ↦ absurd (none-ne-some (rw (out, build_one) at h))
        | inr current ↦ elim (Bool-cases (is_empty (locations_of st))) [
          | inl nowhere ↦ absurd (none-ne-some (rw (current, nowhere, build_one) at h))
          | inr somewhere ↦ (
            (current_iff _ _).0 current,
            new_instance_type-Made st b (rw (current, somewhere, build_one) at h),
          )
        ]
      ]

  build_one-some :
      (st : ServerType) (o : Offering R)
      → IsCurrent st
      → Has o (offerings ctx st.name st.prices (locations_of st))
      → (b : Built R) × (build_one ctx st ≡ some b)
  unfolding build_one new_instance_type Priced
  build_one-some st o current h =
      let inside =
        (current_iff st.deprecated (contains st.architecture (architectures ctx))).1 current in
      let something = Has-nonempty o (offerings ctx st.name st.prices (locations_of st)) h in
      let (l, price, m, found, e) = (offerings_iff st.name st.prices o (locations_of st)).0 h in
      let somewhere = Has-nonempty l (locations_of st) m in
      elim (Option-cases (build_one ctx st)) [
        | inr (b, made) ↦ (b, made)
        | inl none_made ↦ absurd (
            none-ne-some
              (sym (rw (inside, somewhere, something, build_one, new_instance_type) at none_made)))
      ]

  build_each_iff :
      (b : Built R) (sts : List ServerType)
      → Has b (build_each ctx sts) ↔ ((st : ServerType) × Has st sts × (build_one ctx st ≡ some b))
  unfolding build_each
  build_each_iff b [] = (λ h. absurd h, λ (st, m, made). absurd m)
  build_each_iff b (x ∷ xs) = elim (Option-cases (build_one ctx x)) [
    | inl nothing ↦
        let ih = build_each_iff b xs in
        rw (nothing, build_each)
          (
            λ h. let (st, m, made) = ih.0 h in (st, inr m, made),
            λ (st, m, made). elim m [
              | inl same ↦
                  absurd (none-ne-some (sym nothing ∙ (ap (build_one ctx) (sym same) ∙ made)))
              | inr m' ↦ ih.1 (st, m', made)
            ],
          )
    | inr (c, made_x) ↦
        let ih = build_each_iff b xs in
        rw (made_x, build_each)
          (
            λ h. elim h [
              | inl e ↦ (x, inl refl, made_x ∙ ap some (sym e))
              | inr m ↦ let (st, m', made) = ih.0 m in (st, inr m', made)
            ],
            λ (st, m, made). elim m [
              | inl same ↦ inl (some_injective (sym made ∙ (ap (build_one ctx) same ∙ made_x)))
              | inr m' ↦ inr (ih.1 (st, m', made))
            ],
          )
  ]

  build-Has :
      (b : Built R) (sts : List ServerType) → Has b (build ctx sts) ↔ Has b (build_each ctx sts)
  unfolding build
  build-Has b sts =
      let same = sort_stable-Perm (by_name ctx) (build_each ctx sts) in
      (Has-Permᴰ b same, Has-Permᴰ b (symm same))

  -- What is held back from a built type.
  pub build-overhead :
      (b : Built R) (sts : List ServerType)
      → Has b (build ctx sts)
      → (b.overhead ≡ overhead ctx.floats ctx.node_class.spec.kubelet b.instance_type.capacity)
        × (b.instance_type.allocatable ≡ allocatable b.instance_type.capacity b.overhead)
  unfolding Made
  build-overhead b sts m =
      let (st, m', made) = (build_each_iff b sts).0 ((build-Has b sts).0 m) in
      let (current, (named, same, held, left)) = build_one-Made st b made in (held, left)

  -- An offering of the built types with a name.
  abbrev pub Offers : String → Offering R → List (Built R) → Type 0
  Offers name o bs =
      (b : Built R) × Has b bs × (b.instance_type.name ≡ name) × Has o b.instance_type.offerings

  -- A server type of a name that is sold in a location, with the price there.
  abbrev pub IsSold : List ServerType → String → ServerTypeLocation → Price → Type 0
  IsSold sts name l price =
      (st : ServerType) × Has st sts
      × (st.name ≡ name)
      × IsCurrent st
      × Has l st.locations
      × (location_filter ctx.node_class.spec.locations l.location ≡ true)
      × (l.deprecated ≡ false)
      × (lookup l.location st.prices ≡ some price)

  -- The catalogue has exactly these offerings: for each server type that is not deprecated and of an
  -- architecture that is included, and each location of it that is in scope, not being phased out and
  -- has a price, the one with that price, the address included where the NodeClass wants one, which is
  -- available exactly if no failure is remembered.
  pub build-IsSold_iff :
      (sts : List ServerType) (name : String) (o : Offering R)
      → Offers name o (build ctx sts) ↔ (
          (l : ServerTypeLocation) × (price : Price) × IsSold sts name l price
          × (o ≡ offering ctx name l price))
  unfolding Made Priced
  build-IsSold_iff sts name o = (fore, back)
    where
      fore :
          Offers name o (build ctx sts)
          → (l : ServerTypeLocation) × (price : Price) × IsSold sts name l price
            × (o ≡ offering ctx name l price)
      fore (b, m, called, has) =
          let (st, m', made) = (build_each_iff b sts).0 ((build-Has b sts).0 m) in
          let (current, (named, same, held, left)) = build_one-Made st b made in
          let (l, price, in_l, found, e) =
            (offerings_iff st.name st.prices o (locations_of st)).0 (subst (Has o) same has) in
          let (at, scope, alive) =
            (offered_iff ctx.node_class.spec.locations l st.locations).0 in_l in
          (
            l,
            price,
            (st, m', sym named ∙ called, current, at, scope, alive, found),
            e ∙ ap (λ n. offering ctx n l price) (sym named ∙ called),
          )

      back :
          (l : ServerTypeLocation) × (price : Price) × IsSold sts name l price
            × (o ≡ offering ctx name l price)
          → Offers name o (build ctx sts)
      back (l, price, (st, m, called, current, at, scope, alive, found), e) =
          let in_l =
            (offered_iff ctx.node_class.spec.locations l st.locations).1 (at, scope, alive) in
          let has =
            (offerings_iff st.name st.prices o (locations_of st)).1
              (l, price, in_l, found, e ∙ ap (λ n. offering ctx n l price) (sym called)) in
          let (b, made) = build_one-some st o current has in
          let (current', (named, same, held, left)) = build_one-Made st b made in
          (
            b,
            (build-Has b sts).1 ((build_each_iff b sts).1 (st, m, made)),
            named ∙ called,
            subst (Has o) (sym same) has,
          )
