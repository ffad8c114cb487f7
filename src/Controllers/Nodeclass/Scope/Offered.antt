-- ===== src/Controllers/Nodeclass/Scope/Offered.antt =====
-- Which locations a catalogue offers to a supported server type.
use mathlib.Core.Path.{subst}
use karpenter_provider_hclou.Base.{
  ◌≡◌, ◌⊎◌, refl, sym, ap, ◌∙◌, inl, inr, Bool, true, false, Option, none, some, List, [], ◌∷◌, map,
  String, Has, arith, Bool-cases, Option-cases, ◌==◌, eq_iff, string_comparable, is_empty,
}
use karpenter_provider_hclou.Base.Map.{Map, lookup, insert, lookup-insert}
use karpenter_provider_hclou.Catalog.{Snapshot}
use karpenter_provider_hclou.Controllers.Nodeclass.Scope.{
  location_zones, is_sold, type_zones, catalog_zones,
}
use karpenter_provider_hclou.Hcloudapi.Catalog.{ServerType, ServerTypeLocation}

-- A location of a server type that is for x86 and, like the location, not being phased out.
abbrev pub Sells : List ServerType → ServerTypeLocation → Type 0
Sells sts l =
    (st : ServerType) × Has st sts × (st.deprecated ≡ false) × (st.architecture ≡ "x86")
    × Has l st.locations
    × (l.deprecated ≡ false)

-- The catalogue was fetched and has such a location.
abbrev pub Offers : Option Snapshot → ServerTypeLocation → Type 0
Offers none l = ⊥
Offers (some snapshot) l = Sells snapshot.server_types l

-- A name has a zone in the map.
abbrev Zoned : String → Map String → Type 0
Zoned name zones = (zone : String) × (lookup name zones ≡ some zone)

-- A location of the list that is not being phased out.
abbrev Alive : List ServerTypeLocation → ServerTypeLocation → Type 0
Alive ls l = Has l ls × (l.deprecated ≡ false)

insert-sound :
    (l : ServerTypeLocation) (zones : Map String) (name zone : String)
    → lookup name (insert l.location l.network_zone zones) ≡ some zone
    → ((l.location ≡ name) × (l.network_zone ≡ zone)) ⊎ (lookup name zones ≡ some zone)
insert-sound l zones name zone h =
    let h' = sym (lookup-insert l.location name l.network_zone zones) ∙ h in
    elim (Bool-cases (l.location == name)) [
      | inl here ↦ inl (ground (arith, eq_iff l.location name), some_injective (rw here at h'))
      | inr other ↦ inr (rw other at h')
    ]
  where
    some_injective : {a b : String} → some a ≡ some b → a ≡ b
    some_injective e = cc

insert-Zoned :
    (l : ServerTypeLocation) (zones : Map String) (name : String)
    → (l.location ≡ name) ⊎ Zoned name zones
    → Zoned name (insert l.location l.network_zone zones)
insert-Zoned l zones name h = elim (Bool-cases (l.location == name)) [
  | inl here ↦
      (l.network_zone, lookup-insert l.location name l.network_zone zones ∙ rw here refl)
  | inr other ↦ elim h [
    | inl e ↦ absurd (ground (arith, eq_iff l.location name))
    | inr (zone, there) ↦
        (zone, lookup-insert l.location name l.network_zone zones ∙ rw other there)
  ]
]

location_zones-sound :
    (ls : List ServerTypeLocation) (zones : Map String) (name zone : String)
    → lookup name (location_zones ls zones) ≡ some zone
    → ((l : ServerTypeLocation) × Alive ls l × (l.location ≡ name) × (l.network_zone ≡ zone))
      ⊎ (lookup name zones ≡ some zone)
unfolding location_zones
location_zones-sound [] zones name zone h = inr h
location_zones-sound (l ∷ ls) zones name zone h = elim (Bool-cases (l.deprecated)) [
  | inl gone ↦ elim (location_zones-sound ls zones name zone (rw (gone, location_zones) at h)) [
    | inr before ↦ inr before
    | inl (k, (m, alive), e, z) ↦ inl (k, (inr m, alive), e, z)
  ]
  | inr alive ↦
      elim (location_zones-sound ls (insert l.location l.network_zone zones) name zone
          (rw (alive, location_zones) at h)) [
        | inl (k, (m, still), e, z) ↦ inl (k, (inr m, still), e, z)
        | inr before ↦ elim (insert-sound l zones name zone before) [
          | inl (e, z) ↦ inl (l, (inl refl, alive), e, z)
          | inr earlier ↦ inr earlier
        ]
      ]
]

location_zones-Zoned :
    (ls : List ServerTypeLocation) (zones : Map String) (name : String)
    → ((l : ServerTypeLocation) × Alive ls l × (l.location ≡ name)) ⊎ Zoned name zones
    → Zoned name (location_zones ls zones)
unfolding location_zones
location_zones-Zoned [] zones name (inr z) = z
location_zones-Zoned [] zones name (inl (l, (m, alive), e)) = absurd m
location_zones-Zoned (k ∷ ls) zones name h = elim (Bool-cases (k.deprecated)) [
  | inl gone ↦ rw (gone, location_zones) (location_zones-Zoned ls zones name (passed gone h))
  | inr kept ↦
      rw (kept, location_zones)
        (location_zones-Zoned ls (insert k.location k.network_zone zones) name (taken h))
]
  where
    passed :
        k.deprecated ≡ true
        → ((l : ServerTypeLocation) × Alive (k ∷ ls) l × (l.location ≡ name)) ⊎ Zoned name zones
        → ((l : ServerTypeLocation) × Alive ls l × (l.location ≡ name)) ⊎ Zoned name zones
    passed gone (inr z) = inr z
    passed gone (inl (l, (inr m, alive), e)) = inl (l, (m, alive), e)
    passed gone (inl (l, (inl same, alive), e)) =
        absurd (clash (sym (ap (λ x. x.deprecated) same ∙ gone) ∙ alive))
      where
        clash : true ≡ false → ⊥
        clash p = cc

    taken :
        ((l : ServerTypeLocation) × Alive (k ∷ ls) l × (l.location ≡ name)) ⊎ Zoned name zones
        → ((l : ServerTypeLocation) × Alive ls l × (l.location ≡ name))
          ⊎ Zoned name (insert k.location k.network_zone zones)
    taken (inr z) = inr (insert-Zoned k zones name (inr z))
    taken (inl (l, (inr m, alive), e)) = inl (l, (m, alive), e)
    taken (inl (l, (inl same, alive), e)) =
        inr (insert-Zoned k zones name (inl (sym (ap (λ x. x.location) same) ∙ e)))

is_sold-cases :
    (st : ServerType)
    → ((is_sold st ≡ true) × (st.deprecated ≡ false) × (st.architecture ≡ "x86"))
      ⊎ ((is_sold st ≡ false) × ¬ ((st.deprecated ≡ false) × (st.architecture ≡ "x86")))
unfolding is_sold
is_sold-cases st = elim (Bool-cases (st.deprecated)) [
  | inl gone ↦ inr (rw (gone, is_sold) refl, λ (alive, native). absurd (clash (sym gone ∙ alive)))
  | inr alive ↦ elim (Bool-cases (st.architecture == "x86")) [
    | inl native ↦ inl (
      rw (alive, native, is_sold) refl,
      alive,
      (eq_iff st.architecture "x86").0 native,
    )
    | inr foreign ↦ inr (
      rw (alive, foreign, is_sold) refl,
      λ (_, native). clash (sym ((eq_iff st.architecture "x86").1 native) ∙ foreign),
    )
  ]
]
  where
    clash : true ≡ false → ⊥
    clash p = cc

-- A location that the rest of a list of server types sells.
sold_later :
    (st : ServerType) (sts : List ServerType) (l : ServerTypeLocation)
    → Sells sts l
    → Sells (st ∷ sts) l
sold_later st sts l (k, m, current, native, at, alive) = (k, inr m, current, native, at, alive)

type_zones-sound :
    (sts : List ServerType) (zones : Map String) (name zone : String)
    → lookup name (type_zones sts zones) ≡ some zone
    → ((l : ServerTypeLocation) × Sells sts l × (l.location ≡ name) × (l.network_zone ≡ zone))
      ⊎ (lookup name zones ≡ some zone)
unfolding type_zones
type_zones-sound [] zones name zone h = inr h
type_zones-sound (st ∷ sts) zones name zone h = elim (is_sold-cases st) [
  | inr (unsold, _) ↦ elim (type_zones-sound sts zones name zone (rw (unsold, type_zones) at h)) [
    | inr before ↦ inr before
    | inl (l, sells, e, z) ↦ inl (l, sold_later st sts l sells, e, z)
  ]
  | inl (sold, current, native) ↦
      elim (type_zones-sound sts (location_zones st.locations zones) name zone
          (rw (sold, type_zones) at h)) [
        | inl (l, sells, e, z) ↦ inl (l, sold_later st sts l sells, e, z)
        | inr before ↦ elim (location_zones-sound st.locations zones name zone before) [
          | inl (l, (at, alive), e, z) ↦ inl (l, (st, inl refl, current, native, at, alive), e, z)
          | inr earlier ↦ inr earlier
        ]
      ]
]

type_zones-Zoned :
    (sts : List ServerType) (zones : Map String) (name : String)
    → ((l : ServerTypeLocation) × Sells sts l × (l.location ≡ name)) ⊎ Zoned name zones
    → Zoned name (type_zones sts zones)
unfolding type_zones
type_zones-Zoned [] zones name (inr z) = z
type_zones-Zoned [] zones name (inl (l, (st, m, _, _, _, _), e)) = absurd m
type_zones-Zoned (st ∷ sts) zones name h = elim (is_sold-cases st) [
  | inr (unsold, wrong) ↦
      rw (unsold, type_zones) (type_zones-Zoned sts zones name (passed wrong h))
  | inl (sold, current, native) ↦
      rw (sold, type_zones)
        (type_zones-Zoned sts (location_zones st.locations zones) name (taken h))
]
  where
    passed :
        ¬ ((st.deprecated ≡ false) × (st.architecture ≡ "x86"))
        → ((l : ServerTypeLocation) × Sells (st ∷ sts) l × (l.location ≡ name)) ⊎ Zoned name zones
        → ((l : ServerTypeLocation) × Sells sts l × (l.location ≡ name)) ⊎ Zoned name zones
    passed wrong (inr z) = inr z
    passed wrong (inl (l, (k, inr m, current, native, at, alive), e)) =
        inl (l, (k, m, current, native, at, alive), e)
    passed wrong (inl (l, (k, inl same, current, native, _, _), e)) =
        absurd (
          wrong (
            sym (ap (λ t. t.deprecated) same) ∙ current,
            sym (ap (λ t. t.architecture) same) ∙ native,
          ))

    taken :
        ((l : ServerTypeLocation) × Sells (st ∷ sts) l × (l.location ≡ name)) ⊎ Zoned name zones
        → ((l : ServerTypeLocation) × Sells sts l × (l.location ≡ name))
          ⊎ Zoned name (location_zones st.locations zones)
    taken (inr z) = inr (location_zones-Zoned st.locations zones name (inr z))
    taken (inl (l, (k, inr m, current, native, at, alive), e)) =
        inl (l, (k, m, current, native, at, alive), e)
    taken (inl (l, (k, inl same, _, _, at, alive), e)) =
        inr (
          location_zones-Zoned st.locations zones name
            (inl (l, (subst (λ t. Has l t.locations) same at, alive), e)))

-- Every zone of `zones` is that of an offered location.
pub catalog_zones-sound :
    (snapshot : Option Snapshot) (name zone : String)
    → lookup name (catalog_zones snapshot) ≡ some zone
    → (l : ServerTypeLocation) × Offers snapshot l × (l.location ≡ name) × (l.network_zone ≡ zone)
unfolding catalog_zones lookup
catalog_zones-sound none name zone h = absurd (nothing h)
  where
    nothing : none ≡ some zone → ⊥
    nothing p = cc
catalog_zones-sound (some snapshot) name zone h =
    elim (type_zones-sound snapshot.server_types [] name zone h) [
      | inl found ↦ found
      | inr before ↦ absurd (nothing before)
    ]
  where
    nothing : none ≡ some zone → ⊥
    nothing p = cc

-- Every offered location has a zone there.
pub catalog_zones-complete :
    (snapshot : Option Snapshot) (l : ServerTypeLocation)
    → Offers snapshot l
    → (zone : String) × (lookup l.location (catalog_zones snapshot) ≡ some zone)
unfolding catalog_zones
catalog_zones-complete none l offers = absurd offers
catalog_zones-complete (some snapshot) l offers =
    type_zones-Zoned snapshot.server_types [] l.location (inl (l, offers, refl))

-- `zones` is empty exactly where nothing is offered.
pub catalog_zones-empty :
    (snapshot : Option Snapshot)
    → ((l : ServerTypeLocation) → ¬ Offers snapshot l)
    → is_empty (catalog_zones snapshot) ≡ true
unfolding lookup
catalog_zones-empty snapshot bare = elim (Bool-cases (is_empty (catalog_zones snapshot))) [
  | inl empty ↦ empty
  | inr full ↦ absurd (go (catalog_zones snapshot) refl full)
]
  where
    go : (zones : Map String) → catalog_zones snapshot ≡ zones → is_empty zones ≡ false → ⊥
    go [] e full = cc
    go ((name, zone) ∷ zones) e full =
        let there : lookup name ((name, zone) ∷ zones) ≡ some zone =
          rw ((eq_iff name name).1 refl) refl in
        let (l, offers, _, _) =
          catalog_zones-sound snapshot name zone (ap (λ z. lookup name z) e ∙ there) in
        bare l offers

pub catalog_zones-full :
    (snapshot : Option Snapshot) (l : ServerTypeLocation)
    → Offers snapshot l
    → is_empty (catalog_zones snapshot) ≡ false
unfolding lookup
catalog_zones-full snapshot l offers =
    let (zone, there) = catalog_zones-complete snapshot l offers in
    go (catalog_zones snapshot) zone there
  where
    go :
        (zones : Map String) (zone : String)
        → lookup l.location zones ≡ some zone
        → is_empty zones ≡ false
    go [] zone h = absurd (ground arith)
    go (e ∷ zones) zone h = refl
