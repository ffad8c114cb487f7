-- ===== src/Controllers/Nodeclass/Scope/Partition.antt =====
-- Which locations a scope holds.
use mathlib.Core.Path.{subst}
use karpenter_provider_hclou.Base.{
  ◌≡◌, ◌≢◌, ◌↔◌, ◌⊎◌, refl, sym, ap, inl, inr, ◌∙◌, Bool, true, false, Option, none, some, List, [], ◌∷◌, map, is_empty,
  String, Has, contains, contains_iff, arith, Bool-cases, Option-cases, ◌==◌, eq_iff,
  string_comparable,
}
use mathlib.Core.List.{Permᴰ}
use mathlib.Core.List.Permᴰ
use karpenter_provider_hclou.Base.Map.{Map, lookup}
use karpenter_provider_hclou.Base.Sort.{text_ltb}
use karpenter_provider_hclou.Base.Sort.Laws.{sort_stable-Perm, Has-Permᴰ}
use karpenter_provider_hclou.Controllers.Nodeclass.Scope.Offered.{Offers, catalog_zones-sound, catalog_zones-complete}
use karpenter_provider_hclou.Hcloudapi.Catalog.{ServerTypeLocation}
use karpenter_provider_hclou.Api.NodeClass.{HCloudNodeClass, LocationStatus, NetworkStatus}
use karpenter_provider_hclou.Catalog.{Snapshot}
use karpenter_provider_hclou.Controllers.Nodeclass.Scope.{
  Split, catalog_zones, network_zone_of, location_names, zone_conflicts, place, split_names,
  location_scope,
}

unseen : (name : String) (seen : List String) → contains name seen ≡ false → ¬ Has name seen
unseen name seen first m = absurd (clash ((contains_iff name seen).1 m) first)
  where
    clash : {b : Bool} → b ≡ true → b ≡ false → ⊥
    clash e f = cc

elsewhere :
    (name : String) (names : List String) (n : String) (seen : List String)
    → Has name seen
    → ¬ Has n seen
    → Has n (name ∷ names)
    → Has n names
elsewhere name names n seen m not_seen (inl e) =
    absurd (not_seen (subst (λ k. Has k seen) (sym e) m))
elsewhere name names n seen m not_seen (inr h) = h

apart :
    (name : String) (names : List String) (n : String)
    → (n == name) ≡ false
    → Has n (name ∷ names)
    → Has n names
apart name names n other (inl e) = ground (arith, eq_iff n name)
apart name names n other (inr h) = h

still_unseen :
    (name : String) (seen : List String) (n : String)
    → (n == name) ≡ false
    → ¬ Has n seen
    → ¬ Has n (name ∷ seen)
still_unseen name seen n other not_seen (inl e) = ground (arith, eq_iff n name)
still_unseen name seen n other not_seen (inr m) = not_seen m

module _ (zones : Map String) (network_zone : String) where
  -- The location is offered, and its zone does not conflict with the network's.
  unfoldable pub Usable : LocationStatus → Type 0
  Usable l =
      (lookup l.name zones ≡ some l.network_zone)
      × (zone_conflicts l.network_zone network_zone ≡ false)

  place_sound :
      (name : String) (rest : Split) (l : LocationStatus)
      → Has l (place zones network_zone name rest).in_scope
      → ((l.name ≡ name) × Usable l) ⊎ Has l rest.in_scope
  unfolding place Usable
  place_sound name rest l h = elim (Option-cases (lookup name zones)) [
    | inl unknown ↦ inr (rw (unknown, place) at h)
    | inr (zone, offered) ↦ elim (Bool-cases (zone_conflicts zone network_zone)) [
      | inl apart ↦ inr (rw (offered, apart, place) at h)
      | inr near ↦ elim (rw (offered, near, place) at h) [
        | inr later ↦ inr later
        | inl e ↦ inl (
          ap (λ k. k.name) e,
          (
            rw (ap (λ k. k.name) e, ap (λ k. k.network_zone) e) offered,
            rw (ap (λ k. k.network_zone) e) near,
          ),
        )
      ]
    ]
  ]

  place_keeps :
      (name : String) (rest : Split) (l : LocationStatus)
      → Has l rest.in_scope
      → Has l (place zones network_zone name rest).in_scope
  unfolding place
  place_keeps name rest l h = elim (Option-cases (lookup name zones)) [
    | inl unknown ↦ rw (unknown, place) h
    | inr (zone, offered) ↦ elim (Bool-cases (zone_conflicts zone network_zone)) [
      | inl apart ↦ rw (offered, apart, place) h
      | inr near ↦ rw (offered, near, place) (inr h)
    ]
  ]

  place_complete :
      (rest : Split) (l : LocationStatus)
      → Usable l
      → Has l (place zones network_zone l.name rest).in_scope
  unfolding place Usable
  place_complete rest l (offered, near) = rw (offered, near, place) (inl refl)

  split_sound :
      (seen names : List String) (l : LocationStatus)
      → Has l (split_names zones network_zone seen names).in_scope
      → Has l.name names × ¬ Has l.name seen × Usable l
  unfolding split_names
  split_sound seen [] l h = absurd h
  split_sound seen (name ∷ names) l h = elim (Bool-cases (contains name seen)) [
    | inl repeated ↦
        let (m, n, u) = split_sound seen names l (rw (repeated, split_names) at h) in (inr m, n, u)
    | inr first ↦
        let h' = rw (first, split_names) at h in
        elim (place_sound name (split_names zones network_zone (name ∷ seen) names) l h') [
          | inl (e, u) ↦ (inl e, (λ m. unseen name seen first (subst (λ n. Has n seen) e m)), u)
          | inr later ↦
              let (m, n, u) = split_sound (name ∷ seen) names l later in
              (inr m, (λ k. n (inr k)), u)
        ]
  ]

  split_complete :
      (seen names : List String) (l : LocationStatus)
      → Has l.name names
      → ¬ Has l.name seen
      → Usable l
      → Has l (split_names zones network_zone seen names).in_scope
  unfolding split_names
  split_complete seen [] l m n u = absurd m
  split_complete seen (name ∷ names) l m n u = elim (Bool-cases (contains name seen)) [
    | inl repeated ↦
        rw (repeated, split_names)
          (split_complete seen names l
            (elsewhere name names l.name seen ((contains_iff name seen).0 repeated) n m) n u)
    | inr first ↦ elim (Bool-cases (l.name == name)) [
      | inl same ↦
          rw (first, split_names)
            (subst
              (λ j.
                Has l
                  (place zones network_zone j
                    (split_names zones network_zone (name ∷ seen) names)).in_scope)
              ((eq_iff l.name name).0 same)
              (place_complete (split_names zones network_zone (name ∷ seen) names) l u))
      | inr other ↦
          rw (first, split_names)
            (place_keeps name (split_names zones network_zone (name ∷ seen) names) l (
              split_complete (name ∷ seen) names l (apart name names l.name other m)
                (still_unseen name seen l.name other n) u))
    ]
  ]

-- In the terms of the map that the code builds.
location_scope-Usable :
    (snapshot : Option Snapshot) (node_class : HCloudNodeClass) (l : LocationStatus)
    → Has l (location_scope snapshot node_class).split.in_scope ↔ (
        Has l.name (location_names (catalog_zones snapshot) node_class)
        × Usable (catalog_zones snapshot) (network_zone_of node_class) l)
unfolding location_scope
location_scope-Usable snapshot nc l =
    let zones = catalog_zones snapshot in
    (
      λ h.
          let (m, _, u) = split_sound zones (network_zone_of nc) [] (location_names zones nc) l h in
          (m, u),
      λ (m, u).
          split_complete zones (network_zone_of nc) [] (location_names zones nc) l m (λ n. n) u,
    )

-- The operator names the location, or names none.
abbrev pub IsWanted : HCloudNodeClass → String → Type 0
IsWanted node_class name =
    (is_empty node_class.spec.locations ≡ true) ⊎ Has name node_class.spec.locations

-- A zone is not known to differ from that of the private network.
abbrev pub IsNear : HCloudNodeClass → String → Type 0
IsNear node_class zone =
    (net : NetworkStatus)
    → node_class.status.network ≡ some net
    → (zone ≡ "") ⊎ ((net.zone ≡ "") ⊎ (zone ≡ net.zone))

-- The catalogue has one zone for a location, which it repeats for every server type.
abbrev pub IsConsistent : Option Snapshot → Type 0
IsConsistent snapshot =
    (a b : ServerTypeLocation)
    → Offers snapshot a
    → Offers snapshot b
    → a.location ≡ b.location
    → a.network_zone ≡ b.network_zone

-- The location is offered to a supported server type, in the zone.
abbrev pub OfferedAt : Option Snapshot → LocationStatus → Type 0
OfferedAt snapshot l =
    (o : ServerTypeLocation) × Offers snapshot o × (o.location ≡ l.name)
    × (o.network_zone ≡ l.network_zone)

zone_conflicts_iff :
    (zone network_zone : String)
    → (zone_conflicts zone network_zone ≡ false)
      ↔ ((zone ≡ "") ⊎ ((network_zone ≡ "") ⊎ (zone ≡ network_zone)))
unfolding zone_conflicts
zone_conflicts_iff zone network_zone = (fore, back)
  where
    fore :
        zone_conflicts zone network_zone ≡ false
        → (zone ≡ "") ⊎ ((network_zone ≡ "") ⊎ (zone ≡ network_zone))
    fore h = elim (Bool-cases (zone == "")) [
      | inl nowhere ↦ inl ((eq_iff zone "").0 nowhere)
      | inr somewhere ↦ elim (Bool-cases (network_zone == "")) [
        | inl nowhere ↦ inr (inl ((eq_iff network_zone "").0 nowhere))
        | inr known ↦ inr (inr (ground (arith, eq_iff zone network_zone)))
      ]
    ]

    back :
        (zone ≡ "") ⊎ ((network_zone ≡ "") ⊎ (zone ≡ network_zone))
        → zone_conflicts zone network_zone ≡ false
    back (inl e) = ground (arith, eq_iff zone "")
    back (inr (inl e)) = ground (arith, eq_iff network_zone "")
    back (inr (inr e)) = ground (arith, eq_iff zone network_zone)

IsNear_iff :
    (nc : HCloudNodeClass) (zone : String)
    → (zone_conflicts zone (network_zone_of nc) ≡ false) ↔ IsNear nc zone
unfolding network_zone_of
IsNear_iff nc zone = elim (Option-cases (nc.status.network)) [
  | inl unresolved ↦ (
    λ h net e. absurd (clash (sym unresolved ∙ e)),
    λ near.
        rw (unresolved, network_zone_of) ((zone_conflicts_iff zone "").1 (inr (inl refl))),
  )
  | inr (net, known) ↦ (
    λ h k e.
        subst (λ n. (zone ≡ "") ⊎ ((n.zone ≡ "") ⊎ (zone ≡ n.zone))) (same (sym known ∙ e))
          ((zone_conflicts_iff zone net.zone).0 (rw (known, network_zone_of) at h)),
    λ near.
        rw (known, network_zone_of) ((zone_conflicts_iff zone net.zone).1 (near net known)),
  )
]
  where
    clash : {n : NetworkStatus} → none ≡ some n → ⊥
    clash e = cc

    same : {m n : NetworkStatus} → some m ≡ some n → m ≡ n
    same e = cc

lookup-Has :
    (name zone : String) (zones : Map String)
    → lookup name zones ≡ some zone
    → Has name (map (λ e. e.0) zones)
unfolding lookup
lookup-Has name zone [] h = absurd (ground arith)
lookup-Has name zone (e ∷ zones) h = elim (Bool-cases (e.0 == name)) [
  | inl here ↦ inl (sym ((eq_iff e.0 name).0 here))
  | inr later ↦ inr (lookup-Has name zone zones (rw (later, lookup) at h))
]

location_names-IsWanted :
    (zones : Map String) (nc : HCloudNodeClass) (name : String)
    → Has name (location_names zones nc)
    → IsWanted nc name
unfolding location_names
location_names-IsWanted zones nc name h = elim (Bool-cases (is_empty nc.spec.locations)) [
  | inl all ↦ inl all
  | inr some_named ↦ inr (rw (some_named, location_names) at h)
]

IsWanted-location_names :
    (zones : Map String) (nc : HCloudNodeClass) (name zone : String)
    → IsWanted nc name
    → lookup name zones ≡ some zone
    → Has name (location_names zones nc)
unfolding location_names
IsWanted-location_names zones nc name zone wanted there =
    elim (Bool-cases (is_empty nc.spec.locations)) [
      | inl all ↦
          rw (all, location_names)
            (Has-Permᴰ name
              (Permᴰ.symm (sort_stable-Perm text_ltb (map (λ e. e.0) zones)))
              (lookup-Has name zone zones there))
      | inr some_named ↦ elim wanted [
        | inl all ↦ absurd (clash (sym all ∙ some_named))
        | inr named ↦ rw (some_named, location_names) named
      ]
    ]
  where
    clash : true ≡ false → ⊥
    clash e = cc

-- Where the catalogue has one zone for every location, a scope holds a location with a zone exactly if
-- the operator names the location or names none, the catalogue was fetched and has a server type for
-- x86 that is not deprecated and is offered, not deprecated, in that location and zone, and the zone is
-- not known to differ from that of the private network.
pub location_scope_iff :
    (snapshot : Option Snapshot) (node_class : HCloudNodeClass) (l : LocationStatus)
    → IsConsistent snapshot
    → Has l (location_scope snapshot node_class).split.in_scope ↔ (
        IsWanted node_class l.name × OfferedAt snapshot l × IsNear node_class l.network_zone)
unfolding Usable
location_scope_iff snapshot nc l consistent = (fore, back)
  where
    fore :
        Has l (location_scope snapshot nc).split.in_scope
        → IsWanted nc l.name × OfferedAt snapshot l × IsNear nc l.network_zone
    fore h =
        let (m, (there, near)) = (location_scope-Usable snapshot nc l).0 h in
        (
          location_names-IsWanted (catalog_zones snapshot) nc l.name m,
          catalog_zones-sound snapshot l.name l.network_zone there,
          (IsNear_iff nc l.network_zone).0 near,
        )

    back :
        IsWanted nc l.name × OfferedAt snapshot l × IsNear nc l.network_zone
        → Has l (location_scope snapshot nc).split.in_scope
    back (wanted, (o, offers, named, zoned), near) =
        let (zone, there) = catalog_zones-complete snapshot o offers in
        let (k, offers', named', zoned') =
          catalog_zones-sound snapshot o.location zone there in
        let same : zone ≡ l.network_zone =
          sym zoned' ∙ (consistent k o offers' offers named' ∙ zoned) in
        let found : lookup l.name (catalog_zones snapshot) ≡ some l.network_zone =
          ap (λ n. lookup n (catalog_zones snapshot)) (sym named) ∙ (there ∙ ap some same) in
        (location_scope-Usable snapshot nc l).1
          (
            IsWanted-location_names (catalog_zones snapshot) nc l.name l.network_zone wanted found,
            (found, (IsNear_iff nc l.network_zone).1 near),
          )

-- No location occurs twice.
abbrev pub Distinct : List LocationStatus → Type 0
Distinct [] = Unit
Distinct (l ∷ ls) = ((k : LocationStatus) → Has k ls → k.name ≢ l.name) × Distinct ls

module _ (zones : Map String) (network_zone : String) where
  place-Distinct :
      (name : String) (rest : Split)
      → ((k : LocationStatus) → Has k rest.in_scope → k.name ≢ name)
      → Distinct rest.in_scope
      → Distinct (place zones network_zone name rest).in_scope
  unfolding place
  place-Distinct name rest fresh h = elim (Option-cases (lookup name zones)) [
    | inl unknown ↦ rw (unknown, place) h
    | inr (zone, offered) ↦ elim (Bool-cases (zone_conflicts zone network_zone)) [
      | inl far ↦ rw (offered, far, place) h
      | inr near ↦ rw (offered, near, place) (fresh, h)
    ]
  ]

  split-Distinct :
      (seen names : List String) → Distinct (split_names zones network_zone seen names).in_scope
  unfolding split_names
  split-Distinct seen [] = tt
  split-Distinct seen (name ∷ names) = elim (Bool-cases (contains name seen)) [
    | inl repeated ↦ rw (repeated, split_names) (split-Distinct seen names)
    | inr first ↦
        rw (first, split_names)
          (place-Distinct name (split_names zones network_zone (name ∷ seen) names)
            (λ k m e.
              let (_, n, _) = split_sound zones network_zone (name ∷ seen) names k m in n (inl e))
            (split-Distinct (name ∷ seen) names))
  ]

-- No location of a scope occurs twice, also where the operator wrote a name down twice.
location_scope-Distinct :
    (snapshot : Option Snapshot) (node_class : HCloudNodeClass)
    → Distinct (location_scope snapshot node_class).split.in_scope
unfolding location_scope
location_scope-Distinct snapshot nc =
    split-Distinct (catalog_zones snapshot) (network_zone_of nc) []
      (location_names (catalog_zones snapshot) nc)
