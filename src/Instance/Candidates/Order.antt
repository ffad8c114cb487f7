-- ===== src/Instance/Candidates/Order.antt =====
-- The order in which candidates are tried.
use mathlib.Core.List.{Permᴰ, append_assoc}
use mathlib.Core.List.Permᴰ
use karpenter_provider_hclou.Base.{
  ◌≡◌, ◌↔◌, Has, true, false, List, [], ◌∷◌, ◌++◌, map, arith, eq_iff, not, nat_comparable,
  string_comparable, if◌then◌else◌, ap, Bool-cases, inl, inr,
}
use karpenter_provider_hclou.Base.Sort.Laws.{
  IsStrictOrder, IsSorted, sort_stable-IsSorted, sort_stable-perm, map-sort_stable, text_ltb_irrefl,
  text_ltb_trans, text_ltb_total,
}
use karpenter_provider_hclou.Karpenter.{Scheduling, InstanceType, NodeClaim}
use karpenter_provider_hclou.Instance.Candidates.Members.{Served, ordered_candidates_iff}
use karpenter_provider_hclou.Instance.Candidates.{
  Candidate, Key, key, less, resources_fit, offered, candidates, ordered_candidates,
}

less_irrefl : (a : Key) → less a a ≡ false
unfolding less
less_irrefl (p, n, l) = ground (arith, text_ltb_irrefl l, text_ltb_irrefl n)

less_trans : (a b c : Key) → less a b ≡ true → less b c ≡ true → less a c ≡ true
unfolding less
less_trans (p, n, l) (q, m, k) (r, o, j) h g = ground (
  arith,
  text_ltb_trans n m o,
  text_ltb_trans l k j,
  text_ltb_total n m,
  text_ltb_total m n,
  text_ltb_trans n m n,
  text_ltb_irrefl n,
  eq_iff n m,
  eq_iff m o,
  eq_iff n o,
)

less_total : (a b : Key) → less a b ≡ false → less b a ≡ false → a ≡ b
unfolding less
less_total (p, n, l) (q, m, k) h g =
    ground (arith, text_ltb_total n m, text_ltb_total l k, eq_iff n m, eq_iff m n)

less-order : IsStrictOrder Key less
less-order = record { irrefl = less_irrefl; trans = less_trans; total = less_total }

map-Permᴰ : {A B : Type 0} (f : A → B) {xs ys : List A} → Permᴰ xs ys → Permᴰ (map f xs) (map f ys)
map-Permᴰ f Permᴰ.nil = Permᴰ.nil
map-Permᴰ f (Permᴰ.cons e d) = Permᴰ.cons (ap f e) (map-Permᴰ f d)
map-Permᴰ f (Permᴰ.swap e g) = Permᴰ.swap (ap f e) (ap f g)
map-Permᴰ f (Permᴰ.trans d e) = Permᴰ.trans (map-Permᴰ f d) (map-Permᴰ f e)

append_swap : {A : Type 0} (xs ys zs : List A) → Permᴰ (xs ++ (ys ++ zs)) (ys ++ (xs ++ zs))
append_swap xs ys zs =
    rw (← append_assoc xs ys zs, ← append_assoc ys xs zs)
      (Permᴰ.append_right zs (Permᴰ.append_comm xs ys))

module _ (s : Scheduling) where
  open s use {Requirements}

  -- The candidates are tried cheapest first, then by the type's name, then by the location: no
  -- later candidate precedes an earlier one in that order.
  ordered_candidates-IsSorted :
      (node_claim : NodeClaim Requirements) (types : List (InstanceType Requirements))
      → IsSorted less (map key (ordered_candidates s node_claim types))
  unfolding ordered_candidates
  ordered_candidates-IsSorted node_claim types =
      rw (map-sort_stable key less (candidates s node_claim types))
        (sort_stable-IsSorted less less-order (map key (candidates s node_claim types)))

  -- What one type adds to the list.
  of_type : NodeClaim Requirements → InstanceType Requirements → List (Candidate Requirements)
  of_type node_claim it =
      if not (s.intersects it.requirements node_claim.requirements)
      then []
      else if not (resources_fit s node_claim it)
      then []
      else offered s node_claim.requirements it it.offerings

  candidates-cons :
      (c : NodeClaim Requirements) (it : InstanceType Requirements)
      (its : List (InstanceType Requirements))
      → candidates s c (it ∷ its) ≡ of_type c it ++ candidates s c its
  unfolding candidates of_type
  candidates-cons c it its = elim (Bool-cases (s.intersects it.requirements c.requirements)) [
    | inr no_overlap ↦ rw (no_overlap, candidates, of_type)
    | inl overlap ↦ elim (Bool-cases (resources_fit s c it)) [
      | inr too_small ↦ rw (overlap, too_small, candidates, of_type)
      | inl fits ↦ rw (overlap, fits, candidates, of_type)
    ]
  ]

  candidates-Permᴰ :
      (c : NodeClaim Requirements) {xs ys : List (InstanceType Requirements)}
      → Permᴰ xs ys
      → Permᴰ (candidates s c xs) (candidates s c ys)
  candidates-Permᴰ c Permᴰ.nil = Permᴰ.refl (candidates s c [])
  candidates-Permᴰ c (Permᴰ.cons {a} {b} {l₁} {l₂} e d) =
      rw (candidates-cons c a l₁, candidates-cons c b l₂, e)
        (Permᴰ.append_left (of_type c b) (candidates-Permᴰ c d))
  candidates-Permᴰ c (Permᴰ.swap {a} {b} {a'} {b'} {l} e f) =
      rw (e, f)
        (rw
          (
            candidates-cons c b' (a' ∷ l),
            candidates-cons c a' l,
            candidates-cons c a' (b' ∷ l),
            candidates-cons c b' l,
          )
          (append_swap (of_type c b') (of_type c a') (candidates s c l)))
  candidates-Permᴰ c (Permᴰ.trans d e) = Permᴰ.trans (candidates-Permᴰ c d) (candidates-Permᴰ c e)

  -- The catalogue's listing order does not matter: whatever order the instance types come in, the
  -- same prices, types and locations are tried in the same order.
  ordered_candidates-perm :
      (c : NodeClaim Requirements) {xs ys : List (InstanceType Requirements)}
      → Permᴰ xs ys
      → map key (ordered_candidates s c xs) ≡ map key (ordered_candidates s c ys)
  unfolding ordered_candidates
  ordered_candidates-perm c {xs} {ys} d =
      rw
        (map-sort_stable key less (candidates s c xs), map-sort_stable key less (candidates s c ys))
        (sort_stable-perm less less-order (map-Permᴰ key (candidates-Permᴰ c d)))

  -- `Create` walks exactly the pairs that can serve the claim, which are those of a type that overlaps the
  -- claim's requirements and is large enough and of an offering that is available, compatible and pinned
  -- to one region; it walks them cheapest first, then by the type's name, then by the location; and
  -- prices, types and locations come in the same order whatever the order of the catalogue.
  pub ordered_candidates-ranks :
      (claim : NodeClaim Requirements) (types : List (InstanceType Requirements))
      → ((c : Candidate Requirements)
          → Has c (ordered_candidates s claim types) ↔ Served s claim c types)
        × IsSorted less (map key (ordered_candidates s claim types))
        × ((shuffled : List (InstanceType Requirements))
            → Permᴰ types shuffled
            → map key (ordered_candidates s claim types)
              ≡ map key (ordered_candidates s claim shuffled))
  ordered_candidates-ranks claim types = (
    λ c. ordered_candidates_iff s claim c types,
    ordered_candidates-IsSorted claim types,
    λ shuffled d. ordered_candidates-perm claim d,
  )
