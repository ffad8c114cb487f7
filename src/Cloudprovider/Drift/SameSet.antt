-- ===== src/Cloudprovider/Drift/SameSet.antt =====
-- `sameSet` compares sets: what sorting and dropping repeated elements keeps of a list.
use mathlib.Core.List.Permᴰ
use mathlib.Core.Path.{subst}
use karpenter_provider_hclou.Base.{
  ℕ, ◌≡◌, ◌↔◌, ◌<◌, inl, inr, refl, sym, ◌∙◌, Bool-cases, nat_beq_iff, true, false, List, [], ◌∷◌,
  Has, All, arith, ltb, ◌==◌, nat_comparable,
}
use karpenter_provider_hclou.Base.Sort.{sort_stable}
use karpenter_provider_hclou.Base.Sort.Laws.{
  IsStrictOrder, IsSorted, sort_stable-IsSorted, sort_stable-Perm, Has-Permᴰ,
}
use karpenter_provider_hclou.Cloudprovider.Drift.{compact, equal, sorted, same_set}

ltb-IsStrictOrder : IsStrictOrder ℕ ltb
ltb-IsStrictOrder = record {
  irrefl = λ a. ground arith;
  trans = λ a b c h k. ground arith;
  total = λ a b h k. ground arith;
}

Above : ℕ → List ℕ → Type 0
Above x xs = (y : ℕ) → Has y xs → x < y

-- Strictly increasing.
abbrev Increasing : List ℕ → Type 0
Increasing [] = Unit
Increasing (x ∷ xs) = Above x xs × Increasing xs

Has-compact : (a : ℕ) (xs : List ℕ) → Has a (compact xs) ↔ Has a xs
unfolding compact
Has-compact a [] = (λ h. h, λ h. h)
Has-compact a (x ∷ []) = (λ h. h, λ h. h)
Has-compact a (x ∷ y ∷ rest) =
    let ih = Has-compact a (y ∷ rest) in
    elim (Bool-cases (x == y)) [
      | inl same ↦
          rw (same, compact)
            (
              λ m. inr (ih.0 m),
              λ m. elim m [ inl e ↦ ih.1 (inl (e ∙ (nat_beq_iff x y).0 same)) | inr n ↦ ih.1 n ],
            )
      | inr other ↦
          rw (other, compact)
            (
              λ m. elim m [ inl e ↦ inl e | inr n ↦ inr (ih.0 n) ],
              λ m. elim m [ inl e ↦ inl e | inr n ↦ inr (ih.1 n) ],
            )
    ]

All-Has : (P : ℕ → Type 0) (a : ℕ) (xs : List ℕ) → All P xs → Has a xs → P a
All-Has P a [] h m = absurd m
All-Has P a (x ∷ xs) h (inl e) = subst P (sym e) h.0
All-Has P a (x ∷ xs) h (inr m) = All-Has P a xs h.1 m

compact-Increasing : (xs : List ℕ) → IsSorted ltb xs → Increasing (compact xs)
unfolding compact Above
compact-Increasing [] h = tt
compact-Increasing (x ∷ []) h = (λ y m. absurd m, tt)
compact-Increasing (x ∷ y ∷ rest) h =
    let ih = compact-Increasing (y ∷ rest) h.1 in
    elim (Bool-cases (x == y)) [
      | inl same ↦ rw (same, compact) ih
      | inr other ↦
          rw (other, compact)
            (
              λ z m. elim ((Has-compact z (y ∷ rest)).0 m) [
                | inl e ↦ ground (arith, h.0.0)
                | inr n ↦ ground (arith, h.0.0, All-Has (λ v. ltb v y ≡ false) z rest h.1.0 n)
              ],
              ih,
            )
    ]

equal_iff : (xs ys : List ℕ) → (equal xs ys ≡ true) ↔ (xs ≡ ys)
unfolding equal
equal_iff [] [] = ground arith
equal_iff [] (y ∷ ys) = ground arith
equal_iff (x ∷ xs) [] = ground arith
equal_iff (x ∷ xs) (y ∷ ys) = ground (arith, equal_iff xs ys)

heads :
    (x y : ℕ) (xs ys : List ℕ) → Above x xs → Above y ys → Has x (y ∷ ys) → Has y (x ∷ xs) → x ≡ y
unfolding Above
heads x y xs ys s t (inl e) n = e
heads x y xs ys s t (inr m) (inl e) = sym e
heads x y xs ys s t (inr m) (inr n) = ground (arith, s y n, t x m)

tails : (x y a : ℕ) (xs ys : List ℕ) → x ≡ y → x < a → Has a (y ∷ ys) → Has a ys
tails x y a xs ys e lt (inl h) = absurd (omega arith)
tails x y a xs ys e lt (inr m) = m

-- Two strictly increasing lists with the same members are one list.
Increasing-unique :
    (xs ys : List ℕ)
    → Increasing xs
    → Increasing ys
    → ((a : ℕ) → Has a xs → Has a ys)
    → ((a : ℕ) → Has a ys → Has a xs)
    → xs ≡ ys
unfolding Above
Increasing-unique [] [] s t f g = refl
Increasing-unique [] (y ∷ ys) s t f g = absurd (g y (inl refl))
Increasing-unique (x ∷ xs) [] s t f g = absurd (f x (inl refl))
Increasing-unique (x ∷ xs) (y ∷ ys) s t f g =
    let same = heads x y xs ys s.0 t.0 (f x (inl refl)) (g y (inl refl)) in
    cc (
      same,
      Increasing-unique xs ys s.1 t.1 (λ a m. tails x y a xs ys same (s.0 a m) (f a (inr m)))
          (λ a m. tails y x a ys xs (sym same) (t.0 a m) (g a (inr m))),
    )

in_sorted : (a : ℕ) (xs : List ℕ) → Has a (compact (sorted xs)) ↔ Has a xs
unfolding sorted
in_sorted a xs =
    let perm = sort_stable-Perm ltb xs in
    let c = Has-compact a (sort_stable ltb xs) in
    (λ m. Has-Permᴰ a perm (c.0 m), λ m. c.1 (Has-Permᴰ a (Permᴰ.symm perm) m))

sorted-Increasing : (xs : List ℕ) → Increasing (compact (sorted xs))
unfolding sorted
sorted-Increasing xs =
    compact-Increasing (sort_stable ltb xs) (sort_stable-IsSorted ltb ltb-IsStrictOrder xs)

-- `sameSet` accepts two lists of ids exactly when they have the same members, whatever their order
-- and their repetitions.
pub same_set_iff : (a b : List ℕ) → (same_set a b ≡ true) ↔ ((id : ℕ) → Has id a ↔ Has id b)
unfolding same_set
same_set_iff a b = (
  λ h id.
      let same = (equal_iff (compact (sorted a)) (compact (sorted b))).0 h in
      (
        λ m. (in_sorted id b).0 (subst (Has id) same ((in_sorted id a).1 m)),
        λ m. (in_sorted id a).0 (subst (Has id) (sym same) ((in_sorted id b).1 m)),
      ),
  λ h. (equal_iff (compact (sorted a)) (compact (sorted b))).1 (
      Increasing-unique (compact (sorted a)) (compact (sorted b)) (sorted-Increasing a)
        (sorted-Increasing b) (λ id m. (in_sorted id b).1 ((h id).0 ((in_sorted id a).0 m)))
        (λ id m. (in_sorted id a).1 ((h id).1 ((in_sorted id b).0 m)))),
)
