-- ===== src/Base/Lists.antt =====
-- Lists measured by native numbers, tests of their members, and predicates on all of them.
use Prim.Native.Nat.{ℕ, zero, suc}
use mathlib.Core.Path.{◌≡◌, sym, ap, ◌∙◌}
use mathlib.Core.Logic.{◌⊎◌, inl, inr, ◌↔◌}
use mathlib.Core.Bool.{Bool, true, false, ◌||◌}
use mathlib.Core.List.{List, [], ◌∷◌}
use mathlib.Core.Option.{Option, none, some}
use native.Mathlib.Omega.{arith}
use karpenter_provider_hclou.Base.Tests.{if◌then◌else◌, Comparable, ◌==◌, Bool-cases}

module _ {ℓ} {A : Type ℓ} where
  abbrev pub length : List A → ℕ
  length [] = 0
  length (x ∷ xs) = suc (length xs)

  abbrev pub is_empty : List A → Bool
  is_empty [] = true
  is_empty (x ∷ xs) = false

  -- The elements that pass a test, in order: a loop that appends under an `if`.
  abbrev pub keep : (A → Bool) → List A → List A
  keep p [] = []
  keep p (x ∷ xs) = if p x then x ∷ keep p xs else keep p xs

  -- The first element that passes a test: a loop that breaks.
  abbrev pub find : (A → Bool) → List A → Option A
  find p [] = none
  find p (x ∷ xs) = if p x then some x else find p xs

  abbrev pub exists : (A → Bool) → List A → Bool
  exists p [] = false
  exists p (x ∷ xs) = p x || exists p xs

  abbrev pub take : ℕ → List A → List A
  take zero xs = []
  take (suc n) [] = []
  take (suc n) (x ∷ xs) = x ∷ take n xs

  abbrev pub All {κ} : (A → Type κ) → List A → Type κ
  All P [] = Unit
  All P (x ∷ xs) = P x × All P xs

-- Membership, by recursion.
abbrev pub Has : {A : Type 0} → A → List A → Type 0
Has a [] = ⊥
Has a (x ∷ xs) = (a ≡ x) ⊎ Has a xs

module _ {ℓ} {A : Type ℓ} ⦃e : Comparable A⦄ where
  abbrev pub contains : A → List A → Bool
  contains a [] = false
  contains a (x ∷ xs) = a == x || contains a xs

pub contains_iff :
    {A : Type 0} ⦃e : Comparable A⦄ (a : A) (xs : List A) → (contains a xs ≡ true) ↔ Has a xs
contains_iff a [] = ground arith
contains_iff ⦃e⦄ a (x ∷ xs) = ground (arith, e.same_iff a x, contains_iff a xs)

-- What a loop keeps.
pub Has-keep :
    {A : Type 0} (p : A → Bool) (a : A) (xs : List A)
    → Has a (keep p xs) ↔ (Has a xs × (p a ≡ true))
Has-keep p a [] = ground arith
Has-keep p a (x ∷ xs) = elim (Bool-cases (p x)) [
  | inl kept ↦ rw (kept) (
    λ h. elim h [
      | inl e ↦ (inl e, ap p e ∙ kept)
      | inr m ↦ let (n, q) = (Has-keep p a xs).0 m in (inr n, q)
    ],
    λ (h, q). elim h [ inl e ↦ inl e | inr m ↦ inr ((Has-keep p a xs).1 (m, q)) ],
  )
  | inr dropped ↦ rw (dropped) (
    λ h. let (n, q) = (Has-keep p a xs).0 h in (inr n, q),
    λ (h, q). elim h [
      | inl e ↦ absurd (apart (sym q ∙ (ap p e ∙ dropped)))
      | inr m ↦ (Has-keep p a xs).1 (m, q)
    ],
  )
]
  where
    apart : true ≡ false → ⊥
    apart e = cc
