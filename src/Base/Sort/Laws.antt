-- ===== src/Base/Sort/Laws.antt =====
-- The order of texts, and what a stable sort does.

use Prim.Native.String.{String}
use mathlib.Core.Bool.{Bool, true, false}
use mathlib.Core.List.{List, [], ◌∷◌, map}
use mathlib.Core.List.Permᴰ
use mathlib.Core.List.{Permᴰ}
use mathlib.Core.List.Permᴰ.{nil, cons, swap, trans}
use mathlib.Core.Path.{◌≡◌, refl, ap, ◌∙◌}
use mathlib.Core.Logic.{inl, inr}
use native.Mathlib.Omega.{arith}
use text.Mathlib.TextEquality.{Char-path}
use karpenter_provider_hclou.Base.Lists.{All, Has}
use karpenter_provider_hclou.Base.Tests.{if◌then◌else◌}
use karpenter_provider_hclou.Base.Sort.{insert_sorted, sort_stable, text_ltb}

pub text_ltb_irrefl : (s : String) → text_ltb s s ≡ false
unfolding text_ltb
text_ltb_irrefl String.[] = refl
text_ltb_irrefl (String.◌∷◌ c s) = ground (arith, text_ltb_irrefl s)

pub text_ltb_trans :
    (s t u : String) → text_ltb s t ≡ true → text_ltb t u ≡ true → text_ltb s u ≡ true
unfolding text_ltb
text_ltb_trans s t String.[] h k = cc
text_ltb_trans s String.[] (String.◌∷◌ e u) h k = cc
text_ltb_trans String.[] (String.◌∷◌ d t) (String.◌∷◌ e u) h k = refl
text_ltb_trans (String.◌∷◌ c s) (String.◌∷◌ d t) (String.◌∷◌ e u) h k =
    ground (arith, text_ltb_trans s t u)

pub text_ltb_total : (s t : String) → text_ltb s t ≡ false → text_ltb t s ≡ false → s ≡ t
unfolding text_ltb
text_ltb_total String.[] String.[] h k = refl
text_ltb_total String.[] (String.◌∷◌ d t) h k = cc
text_ltb_total (String.◌∷◌ c s) String.[] h k = cc
text_ltb_total (String.◌∷◌ c s) (String.◌∷◌ d t) h k =
    ground (arith, text_ltb_total s t, Char-path c d)

-- A strict total order, as a Boolean test.
pub record IsStrictOrder (A : Type 0) (less : A → A → Bool) : Type 0 where
  pub irrefl : (a : A) → less a a ≡ false
  pub trans : (a b c : A) → less a b ≡ true → less b c ≡ true → less a c ≡ true
  pub total : (a b : A) → less a b ≡ false → less b a ≡ false → a ≡ b

-- No element is less than one before it.
abbrev pub IsSorted : {A : Type 0} → (A → A → Bool) → List A → Type 0
IsSorted less [] = Unit
IsSorted less (x ∷ xs) = All (λ y. less y x ≡ false) xs × IsSorted less xs

module _ {A : Type 0} (less : A → A → Bool) (order : IsStrictOrder A less) where
  not_less_trans : (x y z : A) → less y x ≡ false → less z y ≡ false → less z x ≡ false
  not_less_trans x y z h k = ground (arith, order.trans z x y, order.total x y)

  All-insert_sorted :
      (w x : A) (ys : List A)
      → less x w ≡ false
      → All (λ y. less y w ≡ false) ys
      → All (λ y. less y w ≡ false) (insert_sorted less x ys)
  unfolding insert_sorted
  All-insert_sorted w x [] h a = (h, tt)
  All-insert_sorted w x (y ∷ ys) h a = ground (arith, All-insert_sorted w x ys h a.1)

  insert_sorted_comm :
      (a b : A) (l : List A)
      → insert_sorted less a (insert_sorted less b l)
        ≡ insert_sorted less b (insert_sorted less a l)
  unfolding insert_sorted
  insert_sorted_comm a b [] = ground (arith, order.trans a b a, order.irrefl a, order.total a b)
  insert_sorted_comm a b (y ∷ l) = ground (
    arith,
    insert_sorted_comm a b l,
    order.trans a b a,
    order.irrefl a,
    order.total a b,
    order.trans y a b,
    order.trans y b a,
  )

  All-not_less :
      (x y : A) (zs : List A)
      → less y x ≡ false
      → All (λ z. less z y ≡ false) zs
      → All (λ z. less z x ≡ false) zs
  All-not_less x y [] h a = tt
  All-not_less x y (z ∷ zs) h a = (not_less_trans x y z h a.0, All-not_less x y zs h a.1)

  insert_sorted-IsSorted :
      (x : A) (ys : List A) → IsSorted less ys → IsSorted less (insert_sorted less x ys)
  unfolding insert_sorted
  insert_sorted-IsSorted x [] s = (tt, tt)
  insert_sorted-IsSorted x (y ∷ ys) s = ground (
    arith,
    insert_sorted-IsSorted x ys s.1,
    All-insert_sorted y x ys,
    All-not_less x y ys,
    order.trans x y x,
    order.irrefl x,
  )

  pub sort_stable-IsSorted : (xs : List A) → IsSorted less (sort_stable less xs)
  unfolding sort_stable
  sort_stable-IsSorted [] = tt
  sort_stable-IsSorted (x ∷ xs) =
      insert_sorted-IsSorted x (sort_stable less xs) (sort_stable-IsSorted xs)

  -- Under a strict total order a sort forgets the order of its input.
  pub sort_stable-perm : {xs ys : List A} → Permᴰ xs ys → sort_stable less xs ≡ sort_stable less ys
  unfolding sort_stable
  sort_stable-perm nil = refl
  sort_stable-perm (cons {a} {b} {l₁} {l₂} e d) = cc (e, sort_stable-perm d)
  sort_stable-perm (swap {a} {b} {l = l} e f) =
      cc (insert_sorted_comm a b (sort_stable less l), e, f)
  sort_stable-perm (trans d e) = sort_stable-perm d ∙ sort_stable-perm e

-- A permutation keeps the members.
pub Has-Permᴰ : {A : Type 0} (c : A) {xs ys : List A} → Permᴰ xs ys → Has c xs → Has c ys
Has-Permᴰ c nil h = h
Has-Permᴰ c (cons e d) (inl p) = inl (p ∙ e)
Has-Permᴰ c (cons e d) (inr h) = inr (Has-Permᴰ c d h)
Has-Permᴰ c (swap e f) (inl p) = inr (inl (p ∙ e))
Has-Permᴰ c (swap e f) (inr (inl p)) = inl (p ∙ f)
Has-Permᴰ c (swap e f) (inr (inr h)) = inr (inr h)
Has-Permᴰ c (trans d e) h = Has-Permᴰ c e (Has-Permᴰ c d h)

-- Sorting by a key, seen through the key.
module _ {A B : Type 0} (key : A → B) (less : B → B → Bool) where
  abbrev pub by_key : A → A → Bool
  by_key a b = less (key a) (key b)

  map-insert_sorted :
      (x : A) (ys : List A)
      → map key (insert_sorted by_key x ys) ≡ insert_sorted less (key x) (map key ys)
  unfolding insert_sorted
  map-insert_sorted x [] = refl
  map-insert_sorted x (y ∷ ys) = ground (arith, map-insert_sorted x ys)

  pub map-sort_stable :
      (xs : List A) → map key (sort_stable by_key xs) ≡ sort_stable less (map key xs)
  unfolding sort_stable
  map-sort_stable [] = refl
  map-sort_stable (x ∷ xs) =
      map-insert_sorted x (sort_stable by_key xs)
      ∙ ap (insert_sorted less (key x)) (map-sort_stable xs)

-- A sort keeps every element and adds none.
module _ {A : Type 0} (less : A → A → Bool) where
  insert_sorted-perm : (x : A) (ys : List A) → Permᴰ (insert_sorted less x ys) (x ∷ ys)
  unfolding insert_sorted
  insert_sorted-perm x [] = cons refl nil
  insert_sorted-perm x (y ∷ ys) =
      elim (less y x)
        as (λ b. Permᴰ (if b then y ∷ insert_sorted less x ys else x ∷ y ∷ ys) (x ∷ y ∷ ys)) [
          | true ↦ trans (cons refl (insert_sorted-perm x ys)) (swap refl refl)
          | false ↦ Permᴰ.refl (x ∷ y ∷ ys)
        ]

  pub sort_stable-Perm : (xs : List A) → Permᴰ (sort_stable less xs) xs
  unfolding sort_stable
  sort_stable-Perm [] = nil
  sort_stable-Perm (x ∷ xs) =
      trans (insert_sorted-perm x (sort_stable less xs)) (cons refl (sort_stable-Perm xs))
