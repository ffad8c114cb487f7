-- ===== src/Bootstrap/Contents/Distinct.antt =====
-- What `dedupe` keeps.
use mathlib.Core.Path.{subst}
use karpenter_provider_hclou.Base.{
  ◌≡◌, ◌≢◌, ◌↔◌, ◌⊎◌, refl, inl, inr, sym, ◌∙◌, Bool, true, false, ◌||◌, List, [], ◌∷◌, String, Has,
  contains, contains_iff, Bool-cases, arith, ◌==◌, eq_iff, string_comparable,
}
use karpenter_provider_hclou.Bootstrap.Contents.{dedupe, dedupe_from}

-- No text stands twice.
abbrev pub Distinct : List String → Type 0
Distinct [] = Unit
Distinct (s ∷ ss) = ¬ (Has s ss) × Distinct ss

-- Whether `dedupe` leaves a text out.
abbrev skips : String → List String → Bool
skips s seen = s == "" || contains s seen

abbrev Fresh : List String → String → Type 0
Fresh seen s = (s ≢ "") × (¬ (Has s seen))

skips_iff : (s : String) (seen : List String) → (skips s seen ≡ true) ↔ ((s ≡ "") ⊎ Has s seen)
skips_iff s seen = ground (arith, eq_iff s "", contains_iff s seen)

apart : false ≡ true → ⊥
apart e = cc

kept-Fresh : (s : String) (seen : List String) → skips s seen ≡ false → Fresh seen s
kept-Fresh s seen kept = (
  λ empty. apart (sym kept ∙ (skips_iff s seen).1 (inl empty)),
  λ found. apart (sym kept ∙ (skips_iff s seen).1 (inr found)),
)

skipped-Fresh : (s : String) (seen : List String) → skips s seen ≡ true → Fresh seen s → ⊥
skipped-Fresh s seen skipped fresh = go ((skips_iff s seen).0 skipped)
  where
    go : (s ≡ "") ⊎ Has s seen → ⊥
    go (inl empty) = fresh.0 empty
    go (inr found) = fresh.1 found

-- What is kept: the texts of the input that are not empty and not seen before.
Kept : String → List String → List String → Type 0
Kept s seen ss = Has s ss × Fresh seen s

Kept-skipped :
    (s x : String) (seen xs : List String)
    → skips x seen ≡ true
    → Kept s seen (x ∷ xs) ↔ Kept s seen xs
unfolding Kept
Kept-skipped s x seen xs skipped = (fore, λ (m, fresh). (inr m, fresh))
  where
    fore : Kept s seen (x ∷ xs) → Kept s seen xs
    fore (inl e, fresh) = absurd (skipped-Fresh x seen skipped (subst (Fresh seen) e fresh))
    fore (inr m, fresh) = (m, fresh)

Kept-new :
    (s x : String) (seen xs : List String)
    → skips x seen ≡ false
    → Kept s seen (x ∷ xs) ↔ ((s ≡ x) ⊎ Kept s (x ∷ seen) xs)
unfolding Kept
Kept-new s x seen xs kept = (fore, back)
  where
    fore : Kept s seen (x ∷ xs) → (s ≡ x) ⊎ Kept s (x ∷ seen) xs
    fore (m, fresh) = elim (Bool-cases (s == x)) [
      | inl same ↦ inl ((eq_iff s x).0 same)
      | inr other ↦ inr (
        elim m [ inl e ↦ absurd (apart (sym other ∙ (eq_iff s x).1 e)) | inr m' ↦ m' ],
        (
          fresh.0,
          λ k. elim k [
            | inl e ↦ absurd (apart (sym other ∙ (eq_iff s x).1 e))
            | inr k' ↦ fresh.1 k'
          ],
        ),
      )
    ]

    back : (s ≡ x) ⊎ Kept s (x ∷ seen) xs → Kept s seen (x ∷ xs)
    back (inl e) = (inl e, subst (Fresh seen) (sym e) (kept-Fresh x seen kept))
    back (inr (m, fresh)) = (inr m, (fresh.0, λ k. fresh.1 (inr k)))

dedupe_from-Kept :
    (s : String) (seen ss : List String) → Has s (dedupe_from seen ss) ↔ Kept s seen ss
unfolding dedupe_from Kept
dedupe_from-Kept s seen [] = (λ h. absurd h, λ k. k.0)
dedupe_from-Kept s seen (x ∷ xs) = elim (Bool-cases (skips x seen)) [
  | inl skipped ↦
      let same = Kept-skipped s x seen xs skipped in
      let ih = dedupe_from-Kept s seen xs in
      rw (skipped, dedupe_from) (λ h. same.1 (ih.0 h), λ k. ih.1 (same.0 k))
  | inr kept ↦
      let same = Kept-new s x seen xs kept in
      let ih = dedupe_from-Kept s (x ∷ seen) xs in
      rw (kept, dedupe_from)
        (
          λ h. same.1 (elim h [ inl e ↦ inl e | inr m ↦ inr (ih.0 m) ]),
          λ k. elim (same.0 k) [ inl e ↦ inl e | inr k' ↦ inr (ih.1 k') ],
        )
]

dedupe_from-Distinct : (seen ss : List String) → Distinct (dedupe_from seen ss)
unfolding dedupe_from Kept
dedupe_from-Distinct seen [] = tt
dedupe_from-Distinct seen (x ∷ xs) = elim (Bool-cases (skips x seen)) [
  | inl skipped ↦ rw (skipped, dedupe_from) (dedupe_from-Distinct seen xs)
  | inr kept ↦
      rw (kept, dedupe_from)
        (
          λ m. ((dedupe_from-Kept x (x ∷ seen) xs).0 m).1.1 (inl refl),
          dedupe_from-Distinct (x ∷ seen) xs,
        )
]

-- `dedupe` keeps each text of the input that is not empty, and none twice.
pub dedupe-Distinct :
    (ss : List String)
    → Distinct (dedupe ss) × ((s : String) → Has s (dedupe ss) ↔ (Has s ss × (s ≢ "")))
unfolding dedupe Kept
dedupe-Distinct ss = (
  dedupe_from-Distinct [] ss,
  λ s.
      let same = dedupe_from-Kept s [] ss in
      (λ h. ((same.0 h).0, (same.0 h).1.0), λ (m, filled). same.1 (m, (filled, λ k. k))),
)
