-- ===== src/Hcloudapi/Scrub/Echo.antt =====
-- That nothing of the token is left in a scrubbed message.
use karpenter_provider_hclou.Base.{
  ℕ, zero, suc, ◌-◌, ◌≤◌, ◌<◌, ◌≡◌, ◌≢◌, refl, inl, inr, [], ◌∷◌, ◌++◌, All, length, arith,
  Bool-cases, leb, nat_comparable,
}
use karpenter_provider_hclou.Base.Texts.{Text, codes}
use karpenter_provider_hclou.Hcloudapi.Scrub.{
  redacted, min_echo, common_prefix, longest_run, scrub_from, quote,
}

-- No character of the token is in what the program puts in its place.
abbrev pub IsPlain : Text → Type 0
IsPlain token = All (λ c. (c ≢ b'[') × (c ≢ b']') × (c ≢ quote)) token

-- No suffix of a text starts with twelve characters of the token in a row.
abbrev pub IsClean : Text → Text → Type 0
IsClean token [] = Unit
IsClean token (c ∷ s) = (longest_run (c ∷ s) token < min_echo) × IsClean token s

-- A text that goes no further along any part of the token.
longest_run-le :
    (s s' token : Text)
    → ((y : ℕ) (t : Text) → IsPlain (y ∷ t) → common_prefix s (y ∷ t) ≤ common_prefix s' (y ∷ t))
    → IsPlain token
    → longest_run s token ≤ longest_run s' token
unfolding longest_run
longest_run-le s s' [] le plain = omega arith
longest_run-le s s' (y ∷ t) le plain = omega (arith, le y t plain, longest_run-le s s' t le plain.1)

-- A run does not go past a character that is not in the token.
prefix_stop : (b : ℕ) (p r t : Text) → All (λ c. c ≢ b) t → common_prefix (p ++ b ∷ r) t ≤ length p
unfolding common_prefix
prefix_stop b [] r [] h = omega arith
prefix_stop b [] r (y ∷ t) h = ground arith
prefix_stop b (x ∷ p) r [] h = omega arith
prefix_stop b (x ∷ p) r (y ∷ t) h = ground (arith, prefix_stop b p r t h.1)

longest_stop :
    (b : ℕ) (p r token : Text) → All (λ c. c ≢ b) token → longest_run (p ++ b ∷ r) token ≤ length p
unfolding longest_run
longest_stop b p r [] h = omega arith
longest_stop b p r (y ∷ t) h = omega (arith, prefix_stop b p r (y ∷ t) h, longest_stop b p r t h.1)

-- A short text that ends with a character that is not in the token lets no run through.
pub closed :
    (b : ℕ) (p r token : Text)
    → length p < min_echo
    → All (λ c. c ≢ b) token
    → IsClean token r
    → IsClean token (p ++ b ∷ r)
closed b [] r token short h clean = (omega (arith, longest_stop b [] r token h), clean)
closed b (x ∷ p) r token short h clean =
    (omega (arith, longest_stop b (x ∷ p) r token h), closed b p r token (omega arith) h clean)

lacks_bracket : (token : Text) → IsPlain token → All (λ c. c ≢ b']') token
lacks_bracket [] h = tt
lacks_bracket (c ∷ s) h = (h.0.1, lacks_bracket s h.1)

pub lacks_quote : (token : Text) → IsPlain token → All (λ c. c ≢ quote) token
lacks_quote [] h = tt
lacks_quote (c ∷ s) h = (h.0.2, lacks_quote s h.1)

redacted-IsClean :
    (r token : Text) → IsPlain token → IsClean token r → IsClean token (redacted ++ r)
redacted-IsClean r token h clean =
    closed b']' (codes "[redacted") r token (omega arith) (lacks_bracket token h) clean

-- One more character in front.
pub common_prefix-le_cons :
    (c y : ℕ) (s s' t : Text)
    → common_prefix s t ≤ common_prefix s' t
    → common_prefix (c ∷ s) (y ∷ t) ≤ common_prefix (c ∷ s') (y ∷ t)
unfolding common_prefix
common_prefix-le_cons c y s s' t h = ground arith

pub common_prefix-stop : (b y : ℕ) (s t : Text) → y ≢ b → common_prefix (b ∷ s) (y ∷ t) ≡ 0
unfolding common_prefix
common_prefix-stop b y s t h = ground arith

pub common_prefix-nil : (s : Text) → common_prefix s [] ≡ 0
unfolding common_prefix
common_prefix-nil [] = refl
common_prefix-nil (c ∷ s) = refl

-- What is kept of a message goes no further along the token than the message.
scrub_from-near :
    (token s t : Text) → IsPlain t → common_prefix (scrub_from token 0 s) t ≤ common_prefix s t
unfolding scrub_from
scrub_from-near token [] t h = omega arith
scrub_from-near token (c ∷ s) [] h = omega (arith, common_prefix-nil (scrub_from token 0 (c ∷ s)))
scrub_from-near token (c ∷ s) (y ∷ t) h =
    let near =
      common_prefix-le_cons c y (scrub_from token 0 s) s t (scrub_from-near token s t h.1) in
    elim (Bool-cases (leb min_echo (longest_run (c ∷ s) token))) [
      | inl run ↦ rw (run, scrub_from) (omega (arith, common_prefix-stop b'[' y _ t h.0.0))
      | inr kept ↦ rw (kept, scrub_from) near
    ]

pub longest_run-le_cons :
    (token s s' : Text) (c : ℕ)
    → ((t : Text) → IsPlain t → common_prefix s t ≤ common_prefix s' t)
    → IsPlain token
    → longest_run (c ∷ s) token ≤ longest_run (c ∷ s') token
longest_run-le_cons token s s' c near plain =
    longest_run-le (c ∷ s) (c ∷ s') token (λ y t h. common_prefix-le_cons c y s s' t (near t h.1))
      plain

pub scrub_from-IsClean :
    (token : Text) (skip : ℕ) (s : Text) → IsPlain token → IsClean token (scrub_from token skip s)
unfolding scrub_from
scrub_from-IsClean token zero [] plain = tt
scrub_from-IsClean token (suc skip) [] plain = tt
scrub_from-IsClean token (suc skip) (c ∷ s) plain = scrub_from-IsClean token skip s plain
scrub_from-IsClean token zero (c ∷ s) plain =
    let short =
      longest_run-le_cons token (scrub_from token 0 s) s c (scrub_from-near token s) plain in
    elim (Bool-cases (leb min_echo (longest_run (c ∷ s) token))) [
      | inl run ↦
          rw (run, scrub_from)
            (redacted-IsClean (scrub_from token (longest_run (c ∷ s) token - 1) s) token plain
              (scrub_from-IsClean token (longest_run (c ∷ s) token - 1) s plain))
      | inr kept ↦ rw (kept, scrub_from) (ground arith, scrub_from-IsClean token 0 s plain)
    ]
