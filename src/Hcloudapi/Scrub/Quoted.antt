-- ===== src/Hcloudapi/Scrub/Quoted.antt =====
-- That the scrubbing by wording brings nothing of the token back, and what is left of a scrubbed message.
use karpenter_provider_hclou.Base.{
  ℕ, zero, suc, ◌≤◌, ◌≡◌, Option, some, none, [], ◌∷◌, ◌++◌, length, arith, Bool-cases, ◌==◌,
  nat_comparable, sym, inl, inr,
}
use mathlib.Core.Path.{subst}
use karpenter_provider_hclou.Base.Texts.{Text, codes}
use karpenter_provider_hclou.Hcloudapi.Scrub.{
  redacted, min_echo, common_prefix, longest_run, scrub_from, scrub_token, quote, Mode, scan,
  swallow, copy, next_mode, match_group, closing, quoted_from, scrub_quoted, scrub,
}
use karpenter_provider_hclou.Hcloudapi.Scrub.Echo.{
  IsPlain, IsClean, closed, lacks_quote, common_prefix-le_cons, common_prefix-stop,
  common_prefix-nil, longest_run-le_cons, scrub_from-IsClean,
}

closing-IsClean : (r token : Text) → IsPlain token → IsClean token r → IsClean token (closing ++ r)
closing-IsClean r token h clean =
    closed quote redacted r token (omega arith) (lacks_quote token h) clean

-- The modes that write before they read on.
abbrev IsCopying : Mode → Type 0
IsCopying swallow = ⊥
IsCopying _ = Unit

next_mode-IsCopying : (o : Option ℕ) → IsCopying (next_mode o)
unfolding next_mode
next_mode-IsCopying none = tt
next_mode-IsCopying (some zero) = tt
next_mode-IsCopying (some (suc n)) = tt

-- What is copied goes no further along the token than the message.
quoted_from-near :
    (m : Mode) (s t : Text)
    → IsCopying m
    → IsPlain t
    → common_prefix (quoted_from m s) t ≤ common_prefix s t
unfolding quoted_from
quoted_from-near m s [] w h = omega (arith, common_prefix-nil (quoted_from m s))
quoted_from-near swallow s (y ∷ t) w h = absurd w
quoted_from-near scan [] (y ∷ t) w h = omega arith
quoted_from-near scan (c ∷ s) (y ∷ t) w h =
    let m = next_mode (match_group (codes "token") (c ∷ s)) in
    common_prefix-le_cons c y (quoted_from m s) s t
      (quoted_from-near m s t (next_mode-IsCopying _) h.1)
quoted_from-near (copy (suc n)) [] (y ∷ t) w h = omega arith
quoted_from-near (copy (suc n)) (c ∷ s) (y ∷ t) w h =
    common_prefix-le_cons c y (quoted_from (copy n) s) s t (quoted_from-near (copy n) s t tt h.1)
quoted_from-near (copy zero) [] (y ∷ t) w h = omega (arith, common_prefix-stop b'[' y _ t h.0.0)
quoted_from-near (copy zero) (c ∷ s) (y ∷ t) w h = elim (Bool-cases (c == quote)) [
  | inl over ↦ rw (over, quoted_from) (omega (arith, common_prefix-stop b'[' y _ t h.0.0))
  | inr inside ↦ rw (inside, quoted_from) (omega (arith, common_prefix-stop b'[' y _ t h.0.0))
]

quoted_from-IsClean :
    (token : Text) (m : Mode) (s : Text)
    → IsPlain token
    → IsClean token s
    → IsClean token (quoted_from m s)
unfolding quoted_from
quoted_from-IsClean token scan [] plain clean = tt
quoted_from-IsClean token swallow [] plain clean = tt
quoted_from-IsClean token (copy (suc n)) [] plain clean = tt
quoted_from-IsClean token (copy zero) [] plain clean = closing-IsClean [] token plain tt
quoted_from-IsClean token (copy zero) (c ∷ s) plain clean = elim (Bool-cases (c == quote)) [
  | inl over ↦
      rw (over, quoted_from)
        (closing-IsClean (quoted_from scan s) token plain
          (quoted_from-IsClean token scan s plain clean.1))
  | inr inside ↦
      rw (inside, quoted_from)
        (closing-IsClean (quoted_from swallow s) token plain
          (quoted_from-IsClean token swallow s plain clean.1))
]
quoted_from-IsClean token swallow (c ∷ s) plain clean = elim (Bool-cases (c == quote)) [
  | inl over ↦ rw (over, quoted_from) (quoted_from-IsClean token scan s plain clean.1)
  | inr inside ↦ rw (inside, quoted_from) (quoted_from-IsClean token swallow s plain clean.1)
]
quoted_from-IsClean token scan (c ∷ s) plain clean =
    let m = next_mode (match_group (codes "token") (c ∷ s)) in
    let near =
      longest_run-le_cons token (quoted_from m s) s c
        (λ t h. quoted_from-near m s t (next_mode-IsCopying _) h) plain in
    (omega (arith, near, clean.0), quoted_from-IsClean token m s plain clean.1)
quoted_from-IsClean token (copy (suc n)) (c ∷ s) plain clean =
    let near =
      longest_run-le_cons token (quoted_from (copy n) s) s c
        (λ t h. quoted_from-near (copy n) s t tt h) plain in
    (omega (arith, near, clean.0), quoted_from-IsClean token (copy n) s plain clean.1)

-- Twelve or more characters of the token, one after the other, somewhere in the text.
abbrev pub Echoes : Text → Text → Type 0
Echoes token text =
    (run before after start end : Text) × (min_echo ≤ length run)
    × (token ≡ before ++ (run ++ after))
    × (text ≡ start ++ (run ++ end))

IsClean-drop : (token start s : Text) → IsClean token (start ++ s) → IsClean token s
IsClean-drop token [] s h = h
IsClean-drop token (c ∷ start) s h = IsClean-drop token start s h.1

common_prefix-run : (run s t : Text) → length run ≤ common_prefix (run ++ s) (run ++ t)
unfolding common_prefix
common_prefix-run [] s t = omega arith
common_prefix-run (c ∷ run) s t = ground (arith, common_prefix-run run s t)

longest_run-found : (s before t : Text) → common_prefix s t ≤ longest_run s (before ++ t)
unfolding longest_run
longest_run-found s [] [] = omega (arith, common_prefix-nil s)
longest_run-found s [] (y ∷ t) = omega arith
longest_run-found s (y ∷ before) t = omega (arith, longest_run-found s before t)

IsClean-Echoes : (token text : Text) → IsClean token text → Echoes token text → ⊥
IsClean-Echoes token text clean (run, before, after, start, end, long, held, shown) =
    none_left run long
      (IsClean-drop token start (run ++ end) (subst (λ x. IsClean token x) shown clean))
      (subst (λ x. common_prefix (run ++ end) (run ++ after) ≤ longest_run (run ++ end) x)
        (sym held) (longest_run-found (run ++ end) before (run ++ after)))
  where
    none_left :
        (run : Text)
        → min_echo ≤ length run
        → IsClean token (run ++ end)
        → common_prefix (run ++ end) (run ++ after) ≤ longest_run (run ++ end) token
        → ⊥
    none_left [] long h found = absurd (omega arith)
    none_left (c ∷ run) long h found =
        absurd (omega (arith, common_prefix-run (c ∷ run) end after, h.0, found))

-- Of a token with no bracket and no quote, a scrubbed message shows nowhere twelve characters in a row.
pub scrub-silent : (token msg : Text) → IsPlain token → Echoes token (scrub (some token) msg) → ⊥
unfolding scrub scrub_token scrub_quoted
scrub-silent token msg plain = IsClean-Echoes token (scrub (some token) msg) (
    quoted_from-IsClean token scan (scrub_from token 0 msg) plain
      (scrub_from-IsClean token 0 msg plain))
