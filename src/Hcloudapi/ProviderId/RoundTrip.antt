-- ===== src/Hcloudapi/ProviderId/RoundTrip.antt =====
-- `ServerIDFromProviderID` against `ProviderID`, and against all other texts.
use Prim.Native.Char.{code}
use mathlib.Core.Logic.{dif_pos, dif_neg}
use mathlib.Core.WellFounded.{Acc}
use native.Mathlib.Bridge.{le_prop}
use native.Mathlib.Decide.{dec_lt}
use karpenter_provider_hclou.Base.{
  ℕ, zero, suc, ◌+◌, ◌-◌, ◌*◌, ◌/◌, ◌%◌, ◌^◌, ◌<◌, ◌≡◌, refl, true, false, some, String, arith, inl,
  inr, ◌⊎◌, ap, ◌∙◌, ◌==◌, nat_comparable,
}
use karpenter_provider_hclou.Hcloudapi.Errors.{ok}
use karpenter_provider_hclou.Base.Texts.{append_text, cut_prefix}
use karpenter_provider_hclou.Hcloudapi.ProviderId.{
  tenth_lt, digit_char, emit, lt_wf, format_int, is_digit, scan, parse_int, provider_id,
  is_positive, server_id_from_provider_id,
}

code-digit_char : (d : ℕ) → d < 10 → code (digit_char d) ≡ b'0' + d
unfolding digit_char
code-digit_char zero h = refl
code-digit_char (suc zero) h = refl
code-digit_char (suc (suc zero)) h = refl
code-digit_char (suc (suc (suc zero))) h = refl
code-digit_char (suc (suc (suc (suc zero)))) h = refl
code-digit_char (suc (suc (suc (suc (suc zero))))) h = refl
code-digit_char (suc (suc (suc (suc (suc (suc zero)))))) h = refl
code-digit_char (suc (suc (suc (suc (suc (suc (suc zero))))))) h = refl
code-digit_char (suc (suc (suc (suc (suc (suc (suc (suc zero)))))))) h = refl
code-digit_char (suc (suc (suc (suc (suc (suc (suc (suc (suc n))))))))) h = ground arith

scan_digit :
    (n : ℕ) (out : String) → scan (n / 10) (String.◌∷◌ (digit_char (n % 10)) out) ≡ scan n out
unfolding scan is_digit
scan_digit n out =
    rw (code-digit_char (n % 10) (omega arith)) (ground (arith, ap (λ k. scan k out) (same n)))
  where
    same : (n : ℕ) → n / 10 * 10 + (b'0' + n % 10 - b'0') ≡ n
    same n = omega arith

scan_end : (n : ℕ) → scan n "" ≡ some n
unfolding scan
scan_end n = refl

digit_char-digit : (d : ℕ) → d < 10 → is_digit (digit_char d) ≡ true
unfolding is_digit
digit_char-digit d h = ground (arith, code-digit_char d h)

-- What is read back is the number that the digits so far stand for, then the rest.
scan-emit : (n : ℕ) (w : Acc ◌<◌ n) (out : String) → scan 0 (emit n w out) ≡ scan n out
unfolding emit
scan-emit n (Acc.intro _ smaller) out = elim (dec_lt 0 n) [
  | yes h ↦
      rw (dif_pos _ le_prop h)
        (scan-emit (n / 10) (smaller (n / 10) (tenth_lt h)) _ ∙ scan_digit n out)
  | no h ↦ rw (dif_neg _ h) (ap (λ k. scan k out) (omega arith))
]

-- A text that begins with a digit.
abbrev StartsDigit : String → Type 0
StartsDigit String.[] = ⊥
StartsDigit (String.◌∷◌ c s) = is_digit c ≡ true

emit-StartsDigit :
    (n : ℕ) (w : Acc ◌<◌ n) (out : String) → (0 < n) ⊎ StartsDigit out → StartsDigit (emit n w out)
unfolding emit
emit-StartsDigit n (Acc.intro _ smaller) out s = elim (dec_lt 0 n) [
  | yes h ↦
      rw (dif_pos _ le_prop h)
        (emit-StartsDigit (n / 10) (smaller (n / 10) (tenth_lt h)) _ (inr (starts n)))
  | no h ↦ rw (dif_neg _ h) (elim s [ inl p ↦ absurd (h p) | inr d ↦ d ])
]
  where
    starts : (n : ℕ) → is_digit (digit_char (n % 10)) ≡ true
    starts n = digit_char-digit (n % 10) (omega arith)

parse_int-scan :
    (s : String) (n : ℕ)
    → StartsDigit s
    → scan 0 s ≡ some n
    → n < 2 ^ 63
    → parse_int s ≡ some (false, n)
unfolding parse_int is_digit
parse_int-scan String.[] n d e b = elim d [ ]
parse_int-scan (String.◌∷◌ c s) n d e b =
    let minus : (code c == b'-') ≡ false = ground arith in
    let plus : (code c == b'+') ≡ false = ground arith in ground arith

cut_prefix-append_text : (p s : String) → cut_prefix (append_text p s) p ≡ some s
unfolding cut_prefix append_text
cut_prefix-append_text String.[] s = refl
cut_prefix-append_text (String.◌∷◌ c p) s = ground (arith, cut_prefix-append_text p s)

-- The provider id of a server is read back as the id of that server, for every id that an int64
-- holds.
pub server_id-provider_id :
    (id : ℕ) → 0 < id → id < 2 ^ 63 → server_id_from_provider_id (provider_id id) ≡ ok id
unfolding server_id_from_provider_id provider_id format_int is_positive
server_id-provider_id id p b =
    let w = lt_wf.apply id in
    let nonzero : (id == 0) ≡ false = ground arith in
    let read : parse_int (emit id w "") ≡ some (false, id) =
      parse_int-scan (emit id w "") id (emit-StartsDigit id w "" (inl p))
        (scan-emit id w "" ∙ scan_end id) b in
    rw (nonzero, read, server_id_from_provider_id) (ground arith)
