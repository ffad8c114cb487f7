-- ===== src/Hcloudapi/ProviderId.antt =====
-- internal/hcloudapi/servers.go: `ProviderID` and `ServerIDFromProviderID`, with what they use of
-- `strconv` and `strings`.
pub mod RoundTrip
pub mod Accepted
use Prim.Native.Char.{Char, code}
use Prim.Native.String
use mathlib.Core.Logic.{dite}
use mathlib.Core.WellFounded.{Acc, WellFounded}
use native.Mathlib.Decide.{dec_lt}
use karpenter_provider_hclou.Base.{
  ℕ, zero, suc, ◌+◌, ◌-◌, ◌*◌, ◌/◌, ◌%◌, ◌^◌, ◌<◌, Bool, true, false, ◌&&◌, Option, none, some,
  String, List, [], ◌∷◌, arith, ltb, leb, if◌then◌else◌, ◌==◌, nat_comparable, string_comparable,
}
use karpenter_provider_hclou.Base.Texts.{append_text, cut_prefix}
use karpenter_provider_hclou.Hcloudapi.Errors.{Result, ok, err, errorf}

acc_below : (k n : ℕ) → n < k → Acc ◌<◌ n
acc_below zero n h = absurd (omega arith)
acc_below (suc k) n h = Acc.intro n λ m lt. acc_below k m (omega arith)

lt_wf : WellFounded ◌<◌
unfolding acc_below
lt_wf = record { apply = λ n. acc_below (suc n) n (omega arith) }

digit_char : ℕ → Char
digit_char zero = "0"
digit_char (suc zero) = "1"
digit_char (suc (suc zero)) = "2"
digit_char (suc (suc (suc zero))) = "3"
digit_char (suc (suc (suc (suc zero)))) = "4"
digit_char (suc (suc (suc (suc (suc zero))))) = "5"
digit_char (suc (suc (suc (suc (suc (suc zero)))))) = "6"
digit_char (suc (suc (suc (suc (suc (suc (suc zero))))))) = "7"
digit_char (suc (suc (suc (suc (suc (suc (suc (suc zero)))))))) = "8"
digit_char (suc (suc (suc (suc (suc (suc (suc (suc (suc n))))))))) = "9"

pub tenth_lt : {n : ℕ} → 0 < n → n / 10 < n
tenth_lt h = omega arith

emit : (n : ℕ) → Acc ◌<◌ n → String → String
emit n (Acc.intro _ smaller) out =
    dite (dec_lt 0 n)
      (λ h. emit (n / 10) (smaller (n / 10) (tenth_lt h)) (String.◌∷◌ (digit_char (n % 10)) out))
      (λ _. out)

-- `strconv.FormatInt(n, 10)` of a number that is not negative.
pub format_int : ℕ → String
unfolding emit lt_wf dec_lt digit_char
format_int n = if n == 0 then "0" else emit n (lt_wf.apply n) ""

is_digit : Char → Bool
is_digit c = leb b'0' (code c) && leb (code c) b'9'

-- The loop of `strconv.ParseUint` in base 10, where a number has no upper bound: what passes
-- 2^64 on the way is past the bound of `parse_int` too.
scan : ℕ → String → Option ℕ
unfolding is_digit
scan n String.[] = some n
scan n (String.◌∷◌ c s) =
    let rest = scan (n * 10 + (code c - b'0')) s in if is_digit c then rest else none

parse_uint : String → Option ℕ
unfolding scan
parse_uint String.[] = none
parse_uint (String.◌∷◌ c s) = scan 0 (String.◌∷◌ c s)

-- `strconv.ParseInt(s, 10, 64)`: whether the number is negative, and its absolute value.
parse_int : String → Option (Bool × ℕ)
unfolding parse_uint
parse_int String.[] = none
parse_int (String.◌∷◌ c s) =
    let negative = code c == b'-' in
    let signed = if negative then true else code c == b'+' in
    elim (parse_uint (if signed then s else String.◌∷◌ c s)) [
      | none ↦ none
      | some n ↦
          if negative
          then (if ltb (2 ^ 63) n then none else some (true, n))
          else if ltb n (2 ^ 63)
          then some (false, n)
          else none
    ]

abbrev provider_id_prefix : String
provider_id_prefix = "hcloud://"

-- `(*Server).ProviderID` of the server with this id.
unfoldable pub provider_id : ℕ → String
unfolding append_text format_int
provider_id id = append_text provider_id_prefix (format_int id)

-- `id <= 0`
is_positive : Bool × ℕ → Bool
is_positive (negative, n) = if negative then false else ltb 0 n

unfoldable pub server_id_from_provider_id : String → Result ℕ
unfolding cut_prefix parse_int is_positive
server_id_from_provider_id provider_id = elim (cut_prefix provider_id provider_id_prefix) [
  | none ↦ err (errorf "providerID %q is not an hcloud provider id" (provider_id ∷ []))
  | some rest ↦ elim (parse_int rest) [
    | none ↦ err (errorf "providerID %q has no valid server id" (provider_id ∷ []))
    | some n ↦
        if is_positive n
        then ok n.1
        else err (errorf "providerID %q has no valid server id" (provider_id ∷ []))
  ]
]
