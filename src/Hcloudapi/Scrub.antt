-- ===== src/Hcloudapi/Scrub.antt =====
-- internal/hcloudapi/redact.go: the scrubbing of a message. A text is the list of its code points. The
-- program walks bytes: a token that is accepted is ASCII, so no byte of a longer character is in it.
pub mod Echo
pub mod Quoted
use Prim.Native.Nat.{max}
use karpenter_provider_hclou.Base.Texts.{Text, codes}
use karpenter_provider_hclou.Base.{
  ℕ, zero, suc, ◌+◌, ◌-◌, Bool, true, false, ◌&&◌, ◌||◌, Option, none, some, List, [], ◌∷◌, ◌++◌,
  String, if◌then◌else◌, leb, ◌==◌, nat_comparable,
}

abbrev pub redacted : Text
redacted = codes "[redacted]"

-- The shortest run of the token that is scrubbed by value.
abbrev pub min_echo : ℕ
min_echo = 12

-- The inner loop of `longestRun`: how far `s` goes along `token[j:]`.
unfoldable pub common_prefix : Text → Text → ℕ
common_prefix [] t = 0
common_prefix (x ∷ s) [] = 0
common_prefix (x ∷ s) (y ∷ t) = if x == y then suc (common_prefix s t) else 0

-- The longest prefix of `s` found anywhere in the token.
unfoldable pub longest_run : Text → Text → ℕ
unfolding common_prefix
longest_run s [] = 0
longest_run s (y ∷ t) = max (common_prefix s (y ∷ t)) (longest_run s t)

-- The loop of `scrubToken`: the number is how many characters of a run are still passed over.
unfoldable pub scrub_from : Text → ℕ → Text → Text
unfolding longest_run
scrub_from token skip [] = []
scrub_from token (suc skip) (c ∷ s) = scrub_from token skip s
scrub_from token zero (c ∷ s) =
    let n = longest_run (c ∷ s) token in
    let run = redacted ++ scrub_from token (n - 1) s in
    let kept = c ∷ scrub_from token 0 s in if leb min_echo n then run else kept

-- `scrubToken`, where `apiToken` may hold no token. With no run the loop copies the message.
unfoldable pub scrub_token : Option Text → Text → Text
unfolding scrub_from
scrub_token none msg = msg
scrub_token (some token) msg = scrub_from token 0 msg

abbrev pub quote : ℕ
quote = b'\''

-- `\s` of a regular expression.
unfoldable pub is_space : ℕ → Bool
is_space c = c == 9 || (c == 10 || (c == 12 || (c == 13 || c == 32)))

-- `(?i)` on the letters of `token`: each with its capital, and `k` with the Kelvin sign.
unfoldable pub fold_case : ℕ → ℕ → Bool
fold_case letter c = c == letter || (c + 32 == letter || (letter == b'k' && c == 0x212A))

abbrev pub one_more : Option ℕ → Option ℕ
one_more none = none
one_more (some n) = some (suc n)

-- `\s*'`, with the number of characters matched.
unfoldable pub match_quote : Text → Option ℕ
unfolding is_space
match_quote [] = none
match_quote (c ∷ s) =
    let rest = one_more (match_quote s) in
    if c == quote then some 1 else if is_space c then rest else none

-- The group of `quotedToken` at the start of a text: a word in any case, then a quote.
unfoldable pub match_group : Text → Text → Option ℕ
unfolding fold_case match_quote
match_group [] s = match_quote s
match_group (letter ∷ word) [] = none
match_group (letter ∷ word) (c ∷ s) =
    let rest = one_more (match_group word s) in if fold_case letter c then rest else none

-- Where `ReplaceAllString` is: between matches, in the group with so many characters to copy, or in
-- `[^']*'?`.
pub data Mode : Type 0 where
  scan swallow : Mode
  copy : ℕ → Mode

unfoldable pub next_mode : Option ℕ → Mode
next_mode none = scan
next_mode (some zero) = scan
next_mode (some (suc n)) = copy n

-- `[redacted]'`
abbrev pub closing : Text
closing = redacted ++ quote ∷ []

unfoldable pub quoted_from : Mode → Text → Text
unfolding match_group next_mode
quoted_from (copy zero) [] = closing
quoted_from (copy zero) (c ∷ s) =
    let over = closing ++ quoted_from scan s in
    let inside = closing ++ quoted_from swallow s in if c == quote then over else inside
quoted_from scan [] = []
quoted_from scan (c ∷ s) = c ∷ quoted_from (next_mode (match_group (codes "token") (c ∷ s))) s
quoted_from (copy (suc n)) [] = []
quoted_from (copy (suc n)) (c ∷ s) = c ∷ quoted_from (copy n) s
quoted_from swallow [] = []
quoted_from swallow (c ∷ s) =
    let over = quoted_from scan s in
    let inside = quoted_from swallow s in if c == quote then over else inside

-- `scrubQuoted`
unfoldable pub scrub_quoted : Text → Text
unfolding quoted_from
scrub_quoted msg = quoted_from scan msg

-- `scrub`
unfoldable pub scrub : Option Text → Text → Text
unfolding scrub_token scrub_quoted
scrub token msg = scrub_quoted (scrub_token token msg)
