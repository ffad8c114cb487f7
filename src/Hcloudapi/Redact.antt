-- ===== src/Hcloudapi/Redact.antt =====
-- internal/hcloudapi/redact.go: `redact` on a tree of errors. What hcloud-go and the errors of several
-- errors say of themselves is an argument, `Wording`.
pub mod Kept
use karpenter_provider_hclou.Base.{
  ℕ, zero, suc, ◌-◌, Bool, true, false, not, ◌&&◌, ◌||◌, Option, none, some, List, [], ◌∷◌, ◌++◌,
  is_empty, length, if◌then◌else◌, ◌==◌, nat_comparable,
}
use karpenter_provider_hclou.Base.Texts.{Text, codes, width, byte_length}
use karpenter_provider_hclou.Hcloudapi.Errors.{ErrorCode}
use karpenter_provider_hclou.Hcloudapi.ProviderId.{format_int}
use karpenter_provider_hclou.Hcloudapi.Scrub.{scrub_token, scrub_quoted, scrub}

-- An error with what it wraps. `by_pointer` tells a `*hcloud.Error` from an `hcloud.Error`, which alone
-- is found by `errors.As`. A response is kept by its correlation id, "" without one.
mutual
  pub data Tree : Type 0 where
    api_error :
        (by_pointer : Bool) (code : ErrorCode) (message : Text) (response : Option Text) → Tree
    action_error :
        (by_pointer : Bool) (code : ErrorCode) (message : Text) (action : Option ℕ) → Tree
    plain : Text → Tree
    -- `fmt.Errorf` with one `%w`: the text before and after it
    wrap : Text → Text → Tree → Tree
    -- an error that unwraps to several
    join : Trees → Tree

  pub data Trees : Type 0 where
    nil : Trees
    cons : Tree → Trees → Trees

-- `Error()` of an `hcloud.Error` and of an `hcloud.ActionError`, and of an error of several.
pub record Wording : Type 0 where
  pub api : ErrorCode → Text → Option Text → Text
  pub action : ErrorCode → Text → Option ℕ → Text
  pub joined : List Text → Text

-- `errors.As` for an `hcloud.Error`, and for an `hcloud.ActionError`: the first in the tree.
unfoldable mutual
  pub find_api : Tree → Option ErrorCode
  find_api (api_error by_pointer code message response) = if by_pointer then none else some code
  find_api (action_error by_pointer code message action) = none
  find_api (plain text) = none
  find_api (wrap before after e) = find_api e
  find_api (join es) = find_api_in es

  pub find_api_in : Trees → Option ErrorCode
  find_api_in nil = none
  find_api_in (cons e es) =
      let rest = find_api_in es in elim (find_api e) [ some c ↦ some c | none ↦ rest ]

unfoldable mutual
  pub find_action : Tree → Option ErrorCode
  find_action (api_error by_pointer code message response) = none
  find_action (action_error by_pointer code message action) = if by_pointer then none else some code
  find_action (plain text) = none
  find_action (wrap before after e) = find_action e
  find_action (join es) = find_action_in es

  pub find_action_in : Trees → Option ErrorCode
  find_action_in nil = none
  find_action_in (cons e es) =
      let rest = find_action_in es in elim (find_action e) [ some c ↦ some c | none ↦ rest ]

-- `Code`
unfoldable pub code_in : Tree → Option ErrorCode
unfolding find_api find_api_in find_action find_action_in
code_in e = elim (find_api e) [ some c ↦ some c | none ↦ find_action e ]

-- `attached`: does `eachNode` meet an error of Hetzner with a response or an action?
unfoldable mutual
  pub attached : Tree → Bool
  attached (api_error by_pointer code message none) = false
  attached (api_error by_pointer code message (some id)) = true
  attached (action_error by_pointer code message none) = false
  attached (action_error by_pointer code message (some id)) = true
  attached (plain text) = false
  attached (wrap before after e) = attached e
  attached (join es) = attached_in es

  pub attached_in : Trees → Bool
  attached_in nil = false
  attached_in (cons e es) = attached e || attached_in es

-- The messages of Hetzner in the order of `eachNode`.
unfoldable mutual
  pub messages : Tree → List Text
  messages (api_error by_pointer code message response) = message ∷ []
  messages (action_error by_pointer code message action) = message ∷ []
  messages (plain text) = []
  messages (wrap before after e) = messages e
  messages (join es) = messages_in es

  pub messages_in : Trees → List Text
  messages_in nil = []
  messages_in (cons e es) = messages e ++ messages_in es

abbrev pub same_text : Text → Text → Bool
same_text [] [] = true
same_text [] (y ∷ t) = false
same_text (x ∷ s) [] = false
same_text (x ∷ s) (y ∷ t) = x == y && same_text s t

unfoldable pub has_prefix : Text → Text → Bool
has_prefix [] s = true
has_prefix (x ∷ old) [] = false
has_prefix (x ∷ old) (y ∷ s) = x == y && has_prefix old s

-- `strings.ReplaceAll` of a text that is not empty; the number is how much of a match is passed over.
unfoldable pub replace_from : Text → Text → ℕ → Text → Text
unfolding has_prefix
replace_from old fresh skip [] = []
replace_from old fresh (suc skip) (c ∷ s) = replace_from old fresh skip s
replace_from old fresh zero (c ∷ s) =
    let found = fresh ++ replace_from old fresh (length old - 1) s in
    let kept = c ∷ replace_from old fresh 0 s in if has_prefix old (c ∷ s) then found else kept

-- The loop of `scrubMessages`.
unfoldable pub scrub_each : Option Text → List Text → Text → Text
unfolding replace_from scrub_token
scrub_each token [] msg = msg
scrub_each token (m ∷ ms) msg =
    let s = scrub_token token m in
    scrub_each token ms (if same_text s m then msg else replace_from m s 0 msg)

unfoldable pub scrub_messages : Option Text → Tree → Text → Text
unfolding scrub_each messages messages_in
scrub_messages token e msg = scrub_each token (messages e) msg

unfoldable pub with_correlation : Option Text → Text → Text
with_correlation none msg = msg
with_correlation (some id) msg =
    if is_empty id then msg else msg ++ (codes " (correlation id " ++ (id ++ codes ")"))

unfoldable pub with_action : Option ℕ → Text → Text
with_action none msg = msg
with_action (some id) msg = msg ++ (codes " (action " ++ (codes (format_int id) ++ codes ")"))

-- `rebuild` at the first error of Hetzner in the chain of `errors.Unwrap`, which drops what wraps it.
unfoldable pub rebuild : Option Text → Tree → Option Tree
unfolding scrub with_correlation with_action
rebuild token (api_error by_pointer code message response) =
    some (api_error false code (with_correlation response (scrub token message)) none)
rebuild token (action_error by_pointer code message action) =
    some (action_error false code (with_action action (scrub token message)) none)
rebuild token (plain text) = none
rebuild token (wrap before after e) = rebuild token e
rebuild token (join es) = none

unfoldable pub detach : Option Text → Tree → Tree
unfolding rebuild
detach token e = elim (rebuild token e) [ none ↦ e | some rebuilt ↦ rebuilt ]

module _ (w : Wording) where
  -- `Error()`
  unfoldable mutual
    pub text : Tree → Text
    text (api_error by_pointer code message response) = w.api code message response
    text (action_error by_pointer code message action) = w.action code message action
    text (plain t) = t
    text (wrap before after e) = before ++ (text e ++ after)
    text (join es) = w.joined (texts es)

    pub texts : Trees → List Text
    texts nil = []
    texts (cons e es) = text e ∷ texts es

  -- The fresh error of a text that had to be scrubbed.
  unfoldable pub flatten : Tree → Text → Tree
  unfolding code_in
  flatten e clean = elim (code_in e) [
    | none ↦ plain clean
    | some code ↦ api_error false code clean none
  ]

  unfoldable pub redact_error : Option Text → Tree → Tree
  unfolding detach text texts scrub_messages scrub_quoted attached attached_in flatten
  redact_error token e =
      let e' = detach token e in
      let clean = scrub_quoted (scrub_messages token e' (text e')) in
      if same_text clean (text e') && not (attached e') then e' else flatten e' clean

  -- `redact`: the nil error stays nil.
  unfoldable pub redact : Option Text → Option Tree → Option Tree
  unfolding redact_error
  redact token none = none
  redact token (some e) = some (redact_error token e)
