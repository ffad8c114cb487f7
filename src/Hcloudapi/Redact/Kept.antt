-- ===== src/Hcloudapi/Redact/Kept.antt =====
-- What a redacted error has lost, and what it has kept.
use karpenter_provider_hclou.Base.{
  ◌≡◌, ◌⊎◌, refl, inl, inr, Bool, true, false, not, ◌&&◌, Option, some, none, arith, Bool-cases,
  Option-cases,
}
use karpenter_provider_hclou.Base.Texts.{Text}
use karpenter_provider_hclou.Hcloudapi.Errors.{ErrorCode}
use karpenter_provider_hclou.Hcloudapi.Redact.{
  Tree, api_error, action_error, plain, wrap, join, Wording, code_in, attached, rebuild, detach,
  text, flatten, redact_error, same_text, scrub_messages,
}
use karpenter_provider_hclou.Hcloudapi.Scrub.{scrub_quoted}

rebuild-code :
    (token : Option Text) (e : Tree) (c : ErrorCode)
    → code_in e ≡ some c
    → (rebuild token e ≡ none) ⊎ ((e' : Tree) × (rebuild token e ≡ some e') × (code_in e' ≡ some c))
unfolding code_in rebuild
rebuild-code token (api_error true code message response) c h = absurd (ground arith)
rebuild-code token (api_error false code message response) c h = inr (_, refl, h)
rebuild-code token (action_error true code message action) c h = absurd (ground arith)
rebuild-code token (action_error false code message action) c h = inr (_, refl, h)
rebuild-code token (plain t) c h = absurd (ground arith)
rebuild-code token (wrap before after e) c h = rebuild-code token e c h
rebuild-code token (join es) c h = inl refl

detach-code :
    (token : Option Text) (e : Tree) (c : ErrorCode)
    → code_in e ≡ some c
    → code_in (detach token e) ≡ some c
unfolding detach
detach-code token e c h = elim (rebuild-code token e c h) [
  | inl kept ↦ rw (kept, detach) h
  | inr (e', found, same) ↦ rw (found, detach) same
]

second_false : (a b : Bool) → (a && not b) ≡ true → b ≡ false
second_false a b h = ground arith

module _ (w : Wording) where
  flatten-code :
      (e : Tree) (clean : Text) (c : ErrorCode)
      → code_in e ≡ some c
      → code_in (flatten w e clean) ≡ some c
  unfolding flatten code_in
  flatten-code e clean c h = rw (h, flatten) refl

  flatten-attached : (e : Tree) (clean : Text) → attached (flatten w e clean) ≡ false
  unfolding flatten attached
  flatten-attached e clean = elim (Option-cases (code_in e)) [
    | inl unknown ↦ rw (unknown, flatten) refl
    | inr (c, known) ↦ rw (known, flatten) refl
  ]

  -- Whatever an error wraps, a redacted error has no response and no action of Hetzner anywhere in its
  -- tree, and where the error had a code, as `Code` finds it, it has the same code.
  pub redact_error-kept :
      (token : Option Text) (e : Tree)
      → (attached (redact_error w token e) ≡ false)
        × ((c : ErrorCode) → code_in e ≡ some c → code_in (redact_error w token e) ≡ some c)
  unfolding redact_error
  redact_error-kept token e =
      let e' = detach token e in
      let clean = scrub_quoted (scrub_messages token e' (text w e')) in
      elim (Bool-cases (same_text clean (text w e') && not (attached e'))) [
        | inl fine ↦ rw (fine, redact_error) (second_false _ _ fine, λ c h. detach-code token e c h)
        | inr scrubbed ↦
            rw (scrubbed, redact_error)
              (flatten-attached e' clean, λ c h. flatten-code e' clean c (detach-code token e c h))
      ]
