-- ===== src/Hcloudapi/Client/Silent.antt =====
-- That no message shows the token of the client.
use mathlib.Core.Path.{subst}
use karpenter_provider_hclou.Base.{
  ℕ, ◌+◌, ◌≡◌, inl, inr, none, some, [], ◌∷◌, arith, Bool-cases, Option-cases, nat_comparable,
}
use karpenter_provider_hclou.Base.Texts.{Text, width}
use karpenter_provider_hclou.Hcloudapi.Client.{is_alphanumeric, index_bad, new_client_from_env}
use karpenter_provider_hclou.Hcloudapi.Errors.{ok}
use karpenter_provider_hclou.Hcloudapi.Scrub.{scrub}
use karpenter_provider_hclou.Hcloudapi.Scrub.Echo.{IsPlain}
use karpenter_provider_hclou.Hcloudapi.Scrub.Quoted.{Echoes, scrub-silent}

index_bad-IsPlain : (i : ℕ) (s : Text) → index_bad i s ≡ none → IsPlain s
unfolding index_bad is_alphanumeric
index_bad-IsPlain i [] h = tt
index_bad-IsPlain i (c ∷ s) h = elim (Bool-cases (is_alphanumeric c)) [
  | inr bad ↦ absurd (ground arith)
  | inl good ↦ (
    (λ e. absurd (ground arith), λ e. absurd (ground arith), λ e. absurd (ground arith)),
    index_bad-IsPlain (i + width c) s (ground arith),
  )
]

-- An accepted token is the value of the variable, and plain.
new_client_from_env-IsPlain :
    (env token : Text) → new_client_from_env env ≡ ok token → (env ≡ token) × IsPlain env
unfolding new_client_from_env
new_client_from_env-IsPlain env token h = elim (Option-cases (index_bad 0 env)) [
  | inl none_bad ↦ (ground arith, index_bad-IsPlain 0 env none_bad)
  | inr (i, bad) ↦ absurd (ground arith)
]

-- Of a token that the client was built with, no scrubbed message of Hetzner shows twelve characters in a
-- row, from whatever part of the token and whatever the message says.
pub scrub-new_client_from_env :
    (env token msg : Text)
    → new_client_from_env env ≡ ok token
    → ¬ Echoes token (scrub (some token) msg)
scrub-new_client_from_env env token msg h =
    let (same, plain) = new_client_from_env-IsPlain env token h in
    scrub-silent token msg (subst IsPlain same plain)
