-- ===== src/Hcloudapi/Adapter/Classified.antt =====
-- What the callers of `serverClient` can still tell of a failure.
use karpenter_provider_hclou.Base.{
  ℕ, ◌⊎◌, List, ◌∷◌, [], ◌≡◌, refl, sym, ◌∙◌, inl, inr, false, some, String, arith, Option-cases,
  Bool-cases,
}
use karpenter_provider_hclou.Hcloudapi.Adapter.{
  ServerClient, redacted, create, settle, delete, reset, server_error, is_code_not_found,
}
use karpenter_provider_hclou.Hcloudapi.Conversion.{create_opts}
use karpenter_provider_hclou.Hcloudapi.Errors.{
  ErrorCode, Error, wrapf, api_error, classify, err, code_of, as_api_error, as_action_error,
  is_not_found,
}
use karpenter_provider_hclou.Hcloudapi.Hcloud.{HcloudServer, ServerCreateResult, answered, failed}
use karpenter_provider_hclou.Hcloudapi.Redact.{Tree, code_in, find_api, find_action, redact_error}
use karpenter_provider_hclou.Hcloudapi.Redact.Kept.{redact_error-kept}
use karpenter_provider_hclou.Hcloudapi.Servers.{CreateServerRequest}

classify-code :
    (x : Error) (code : ErrorCode)
    → code_of x ≡ some code
    → classify (some x) ≡ classify (some (api_error code ""))
unfolding classify code_of as_api_error
classify-code x code h = rw (h, classify) refl

-- What `Delete` and `Reset` say of a failure `e`.
pub record Told (e : Tree) (x : Error) : Type 0 where
  pub gone : is_not_found x ≡ is_code_not_found (find_api e)
  pub coded :
      is_not_found x ≡ false → (code : ErrorCode) → code_in e ≡ some code → code_of x ≡ some code

module _ (s : ServerClient) where
  open s.api use {Cloud, server_create, wait_for, server_delete, server_reset}

  redacted-code_in :
      (e : Tree) → code_of (redacted s e) ≡ code_in (redact_error s.wording s.token e)
  unfolding code_of as_api_error as_action_error redacted code_in
  redacted-code_in e =
      let e' = redact_error s.wording s.token e in
      elim (Option-cases (find_api e')) [
        | inr (code, api) ↦ rw (api, redacted, code_in) refl
        | inl synchronous ↦ elim (Option-cases (find_action e')) [
          | inr (code, action) ↦ rw (synchronous, action, redacted, code_in) refl
          | inl unknown ↦ rw (synchronous, unknown, redacted, code_in) refl
        ]
      ]

  redacted-is_not_found : (e : Tree) → is_not_found (redacted s e) ≡ false
  unfolding redacted is_not_found
  redacted-is_not_found e =
      let e' = redact_error s.wording s.token e in
      elim (Option-cases (find_api e')) [
        | inr (code, api) ↦ rw (api, redacted) refl
        | inl synchronous ↦ elim (Option-cases (find_action e')) [
          | inr (code, action) ↦ rw (synchronous, action, redacted) refl
          | inl unknown ↦ rw (synchronous, unknown, redacted) refl
        ]
      ]

  redacted-code : (e : Tree) (c : ErrorCode) → code_in e ≡ some c → code_of (redacted s e) ≡ some c
  redacted-code e c h = redacted-code_in e ∙ (redact_error-kept s.wording s.token e).1 c h

  -- Go's `%w` adds no code and hides none.
  wrapf-code :
      (fmt : String) (args : List String) (e : Tree) (c : ErrorCode)
      → code_in e ≡ some c
      → code_of (wrapf fmt args (redacted s e)) ≡ some c
  unfolding code_of as_api_error as_action_error
  wrapf-code fmt args e c h = redacted-code e c h

  -- What failed: the creation, or the wait for what it started.
  abbrev pub FailedWith : CreateServerRequest → Cloud → Tree → Type 0
  FailedWith req c e =
      ((server_create (create_opts req) c).0 ≡ failed e)
      ⊎ ((result : ServerCreateResult) × (srv : HcloudServer) × ((server_create (create_opts req)
              c).0
            ≡ answered result)
          × (result.server ≡ some srv)
          × ((wait_for s.timeout (result.action ∷ result.next_actions)
                (server_create (create_opts req) c).1).0
              ≡ failed e))

  -- A creation that is refused with a code, and one that fails with a code while `Create` waits for
  -- it, both come back as an error with that code: neither redaction nor wrapping nor the clean-up
  -- takes the code away, so the error is classified by it.
  pub create-coded :
      (req : CreateServerRequest) (c : Cloud) (e : Tree) (code : ErrorCode)
      → FailedWith req c e
      → code_in e ≡ some code
      → (x : Error) × ((create s req c).0 ≡ err x)
        × (code_of x ≡ some code)
        × (classify (some x) ≡ classify (some (api_error code "")))
  unfolding create settle
  create-coded req c e code (inl refused) h =
      let coded = wrapf-code "creating server %q: %w" (req.name ∷ []) e code h in
      (
        wrapf "creating server %q: %w" (req.name ∷ []) (redacted s e),
        rw (refused, create) refl,
        coded,
        classify-code _ code coded,
      )
  create-coded req c e code (inr (result, srv, answer, returned, stuck)) h =
      let coded = wrapf-code "waiting for server %q to be created: %w" (req.name ∷ []) e code h in
      (
        wrapf "waiting for server %q to be created: %w" (req.name ∷ []) (redacted s e),
        rw (answer, returned, create, stuck, settle) refl,
        coded,
        classify-code _ code coded,
      )

  server_error-Told : (fmt : String) (id : ℕ) (e : Tree) → Told e (server_error s fmt id e)
  unfolding server_error is_not_found
  server_error-Told fmt id e = elim (Bool-cases (is_code_not_found (find_api e))) [
    | inl missing ↦
        rw (missing, server_error)
          (record { gone = sym missing; coded = λ h. absurd (ground arith) })
    | inr other ↦
        rw (other, server_error)
          (record {
            gone = redacted-is_not_found e ∙ sym other;
            coded = λ _ code h. wrapf-code fmt _ e code h;
          })
  ]

  -- Where Hetzner refuses to delete or to reset a server, the error is a not-found exactly where the
  -- API's code is not_found, and otherwise has the code of the refusal.
  pub delete_reset-Told :
      (id : ℕ) (c : Cloud) (e : Tree)
      → ((server_delete id c).0 ≡ failed e → (x : Error) × ((delete s id c).0 ≡ err x) × Told e x)
        × ((server_reset id c).0 ≡ failed e → (x : Error) × ((reset s id c).0 ≡ err x) × Told e x)
  unfolding delete reset
  delete_reset-Told id c e = (
    λ refused. (
      server_error s "deleting server %d: %w" id e,
      rw (refused, delete) refl,
      server_error-Told _ id e,
    ),
    λ refused. (
      server_error s "resetting server %d: %w" id e,
      rw (refused, reset) refl,
      server_error-Told _ id e,
    ),
  )
