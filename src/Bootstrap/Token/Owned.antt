-- ===== src/Bootstrap/Token/Owned.antt =====
-- Whose a token is, how long it lives, and how it is found again.

use mathlib.Core.Path.{subst}
use karpenter_provider_hclou.Base.{
  ℕ, zero, suc, ◌+◌, ◌≤◌, ◌<◌, ◌≡◌, ◌≢◌, refl, sym, inl, inr, some, [], ◌∷◌, String, arith,
  Bool-cases, Option-cases, ◌==◌, nat_comparable, string_comparable, eq_iff, ap, ◌∙◌,
}
use karpenter_provider_hclou.Base.Texts.{append_text, char_at}
use karpenter_provider_hclou.Bootstrap.Token.{
  token_id_length, token_secret_length, token_alphabet, token_alphabet_length, Secret, Minting,
  split_token, token_id_of, secret_name, random_string, token_secret_of, store_token, mint,
}
use karpenter_provider_hclou.Hcloudapi.Errors.{ok, Result-cases, ok_injective, err-ne-ok}
use karpenter_provider_hclou.Karpenter.{NodeClaim}

module _ (m : Minting) where
  open m use {World, now, draw, create}

  -- A drawn text in front of a dot is found again by its length.
  split_token-random_string :
      (n : ℕ) (w : World) (s t : String)
      → (random_string m n w).0 ≡ ok s
      → split_token n (append_text s (append_text "." t)) ≡ some s
  unfolding random_string split_token append_text
  split_token-random_string zero w s t h = subst (Found zero t) (ok_injective h) refl
    where
      Found : ℕ → String → String → Type 0
      Found n t s = split_token n (append_text s (append_text "." t)) ≡ some s
  split_token-random_string (suc n) w s t h = elim (Result-cases (draw token_alphabet_length w).0) [
    | inr (e, failed) ↦ absurd (err-ne-ok (rw (failed, random_string) at h))
    | inl (i, drawn) ↦
        let w' = (draw token_alphabet_length w).1 in
        elim (Option-cases (char_at token_alphabet i)) [
          | inl outside ↦ absurd (err-ne-ok (rw (drawn, outside, random_string) at h))
          | inr (c, letter) ↦ elim (Result-cases (random_string m n w').0) [
            | inr (e, failed) ↦ absurd (err-ne-ok (rw (drawn, letter, failed, random_string) at h))
            | inl (rest, later) ↦
                subst (Found (suc n) t)
                  (ok_injective (rw (drawn, letter, later, random_string) at h))
                  (rw (split_token-random_string n w' rest t later, split_token) refl)
          ]
        ]
  ]
    where
      Found : ℕ → String → String → Type 0
      Found n t s = split_token n (append_text s (append_text "." t)) ≡ some s

  -- The Secret behind a token: it was stored, the token names it, the claim owns it, so that it goes
  -- when the claim does, and it expires when the time to live is over, to the second.
  pub record IsMinted {R : Type 0} (ttl : ℕ) (node_claim : NodeClaim R) (token : String)
      (secret : Secret) (before after : World) : Type 0 where
    pub stored : create secret before ≡ (ok tt, after)
    pub named : secret.name ≡ secret_name (token_id_of token)
    pub halves : token ≡ append_text secret.token_id (append_text "." secret.token_secret)
    pub owner :
        secret.owner_references
        ≡ record {
          api_version = "karpenter.sh/v1";
          kind = "NodeClaim";
          name = node_claim.name;
          uid = node_claim.uid;
        }
          ∷ []
    pub has_uid : node_claim.uid ≢ ""
    pub lives :
        (secret.expiration ≤ now before + ttl)
        × (now before + ttl < secret.expiration + 1_000_000_000)

  -- A token comes out when the Secret goes in.
  store_token-create :
      {R : Type 0} (ttl : ℕ) (node_claim : NodeClaim R) (cluster_name id secret token : String)
      (w : World)
      → (store_token m ttl node_claim cluster_name id secret w).0 ≡ ok token
      → (create (token_secret_of m ttl node_claim cluster_name id secret (now w)) w
          ≡ (ok tt, (store_token m ttl node_claim cluster_name id secret w).1))
        × (token ≡ append_text id (append_text "." secret))
  unfolding store_token
  store_token-create ttl node_claim cluster_name id secret token w h =
      let stored = token_secret_of m ttl node_claim cluster_name id secret (now w) in
      elim (Result-cases (create stored w).0) [
        | inr (e, failed) ↦ absurd (err-ne-ok (rw (failed, store_token) at h))
        | inl (done, fine) ↦
            (λ i. (fine i, after done fine i), sym (ok_injective (rw (fine, store_token) at h)))
      ]
    where
      after :
          (done : Unit {0})
          → (create (token_secret_of m ttl node_claim cluster_name id secret (now w)) w).0 ≡ ok done
          → (create (token_secret_of m ttl node_claim cluster_name id secret (now w)) w).1
            ≡ (store_token m ttl node_claim cluster_name id secret w).1
      after done fine = rw (fine, store_token) refl

  token_id_of-append_text :
      (id secret : String)
      → split_token token_id_length (append_text id (append_text "." secret)) ≡ some id
      → token_id_of (append_text id (append_text "." secret)) ≡ id
  unfolding token_id_of
  token_id_of-append_text id secret found = rw (found, token_id_of) refl

  store_token-IsMinted :
      {R : Type 0} (ttl : ℕ) (node_claim : NodeClaim R) (cluster_name id secret token : String)
      (w : World)
      → split_token token_id_length (append_text id (append_text "." secret)) ≡ some id
      → node_claim.uid ≢ ""
      → (store_token m ttl node_claim cluster_name id secret w).0 ≡ ok token
      → IsMinted ttl node_claim token
          (token_secret_of m ttl node_claim cluster_name id secret (now w))
          w
          (store_token m ttl node_claim cluster_name id secret w).1
  unfolding token_secret_of
  store_token-IsMinted ttl node_claim cluster_name id secret token w found has_uid h =
      let (stored, halves) = store_token-create ttl node_claim cluster_name id secret token w h in
      record {
        stored = stored;
        named =
            ap secret_name (sym (ap token_id_of halves ∙ token_id_of-append_text id secret found));
        halves = halves;
        owner = refl;
        has_uid = has_uid;
        lives = (omega arith, omega arith);
      }

  -- A token is given out only by storing its Secret, in the cluster's API and as the last thing done:
  -- the Secret is found by the first half of the token, its only owner is the claim by a UID that is
  -- not empty, and it expires with the time to live, cut to a whole second.
  pub mint-IsMinted :
      {R : Type 0} (ttl : ℕ) (node_claim : NodeClaim R) (cluster_name token : String) (w : World)
      → (mint m ttl node_claim cluster_name w).0 ≡ ok token
      → (secret : Secret) × (before : World) × IsMinted ttl node_claim token secret before
          (mint m ttl node_claim cluster_name w).1
  unfolding mint
  mint-IsMinted ttl node_claim cluster_name token w h = elim (Bool-cases (node_claim.name == "")) [
    | inl unnamed ↦ absurd (err-ne-ok (rw (unnamed, mint) at h))
    | inr named ↦ elim (Bool-cases (node_claim.uid == "")) [
      | inl missing ↦ absurd (err-ne-ok (rw (named, missing, mint) at h))
      | inr known ↦ elim (Result-cases (random_string m token_id_length w).0) [
        | inr (e, failed) ↦ absurd (err-ne-ok (rw (named, known, failed, mint) at h))
        | inl (id, drawn_id) ↦
            let w' = (random_string m token_id_length w).1 in
            elim (Result-cases (random_string m token_secret_length w').0) [
              | inr (e, failed) ↦
                  absurd (err-ne-ok (rw (named, known, drawn_id, failed, mint) at h))
              | inl (secret, drawn) ↦
                  let w'' = (random_string m token_secret_length w').1 in
                  (
                    token_secret_of m ttl node_claim cluster_name id secret (now w''),
                    w'',
                    subst
                        (IsMinted ttl node_claim token
                          (token_secret_of m ttl node_claim cluster_name id secret (now w'')) w'')
                        (rw (named, known, drawn_id, drawn, mint) refl)
                        (store_token-IsMinted ttl node_claim cluster_name id secret token w''
                          (split_token-random_string token_id_length w id secret drawn_id)
                          (λ empty. ground (arith, eq_iff node_claim.uid ""))
                          (rw (named, known, drawn_id, drawn, mint) at h)),
                  )
            ]
      ]
    ]
  ]
