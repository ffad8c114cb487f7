-- ===== src/Bootstrap/Token.antt =====
-- internal/providers/bootstrap/token.go: the join token of a NodeClaim.
pub mod Owned
use Prim.Native.Char.{Char, code}
use Prim.Native.String
use karpenter_provider_hclou.Base.{
  ℕ, zero, suc, ◌+◌, ◌*◌, ◌/◌, Option, none, some, List, [], ◌∷◌, String, if◌then◌else◌, ◌==◌,
  nat_comparable, string_comparable,
}
use karpenter_provider_hclou.Base.Map.{Map}
use karpenter_provider_hclou.Base.Texts.{append_text, char_at}
use karpenter_provider_hclou.Hcloudapi.Errors.{Error, errorf, wrapf, Result, ok, err}
use karpenter_provider_hclou.Karpenter.{NodeClaim}

abbrev pub token_namespace : String
token_namespace = "kube-system"

abbrev pub default_token_ttl : ℕ
default_token_ttl = 30 * 60 * 1_000_000_000

abbrev pub token_id_length : ℕ
token_id_length = 6

abbrev pub token_secret_length : ℕ
token_secret_length = 16

abbrev pub token_alphabet : String
token_alphabet = "abcdefghijklmnopqrstuvwxyz0123456789"

abbrev pub token_alphabet_length : ℕ
token_alphabet_length = 36

pub record OwnerReference : Type 0 where
  pub api_version : String
  pub kind : String
  pub name : String
  pub uid : String

-- The Secret of a token. `expiration` is the instant that its text says, in whole seconds.
pub record Secret : Type 0 where
  pub namespace : String
  pub name : String
  pub labels : Map String
  pub owner_references : List OwnerReference
  pub secret_type : String
  pub token_id : String
  pub token_secret : String
  pub expiration : ℕ
  pub description : String
  pub usages : Map String

-- The cluster's API for Secrets, the clock, and `rand.Int` of crypto/rand, which draws below its bound,
-- over a state of the world.
pub record Minting : Type 1 where
  pub World : Type 0
  pub now : World → ℕ
  pub draw : ℕ → World → Result ℕ × World
  pub create : Secret → World → Result (Unit {0}) × World
  pub delete : String → String → World → Result (Unit {0}) × World

-- `TokenID`: the text before a dot at the place where the id ends.
unfoldable pub split_token : ℕ → String → Option String
split_token n String.[] = none
split_token zero (String.◌∷◌ c s) = if code c == b'.' then some "" else none
split_token (suc n) (String.◌∷◌ c s) = elim (split_token n s) [
  | none ↦ none
  | some id ↦ some (String.◌∷◌ c id)
]

unfoldable pub token_id_of : String → String
unfolding split_token
token_id_of token = elim (split_token token_id_length token) [ none ↦ "" | some id ↦ id ]

unfoldable pub secret_name : String → String
unfolding append_text
secret_name id = append_text "bootstrap-token-" id

module _ (m : Minting) where
  open m use {World, now, draw, create, delete}

  -- `randomString`
  unfoldable pub random_string : ℕ → World → Result String × World
  unfolding char_at
  random_string zero w = (ok "", w)
  random_string (suc n) w =
      let (drawn, w') = draw token_alphabet_length w in
      elim drawn [
        | err e ↦ (err (wrapf "generating token: %w" [] e), w')
        | ok i ↦
            let (rest, w'') = random_string n w' in
            elim (char_at token_alphabet i) [
              | none ↦ (err (errorf "panic: index out of range" []), w')
              | some c ↦ elim rest [ err e ↦ (err e, w'') | ok s ↦ (ok (String.◌∷◌ c s), w'') ]
            ]
      ]

  -- The Secret of an id and a secret, for a claim, at an instant.
  unfoldable pub token_secret_of :
      {R : Type 0} → ℕ → NodeClaim R → String → String → String → ℕ → Secret
  unfolding secret_name append_text
  token_secret_of ttl node_claim cluster_name id secret at = record {
    namespace = token_namespace;
    name = secret_name id;
    labels =
        ("karpenter.sh/managed-by", cluster_name)
        ∷ ("karpenter.itsh.dev/nodeclaim", node_claim.name)
        ∷ [];
    owner_references =
        record {
          api_version = "karpenter.sh/v1";
          kind = "NodeClaim";
          name = node_claim.name;
          uid = node_claim.uid;
        }
        ∷ [];
    secret_type = "bootstrap.kubernetes.io/token";
    token_id = id;
    token_secret = secret;
    expiration = (at + ttl) / 1_000_000_000 * 1_000_000_000;
    description = append_text "karpenter " node_claim.name;
    usages =
        ("usage-bootstrap-authentication", "true")
        ∷ ("usage-bootstrap-signing", "true")
        ∷ ("auth-extra-groups", "system:bootstrappers:kubeadm:default-node-token")
        ∷ [];
  }

  -- `Mint` with both halves of the token drawn.
  unfoldable pub store_token :
      {R : Type 0} → ℕ → NodeClaim R → String → String → String → World → Result String × World
  unfolding token_secret_of append_text
  store_token ttl node_claim cluster_name id secret w =
      let (r, w') = create (token_secret_of ttl node_claim cluster_name id secret (now w)) w in
      elim r [
        | err e ↦ (err (wrapf "creating bootstrap token: %w" [] e), w')
        | ok done ↦ (ok (append_text id (append_text "." secret)), w')
      ]

  -- `Mint` of a claim that is there.
  unfoldable pub mint : {R : Type 0} → ℕ → NodeClaim R → String → World → Result String × World
  unfolding random_string store_token
  mint ttl node_claim cluster_name w =
      if node_claim.name == ""
      then (err (errorf "a named NodeClaim is required to own the token" []), w)
      else if node_claim.uid == ""
      then (
        err (
            errorf "NodeClaim %s has no UID; the token would not be garbage collected"
              (node_claim.name ∷ [])),
        w,
      )
      else (let (drawn_id, w') = random_string token_id_length w in
          elim drawn_id [
            | err e ↦ (err e, w')
            | ok id ↦
                let (drawn, w'') = random_string token_secret_length w' in
                elim drawn [
                  | err e ↦ (err e, w'')
                  | ok secret ↦ store_token ttl node_claim cluster_name id secret w''
                ]
          ])

  -- `Revoke`
  unfoldable pub revoke : String → World → Result (Unit {0}) × World
  unfolding secret_name
  revoke id w =
      let (r, w') = delete token_namespace (secret_name id) w in
      elim r [
        | err e ↦ (err (wrapf "deleting bootstrap token: %w" [] e), w')
        | ok done ↦ (ok tt, w')
      ]
