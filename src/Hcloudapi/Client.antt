-- ===== src/Hcloudapi/Client.antt =====
-- internal/hcloudapi/client.go: what `NewClientFromEnv` accepts for a token. Of the client that it
-- builds, the token is kept, which is also what `apiToken` holds from then on.
pub mod Silent
use karpenter_provider_hclou.Base.{
  ℕ, ◌+◌, Bool, not, ◌||◌, ◌&&◌, Option, none, some, [], ◌∷◌, String, is_empty, if◌then◌else◌, ltb,
  leb, ◌==◌, nat_comparable,
}
use karpenter_provider_hclou.Hcloudapi.Errors.{Result, ok, err, errorf}
use karpenter_provider_hclou.Hcloudapi.ProviderId.{format_int}
use karpenter_provider_hclou.Base.Texts.{Text, width, byte_length}

abbrev pub token_env_var : String
token_env_var = "HCLOUD_TOKEN"

abbrev pub token_length : ℕ
token_length = 64

unfoldable pub is_alphanumeric : ℕ → Bool
is_alphanumeric c =
    (leb b'a' c && leb c b'z') || ((leb b'A' c && leb c b'Z') || (leb b'0' c && leb c b'9'))

-- `strings.IndexFunc`, from a byte position on.
unfoldable pub index_bad : ℕ → Text → Option ℕ
unfolding is_alphanumeric width
index_bad i [] = none
index_bad i (c ∷ s) =
    let rest = index_bad (i + width c) s in if not (is_alphanumeric c) then some i else rest

-- `NewClientFromEnv`, with the value of the variable.
unfoldable pub new_client_from_env : Text → Result Text
unfolding byte_length index_bad
new_client_from_env token =
    if is_empty token
    then err (errorf "%s is not set" (token_env_var ∷ []))
    else if not (byte_length token == token_length)
    then err (
        errorf
          "%s is %d characters, expected %d; check the secret for a truncated value or trailing whitespace"
          (token_env_var ∷ format_int (byte_length token) ∷ format_int token_length ∷ []))
    else elim (index_bad 0 token) [
      | some i ↦ err (
          errorf
            "%s contains a non-alphanumeric character at position %d; check the secret for a newline or a copied-in quote"
            (token_env_var ∷ format_int i ∷ []))
      | none ↦ ok token
    ]
