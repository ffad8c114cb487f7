-- ===== src/Tests/Secrets.antt =====
-- The API token of Hetzner: what messages show of it.
use karpenter_provider_hclou.Base.{◌≡◌, refl, false, some, []}
use karpenter_provider_hclou.Base.Texts.{Text, codes}
use karpenter_provider_hclou.Hcloudapi.Client.{new_client_from_env}
use karpenter_provider_hclou.Hcloudapi.Client.Silent.{scrub-new_client_from_env}
use karpenter_provider_hclou.Hcloudapi.Errors.{ErrorCode, ok, unauthorized}
use karpenter_provider_hclou.Hcloudapi.Redact.{
  Tree, api_error, wrap, plain, cons, nil, join, Wording, code_in, attached, redact_error,
}
use karpenter_provider_hclou.Hcloudapi.Redact.Kept.{redact_error-kept}
use karpenter_provider_hclou.Hcloudapi.Scrub.{scrub}
use karpenter_provider_hclou.Hcloudapi.Scrub.Quoted.{Echoes}

-- Sixty-four characters.
abbrev pub token : Text
token = codes "abcdefghijklmnopqrstuvwxyzABCDEFGHIJKLMNOPQRSTUVWXYZ0123456789ab"

abbrev message : Text
message = codes "unable to authenticate: token 'short' and efghijklmnopqrstuvwxyzAB are invalid"

scrubbed :
    scrub (some token) message
    ≡ codes "unable to authenticate: token '[redacted]' and [redacted] are invalid"
unfolding scrub
scrubbed = refl

accepted : new_client_from_env token ≡ ok token
unfolding new_client_from_env
accepted = refl

scrub-new_client_from_env_example : ¬ Echoes token (scrub (some token) message)
scrub-new_client_from_env_example = scrub-new_client_from_env token token message accepted

abbrev pub wording : Wording
wording = record {
  api = λ code message response. message;
  action = λ code message action. message;
  joined = λ texts. [];
}

abbrev refused : Tree
refused = join (
    cons (plain (codes "first")) (
      cons (wrap (codes "listing: ") [] (api_error false unauthorized message (some (codes "c-1"))))
        nil))

redact_error-kept_example :
    (attached (redact_error wording (some token) refused) ≡ false)
    × ((c : ErrorCode)
        → code_in refused ≡ some c
        → code_in (redact_error wording (some token) refused) ≡ some c)
redact_error-kept_example = redact_error-kept wording (some token) refused
