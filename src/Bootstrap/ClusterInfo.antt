-- ===== src/Bootstrap/ClusterInfo.antt =====
-- internal/providers/bootstrap/clusterinfo.go: the endpoint and the CA pins that a node joins with.
-- A slice of bytes is a list of numbers below 256.
pub mod Pins
pub mod Blocks
pub mod Found
use Prim.Native.Char.{Char, code}
use Prim.Native.String
use karpenter_provider_hclou.Base.{
  ℕ, zero, suc, ◌+◌, ◌*◌, ◌/◌, ◌%◌, Bool, true, false, not, ◌&&◌, ◌||◌, Option, none, some, List,
  [], ◌∷◌, String, if◌then◌else◌, ◌==◌, leb, length, is_empty, nat_comparable, string_comparable,
}
use karpenter_provider_hclou.Base.Map.{Map, lookup}
use karpenter_provider_hclou.Base.Texts.{codes, byte_length, append_text, cut_prefix, char_at}
use karpenter_provider_hclou.Hcloudapi.Errors.{Error, errorf, wrapf, Result, ok, err}

abbrev pub cluster_info_namespace : String
cluster_info_namespace = "kube-public"

abbrev pub cluster_info_name : String
cluster_info_name = "cluster-info"

abbrev pub Bytes : Type 0
Bytes = List ℕ

-- An error of the cluster's API, with what package errors of apimachinery says of it.
pub record ApiError : Type 0 where
  pub error : Error
  pub is_not_found : Bool
  pub is_forbidden : Bool
  pub is_unauthorized : Bool
  pub is_bad_request : Bool

-- An error of `Refresh`: a `*ConfigError`, or any other.
pub data Failure : Type 0 where
  config_error : Error → Failure
  transient : Error → Failure

-- `asConfigError` of the error with the wrapping that `Refresh` gives it, through which apimachinery
-- looks.
unfoldable pub as_config_error : ApiError → Failure
as_config_error e =
    let wrapped =
      wrapf "reading %s/%s: %w" (cluster_info_namespace ∷ cluster_info_name ∷ []) e.error in
    if e.is_not_found || (e.is_forbidden || (e.is_unauthorized || e.is_bad_request))
    then config_error wrapped
    else transient wrapped

-- The cluster of a kubeconfig and what package url says of a server.
pub record Cluster : Type 0 where
  pub server : String
  pub certificate_authority_data : Bytes

pub record Url : Type 0 where
  pub host : String
  pub port : String

pub record Block : Type 0 where
  pub kind : String
  pub bytes : Bytes

-- The packages that read what the cluster publishes: clientcmd, net/url, encoding/pem, crypto/x509 and
-- crypto/sha256. The clusters of a kubeconfig stand in the order in which the `range` loop meets them,
-- a nil one is `none`.
pub record Decoding : Type 1 where
  pub PublicKey : Type 0
  pub load : String → Result (List (Option Cluster))
  pub parse_url : String → Result Url
  pub decode : Bytes → Option (Block × Bytes)
  pub parse_certificate : Bytes → Result PublicKey
  pub marshal_key : PublicKey → Result Bytes
  pub sum256 : Bytes → Bytes

abbrev pub hextable : String
hextable = "0123456789abcdef"

-- `hextable[n]`, for the halves of a byte.
unfoldable pub hex_digit : ℕ → Char
unfolding char_at
hex_digit n = elim (char_at hextable n) [ none ↦ "0" | some c ↦ c ]

-- `hex.EncodeToString`
unfoldable pub encode_hex : Bytes → String
unfolding hex_digit
encode_hex [] = ""
encode_hex (b ∷ bs) =
    String.◌∷◌ (hex_digit (b / 16)) (String.◌∷◌ (hex_digit (b % 16)) (encode_hex bs))

unfoldable pub is_hex : ℕ → Bool
is_hex c = (leb b'0' c && leb c b'9') || ((leb b'a' c && leb c b'f') || (leb b'A' c && leb c b'F'))

-- `_, err := hex.DecodeString(h)`, `err == nil`, of a text with an even number of bytes.
unfoldable pub decodes_hex : String → Bool
unfolding is_hex
decodes_hex String.[] = true
decodes_hex (String.◌∷◌ c s) = is_hex (code c) && decodes_hex s

-- `ValidHash`
unfoldable pub valid_hash : String → Bool
unfolding cut_prefix byte_length decodes_hex
valid_hash s = elim (cut_prefix s "sha256:") [
  | none ↦ false
  | some h ↦ (byte_length (codes h) == 64) && decodes_hex h
]

-- The pin of a hash.
unfoldable pub pin : Bytes → String
unfolding append_text encode_hex
pin sum = append_text "sha256:" (encode_hex sum)

module _ (d : Decoding) where
  open d use {load, parse_url, decode, parse_certificate, marshal_key, sum256}

  -- The body of the loop for a certificate.
  unfoldable pub hash_certificate : Bytes → Result String
  unfolding pin
  hash_certificate der = elim (parse_certificate der) [
    | err e ↦ err (wrapf "parsing CA certificate: %w" [] e)
    | ok key ↦ elim (marshal_key key) [
      | err e ↦ err (wrapf "marshalling CA public key: %w" [] e)
      | ok spki ↦ ok (pin (sum256 spki))
    ]
  ]

  -- The loop over the blocks with a number of rounds; `none` is a loop that has not ended.
  unfoldable pub collect_hashes : ℕ → Bytes → Option (Result (List String))
  unfolding hash_certificate
  collect_hashes zero rest = none
  collect_hashes (suc rounds) rest = elim (decode rest) [
    | none ↦ some (ok [])
    | some (block, rest') ↦
        let later = collect_hashes rounds rest' in
        if not (block.kind == "CERTIFICATE") then later else elim (hash_certificate block.bytes) [
          | err e ↦ some (err e)
          | ok hash ↦ elim later [
            | none ↦ none
            | some r ↦ elim r [ err e ↦ some (err e) | ok hashes ↦ some (ok (hash ∷ hashes)) ]
          ]
        ]
  ]

  -- `caCertHashes`: there are at most as many blocks as bytes.
  unfoldable pub ca_cert_hashes : Bytes → Result (List String)
  unfolding collect_hashes
  ca_cert_hashes ca_pem = elim (collect_hashes (suc (length ca_pem)) ca_pem) [
    | none ↦ err (errorf "the loop has not ended" [])
    | some r ↦ elim r [
      | err e ↦ err e
      | ok hashes ↦
          if is_empty hashes
          then err (errorf "no CERTIFICATE block in certificate-authority-data" [])
          else ok hashes
    ]
  ]

  -- `hostPort`
  unfoldable pub host_port : String → Result String
  unfolding append_text
  host_port server = elim (parse_url server) [
    | err e ↦ err (wrapf "parsing server URL %q: %w" (server ∷ []) e)
    | ok u ↦
        if u.host == ""
        then err (errorf "server URL %q has no host" (server ∷ []))
        else if u.port == ""
        then ok (append_text u.host ":6443")
        else ok u.host
  ]

  -- The `range` loop, which ends at the first cluster that is not nil.
  unfoldable pub first_cluster : List (Option Cluster) → Cluster
  first_cluster [] = record { server = ""; certificate_authority_data = [] }
  first_cluster (none ∷ clusters) = first_cluster clusters
  first_cluster (some c ∷ clusters) = c

  -- `parseClusterInfo`
  unfoldable pub parse_cluster_info : String → Result (String × List String)
  unfolding host_port ca_cert_hashes first_cluster
  parse_cluster_info raw = elim (load raw) [
    | err e ↦ err (wrapf "parsing cluster-info kubeconfig: %w" [] e)
    | ok clusters ↦
        let c = first_cluster clusters in
        if c.server == ""
        then err (errorf "cluster-info kubeconfig has no server" [])
        else if is_empty c.certificate_authority_data
        then err (errorf "cluster-info kubeconfig has no certificate-authority-data" [])
        else elim (host_port c.server) [
          | err e ↦ err e
          | ok endpoint ↦ elim (ca_cert_hashes c.certificate_authority_data) [
            | err e ↦ err e
            | ok hashes ↦ ok (endpoint, hashes)
          ]
        ]
  ]

-- `Discovery`: what it has cached.
pub record Discovery : Type 0 where
  pub endpoint : String
  pub hashes : List String

-- What the read of the ConfigMap answers: its data.
pub data ConfigMapAnswer : Type 0 where
  config_map : Map String → ConfigMapAnswer
  unread : ApiError → ConfigMapAnswer

-- `Refresh`: `none` is no error.
unfoldable pub refresh : Decoding → ConfigMapAnswer → Discovery → Option Failure × Discovery
unfolding as_config_error parse_cluster_info
refresh decoding (unread e) d = (some (as_config_error e), d)
refresh decoding (config_map entries) d = elim (lookup "kubeconfig" entries) [
  | none ↦ (
    some (
        config_error
          (errorf "%s/%s has no kubeconfig key" (cluster_info_namespace ∷ cluster_info_name ∷ []))),
    d,
  )
  | some raw ↦ elim (parse_cluster_info decoding raw) [
    | err e ↦ (some (config_error e), d)
    | ok (endpoint, hashes) ↦ (none, record { endpoint = endpoint; hashes = hashes })
  ]
]

-- `Get`
unfoldable pub get : Discovery → String × List String × Bool
get d =
    if d.endpoint == "" || is_empty d.hashes then ("", [], false) else (d.endpoint, d.hashes, true)

-- `Resolve`
unfoldable pub resolve : String → List String → Discovery → Result (String × List String)
unfolding get
resolve endpoint_override hash_override d =
    let (found_endpoint, found_hashes, found) = get d in
    let endpoint = if endpoint_override == "" then found_endpoint else endpoint_override in
    let hashes = if is_empty hash_override then found_hashes else hash_override in
    if endpoint == "" || is_empty hashes
    then if found
      then err (errorf "no API server endpoint or CA pin available" [])
      else err (errorf "cluster-info has not been read yet and no override was given" [])
    else ok (endpoint, hashes)
