-- ===== src/Bootstrap/ClusterInfo/Found.antt =====
-- What `Discovery` caches and what it resolves to.
use mathlib.Core.Path.{subst}
use Prim.Native.Char.{Char}
use Prim.Native.String.{String}
use karpenter_provider_hclou.Base.{
  ◌≡◌, ◌⊎◌, refl, inl, inr, Bool, true, false, ◌||◌, List, [], arith, is_empty, if◌then◌else◌,
  Option-cases, Bool-cases, ◌==◌, string_comparable, eq_iff,
}
use karpenter_provider_hclou.Base.Map.{lookup}
use karpenter_provider_hclou.Base.Texts.{append_text}
use karpenter_provider_hclou.Bootstrap.ClusterInfo.{
  Decoding, ConfigMapAnswer, config_map, unread, Discovery, host_port, ca_cert_hashes,
  first_cluster, parse_cluster_info, refresh, get, resolve,
}
use karpenter_provider_hclou.Bootstrap.ClusterInfo.Blocks.{
  IsDecoding, AreValid, ca_cert_hashes-valid,
}
use karpenter_provider_hclou.Hcloudapi.Errors.{
  Error, errorf, ok, err, Result-cases, ok_injective, err-ne-ok,
}

-- An endpoint with its pins.
abbrev pub IsJoin : String → List String → Type 0
IsJoin endpoint hashes = ((endpoint == "") ≡ false) × (is_empty hashes ≡ false)

-- Nothing is cached, or a whole pair whose pins have the form that kubeadm takes.
abbrev pub IsDiscovered : Decoding → Discovery → Type 0
IsDiscovered decoding d =
    ((d.endpoint ≡ "") × (d.hashes ≡ []))
    ⊎ (IsJoin d.endpoint d.hashes × AreValid decoding d.hashes)

append_text-nonempty : (s t : String) → (s == "") ≡ false → (append_text s t == "") ≡ false
unfolding append_text
append_text-nonempty String.[] t h = absurd (ground arith)
append_text-nonempty (String.◌∷◌ c s) t h =
    elim (Bool-cases (String.◌∷◌ c (append_text s t) == "")) [
      | inl empty ↦ absurd (apart ((eq_iff (String.◌∷◌ c (append_text s t)) "").0 empty))
      | inr there ↦ there
    ]
  where
    apart : {c : Char} {s : String} → String.◌∷◌ c s ≡ "" → ⊥
    apart e = cc

module _ (decoding : Decoding) where
  host_port-nonempty :
      (server endpoint : String)
      → host_port decoding server ≡ ok endpoint
      → (endpoint == "") ≡ false
  unfolding host_port
  host_port-nonempty server endpoint h = elim (Result-cases (decoding.parse_url server)) [
    | inr (e, failed) ↦ absurd (err-ne-ok (rw (failed, host_port) at h))
    | inl (u, parsed) ↦ elim (Bool-cases (u.host == "")) [
      | inl missing ↦ absurd (err-ne-ok (rw (parsed, missing, host_port) at h))
      | inr there ↦ elim (Bool-cases (u.port == "")) [
        | inl standard ↦
            subst (λ s. (s == "") ≡ false)
              (ok_injective (rw (parsed, there, standard, host_port) at h))
              (append_text-nonempty u.host ":6443" there)
        | inr given ↦
            subst (λ s. (s == "") ≡ false)
              (ok_injective (rw (parsed, there, given, host_port) at h)) there
      ]
    ]
  ]

  parse_cluster_info-IsJoin :
      IsDecoding decoding
      → (raw : String) (found : String × List String) → parse_cluster_info decoding raw ≡ ok found
      → IsJoin found.0 found.1 × AreValid decoding found.1
  unfolding parse_cluster_info
  parse_cluster_info-IsJoin good raw found h = elim (Result-cases (decoding.load raw)) [
    | inr (e, failed) ↦ absurd (err-ne-ok (rw (failed, parse_cluster_info) at h))
    | inl (clusters, loaded) ↦
        let c = first_cluster decoding clusters in
        elim (Bool-cases (c.server == "")) [
          | inl homeless ↦ absurd (err-ne-ok (rw (loaded, homeless, parse_cluster_info) at h))
          | inr served ↦ elim (Bool-cases (is_empty c.certificate_authority_data)) [
            | inl bare ↦ absurd (err-ne-ok (rw (loaded, served, bare, parse_cluster_info) at h))
            | inr certified ↦ elim (Result-cases (host_port decoding c.server)) [
              | inr (e, failed) ↦
                  absurd
                    (err-ne-ok (rw (loaded, served, certified, failed, parse_cluster_info) at h))
              | inl (endpoint, located) ↦
                  elim (Result-cases (ca_cert_hashes decoding c.certificate_authority_data)) [
                    | inr (e, failed) ↦ absurd (
                        err-ne-ok (
                          rw (loaded, served, certified, located, failed, parse_cluster_info) at h))
                    | inl (hashes, hashed) ↦
                        let (some_hash, valid) =
                          ca_cert_hashes-valid decoding good c.certificate_authority_data hashes
                            hashed in
                        subst (λ p. IsJoin p.0 p.1 × AreValid decoding p.1)
                          (ok_injective (
                            rw (loaded, served, certified, located, hashed, parse_cluster_info) at
                              h))
                          ((host_port-nonempty c.server endpoint located, some_hash), valid)
                  ]
            ]
          ]
        ]
  ]

  -- A refresh keeps the cache whole: whatever the cluster publishes and whatever fails on the way,
  -- nothing is cached, or an endpoint with at least one pin, each in the form that kubeadm takes. The
  -- packages must decode a block to fewer bytes and hash to 32.
  pub refresh-IsDiscovered :
      IsDecoding decoding
      → (answer : ConfigMapAnswer) (d : Discovery) → IsDiscovered decoding d
      → IsDiscovered decoding (refresh decoding answer d).1
  unfolding refresh
  refresh-IsDiscovered good (unread e) d whole = whole
  refresh-IsDiscovered good (config_map entries) d whole =
      elim (Option-cases (lookup "kubeconfig" entries)) [
        | inl missing ↦ rw (missing, refresh) whole
        | inr (raw, there) ↦ elim (Result-cases (parse_cluster_info decoding raw)) [
          | inr (e, failed) ↦ rw (there, failed, refresh) whole
          | inl ((endpoint, hashes), parsed) ↦
              rw (there, parsed, refresh)
                (inr (parse_cluster_info-IsJoin good raw (endpoint, hashes) parsed))
        ]
      ]

-- The end of `Resolve`, which succeeds only with both.
both :
    {A : Type 0} (no_endpoint no_hashes found : Bool) (e f : Error) (a b : A)
    → (if no_endpoint || no_hashes then if found then err e else err f else ok a) ≡ ok b
    → (no_endpoint ≡ false) × (no_hashes ≡ false) × (a ≡ b)
both true no_hashes true e f a b h = absurd (err-ne-ok h)
both true no_hashes false e f a b h = absurd (err-ne-ok h)
both false true true e f a b h = absurd (err-ne-ok h)
both false true false e f a b h = absurd (err-ne-ok h)
both false false found e f a b h = (refl, refl, ok_injective h)

pub resolve-IsJoin :
    (endpoint_override : String) (hash_override : List String) (d : Discovery)
    (found : String × List String)
    → resolve endpoint_override hash_override d ≡ ok found
    → IsJoin found.0 found.1
unfolding resolve
resolve-IsJoin eo ho d found h =
    let endpoint = if eo == "" then (get d).0 else eo in
    let hashes = if is_empty ho then (get d).1 else ho in
    let (has_endpoint, has_hashes, same) =
      both (endpoint == "") (is_empty hashes) (get d).2
        (errorf "no API server endpoint or CA pin available" [])
        (errorf "cluster-info has not been read yet and no override was given" [])
        (endpoint, hashes) found h in
    subst (λ p. IsJoin p.0 p.1) same (has_endpoint, has_hashes)
