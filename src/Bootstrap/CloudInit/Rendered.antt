-- ===== src/Bootstrap/CloudInit/Rendered.antt =====
-- What a rendered document has for a node to join.
use mathlib.Core.Path.{subst}
use mathlib.Core.List.{append_assoc}
use karpenter_provider_hclou.Base.{
  ◌≤◌, ◌≡◌, refl, inl, inr, false, not, ◌&&◌, List, ◌∷◌, ◌++◌, String, Has, is_empty, sym,
  Bool-cases, ◌==◌, string_comparable,
}
use karpenter_provider_hclou.Base.Texts.{append_text}
use karpenter_provider_hclou.Api.Bootstrap.{
  BootstrapSpec, os_family_debian, package_revision_or_default,
}
use karpenter_provider_hclou.Bootstrap.ClusterInfo.Found.{IsJoin}
use karpenter_provider_hclou.Bootstrap.CloudInit.{
  base_packages, max_user_data_bytes, CloudConfig, Encoding, UserData, size, join_path, file,
  join_command, own_files, setup_commands, build_runcmd, cloud_config, render,
}
use karpenter_provider_hclou.Bootstrap.CloudInit.Bounds.{IsEncoded, maybe_compress-IsEncoded}
use karpenter_provider_hclou.Bootstrap.Contents.{minor_version}
use karpenter_provider_hclou.Bootstrap.Contents.Distinct.{Distinct, dedupe-Distinct}
use karpenter_provider_hclou.Bootstrap.Kubeadm.{
  JoinInput, JoinConfiguration, join_configuration, render_join_configuration,
}
use karpenter_provider_hclou.Hcloudapi.Errors.{Result, ok, Result-cases, ok_injective, err-ne-ok}

-- The parts of a rendered document: the configuration to join with, marshalled, stands among the files
-- that are written, for root alone, and all of it fits.
pub record IsRendered (encoding : Encoding) (boot : BootstrapSpec) (input : JoinInput)
    (out : UserData) : Type 0 where
  pub complete : IsJoin input.api_server_endpoint input.ca_cert_hashes
  pub has_token : (input.token == "") ≡ false
  pub join_yaml : String
  pub marshalled : encoding.marshal_join (join_configuration input) ≡ ok join_yaml
  pub config : CloudConfig
  pub joins : Has (file join_path "0600" join_yaml) config.write_files
  pub packages : Distinct config.packages
  pub before : List String
  pub commands : config.runcmd ≡ before ++ (join_command ∷ boot.post_join_commands)
  pub doc : String
  pub documented : encoding.marshal_config config ≡ ok doc
  pub fits : size out ≤ max_user_data_bytes
  pub encoded : IsEncoded encoding.gzip (append_text "#cloud-config\n" doc) out

render_join_configuration-ok :
    (marshal : JoinConfiguration → Result String) (input : JoinInput) (join_yaml : String)
    → render_join_configuration marshal input ≡ ok join_yaml
    → IsJoin input.api_server_endpoint input.ca_cert_hashes
      × ((input.token == "") ≡ false)
      × (marshal (join_configuration input) ≡ ok join_yaml)
unfolding render_join_configuration
render_join_configuration-ok marshal input join_yaml h =
    elim (Bool-cases (input.api_server_endpoint == "")) [
      | inl missing ↦ absurd (err-ne-ok (rw (missing, render_join_configuration) at h))
      | inr located ↦ elim (Bool-cases (input.token == "")) [
        | inl missing ↦ absurd (err-ne-ok (rw (located, missing, render_join_configuration) at h))
        | inr trusted ↦ elim (Bool-cases (is_empty input.ca_cert_hashes)) [
          | inl missing ↦
              absurd (err-ne-ok (rw (located, trusted, missing, render_join_configuration) at h))
          | inr pinned ↦ elim (Result-cases (marshal (join_configuration input))) [
            | inr (e, failed) ↦
                absurd (
                  err-ne-ok (rw (located, trusted, pinned, failed, render_join_configuration) at h))
            | inl (yaml, done) ↦ (
              (located, pinned),
              trusted,
              subst (λ out. marshal (join_configuration input) ≡ ok out)
                  (ok_injective
                    (rw (located, trusted, pinned, done, render_join_configuration) at h))
                  done,
            )
          ]
        ]
      ]
    ]

joins-write_files :
    (quote : String → String) (boot : BootstrapSpec) (join_yaml minor : String)
    → Has (file join_path "0600" join_yaml) (cloud_config quote boot join_yaml minor).write_files
unfolding cloud_config own_files
joins-write_files quote boot join_yaml minor = inr (inr (inr (inr (inl refl))))

runcmd-join_command :
    (boot : BootstrapSpec) (minor version : String)
    → build_runcmd boot minor version
      ≡ (setup_commands boot minor version ++ boot.pre_join_commands)
        ++ (join_command ∷ boot.post_join_commands)
unfolding build_runcmd
runcmd-join_command boot minor version = sym (
    append_assoc (setup_commands boot minor version) boot.pre_join_commands
      (join_command ∷ boot.post_join_commands))

-- A document is rendered only from an endpoint, a token and at least one pin; the join configuration
-- made of them is one of the files that it writes, readable by root alone; no package is named twice;
-- nothing but the operator's post-join commands comes after the command that joins; and the user data
-- is within the limit of the API.
pub render-IsRendered :
    (encoding : Encoding) (boot : BootstrapSpec) (input : JoinInput) (out : UserData)
    → render encoding boot input ≡ ok out
    → IsRendered encoding boot input out
unfolding render cloud_config
render-IsRendered encoding boot input out h =
    elim (Bool-cases (not (boot.os_family == "") && not (boot.os_family == os_family_debian))) [
      | inl foreign ↦ absurd (err-ne-ok (rw (foreign, render) at h))
      | inr known ↦ elim (Result-cases (render_join_configuration encoding.marshal_join input)) [
        | inr (e, failed) ↦ absurd (err-ne-ok (rw (known, failed, render) at h))
        | inl (join_yaml, joined) ↦ elim (Result-cases (minor_version boot.kubernetes_version)) [
          | inr (e, failed) ↦ absurd (err-ne-ok (rw (known, joined, failed, render) at h))
          | inl (minor, versioned) ↦
              let config = cloud_config encoding.quote boot join_yaml minor in
              elim (Result-cases (encoding.marshal_config config)) [
                | inr (e, failed) ↦
                    absurd (err-ne-ok (rw (known, joined, versioned, failed, render) at h))
                | inl (doc, documented) ↦
                    let version =
                      append_text boot.kubernetes_version
                        (append_text "-" (package_revision_or_default boot)) in
                    let (complete, trusted, marshalled) =
                      render_join_configuration-ok encoding.marshal_join input join_yaml joined in
                    let (fits, encoded) =
                      maybe_compress-IsEncoded encoding.gzip (append_text "#cloud-config\n" doc) out
                        (rw (known, joined, versioned, documented, render) at h) in
                    record {
                      complete = complete;
                      has_token = trusted;
                      join_yaml = join_yaml;
                      marshalled = marshalled;
                      config = config;
                      joins = joins-write_files encoding.quote boot join_yaml minor;
                      packages = (dedupe-Distinct (base_packages ++ boot.extra_packages)).0;
                      before = setup_commands boot minor version ++ boot.pre_join_commands;
                      commands = runcmd-join_command boot minor version;
                      doc = doc;
                      documented = documented;
                      fits = fits;
                      encoded = encoded;
                    }
              ]
        ]
      ]
    ]
