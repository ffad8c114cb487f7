-- ===== src/Controllers/Nodeclass/BootstrapDiscovery.antt =====
-- internal/controllers/nodeclass/bootstrap.go: the join parameters of a NodeClass.
pub mod Joined
use karpenter_provider_hclou.Base.{
  ℕ, Bool, true, false, not, ◌||◌, Option, none, some, List, [], ◌∷◌, String, is_empty, keep,
  if◌then◌else◌, ◌==◌, string_comparable,
}
use karpenter_provider_hclou.Base.Texts.{join}
use karpenter_provider_hclou.Bootstrap.ClusterInfo.{
  Decoding, Failure, config_error, transient, Discovery, ConfigMapAnswer, refresh, resolve,
  valid_hash, cluster_info_namespace, cluster_info_name,
}
use karpenter_provider_hclou.Controllers.Nodeclass.Resolve.{set_condition, note_unreachable}
use karpenter_provider_hclou.Controllers.Nodeclass.Validation.{
  is_true, is_false, Message, Subject, resolved_requeue, misconfigured_requeue,
}
use karpenter_provider_hclou.Hcloudapi.Errors.{Result, ok, err, wrapf}

abbrev pub bootstrap_discovery_ready : String
bootstrap_discovery_ready = "BootstrapDiscoveryReady"

-- `invalidHashes`
unfoldable pub invalid_hashes : List String → List String
invalid_hashes = keep (λ hash. not (valid_hash hash))

-- The two writes to the status.
unfoldable pub set_join : String → List String → Subject → Subject
set_join endpoint hashes s = record s {
  node_class = record s.node_class {
    status = record s.node_class.status { api_server_endpoint = endpoint; ca_cert_hashes = hashes };
  };
}

-- The closure `misconfigured`
unfoldable pub misconfigured : String → Message → Subject → Result ℕ × Subject
unfolding set_join set_condition
misconfigured reason message s = (
  ok misconfigured_requeue,
  set_condition bootstrap_discovery_ready is_false reason message (set_join "" [] s),
)

-- The part after the refresh, with what `Resolve` returns.
unfoldable pub publish : Result (String × List String) → Subject → Result ℕ × Subject
unfolding invalid_hashes set_join misconfigured set_condition join
publish (err e) s = misconfigured "JoinParametersIncomplete" ("join parameters", [], []) s
publish (ok (endpoint, hashes)) s =
    let bad = invalid_hashes hashes in
    if not (is_empty bad)
    then misconfigured "InvalidCACertHash"
        ("CA pins are not in sha256:<64 hex> form: %s", join ", " bad ∷ [], []) s
    else (
      ok resolved_requeue,
      set_condition bootstrap_discovery_ready is_true bootstrap_discovery_ready ("", [], [])
          (set_join endpoint hashes s),
    )

-- The part where the refresh has failed.
unfoldable pub give_up_read : Failure → Subject → Result ℕ × Subject
unfolding misconfigured note_unreachable
give_up_read (transient e) s = (
  err (wrapf "reading cluster-info, %w" [] e),
  note_unreachable bootstrap_discovery_ready "ClusterInfoUnreachable" s,
)
give_up_read (config_error e) s =
    misconfigured "ClusterInfoUnavailable"
      (
        "reading the join parameters from %s/%s",
        cluster_info_namespace ∷ cluster_info_name ∷ [],
        [],
      )
      s

-- `Reconcile`, with the answer of the read that it makes where a parameter is not overridden. What
-- has been discovered is kept from pass to pass.
unfoldable pub reconcile :
    Decoding → ConfigMapAnswer → Discovery → Subject → (Result ℕ × Subject) × Discovery
unfolding refresh resolve publish give_up_read
reconcile decoding answer d s =
    let spec = s.node_class.spec.bootstrap in
    if spec.api_server_endpoint == "" || is_empty spec.ca_cert_hashes
    then (let (failure, d') = refresh decoding answer d in
        elim failure [
          | some f ↦ (give_up_read f s, d')
          | none ↦ (publish (resolve spec.api_server_endpoint spec.ca_cert_hashes d') s, d')
        ])
    else (publish (resolve spec.api_server_endpoint spec.ca_cert_hashes d) s, d)
