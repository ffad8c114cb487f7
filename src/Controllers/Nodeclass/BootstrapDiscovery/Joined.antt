-- ===== src/Controllers/Nodeclass/BootstrapDiscovery/Joined.antt =====
-- What a pass publishes of the join parameters.
use mathlib.Core.Path.{subst}
use karpenter_provider_hclou.Base.{
  ℕ, ◌≡◌, ◌⊎◌, refl, inl, inr, true, false, ◌||◌, List, [], ◌∷◌, String, ap, sym, ◌∙◌, is_empty,
  All, Option-cases, Bool-cases, ◌==◌, string_comparable,
}
use karpenter_provider_hclou.Base.Texts.{join as text_join}
use karpenter_provider_hclou.Bootstrap.ClusterInfo.{
  Decoding, Failure, config_error, transient, ConfigMapAnswer, Discovery, refresh, resolve,
  valid_hash,
}
use karpenter_provider_hclou.Bootstrap.ClusterInfo.Found.{IsJoin, resolve-IsJoin}
use karpenter_provider_hclou.Controllers.Nodeclass.BootstrapDiscovery.{
  bootstrap_discovery_ready, invalid_hashes, set_join, misconfigured, publish, give_up_read,
  reconcile,
}
use karpenter_provider_hclou.Controllers.Nodeclass.Resolve.{set_condition}
use karpenter_provider_hclou.Controllers.Nodeclass.Resolve.Conditions.{
  set_condition-status, note_unreachable-keeps,
}
use karpenter_provider_hclou.Controllers.Nodeclass.Validation.{
  Status, is_true, is_false, Message, Subject, condition, resolved_requeue, misconfigured_requeue,
}
use karpenter_provider_hclou.Hcloudapi.Errors.{Error, Result, ok, err}

-- The status of the condition after a pass.
abbrev pub join_status : Subject → Status
join_status s = (condition s bootstrap_discovery_ready).status

abbrev pub endpoint_of : Subject → String
endpoint_of s = s.node_class.status.api_server_endpoint

abbrev pub hashes_of : Subject → List String
hashes_of s = s.node_class.status.ca_cert_hashes

-- Both parameters are there, with pins of the right form.
abbrev pub IsPublished : Result ℕ × Subject → Type 0
IsPublished out =
    (out.0 ≡ ok resolved_requeue)
    × (join_status out.1 ≡ is_true)
    × IsJoin (endpoint_of out.1) (hashes_of out.1)
    × All (λ hash. valid_hash hash ≡ true) (hashes_of out.1)

-- Neither is.
abbrev pub IsWithdrawn : Result ℕ × Subject → Type 0
IsWithdrawn out =
    (out.0 ≡ ok misconfigured_requeue)
    × (join_status out.1 ≡ is_false)
    × (endpoint_of out.1 ≡ "")
    × (hashes_of out.1 ≡ [])

-- The pass has failed and changed neither the NodeClass nor the status of the condition.
abbrev pub IsUntouched : Subject → Result ℕ × Subject → Type 0
IsUntouched s out =
    ((e : Error) × (out.0 ≡ err e))
    × (join_status out.1 ≡ join_status s)
    × (out.1.node_class ≡ s.node_class)

misconfigured-IsWithdrawn :
    (reason : String) (m : Message) (s : Subject) → IsWithdrawn (misconfigured reason m s)
unfolding misconfigured set_join set_condition condition
misconfigured-IsWithdrawn reason m s = (
  refl,
  set_condition-status bootstrap_discovery_ready is_false reason m (set_join "" [] s),
  refl,
  refl,
)

invalid_hashes-valid :
    (hashes : List String)
    → is_empty (invalid_hashes hashes) ≡ true
    → All (λ hash. valid_hash hash ≡ true) hashes
unfolding invalid_hashes
invalid_hashes-valid [] h = tt
invalid_hashes-valid (hash ∷ hashes) h = elim (Bool-cases (valid_hash hash)) [
  | inl valid ↦ (valid, invalid_hashes-valid hashes (rw (valid, invalid_hashes) at h))
  | inr malformed ↦ absurd (some_bad (rw (malformed, invalid_hashes) at h))
]
  where
    some_bad : false ≡ true → ⊥
    some_bad e = cc

-- What `publish` leaves where every pin is valid.
joined : String → List String → Subject → Result ℕ × Subject
joined endpoint hashes s = (
  ok resolved_requeue,
  set_condition bootstrap_discovery_ready is_true bootstrap_discovery_ready ("", [], [])
      (set_join endpoint hashes s),
)

joined-IsPublished :
    (endpoint : String) (hashes : List String) (s : Subject)
    → IsJoin endpoint hashes
    → All (λ hash. valid_hash hash ≡ true) hashes
    → IsPublished (joined endpoint hashes s)
unfolding joined condition set_join set_condition
joined-IsPublished endpoint hashes s join valid = (
  refl,
  set_condition-status bootstrap_discovery_ready is_true bootstrap_discovery_ready ("", [], [])
      (set_join endpoint hashes s),
  join,
  valid,
)

publish-joined :
    (endpoint : String) (hashes : List String) (s : Subject)
    → is_empty (invalid_hashes hashes) ≡ true
    → publish (ok (endpoint, hashes)) s ≡ joined endpoint hashes s
unfolding publish joined
publish-joined endpoint hashes s valid = simp (valid, publish)

malformed_pins : List String → Message
malformed_pins hashes =
    ("CA pins are not in sha256:<64 hex> form: %s", text_join ", " (invalid_hashes hashes) ∷ [], [])

publish-misconfigured :
    (endpoint : String) (hashes : List String) (s : Subject)
    → is_empty (invalid_hashes hashes) ≡ false
    → publish (ok (endpoint, hashes)) s
      ≡ misconfigured "InvalidCACertHash" (malformed_pins hashes) s
unfolding publish malformed_pins
publish-misconfigured endpoint hashes s malformed = simp (malformed, publish, malformed_pins)

-- A pass over a subject publishes both, or withdraws both, or does neither and fails.
abbrev IsConcluded : Subject → Result ℕ × Subject → Type 0
IsConcluded s out = IsPublished out ⊎ (IsWithdrawn out ⊎ IsUntouched s out)

publish-IsPublished :
    (found : Result (String × List String)) (s : Subject)
    → ((p : String × List String) → found ≡ ok p → IsJoin p.0 p.1)
    → IsPublished (publish found s) ⊎ IsWithdrawn (publish found s)
unfolding publish condition set_join set_condition
publish-IsPublished (err e) s join =
    inr (misconfigured-IsWithdrawn "JoinParametersIncomplete" ("join parameters", [], []) s)
publish-IsPublished (ok (endpoint, hashes)) s join =
    elim (Bool-cases (is_empty (invalid_hashes hashes))) [
      | inr malformed ↦ inr (
          subst IsWithdrawn (sym (publish-misconfigured endpoint hashes s malformed))
            (misconfigured-IsWithdrawn "InvalidCACertHash" (malformed_pins hashes) s))
      | inl valid ↦ inl (
          subst IsPublished (sym (publish-joined endpoint hashes s valid)) (
            joined-IsPublished endpoint hashes s (join (endpoint, hashes) refl)
              (invalid_hashes-valid hashes valid)))
    ]

give_up_read-IsConcluded : (f : Failure) (s : Subject) → IsConcluded s (give_up_read f s)
unfolding give_up_read condition
give_up_read-IsConcluded (config_error e) s = inr (inl (misconfigured-IsWithdrawn _ _ s))
give_up_read-IsConcluded (transient e) s =
    let (status, same) =
      note_unreachable-keeps bootstrap_discovery_ready "ClusterInfoUnreachable" s in
    inr (inr ((_, refl), status, same))

published :
    (s : Subject) (out : Result ℕ × Subject) → IsPublished out ⊎ IsWithdrawn out → IsConcluded s out
published s out (inl h) = inl h
published s out (inr h) = inr (inl h)

publish-IsConcluded :
    (endpoint_override : String) (hash_override : List String) (d : Discovery) (s : Subject)
    → IsConcluded s (publish (resolve endpoint_override hash_override d) s)
publish-IsConcluded eo ho d s =
    published s (publish (resolve eo ho d) s)
      (publish-IsPublished (resolve eo ho d) s (resolve-IsJoin eo ho d))

-- A pass over the join parameters of a NodeClass has one of three outcomes: it publishes an endpoint
-- together with at least one pin, all of the form that kubeadm takes, sets the condition True and is
-- called again after the long interval; it withdraws both parameters, sets the condition False and is
-- called again after the short one; or it returns an error and leaves the NodeClass and the status of
-- the condition as they were.
pub reconcile-IsPublished :
    (decoding : Decoding) (answer : ConfigMapAnswer) (d : Discovery) (s : Subject)
    → IsPublished (reconcile decoding answer d s).0
      ⊎ (IsWithdrawn (reconcile decoding answer d s).0
          ⊎ IsUntouched s (reconcile decoding answer d s).0)
unfolding reconcile
reconcile-IsPublished decoding answer d s =
    let spec = s.node_class.spec.bootstrap in
    let eo = spec.api_server_endpoint in
    let ho = spec.ca_cert_hashes in
    elim (Bool-cases (eo == "" || is_empty ho)) [
      | inr overridden ↦ rw (overridden, reconcile) (publish-IsConcluded eo ho d s)
      | inl needed ↦ elim (Option-cases (refresh decoding answer d).0) [
        | inl read ↦
            rw (needed, read, reconcile) (publish-IsConcluded eo ho (refresh decoding answer d).1 s)
        | inr (f, failed) ↦ rw (needed, failed, reconcile) (give_up_read-IsConcluded f s)
      ]
    ]

reconcile-given :
    (decoding : Decoding) (answer : ConfigMapAnswer) (d : Discovery) (s : Subject)
    → IsJoin s.node_class.spec.bootstrap.api_server_endpoint
        s.node_class.spec.bootstrap.ca_cert_hashes
    → reconcile decoding answer d s ≡ (
      publish
          (ok (
            s.node_class.spec.bootstrap.api_server_endpoint,
            s.node_class.spec.bootstrap.ca_cert_hashes,
          ))
          s,
      d,
    )
unfolding reconcile
reconcile-given decoding answer d s (given, pinned) = simp (given, pinned, reconcile, resolve)

-- A NodeClass that gives both its endpoint and pins depends on nothing that the cluster publishes:
-- whatever the read answers and whatever was discovered before, the pass does the same, and the
-- discovery is left as it was.
reconcile-overridden :
    (decoding : Decoding) (answer other : ConfigMapAnswer) (d d' : Discovery) (s : Subject)
    → IsJoin s.node_class.spec.bootstrap.api_server_endpoint
        s.node_class.spec.bootstrap.ca_cert_hashes
    → ((reconcile decoding answer d s).0 ≡ (reconcile decoding other d' s).0)
      × ((reconcile decoding answer d s).1 ≡ d)
reconcile-overridden decoding answer other d d' s join =
    let here = reconcile-given decoding answer d s join in
    let there = reconcile-given decoding other d' s join in
    (ap (λ out. out.0) here ∙ sym (ap (λ out. out.0) there), ap (λ out. out.1) here)
