-- ===== src/Instance/Create.antt =====
-- internal/providers/instance/instance.go: `Create`, which falls through to the next candidate on a
-- capacity failure.
pub mod Outcome
pub mod Walk
use karpenter_provider_hclou.Base.{
  ℕ, Bool, true, false, ◌&&◌, ◌||◌, not, Option, none, some, List, [], ◌∷◌, String, length, take,
  is_empty, if◌then◌else◌, ◌==◌, string_comparable,
}
use karpenter_provider_hclou.Base.Map.{get}
use karpenter_provider_hclou.Api.NodeClass.{HCloudNodeClass}
use karpenter_provider_hclou.Hcloudapi.Errors.{
  ErrorCode, other, Class, class_none, class_capacity, class_quota, class_transient, class_config,
  class_fatal, Error, errorf, wrapf, insufficient_capacity, create_error, Result, ok, err, code_of,
  classify, is_uniqueness, is_unknown_code,
}
use karpenter_provider_hclou.Hcloudapi.Labels.{is_managed_by, label_node_claim}
use karpenter_provider_hclou.Hcloudapi.Servers.{Server, CreateServerRequest, Servers}
use karpenter_provider_hclou.Instancetype.Unavailable.{mark}
use karpenter_provider_hclou.Karpenter.{Scheduling, InstanceType, NodeClaim}
use karpenter_provider_hclou.Instance.Candidates.{Candidate, ordered_candidates, find_instance_type}
use karpenter_provider_hclou.Instance.Request.{base_request}
use karpenter_provider_hclou.Instance.World.{
  World, invalidate, observe, launch_duration, launch_failure, unknown_error_code,
  offering_unavailable,
}

abbrev pub default_max_create_attempts : ℕ
default_max_create_attempts = 8

-- `code, _ := hcloudapi.Code(err)`: the empty text where there is no code.
unfoldable pub code_text : Error → ErrorCode
code_text e = elim (code_of e) [ none ↦ other "" | some c ↦ c ]

module _ (sched : Scheduling) (s : Servers) (cluster_name : String) where
  open sched use {Requirements}

  -- What `Create` returns: the server and its type, `none` for a type that is not in the catalogue.
  abbrev pub Created : Type 0
  Created = Result (Server × Option (InstanceType Requirements))

  -- What one turn of the loop does: return, or continue.
  pub data Turn : Type 0 where
    return : Created → World s → Turn
    continue : Error → World s → Turn

  unfoldable pub adopt : String → NodeClaim Requirements → World s → Result Server × World s
  adopt name node_claim w =
      let (r, cloud) = s.get_by_name name w.cloud in
      let w' = record w { cloud = cloud } in
      elim r [
        | err e ↦ (err e, w')
        | ok none ↦ (err (errorf "server %q reported as duplicate but not found" (name ∷ [])), w')
        | ok (some srv) ↦
            if not (is_managed_by (some srv) cluster_name)
              || not (get srv.labels label_node_claim == node_claim.name)
            then (err (errorf "server %q exists but is not ours to adopt" (name ∷ [])), w')
            else (ok srv, w')
      ]

  module _ (node_claim : NodeClaim Requirements) (types : List (InstanceType Requirements)) where
    -- The case `ClassConfig`.
    unfoldable pub on_config : CreateServerRequest → Candidate Requirements → Error → World s → Turn
    unfolding adopt
    on_config req c e w =
        let failed = λ (v : World s).
          return (err (create_error e "CreateFailed"))
            (observe (launch_duration c.instance_type.name c.location "failed") v) in
        if is_uniqueness (code_of e)
        then (let (r, w') = adopt req.name node_claim w in
            elim r [
              | err refused ↦ failed w'
              | ok adopted ↦
                  return (ok (adopted, find_instance_type sched types adopted.server_type)) (
                    observe (launch_duration adopted.server_type adopted.location "adopted")
                      (invalidate w'))
            ])
        else failed w

    -- The `switch class`.
    unfoldable pub react :
        Class → CreateServerRequest → Candidate Requirements → Error → World s → Turn
    unfolding on_config code_text
    react class_capacity req c e w = continue e (
        observe (offering_unavailable c.instance_type.name c.location (code_text e)) (record w {
          unavailable =
              mark w.unavailable (s.now w.cloud) c.instance_type.name c.location (code_text e);
        }))
    react class_config req c e w = on_config req c e w
    react class_quota req c e w =
        return (err (insufficient_capacity e))
          (observe (launch_duration c.instance_type.name c.location "quota") w)
    react class_fatal req c e w =
        return (err (create_error e "CredentialRejected"))
          (observe (launch_duration c.instance_type.name c.location "credential") w)
    react _ req c e w =
        return (err (wrapf "creating server, %w" [] e))
          (observe (launch_duration c.instance_type.name c.location "transient") w)

    unfoldable pub count_failure : Candidate Requirements → Error → World s → World s
    unfolding code_text
    count_failure c e w =
        let w' = observe (launch_failure c.instance_type.name c.location (classify (some e))) w in
        if is_unknown_code e then observe (unknown_error_code (code_text e)) w' else w'

    unfoldable pub order : CreateServerRequest → Candidate Requirements → CreateServerRequest
    order req c = record req { server_type = c.instance_type.name; location = c.location }

    -- One turn of the loop.
    unfoldable pub attempt : CreateServerRequest → Candidate Requirements → World s → Turn
    unfolding react count_failure order
    attempt req c w =
        let (r, cloud) = s.create (order req c) w.cloud in
        let w' = record w { cloud = cloud } in
        elim r [
          | ok srv ↦ return (ok (srv, some c.instance_type)) (
              invalidate (observe (launch_duration c.instance_type.name c.location "succeeded") w'))
          | err e ↦ react (classify (some e)) req c e (count_failure c e w')
        ]

    -- The loop, from its next candidate, after a failure on the candidate `last`. The numbers in
    -- the last message are left out.
    unfoldable pub walk :
        CreateServerRequest
        → List (Candidate Requirements)
        → Candidate Requirements
        → Error
        → World s
        → Created × World s
    unfolding attempt
    walk req [] last last_err w = (
      err (
          insufficient_capacity (
            wrapf "no capacity after %d attempts across %d candidates, last error: %w" []
              last_err)),
      observe (launch_duration last.instance_type.name last.location "exhausted") w,
    )
    walk req (c ∷ cs) last last_err w = elim (attempt req c w) [
      | return r w' ↦ (r, w')
      | continue e w' ↦ walk req cs c e w'
    ]

  unfoldable pub create :
      HCloudNodeClass
      → NodeClaim Requirements
      → List (InstanceType Requirements)
      → String
      → World s
      → Created × World s
  unfolding walk
  create node_class node_claim types user_data w =
      elim (ordered_candidates sched node_claim types) [
        | [] ↦ (
          err (
              insufficient_capacity (
                errorf
                  "no instance type in this NodeClaim's requirements is offered in any location the NodeClass allows"
                  [])),
          w,
        )
        | c ∷ cs ↦ elim (base_request cluster_name node_class node_claim user_data) [
          | err e ↦ (err e, w)
          | ok req ↦
              walk node_claim types req (take default_max_create_attempts (c ∷ cs)) c (errorf "" [])
                w
        ]
      ]
