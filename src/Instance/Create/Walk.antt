-- ===== src/Instance/Create/Walk.antt =====
-- The loop of `Create` as a sequence of failed turns and one last turn.
use mathlib.Core.Path.{subst}
use karpenter_provider_hclou.Base.{
  ◌≡◌, refl, inl, inr, some, List, [], ◌∷◌, ◌++◌, ap, sym, ◌∙◌, Bool-cases, String, take,
}
use karpenter_provider_hclou.Api.NodeClass.{HCloudNodeClass}
use karpenter_provider_hclou.Hcloudapi.Errors.{
  Class, class_none, class_capacity, class_quota, class_transient, class_config, class_fatal, Error,
  errorf, insufficient_capacity, ok, err, Result-cases, classify, is_uniqueness, code_of,
}
use karpenter_provider_hclou.Hcloudapi.Servers.{CreateServerRequest, Servers}
use karpenter_provider_hclou.Instancetype.Unavailable.{mark}
use karpenter_provider_hclou.Karpenter.{Scheduling, InstanceType, NodeClaim}
use karpenter_provider_hclou.Instance.Candidates.{Candidate, ordered_candidates}
use karpenter_provider_hclou.Instance.Create.{
  Turn, return, continue, adopt, on_config, react, count_failure, order, attempt, walk, create,
  code_text, Created,
}
use karpenter_provider_hclou.Instance.Create.Outcome.{Turn-cases}
use karpenter_provider_hclou.Instance.Request.{base_request}
use karpenter_provider_hclou.Instance.World.{World, observe, offering_unavailable}

module _ (sched : Scheduling) (s : Servers) (cluster_name : String)
    (claim : NodeClaim sched.Requirements) (types : List (InstanceType sched.Requirements))
    (req : CreateServerRequest) where
  open sched use {Requirements}

  -- The state after Hetzner has refused a candidate for lack of capacity with the error `e`: the
  -- failure is counted, and the pair of type and location is marked with the error's code.
  unfoldable pub marked : Candidate Requirements → Error → World s → World s
  marked c e w =
      let v = count_failure sched s cluster_name claim types c e w in
      observe (offering_unavailable c.instance_type.name c.location (code_text e)) (record v {
        unavailable =
            mark v.unavailable (s.now v.cloud) c.instance_type.name c.location (code_text e);
      })

  -- Candidates that Hetzner refused for lack of capacity, one after the other, and the state after.
  pub data Refused : World s → List (Candidate Requirements) → World s → Type 0 where
    nobody : {w : World s} → Refused w [] w
    then_rest :
        {w w' : World s} {c : Candidate Requirements} {cs : List (Candidate Requirements)}
        {cloud : s.Cloud} {e : Error}
        → s.create (order sched s cluster_name claim types req c) w.cloud ≡ (err e, cloud)
        → classify (some e) ≡ class_capacity
        → Refused (marked c e (record w { cloud = cloud })) cs w'
        → Refused w (c ∷ cs) w'

  -- How the loop ends over the candidates `cs` from the state `w`.
  pub data Ends (w : World s) (cs : List (Candidate Requirements))
      : Created sched s cluster_name × World s → Type 0 where
    exhausted :
        (v : World s) (e : Error) (m : World s)
        → Refused w cs v
        → m.unavailable ≡ v.unavailable
        → m.cloud ≡ v.cloud
        → m.cache ≡ v.cache
        → Ends w cs (err (insufficient_capacity e), m)
    decided :
        {w' : World s} {out : Created sched s cluster_name} (v : World s)
        (c : Candidate Requirements) (before after : List (Candidate Requirements))
        → cs ≡ before ++ (c ∷ after)
        → Refused w before v
        → attempt sched s cluster_name claim types req c v ≡ return out w'
        → Ends w cs (out, w')

  returned :
      {out : Created sched s cluster_name} {f : Error} {w w' : World s}
      → ◌≡◌ {A = Turn sched s cluster_name} (return out w) (continue f w')
      → ⊥
  returned h = cc

  -- A turn goes on only after a failure for lack of capacity, with the pair marked.
  on_config-returns :
      (c : Candidate Requirements) (e f : Error) (w w' : World s)
      → on_config sched s cluster_name claim types req c e w ≡ continue f w'
      → ⊥
  unfolding on_config
  on_config-returns c e f w w' h = elim (Bool-cases (is_uniqueness (code_of e))) [
    | inr unique ↦ absurd (returned (rw (unique, on_config) at h))
    | inl duplicate ↦ elim (Result-cases (adopt sched s cluster_name req.name claim w).0) [
      | inr (g, failed) ↦ absurd (returned (rw (duplicate, failed, on_config) at h))
      | inl (t, found) ↦ absurd (returned (rw (duplicate, found, on_config) at h))
    ]
  ]

  react-continue :
      (k : Class) (c : Candidate Requirements) (e f : Error) (w w' : World s)
      → react sched s cluster_name claim types k req c e w ≡ continue f w'
      → (k ≡ class_capacity)
        × (f ≡ e)
        × (w'
            ≡ observe
                (offering_unavailable c.instance_type.name c.location (code_text e))
                (record w {
                  unavailable =
                      mark w.unavailable
                        (s.now w.cloud)
                        c.instance_type.name
                        c.location
                        (code_text e);
                }))
  unfolding react
  react-continue class_capacity c e f w w' h = (refl, (cc), (cc))
  react-continue class_config c e f w w' h = absurd (on_config-returns c e f w w' h)
  react-continue class_quota c e f w w' h = absurd (returned h)
  react-continue class_fatal c e f w w' h = absurd (returned h)
  react-continue class_none c e f w w' h = absurd (returned h)
  react-continue class_transient c e f w w' h = absurd (returned h)

  attempt-continue :
      (c : Candidate Requirements) (f : Error) (w w' : World s)
      → attempt sched s cluster_name claim types req c w ≡ continue f w'
      → (cloud : s.Cloud) × (s.create (order sched s cluster_name claim types req c) w.cloud
          ≡ (err f, cloud))
        × (classify (some f) ≡ class_capacity)
        × (w' ≡ marked c f (record w { cloud = cloud }))
  unfolding attempt marked
  attempt-continue c f w w' h =
      let placed = s.create (order sched s cluster_name claim types req c) w.cloud in
      elim (Result-cases placed.0) [
        | inl (srv, done) ↦ absurd (returned (rw (done, attempt) at h))
        | inr (e, failed) ↦
            let (k, same, after) =
              react-continue (classify (some e)) c e f _ w' (rw (failed, attempt) at h) in
            (
              placed.1,
              (λ i. ((failed ∙ ap err (sym same)) i, placed.1)),
              subst (λ g. classify (some g) ≡ class_capacity) (sym same) k,
              subst (λ g. w' ≡ marked c g (record w { cloud = placed.1 })) (sym same) after,
            )
      ]

  prepend :
      (c : Candidate Requirements) (cs : List (Candidate Requirements)) (e : Error)
      (cloud : s.Cloud) (w : World s) (out : Created sched s cluster_name × World s)
      → s.create (order sched s cluster_name claim types req c) w.cloud ≡ (err e, cloud)
      → classify (some e) ≡ class_capacity
      → Ends (marked c e (record w { cloud = cloud })) cs out
      → Ends w (c ∷ cs) out
  prepend c cs e cloud w _ refused k (exhausted v f m tried same_marks same_cloud same_cache) =
      exhausted v f m (then_rest refused k tried) same_marks same_cloud same_cache
  prepend c cs e cloud w _ refused k (decided v d before after split tried last) =
      decided v d (c ∷ before) after (ap (λ r. c ∷ r) split) (then_rest refused k tried) last

  walk-Ends :
      (cs : List (Candidate Requirements)) (last : Candidate Requirements) (e : Error) (w : World s)
      → Ends w cs (walk sched s cluster_name claim types req cs last e w)
  unfolding walk observe
  walk-Ends [] last e w = exhausted w _ _ nobody refl refl refl
  walk-Ends (c ∷ cs) last e w =
      elim (Turn-cases sched s cluster_name claim types
        (attempt sched s cluster_name claim types req c w)) [
          | inl (out, w', h) ↦ rw (h, walk) (decided w c [] cs refl nobody h)
          | inr (f, w', h) ↦
              let (cloud, refused, k, after) = attempt-continue c f w w' h in
              rw (h, walk)
                (prepend c cs f cloud w _ refused k (
                  subst (λ v. Ends v cs (walk sched s cluster_name claim types req cs c f w')) after
                    (walk-Ends cs c f w')))
        ]

  -- From a base request and an ordered list that is not empty, `Create` tries the first eight
  -- candidates in order. Either Hetzner refuses each of them for lack of capacity, and the result is
  -- an insufficient-capacity error with each pair marked, or it refuses those before one candidate
  -- for lack of capacity, with each pair marked, and the attempt on that candidate gives the result.
  pub create-Ends :
      (node_class : HCloudNodeClass) (user_data : String) (w : World s) (c : Candidate Requirements)
      (cs : List (Candidate Requirements))
      → base_request cluster_name node_class claim user_data ≡ ok req
      → ordered_candidates sched claim types ≡ c ∷ cs
      → Ends w (take 8 (c ∷ cs)) (create sched s cluster_name node_class claim types user_data w)
  unfolding create
  create-Ends node_class user_data w c cs based listed =
      rw (listed, based, create) (walk-Ends (take 8 (c ∷ cs)) c (errorf "" []) w)
