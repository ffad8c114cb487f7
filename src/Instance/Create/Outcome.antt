-- ===== src/Instance/Create/Outcome.antt =====
-- What `Create` of internal/providers/instance/instance.go hands out when it succeeds.
use mathlib.Core.Path.{subst}
use karpenter_provider_hclou.Base.{
  ℕ, ◌≡◌, refl, ◌⊎◌, inl, inr, true, Option, none, some, List, [], ◌∷◌, String, arith, eq_iff, Has,
  take, Bool-cases, string_comparable, zero, suc,
}
use karpenter_provider_hclou.Base.Map.{get}
use karpenter_provider_hclou.Api.NodeClass.{HCloudNodeClass}
use karpenter_provider_hclou.Hcloudapi.Errors.{
  Class, class_none, class_capacity, class_quota, class_transient, class_config, class_fatal, Error,
  errorf, ok, err, Result-cases, code_of, classify, is_uniqueness,
}
use karpenter_provider_hclou.Hcloudapi.Labels.{is_managed_by, label_node_claim}
use karpenter_provider_hclou.Hcloudapi.Servers.{Server, CreateServerRequest, Servers}
use karpenter_provider_hclou.Karpenter.{Scheduling, InstanceType, NodeClaim}
use karpenter_provider_hclou.Instance.Candidates.{Candidate, ordered_candidates, find_instance_type}
use karpenter_provider_hclou.Instance.Create.{
  Turn, return, continue, adopt, on_config, react, order, attempt, walk, create,
  default_max_create_attempts, Created,
}
use karpenter_provider_hclou.Instance.Request.{base_request}
use karpenter_provider_hclou.Instance.World.{World, invalidate, observe}

List-cases : {A : Type 0} (xs : List A) → (xs ≡ []) ⊎ ((y : A) × (ys : List A) × (xs ≡ y ∷ ys))
List-cases [] = inl refl
List-cases (y ∷ ys) = inr (y, ys, refl)

module _ (sched : Scheduling) (s : Servers) (cluster_name : String) where
  open sched use {Requirements}

  -- The server is this cluster's, and its label names the claim.
  abbrev pub Ours : NodeClaim Requirements → Server → Type 0
  Ours claim srv =
      (is_managed_by (some srv) cluster_name ≡ true)
      × (get srv.labels label_node_claim ≡ claim.name)

  pub adopt-ok :
      (name : String) (claim : NodeClaim Requirements) (w w' : World s) (srv : Server)
      → adopt sched s cluster_name name claim w ≡ (ok srv, w')
      → Ours claim srv
  unfolding adopt
  adopt-ok name claim w w' srv h = elim (Result-cases (s.get_by_name name w.cloud).0) [
    | inr (e, failed) ↦ absurd (ground arith)
    | inl (none, gone) ↦ absurd (ground arith)
    | inl (some t, found) ↦ ground (arith, eq_iff (get t.labels label_node_claim) claim.name)
  ]

  module _ (claim : NodeClaim Requirements) (types : List (InstanceType Requirements)) where
    -- A server that Hetzner has just created for a candidate, with that candidate's type, or one
    -- that was there and is this claim's, with the type that the catalogue has for it.
    pub data Handed (req : CreateServerRequest) (cs : List (Candidate Requirements)) (srv : Server)
        : Option (InstanceType Requirements) → Type 0 where
      made :
          (c : Candidate Requirements) (before after : s.Cloud)
          → Has c cs
          → s.create (order sched s cluster_name claim types req c) before ≡ (ok srv, after)
          → Handed req cs srv (some c.instance_type)
      adopted : Ours claim srv → Handed req cs srv (find_instance_type sched types srv.server_type)

    -- What is promised where a turn returns, or the loop does.
    abbrev pub Promise :
        CreateServerRequest
        → List (Candidate Requirements)
        → Created sched s cluster_name
        → World s
        → Type 0
    Promise req cs (ok (srv, it)) w = Handed req cs srv it × (w.cache.cached ≡ none)
    Promise req cs (err e) w = Unit {0}

    abbrev pub TurnPromise :
        CreateServerRequest → List (Candidate Requirements) → Turn sched s cluster_name → Type 0
    TurnPromise req cs (return out w) = Promise req cs out w
    TurnPromise req cs (continue e w) = Unit {0}

    on_config-TurnPromise :
        (req ordered : CreateServerRequest) (cs : List (Candidate Requirements))
        (c : Candidate Requirements) (e : Error) (w : World s)
        → TurnPromise req cs (on_config sched s cluster_name claim types ordered c e w)
    unfolding on_config invalidate observe
    on_config-TurnPromise req ordered cs c e w = elim (Bool-cases (is_uniqueness (code_of e))) [
      | inr unique ↦ rw (unique, on_config) tt
      | inl duplicate ↦ elim (Result-cases (adopt sched s cluster_name ordered.name claim w).0) [
        | inr (f, failed) ↦ rw (duplicate, failed, on_config) tt
        | inl (t, found) ↦
            rw (duplicate, found, on_config)
              (
                adopted (
                    adopt-ok ordered.name claim w
                      (adopt sched s cluster_name ordered.name claim w).1 t
                      (λ i. (found i, (adopt sched s cluster_name ordered.name claim w).1))),
                refl,
              )
      ]
    ]

    react-TurnPromise :
        (k : Class) (req ordered : CreateServerRequest) (cs : List (Candidate Requirements))
        (c : Candidate Requirements) (e : Error) (w : World s)
        → TurnPromise req cs (react sched s cluster_name claim types k ordered c e w)
    unfolding react
    react-TurnPromise class_capacity req ordered cs c e w = tt
    react-TurnPromise class_config req ordered cs c e w = on_config-TurnPromise req ordered cs c e w
    react-TurnPromise class_quota req ordered cs c e w = tt
    react-TurnPromise class_fatal req ordered cs c e w = tt
    react-TurnPromise class_none req ordered cs c e w = tt
    react-TurnPromise class_transient req ordered cs c e w = tt

    attempt-TurnPromise :
        (req : CreateServerRequest) (cs : List (Candidate Requirements))
        (c : Candidate Requirements) (w : World s)
        → Has c cs
        → TurnPromise req cs (attempt sched s cluster_name claim types req c w)
    unfolding attempt invalidate
    attempt-TurnPromise req cs c w m =
        elim (Result-cases (s.create (order sched s cluster_name claim types req c) w.cloud).0) [
          | inl (srv, done) ↦
              rw (done, attempt)
                (
                  made c w.cloud (s.create (order sched s cluster_name claim types req c) w.cloud).1
                      m
                      (λ i. (
                        done i,
                        (s.create (order sched s cluster_name claim types req c) w.cloud).1,
                      )),
                  refl,
                )
          | inr (e, failed) ↦
              rw (failed, attempt) (react-TurnPromise (classify (some e)) req req cs c e _)
        ]

    pub Turn-cases :
        (t : Turn sched s cluster_name)
        → ((out : Created sched s cluster_name) × (w : World s) × (t ≡ return out w))
          ⊎ ((e : Error) × (w : World s) × (t ≡ continue e w))
    Turn-cases (return out w) = inl (out, w, refl)
    Turn-cases (continue e w) = inr (e, w, refl)

    walk-Promise :
        (req : CreateServerRequest) (cs rest : List (Candidate Requirements))
        (last : Candidate Requirements) (e : Error) (w : World s)
        → ((c : Candidate Requirements) → Has c rest → Has c cs)
        → Promise req cs
            (walk sched s cluster_name claim types req rest last e w).0
            (walk sched s cluster_name claim types req rest last e w).1
    unfolding walk
    walk-Promise req cs [] last e w within = tt
    walk-Promise req cs (c ∷ rest) last e w within =
        let turn = attempt-TurnPromise req cs c w (within c (inl refl)) in
        elim (Turn-cases (attempt sched s cluster_name claim types req c w)) [
          | inl (out, w', h) ↦ rw (h, walk) (rw h at turn)
          | inr (e', w', h) ↦
              rw (h, walk) (walk-Promise req cs rest c e' w' (λ d m. within d (inr m)))
        ]

Has-take : {A : Type 0} (n : ℕ) (a : A) (xs : List A) → Has a (take n xs) → Has a xs
Has-take zero a xs h = absurd h
Has-take (suc n) a [] h = absurd h
Has-take (suc n) a (x ∷ xs) (inl e) = inl e
Has-take (suc n) a (x ∷ xs) (inr h) = inr (Has-take n a xs h)

module _ (sched : Scheduling) (s : Servers) (cluster_name : String) (node_class : HCloudNodeClass)
    (claim : NodeClaim sched.Requirements) (types : List (InstanceType sched.Requirements))
    (user_data : String) where
  open sched use {Requirements}

  abbrev Kept : CreateServerRequest → Created sched s cluster_name × World s → Type 0
  Kept req out =
      Promise sched s cluster_name claim types req (ordered_candidates sched claim types) out.0
        out.1

  create-Promise :
      (req : CreateServerRequest) (w : World s)
      → base_request cluster_name node_class claim user_data ≡ ok req
      → Kept req (create sched s cluster_name node_class claim types user_data w)
  unfolding create
  create-Promise req w based = elim (List-cases (ordered_candidates sched claim types)) [
    | inl nothing ↦ rw (nothing, create) tt
    | inr (c, cs, some_left) ↦
        rw (some_left, based, create)
          (walk-Promise sched s cluster_name claim types req (c ∷ cs)
            (take default_max_create_attempts (c ∷ cs)) c (errorf "" []) w
            (λ d. Has-take default_max_create_attempts d (c ∷ cs)))
  ]

  create-bare :
      (e : Error) (w : World s)
      → base_request cluster_name node_class claim user_data ≡ err e
      → (f : Error) × (create sched s cluster_name node_class claim types user_data w ≡ (err f, w))
  unfolding create
  create-bare e w bad = elim (List-cases (ordered_candidates sched claim types)) [
    | inl nothing ↦ rw (nothing, create) (_, refl)
    | inr (c, cs, some_left) ↦ rw (some_left, bad, create) (e, refl)
  ]

  -- When `Create` succeeds, the server is one that Hetzner has just created for a candidate of the
  -- ordered list, out of the base request with that candidate's type and location, and the type
  -- handed out is the candidate's; or it was there already, is this cluster's and carries this
  -- claim's name, and the type is the catalogue's for it. Either way the shared listing is dropped.
  pub create-Handed :
      (w w' : World s) (srv : Server) (it : Option (InstanceType Requirements))
      → create sched s cluster_name node_class claim types user_data w ≡ (ok (srv, it), w')
      → (req : CreateServerRequest) × (base_request cluster_name node_class claim user_data
          ≡ ok req)
        × Handed sched s cluster_name claim types req (ordered_candidates sched claim types) srv it
        × (w'.cache.cached ≡ none)
  create-Handed w w' srv it h =
      elim (Result-cases (base_request cluster_name node_class claim user_data)) [
        | inl (req, based) ↦
            let (handed, dropped) = subst (Kept req) h (create-Promise req w based) in
            (req, based, handed, dropped)
        | inr (e, bad) ↦ let (f, failed) = create-bare e w bad in absurd (cc)
      ]
