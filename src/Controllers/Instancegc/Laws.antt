-- ===== src/Controllers/Instancegc/Laws.antt =====
-- Which servers the sweep deletes, and which it leaves alone.
use karpenter_provider_hclou.Base.{
  ◌≡◌, ◌≢◌, inl, inr, refl, Bool, true, false, List, [], ◌∷◌, String, Has, Bool-cases, ◌==◌,
  string_comparable, is_empty,
}
use karpenter_provider_hclou.Hcloudapi.Errors.{Error, ok, Result-cases}
use karpenter_provider_hclou.Hcloudapi.ProviderId.{provider_id}
use karpenter_provider_hclou.Hcloudapi.Servers.{Server}
use karpenter_provider_hclou.Controllers.Instancegc.{
  Provider, Gc, is_orphan, reap, visit, sweep, finish, judge, reconcile,
}

module _ (p : Provider) where
  -- A property of the state outside that only the deletion of one server can end.
  pub record Protects (target : String) (P : p.State → Type 0) : Type 0 where
    pub list_keeps : (st : p.State) → P st → P (p.list st).1
    pub claims_keeps : (st : p.State) → P st → P (p.node_claims st).1
    pub delete_keeps : (id : String) (st : p.State) → id ≢ target → P st → P (p.delete id st).1

  -- No listed server with the target's provider id is an orphan, at any time at which `P` holds.
  abbrev pub Excused : String → (p.State → Type 0) → List String → List Server → Type 0
  Excused target P live servers =
      (srv : Server)
      → Has srv servers
      → provider_id srv.id ≡ target
      → (st : p.State) → P st
      → is_orphan live (p.now st) srv ≡ false

  module _ (target : String) (P : p.State → Type 0) (keeps : Protects target P)
      (live : List String) where
    reap-state :
        (srv : Server) (g : Gc p)
        → (reap p srv g).1.state ≡ (p.delete (provider_id srv.id) g.state).1
    unfolding reap
    reap-state srv g = elim (Result-cases (p.delete (provider_id srv.id) g.state).0) [
      | inl (_, done) ↦ rw (done, reap) refl
      | inr (e, refused) ↦ rw (refused, reap) refl
    ]

    visit-keeps :
        (srv : Server) (g : Gc p)
        → (provider_id srv.id ≡ target → is_orphan live (p.now g.state) srv ≡ false)
        → P g.state
        → P (visit p live srv g).1.state
    unfolding visit
    visit-keeps srv g excused h = elim (Bool-cases (is_orphan live (p.now g.state) srv)) [
      | inr spared ↦ rw (spared, visit) h
      | inl orphan ↦
          rw (orphan, visit, reap-state srv g)
            (keeps.delete_keeps (provider_id srv.id) g.state
              (λ e. absurd (clash (excused e) orphan)) h)
    ]
      where
        clash : {b : Bool} → b ≡ false → b ≡ true → ⊥
        clash e f = cc

    sweep-keeps :
        (servers : List Server) (g : Gc p)
        → Excused target P live servers
        → P g.state
        → P (sweep p live servers g).1.state
    unfolding sweep
    sweep-keeps [] g x h = h
    sweep-keeps (srv ∷ servers) g x h =
        sweep-keeps servers (visit p live srv g).1 (λ t m. x t (inr m))
          (visit-keeps srv g (λ e. x srv (inl refl) e g.state h) h)

  finish-state : (out : List Error × Gc p) → (finish p out).1 ≡ out.1
  unfolding finish
  finish-state ([], g) = refl
  finish-state (e ∷ errs, g) = refl

  judge-keeps :
      (target : String) (P : p.State → Type 0) (servers : List Server) (g : Gc p)
      → Protects target P
      → ((live : List String)
          → (p.node_claims g.state).0 ≡ ok live
          → is_empty live ≡ false
          → Excused target P live servers)
      → P g.state
      → P (judge p servers g).1.state
  unfolding judge
  judge-keeps target P [] g keeps x h = h
  judge-keeps target P (srv ∷ servers) g keeps x h =
      let h' = keeps.claims_keeps g.state h in
      elim (Result-cases (p.node_claims g.state).0) [
        | inr (e, refused) ↦ rw (refused, judge) h'
        | inl ([], listed) ↦ rw (listed, judge) h'
        | inl (c ∷ live, listed) ↦
            let g' = record g { state = (p.node_claims g.state).1 } in
            rw (listed, judge, finish-state (sweep p (c ∷ live) (srv ∷ servers) g'))
              (sweep-keeps target P keeps (c ∷ live) (srv ∷ servers) g' (x (c ∷ live) listed refl)
                h')
      ]

  -- A sweep never ends a property of the outside world that only the deletion of one server can end,
  -- as long as no listed server with that provider id is an orphan against a list of NodeClaims that
  -- is read and is not empty: one with no claim label or a live claim, no creation time, or an age
  -- below five minutes. Without any NodeClaim nothing is deleted.
  pub reconcile-spares :
      (target : String) (P : p.State → Type 0) (cluster_name : String) (g : Gc p)
      → Protects target P
      → ((servers : List Server) (live : List String)
          → (p.list g.state).0 ≡ ok servers
          → (p.node_claims (p.list g.state).1).0 ≡ ok live
          → is_empty live ≡ false
          → Excused target P live servers)
      → P g.state
      → P (reconcile p cluster_name g).1.state
  unfolding reconcile
  reconcile-spares target P cluster_name g keeps x h = elim (Bool-cases (cluster_name == "")) [
    | inl unnamed ↦ rw (unnamed, reconcile) h
    | inr named ↦ elim (Result-cases (p.list g.state).0) [
      | inr (e, refused) ↦ rw (named, refused, reconcile) (keeps.list_keeps g.state h)
      | inl (servers, listed) ↦
          rw (named, listed, reconcile)
            (judge-keeps target P servers (record g { state = (p.list g.state).1 }) keeps
              (λ live. x servers live listed) (keeps.list_keeps g.state h))
    ]
  ]
