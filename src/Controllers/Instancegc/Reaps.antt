-- ===== src/Controllers/Instancegc/Reaps.antt =====
-- That the sweep deletes every orphan it was shown.
use mathlib.Core.Path.{subst}
use karpenter_provider_hclou.Base.{
  ℕ, eq_iff, ◌≡◌, ◌≢◌, inl, inr, refl, true, false, List, [], ◌∷◌, ◌++◌, String, Has, arith,
  Bool-cases, ◌≤◌, sym, is_empty, string_comparable,
}
use karpenter_provider_hclou.Hcloudapi.Errors.{Error, is_not_found, ok, err, Result-cases}
use karpenter_provider_hclou.Hcloudapi.ProviderId.{provider_id}
use karpenter_provider_hclou.Hcloudapi.Servers.{Server}
use karpenter_provider_hclou.Controllers.Instancegc.{
  Provider, Gc, requeue_after, is_orphan, reap, visit, sweep, finish, judge, reconcile,
}

is_orphan-later :
    (live : List String) (now later : ℕ) (srv : Server)
    → now ≤ later
    → is_orphan live now srv ≡ true
    → is_orphan live later srv ≡ true
unfolding is_orphan
is_orphan-later live now later srv h k = ground arith

append-empty : {A : Type 0} (xs ys : List A) → xs ++ ys ≡ [] → (xs ≡ []) × (ys ≡ [])
append-empty [] ys h = (refl, h)
append-empty (x ∷ xs) ys h = absurd (cc)

module _ (p : Provider) where
  -- A property of the state outside that holds once the server with a provider id is gone: after a
  -- deletion of it that succeeds or finds nothing; later deletions keep it. The clock does not run
  -- backwards while a server is deleted.
  pub record Removes (target : String) (Q : p.State → Type 0) : Type 0 where
    pub delete_done : (st : p.State) → (p.delete target st).0 ≡ ok tt → Q (p.delete target st).1
    pub delete_missed :
        (st : p.State) (e : Error)
        → (p.delete target st).0 ≡ err e
        → is_not_found e ≡ true
        → Q (p.delete target st).1
    pub delete_keeps : (id : String) (st : p.State) → Q st → Q (p.delete id st).1
    pub clock : (id : String) (st : p.State) → p.now st ≤ p.now (p.delete id st).1

  module _ (live : List String) where
    reap-state :
        (srv : Server) (g : Gc p)
        → (reap p srv g).1.state ≡ (p.delete (provider_id srv.id) g.state).1
    unfolding reap
    reap-state srv g = elim (Result-cases (p.delete (provider_id srv.id) g.state).0) [
      | inl (_, done) ↦ rw (done, reap) refl
      | inr (e, refused) ↦ rw (refused, reap) refl
    ]

    module _ (target : String) (Q : p.State → Type 0) (removes : Removes target Q) where
      visit-keeps : (srv : Server) (g : Gc p) → Q g.state → Q (visit p live srv g).1.state
      unfolding visit
      visit-keeps srv g h = elim (Bool-cases (is_orphan live (p.now g.state) srv)) [
        | inr spared ↦ rw (spared, visit) h
        | inl orphan ↦
            rw (orphan, visit, reap-state srv g)
              (removes.delete_keeps (provider_id srv.id) g.state h)
      ]

      visit-clock : (srv : Server) (g : Gc p) → p.now g.state ≤ p.now (visit p live srv g).1.state
      unfolding visit
      visit-clock srv g = elim (Bool-cases (is_orphan live (p.now g.state) srv)) [
        | inr spared ↦ rw (spared, visit) (omega arith)
        | inl orphan ↦
            rw (orphan, visit, reap-state srv g) (removes.clock (provider_id srv.id) g.state)
      ]

      sweep-kept :
          (servers : List Server) (g : Gc p) → Q g.state → Q (sweep p live servers g).1.state
      unfolding sweep
      sweep-kept [] g h = h
      sweep-kept (srv ∷ servers) g h =
          sweep-kept servers (visit p live srv g).1 (visit-keeps srv g h)

      visit-removes :
          (srv : Server) (g : Gc p)
          → provider_id srv.id ≡ target
          → is_orphan live (p.now g.state) srv ≡ true
          → (visit p live srv g).0 ≡ []
          → Q (visit p live srv g).1.state
      unfolding visit reap
      visit-removes srv g e orphan quiet =
          elim (Result-cases (p.delete (provider_id srv.id) g.state).0) [
            | inl (_, done) ↦
                rw (orphan, visit, reap-state srv g)
                  (subst (λ id. Q (p.delete id g.state).1) (sym e)
                    (removes.delete_done g.state
                      (subst (λ id. (p.delete id g.state).0 ≡ ok tt) e done)))
            | inr (f, refused) ↦ elim (Bool-cases (is_not_found f)) [
              | inl gone ↦
                  rw (orphan, visit, reap-state srv g)
                    (subst (λ id. Q (p.delete id g.state).1) (sym e)
                      (removes.delete_missed g.state f
                        (subst (λ id. (p.delete id g.state).0 ≡ err f) e refused) gone))
              | inr other ↦ absurd (stuck (rw (orphan, refused, other, visit, reap) at quiet))
            ]
          ]
        where
          stuck : {A : Type 0} {x : A} {xs : List A} → x ∷ xs ≡ [] → ⊥
          stuck h = cc

      sweep-removes :
          (servers : List Server) (srv : Server) (g : Gc p)
          → Has srv servers
          → provider_id srv.id ≡ target
          → is_orphan live (p.now g.state) srv ≡ true
          → (sweep p live servers g).0 ≡ []
          → Q (sweep p live servers g).1.state
      unfolding sweep
      sweep-removes [] srv g m e orphan quiet = absurd m
      sweep-removes (t ∷ servers) srv g m e orphan quiet =
          let g' = (visit p live t g).1 in
          let parts = append-empty (visit p live t g).0 (sweep p live servers g').0 quiet in
          elim m [
            | inl same ↦ sweep-kept servers g' (
                subst (λ u. (visit p live u g).0 ≡ [] → Q (visit p live u g).1.state) same
                  (visit-removes srv g e orphan) parts.0)
            | inr later ↦
                sweep-removes servers srv g' later e
                  (is_orphan-later live (p.now g.state) (p.now g'.state) srv (visit-clock t g)
                    orphan)
                  parts.1
          ]

    finish-quiet :
        (out : List Error × Gc p) (t : ℕ) → (finish p out).0 ≡ requeue_after t → out.0 ≡ []
    unfolding finish
    finish-quiet ([], g) t h = refl
    finish-quiet (e ∷ errs, g) t h = absurd (cc)

    finish-state : (out : List Error × Gc p) → (finish p out).1 ≡ out.1
    unfolding finish
    finish-state ([], g) = refl
    finish-state (e ∷ errs, g) = refl

  -- The run of a sweep that has servers and NodeClaims to compare.
  reconcile-sweep :
      (c : String) (g : Gc p) (servers : List Server) (live : List String) (listed read : p.State)
      → c ≢ ""
      → p.list g.state ≡ (ok servers, listed)
      → p.node_claims listed ≡ (ok live, read)
      → is_empty live ≡ false
      → is_empty servers ≡ false
      → reconcile p c g ≡ finish p (sweep p live servers (record g { state = read }))
  unfolding reconcile judge
  reconcile-sweep c g servers live listed read named l n e m = ground (arith, eq_iff c "")

  Has-not_empty : {A : Type 0} (a : A) (xs : List A) → Has a xs → is_empty xs ≡ false
  Has-not_empty a [] m = absurd m
  Has-not_empty a (x ∷ xs) m = refl

  -- Every orphan that the sweep was shown is gone when the sweep returns without an error: a listed
  -- server that is an orphan, against the NodeClaims read, when the loop starts.
  pub reconcile-reaps :
      (target : String) (Q : p.State → Type 0) (cluster_name : String) (g : Gc p) (t : ℕ)
      (servers : List Server) (live : List String) (listed read : p.State) (srv : Server)
      → Removes target Q
      → cluster_name ≢ ""
      → p.list g.state ≡ (ok servers, listed)
      → p.node_claims listed ≡ (ok live, read)
      → is_empty live ≡ false
      → Has srv servers
      → provider_id srv.id ≡ target
      → is_orphan live (p.now read) srv ≡ true
      → (reconcile p cluster_name g).0 ≡ requeue_after t
      → Q (reconcile p cluster_name g).1.state
  reconcile-reaps target Q c g t servers live listed read srv removes named l n e m id orphan
        quiet =
      let g' = record g { state = read } in
      let run =
        reconcile-sweep c g servers live listed read named l n e (Has-not_empty srv servers m) in
      rw (run, finish-state live (sweep p live servers g'))
        (sweep-removes live target Q removes servers srv g' m id orphan
          (finish-quiet live (sweep p live servers g') t (rw run at quiet)))
