-- ===== src/Instance/Reads/Spares.antt =====
-- What `Delete` of internal/providers/instance/list.go deletes, and what it leaves alone.
use karpenter_provider_hclou.Base.{
  ℕ, ◌≡◌, ◌≢◌, sym, ◌∙◌, inl, inr, true, false, none, some, String, arith, Bool-cases,
}
use karpenter_provider_hclou.Hcloudapi.Errors.{ok, Result-cases}
use karpenter_provider_hclou.Hcloudapi.Labels.{is_managed_by}
use karpenter_provider_hclou.Hcloudapi.ProviderId.{server_id_from_provider_id}
use karpenter_provider_hclou.Hcloudapi.Servers.{Server, Servers}
use karpenter_provider_hclou.Hcloudapi.Servers.Isolated.{Isolated}
use karpenter_provider_hclou.Instance.Reads.{delete_id, delete}
use karpenter_provider_hclou.Instance.World.{World, invalidate}

module _ (s : Servers) (c : String) where
  -- What a `Delete` of the server `id` has done when it has succeeded.
  abbrev pub Deleted : ℕ → World s → World s → Type 0
  Deleted id w w' =
      (srv : Server) × (before after : s.Cloud) × (s.get id w.cloud ≡ (ok (some srv), before))
      × (is_managed_by (some srv) c ≡ true)
      × (s.delete id before ≡ (ok tt, after))
      × (w' ≡ invalidate (record w { cloud = after }))

  delete_id-Deleted :
      (provider_id : String) (id : ℕ) (w w' : World s)
      → delete_id c provider_id id w ≡ (ok tt, w')
      → Deleted id w w'
  unfolding delete_id
  delete_id-Deleted provider_id id w w' h = elim (Result-cases (s.get id w.cloud).0) [
    | inr (e, failed) ↦ absurd (ground arith)
    | inl (none, gone) ↦ absurd (ground arith)
    | inl (some srv, found) ↦ elim (Bool-cases (is_managed_by (some srv) c)) [
      | inr foreign ↦ absurd (ground arith)
      | inl mine ↦ elim (Result-cases (s.delete id (s.get id w.cloud).1).0) [
        | inr (e, failed) ↦ absurd (ground arith)
        | inl (_, done) ↦ (
          srv,
          (s.get id w.cloud).1,
          (s.delete id (s.get id w.cloud).1).1,
          (λ i. (found i, (s.get id w.cloud).1)),
          mine,
          (λ i. (done i, (s.delete id (s.get id w.cloud).1).1)),
          ground arith,
        )
      ]
    ]
  ]

  -- `Delete` succeeds only when the provider id has a server id, a read of the live state found that
  -- server and it is owned by this cluster, and Hetzner took the order to delete it; then the shared
  -- listing is dropped.
  delete-ok :
      (provider_id : String) (w w' : World s)
      → delete c provider_id w ≡ (ok tt, w')
      → (id : ℕ) × (server_id_from_provider_id provider_id ≡ ok id) × Deleted id w w'
  unfolding delete
  delete-ok provider_id w w' h = elim (Result-cases (server_id_from_provider_id provider_id)) [
    | inr (e, bad) ↦ absurd (ground arith)
    | inl (id, parsed) ↦
        (id, parsed, delete_id-Deleted provider_id id w w' (rw (parsed, delete) at h))
  ]

  module _ (iso : Isolated s) where
    -- A server that is owned is not one that is not.
    not_same :
        (w : World s) (id j : ℕ) (srv found : Server)
        → iso.view w.cloud j ≡ some srv
        → is_managed_by (some srv) c ≡ false
        → (s.get id w.cloud).0 ≡ ok (some found)
        → is_managed_by (some found) c ≡ true
        → j ≢ id
    not_same w id j srv found there foreign read mine = λ e.
        let seen =
          iso.get_reads id w.cloud (s.get id w.cloud).1 (some found)
            (λ i. (read i, (s.get id w.cloud).1)) in
        let same : some found ≡ some srv = sym seen ∙ rw (sym e) there in absurd (cc)

    delete_id-spares :
        (provider_id : String) (id : ℕ) (w : World s) (j : ℕ) (srv : Server)
        → iso.view w.cloud j ≡ some srv
        → is_managed_by (some srv) c ≡ false
        → iso.view (delete_id c provider_id id w).1.cloud j ≡ some srv
    unfolding delete_id invalidate
    delete_id-spares provider_id id w j srv there foreign =
        let kept = iso.get_keeps id j w.cloud ∙ there in
        elim (Result-cases (s.get id w.cloud).0) [
          | inr (e, failed) ↦ rw (failed, delete_id) kept
          | inl (none, gone) ↦ rw (gone, delete_id) kept
          | inl (some found, read) ↦ elim (Bool-cases (is_managed_by (some found) c)) [
            | inr other ↦ rw (read, other, delete_id) kept
            | inl mine ↦
                let spared =
                  iso.delete_local id j (s.get id w.cloud).1
                    (not_same w id j srv found there foreign read mine) in
                elim (Result-cases (s.delete id (s.get id w.cloud).1).0) [
                  | inr (e, failed) ↦ rw (read, mine, failed, delete_id) (spared ∙ kept)
                  | inl (_, done) ↦ rw (read, mine, done, delete_id) (spared ∙ kept)
                ]
          ]
        ]

    -- `Delete` never changes a server that this cluster does not own, whatever it is called with.
    pub delete-spares :
        (provider_id : String) (w : World s) (j : ℕ) (srv : Server)
        → iso.view w.cloud j ≡ some srv
        → is_managed_by (some srv) c ≡ false
        → iso.view (delete c provider_id w).1.cloud j ≡ some srv
    unfolding delete
    delete-spares provider_id w j srv there foreign =
        elim (Result-cases (server_id_from_provider_id provider_id)) [
          | inr (e, bad) ↦ rw (bad, delete) there
          | inl (id, parsed) ↦
              rw (parsed, delete) (delete_id-spares provider_id id w j srv there foreign)
        ]
