-- ===== src/Hcloudapi/Adapter/Refined.antt =====
-- `serverClient` as an implementation of the interface `Servers`.
use karpenter_provider_hclou.Base.{ℕ, ◌≡◌, refl, ap, ◌∙◌, inl, inr, Option, none, some, [], ◌∷◌}
use karpenter_provider_hclou.Hcloudapi.Adapter.{
  ServerClient, get, delete, reset, recent_actions, servers,
}
use karpenter_provider_hclou.Hcloudapi.Conversion.{server_from_hcloud}
use karpenter_provider_hclou.Hcloudapi.Adapter.Clean.{Answer-cases, get-moves}
use karpenter_provider_hclou.Hcloudapi.Errors.{ok, ok_injective, err-ne-ok}
use karpenter_provider_hclou.Hcloudapi.Hcloud.{HcloudServer}
use karpenter_provider_hclou.Hcloudapi.Hcloud.Documented.{Documented}
use karpenter_provider_hclou.Hcloudapi.Servers.{Server}
use karpenter_provider_hclou.Hcloudapi.Servers.Isolated.{Isolated}

abbrev pub seen : Option HcloudServer → Option Server
seen none = none
seen (some hs) = some (server_from_hcloud hs)

module _ (s : ServerClient) where
  open s.api use {Cloud, server_delete, server_reset, action_list_for, get_by_id}

  pub delete-moves : (id : ℕ) (c : Cloud) → (delete s id c).1 ≡ (server_delete id c).1
  unfolding delete
  delete-moves id c = elim (Answer-cases (server_delete id c).0) [
    | inl (done, deleted) ↦ rw (deleted, delete) refl
    | inr (e, refused) ↦ rw (refused, delete) refl
  ]

  pub reset-moves : (id : ℕ) (c : Cloud) → (reset s id c).1 ≡ (server_reset id c).1
  unfolding reset
  reset-moves id c = elim (Answer-cases (server_reset id c).0) [
    | inl (done, ordered) ↦ rw (ordered, reset) refl
    | inr (e, refused) ↦ rw (refused, reset) refl
  ]

  pub recent_actions-moves :
      (id : ℕ) (c : Cloud)
      → (recent_actions s id c).1 ≡ (action_list_for id 50 ("started:desc" ∷ []) c).1
  unfolding recent_actions
  recent_actions-moves id c =
      elim (Answer-cases (action_list_for id 50 ("started:desc" ∷ []) c).0) [
        | inl (actions, listed) ↦ rw (listed, recent_actions) refl
        | inr (e, refused) ↦ rw (refused, recent_actions) refl
      ]

  module _ (d : Documented s.api) where
    abbrev pub view : Cloud → ℕ → Option Server
    view c id = seen (d.view c id)

    pub get-view : (id : ℕ) (c : Cloud) (r : Option Server) → (get s id c).0 ≡ ok r → view c id ≡ r
    unfolding get
    get-view id c r h = elim (Answer-cases (get_by_id id c).0) [
      | inr (e, unread) ↦ absurd (err-ne-ok (rw (unread, get) at h))
      | inl (none, gone) ↦ ap seen (d.get_reads id c none gone) ∙ ok_injective (rw (gone, get) at h)
      | inl (some hs, there) ↦
          ap seen (d.get_reads id c (some hs) there) ∙ ok_injective (rw (there, get) at h)
    ]

    -- The view of the client is what its reads make of the servers that there are.
    abbrev pub servers-Isolated : Isolated (servers s)
    servers-Isolated = record {
      view = view;
      get_reads = λ id c c' r h. get-view id c r (ap (λ x. x.0) h);
      get_keeps = λ id j c. ap (λ x. view x j) (get-moves s d id c) ∙ ap seen (d.get_keeps id c j);
      actions_keeps = λ id j c.
          ap (λ x. view x j) (recent_actions-moves id c)
          ∙ ap seen (d.actions_keeps id 50 ("started:desc" ∷ []) c j);
      delete_local =
          λ id j c n. ap (λ x. view x j) (delete-moves id c) ∙ ap seen (d.delete_local id c j n);
      reset_local =
          λ id j c n. ap (λ x. view x j) (reset-moves id c) ∙ ap seen (d.reset_local id c j n);
    }
