-- ===== src/Instance/ListCache/Race.antt =====
-- What the cache answers after a change that the provider made itself, with a listing in flight.
use karpenter_provider_hclou.Base.{◌≡◌, refl, Option, none, some, List, String, arith}
use karpenter_provider_hclou.Hcloudapi.Errors.{ok}
use karpenter_provider_hclou.Hcloudapi.Servers.{Server, CreateServerRequest, Servers}
use karpenter_provider_hclou.Instance.ListCache.{fresh, store, list}
use karpenter_provider_hclou.Instance.World.{World, invalidate}

module _ (s : Servers) (selector : String × String) where
  -- The listing that a caller gets may be older than a change that was made before the call.
  abbrev pub Shared : Type 0
  Shared = World s × Option (List (Option Server))

  -- What the callers of one `Provider` do to its state, one step at a time: a flight reads from
  -- Hetzner, a flight stores what it read, and a server is created with the listing dropped after it.
  pub data Step : Shared → Shared → Type 0 where
    fetch :
        {w : World s} {servers : List (Option Server)} {cloud : s.Cloud}
        → fresh w.cache (s.now w.cloud) ≡ none
        → s.list selector w.cloud ≡ (ok servers, cloud)
        → Step (w, none) (record w { cloud = cloud }, some servers)
    land :
        {w : World s} {servers : List (Option Server)}
        → Step (w, some servers) (store servers w, none)
    created :
        {w : World s} {p : Option (List (Option Server))} {srv : Server} {cloud : s.Cloud}
        (req : CreateServerRequest)
        → s.create req w.cloud ≡ (ok srv, cloud)
        → Step (w, p) (invalidate (record w { cloud = cloud }), p)

  pub data Steps (a : Shared) : Shared → Type 0 where
    here : Steps a a
    next : {b c : Shared} → Steps a b → Step b c → Steps a c

  -- An invalidation is lost to a listing that is in flight: from every state with a stale listing, if
  -- a flight reads from Hetzner and then a server is created, the flight can store what it read after
  -- the invalidation, and the next listing answers from that, from before the create, without asking
  -- Hetzner.
  pub lost_invalidation :
      (w : World s) (req : CreateServerRequest) (srv : Server) (servers : List (Option Server))
      (before after : s.Cloud)
      → fresh w.cache (s.now w.cloud) ≡ none
      → s.list selector w.cloud ≡ (ok servers, before)
      → s.create req before ≡ (ok srv, after)
      → (v : World s) × Steps (w, none) (v, none)
        × (v.cloud ≡ after)
        × (list selector v ≡ (ok servers, v))
  unfolding list store fresh invalidate
  lost_invalidation w req srv servers before after stale read made = (
    store servers (invalidate (record w { cloud = after })),
    next (next (next here (fetch stale read)) (created req made)) land,
    refl,
    ground arith,
  )
