-- ===== src/Tests/Power.antt =====
-- Reads, deletions and resets.
use karpenter_provider_hclou.Base.{
  ◌≡◌, ◌≢◌, ◌*◌, refl, true, false, none, some, List, [], ◌∷◌, exists,
}
use karpenter_provider_hclou.Base.Map.{get}
use karpenter_provider_hclou.Hcloudapi.Errors.{ok}
use karpenter_provider_hclou.Hcloudapi.Labels.{is_managed_by}
use karpenter_provider_hclou.Hcloudapi.ProviderId.{server_id_from_provider_id}
use karpenter_provider_hclou.Hcloudapi.Servers.{Action, CreateServerRequest}
use karpenter_provider_hclou.Instance.ListCache.{list, fresh}
use karpenter_provider_hclou.Instance.ListCache.Race.{Steps, lost_invalidation}
use karpenter_provider_hclou.Instance.Reads as Reads
use karpenter_provider_hclou.Instance.Reads.Spares.{delete-spares}
use karpenter_provider_hclou.Instance.Reboot.{reboot}
use karpenter_provider_hclou.Instance.Reboot.Safety.{Resettable, reboot-spares}
use karpenter_provider_hclou.Instance.Reboot.Safety.Inspected.{holds, resets}
use karpenter_provider_hclou.Instance.Reboot.Safety.Once.{Refused, answer, reboot-once}
use karpenter_provider_hclou.Instance.World.{World}
use karpenter_provider_hclou.Tests.Memory.{
  Memory, memory, memory_isolated, cluster, world, stocked, ours, foreign, second, made,
}

delete-spares_example : (Reads.delete cluster "hcloud://8" world).1.cloud.at 8 ≡ some foreign
unfolding is_managed_by memory_isolated
delete-spares_example =
    delete-spares memory cluster memory_isolated "hcloud://8" world 8 foreign refl refl

not-Resettable : ¬ Resettable memory cluster memory_isolated "claim-1" foreign
unfolding Resettable is_managed_by
not-Resettable (mine, _, _) = absurd (cc)

reboot-spares_example : (reboot cluster "hcloud://8" "claim-1" 0 world).1.cloud.at 8 ≡ some foreign
unfolding memory_isolated
reboot-spares_example =
    reboot-spares memory cluster memory_isolated "hcloud://8" "claim-1" 0 world 8 foreign refl
      not-Resettable

-- A server with a reset that failed and one that was issued in time.
abbrev recent : List Action
recent =
    record { command = "reset_server"; status = "error"; started = 1990 * second }
    ∷ record { command = "reset_server"; status = "success"; started = 1995 * second }
    ∷ []

abbrev after_reset : Memory
after_reset = record stocked { actions = recent }

abbrev rebooting : World memory
rebooting = record world { cloud = after_reset }

abbrev OnceResult : Type 0
OnceResult =
    (exists holds recent ≡ true
      → Refused memory cluster (reboot cluster "hcloud://7" "claim-1" (1992 * second) rebooting)
          rebooting)
    × (exists holds recent ≡ false
        → exists (resets (1992 * second)) recent ≡ true
        → reboot cluster "hcloud://7" "claim-1" (1992 * second) rebooting ≡ (ok tt, rebooting))
    × (exists holds recent ≡ false
        → exists (resets (1992 * second)) recent ≡ false
        → ours.status ≡ "off"
        → Refused memory cluster (reboot cluster "hcloud://7" "claim-1" (1992 * second) rebooting)
            rebooting)
    × (exists holds recent ≡ false
        → exists (resets (1992 * second)) recent ≡ false
        → ours.status ≢ "off"
        → reboot cluster "hcloud://7" "claim-1" (1992 * second) rebooting
          ≡ (answer memory cluster (ok tt), rebooting))

reboot-once_example : OnceResult
unfolding server_id_from_provider_id is_managed_by get
reboot-once_example =
    reboot-once memory cluster "hcloud://7" 7 "claim-1" (1992 * second) rebooting ours recent
      after_reset after_reset refl refl refl refl refl

-- The listing that is held does not have the server yet.
abbrev behind : World memory
behind = record world { cache = record { cached = some []; fetched_at = 1999 * second } }

abbrev in_hel1 : CreateServerRequest
in_hel1 = record {
  name = "new";
  server_type = "cx22";
  location = "hel1";
  image_id = 5;
  ssh_key_ids = [];
  network_ids = [];
  firewall_ids = [];
  placement_group_id = none;
  user_data = "";
  labels = [];
  public_ipv4 = true;
  public_ipv6 = true;
}

abbrev grown : Memory
grown = (memory.create in_hel1 stocked).1

lost_invalidation_example :
    (v : World memory) × Steps memory ("a", "b") (world, none) (v, none)
    × (v.cloud ≡ grown)
    × (list ("a", "b") v ≡ (ok (some ours ∷ some foreign ∷ []), v))
unfolding fresh
lost_invalidation_example =
    lost_invalidation memory ("a", "b") world in_hel1 (made in_hel1 9 (2000 * second))
      (some ours ∷ some foreign ∷ []) stocked grown refl refl refl
