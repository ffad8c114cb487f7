-- ===== src/Instance/Spared.antt =====
-- `Delete` and `Reboot` of internal/providers/instance on the servers that hcloud-go reaches.
use karpenter_provider_hclou.Base.{ℕ, ◌≡◌, ap, false, some, String, arith}
use karpenter_provider_hclou.Hcloudapi.Adapter.{ServerClient, servers}
use karpenter_provider_hclou.Hcloudapi.Conversion.{server_from_hcloud}
use karpenter_provider_hclou.Hcloudapi.Adapter.Refined.{seen, servers-Isolated}
use karpenter_provider_hclou.Hcloudapi.Hcloud.{HcloudServer}
use karpenter_provider_hclou.Hcloudapi.Hcloud.Documented.{Documented}
use karpenter_provider_hclou.Hcloudapi.Labels.{is_managed_by}
use karpenter_provider_hclou.Instance.Reads.{delete}
use karpenter_provider_hclou.Instance.Reads.Spares.{delete-spares}
use karpenter_provider_hclou.Instance.Reboot.{reboot}
use karpenter_provider_hclou.Instance.Reboot.Safety.{Resettable, reboot-spares}
use karpenter_provider_hclou.Instance.World.{World}

module _ (s : ServerClient) (d : Documented s.api) (cluster_name : String) where
  -- If hcloud-go does what Hetzner documents, `Delete` and `Reboot` over `serverClient` leave a server
  -- that its labels do not give to this cluster as the program saw it before, whatever provider id,
  -- claim and time they are called with.
  pub delete_reboot-spares :
      (provider_id name : String) (requested_at : ℕ) (w : World (servers s)) (j : ℕ)
      (hs : HcloudServer)
      → d.view w.cloud j ≡ some hs
      → is_managed_by (some (server_from_hcloud hs)) cluster_name ≡ false
      → (seen (d.view (delete cluster_name provider_id w).1.cloud j) ≡ some (server_from_hcloud hs))
        × (seen (d.view (reboot cluster_name provider_id name requested_at w).1.cloud j)
            ≡ some (server_from_hcloud hs))
  unfolding Resettable
  delete_reboot-spares provider_id name requested_at w j hs there foreign =
      let iso = servers-Isolated s d in
      let before = ap seen there in
      let other : ¬ Resettable (servers s) cluster_name iso name (server_from_hcloud hs) =
        λ r. let mine = r.0 in absurd (ground arith) in
      (
        delete-spares (servers s) cluster_name iso provider_id w j (server_from_hcloud hs) before
            foreign,
        reboot-spares (servers s) cluster_name iso provider_id name requested_at w j
            (server_from_hcloud hs) before other,
      )
