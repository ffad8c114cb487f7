-- ===== src/Api/Bootstrap.antt =====
-- api/v1alpha1/bootstrap.go, `KubeletConfiguration` of hcloudnodeclass.go, and their accessors in
-- defaults.go. A pointer is an option; the receivers are never nil.
use karpenter_provider_hclou.Base.{
  ℕ, ◌*◌, Bool, true, Option, none, some, List, [], ◌∷◌, String, is_empty, if◌then◌else◌, ◌==◌,
  string_comparable,
}
use karpenter_provider_hclou.Base.Int.{ℤ, pos}
use karpenter_provider_hclou.Base.Map.{Map}

abbrev pub os_family_debian : String
os_family_debian = "Debian"

pub record ContainerdSpec : Type 0 where
  pub systemd_cgroup : Option Bool
  pub apt_pin : String
  pub extra_config : String

pub record UnattendedUpgradesSpec : Type 0 where
  pub enabled : Option Bool
  pub extra_origins : List String
  pub remove_unused_kernel_packages : Option Bool

pub record File : Type 0 where
  pub path : String
  pub content : String
  pub permissions : String
  pub owner : String

pub record BootstrapSpec : Type 0 where
  pub os_family : String
  pub mode : String
  pub kubernetes_version : String
  pub package_revision : String
  pub api_server_endpoint : String
  pub ca_cert_hashes : List String
  pub containerd : ContainerdSpec
  pub unattended_upgrades : UnattendedUpgradesSpec
  pub sysctls : Map String
  pub kernel_modules : List String
  pub package_upgrade_on_boot : Option Bool
  pub extra_packages : List String
  pub extra_files : List File
  pub pre_join_commands : List String
  pub post_join_commands : List String
  pub revision : String

-- `resource.Quantity`: its amount in thousandths, and what `String` says of it.
pub record Quantity : Type 0 where
  pub amount : ℤ
  pub text : String

pub record KubeletArg : Type 0 where
  pub name : String
  pub value : String

-- The fields of `KubeletConfiguration` that the program reads.
pub record KubeletConfiguration : Type 0 where
  pub kube_reserved : Map Quantity
  pub system_reserved : Map Quantity
  pub eviction_hard : Map String
  pub max_pods : Option ℕ
  pub cluster_dns : List String
  pub extra_args : List KubeletArg

abbrev pub default_containerd_apt_pin : String
default_containerd_apt_pin = "2.*"

abbrev pub default_package_revision : String
default_package_revision = "1.1"

abbrev pub default_max_pods : ℕ
default_max_pods = 110

-- `DefaultKubeReserved` and `DefaultSystemReserved`
abbrev pub default_reserved : Map Quantity
default_reserved =
    ("cpu", record { amount = pos 200; text = "200m" })
    ∷ ("memory", record { amount = pos (512 * 1024 * 1024 * 1000); text = "512Mi" })
    ∷ []

abbrev pub default_eviction_hard : Map String
default_eviction_hard =
    ("memory.available", "500Mi")
    ∷ ("nodefs.available", "10%")
    ∷ ("nodefs.inodesFree", "5%")
    ∷ ("imagefs.available", "15%")
    ∷ ("imagefs.inodesFree", "5%")
    ∷ []

-- What a pointer to a Boolean says, where nil means true.
unfoldable pub enabled_or_default : Option Bool → Bool
enabled_or_default none = true
enabled_or_default (some enabled) = enabled

unfoldable pub systemd_cgroup_enabled : ContainerdSpec → Bool
unfolding enabled_or_default
systemd_cgroup_enabled spec = enabled_or_default spec.systemd_cgroup

unfoldable pub apt_pin_or_default : ContainerdSpec → String
apt_pin_or_default spec = if spec.apt_pin == "" then default_containerd_apt_pin else spec.apt_pin

unfoldable pub unattended_upgrades_enabled : UnattendedUpgradesSpec → Bool
unfolding enabled_or_default
unattended_upgrades_enabled spec = enabled_or_default spec.enabled

unfoldable pub remove_unused_kernels_enabled : UnattendedUpgradesSpec → Bool
unfolding enabled_or_default
remove_unused_kernels_enabled spec = enabled_or_default spec.remove_unused_kernel_packages

unfoldable pub package_revision_or_default : BootstrapSpec → String
package_revision_or_default spec =
    if spec.package_revision == "" then default_package_revision else spec.package_revision

unfoldable pub package_upgrade_on_boot_enabled : BootstrapSpec → Bool
unfolding enabled_or_default
package_upgrade_on_boot_enabled spec = enabled_or_default spec.package_upgrade_on_boot

unfoldable pub kube_reserved_or_default : KubeletConfiguration → Map Quantity
kube_reserved_or_default k = if is_empty k.kube_reserved then default_reserved else k.kube_reserved

unfoldable pub system_reserved_or_default : KubeletConfiguration → Map Quantity
system_reserved_or_default k =
    if is_empty k.system_reserved then default_reserved else k.system_reserved

unfoldable pub eviction_hard_or_default : KubeletConfiguration → Map String
eviction_hard_or_default k =
    if is_empty k.eviction_hard then default_eviction_hard else k.eviction_hard

unfoldable pub max_pods_or_default : KubeletConfiguration → ℕ
max_pods_or_default k = elim (k.max_pods) [ none ↦ default_max_pods | some n ↦ n ]
