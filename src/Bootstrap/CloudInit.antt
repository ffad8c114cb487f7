-- ===== src/Bootstrap/CloudInit.antt =====
-- internal/providers/bootstrap/cloudinit.go: the cloud-init document of a node.
pub mod Bounds
pub mod Rendered
use Prim.Native.Char.{code}
use Prim.Native.String
use karpenter_provider_hclou.Base.{
  ℕ, ◌*◌, ◌+◌, Bool, true, false, not, ◌&&◌, ◌||◌, List, [], ◌∷◌, ◌++◌, String, map, contains,
  is_empty, leb, ltb, if◌then◌else◌, ◌==◌, nat_comparable, string_comparable, Option, none, some,
  length,
}
use karpenter_provider_hclou.Base.Map.{Map, insert, get}
use karpenter_provider_hclou.Base.Sort.{sort_stable, text_ltb}
use karpenter_provider_hclou.Base.Texts.{codes, byte_length, append_text, concat, join}
use karpenter_provider_hclou.Api.Bootstrap.{
  File, BootstrapSpec, os_family_debian, systemd_cgroup_enabled, apt_pin_or_default,
  unattended_upgrades_enabled, remove_unused_kernels_enabled, package_revision_or_default,
  package_upgrade_on_boot_enabled,
}
use karpenter_provider_hclou.Bootstrap.ClusterInfo.{Bytes}
use karpenter_provider_hclou.Bootstrap.Contents.{
  dedupe, minor_version, trim_space, append_heredoc, sysctl_content, modules_content,
  origins_content,
}
use karpenter_provider_hclou.Bootstrap.Kubeadm.{
  JoinInput, JoinConfiguration, render_join_configuration,
}
use karpenter_provider_hclou.Hcloudapi.Errors.{errorf, wrapf, Result, ok, err}

abbrev pub max_user_data_bytes : ℕ
max_user_data_bytes = 32 * 1024

abbrev pub gzip_threshold_bytes : ℕ
gzip_threshold_bytes = 24 * 1024

pub record WriteFile : Type 0 where
  pub path : String
  pub permissions : String
  pub owner : String
  pub content : String

pub record CloudConfig : Type 0 where
  pub package_update : Bool
  pub package_upgrade : Bool
  pub package_reboot_if_required : Bool
  pub packages : List String
  pub write_files : List WriteFile
  pub runcmd : List String

-- The packages that encode: sigs.k8s.io/yaml, compress/gzip (its two errors are wrapped alike), and
-- `strconv.Quote`, whose tables of printable characters are not modelled.
pub record Encoding : Type 0 where
  pub marshal_join : JoinConfiguration → Result String
  pub marshal_config : CloudConfig → Result String
  pub gzip : String → Result Bytes
  pub quote : String → String

-- What a Go string of user data holds: a text, or the bytes of a gzip stream.
pub data UserData : Type 0 where
  plain : String → UserData
  gzipped : Bytes → UserData

-- `len`
unfoldable pub size : UserData → ℕ
unfolding byte_length
size (plain doc) = byte_length (codes doc)
size (gzipped bytes) = length bytes

abbrev pub base_packages : List String
base_packages =
    "apt-transport-https" ∷ "curl" ∷ "gnupg" ∷ "ca-certificates" ∷ "unattended-upgrades"
    ∷ "containernetworking-plugins" ∷ "nfs-common" ∷ []

abbrev pub join_path : String
join_path = "/etc/kubernetes/kubeadm-join.yaml"

abbrev pub file : String → String → String → WriteFile
file path permissions content = record {
  path = path;
  permissions = permissions;
  owner = "";
  content = content;
}

abbrev pub join_command : String
join_command = "kubeadm join --config /etc/kubernetes/kubeadm-join.yaml"

-- The files before the operator's, in their order.
unfoldable pub own_files : (String → String) → BootstrapSpec → String → List WriteFile
unfolding sysctl_content modules_content origins_content concat apt_pin_or_default
    unattended_upgrades_enabled remove_unused_kernels_enabled
own_files quote boot join_yaml =
    (file "/etc/sysctl.d/99-k8s.conf" "0644" (sysctl_content boot.sysctls)
      ∷ file "/etc/modules-load.d/k8s.conf" "0644" (modules_content boot.kernel_modules)
      ∷ file "/etc/apt/preferences.d/containerd" "0644" (
          concat (
            "# Bound containerd.io to a major version. unattended-upgrades patches\n"
            ∷ "# freely within it but cannot silently cross a major boundary: that changes\n"
            ∷ "# the CRI plugin configuration shape and breaks any additional runtime\n"
            ∷ "# handler wired into it. Raise deliberately.\n"
            ∷ "Package: containerd.io\nPin: version "
            ∷ apt_pin_or_default boot.containerd
            ∷ "\nPin-Priority: 1001\n"
            ∷ []))
      ∷ file "/etc/default/kubelet" "0644" "KUBELET_EXTRA_ARGS=--cloud-provider=external\n"
      ∷ file join_path "0600" join_yaml
      ∷ [])
    ++ (if not (unattended_upgrades_enabled boot.unattended_upgrades)
        then []
        else (if is_empty boot.unattended_upgrades.extra_origins
            then []
            else file "/etc/apt/apt.conf.d/52unattended-upgrades-extra.conf" "0644"
                (origins_content quote boot.unattended_upgrades.extra_origins)
              ∷ [])
          ++ (if not (remove_unused_kernels_enabled boot.unattended_upgrades)
              then []
              else file "/etc/apt/apt.conf.d/52unattended-upgrades-kernels.conf" "0644" (
                  concat (
                    "// Auto-purge superseded kernels so old linux-image-* do not fill /boot.\n"
                    ∷ "Unattended-Upgrade::Remove-Unused-Kernel-Packages \"true\";\n" ∷ []))
                ∷ []))

abbrev pub operator_file : File → WriteFile
operator_file f = record {
  path = f.path;
  permissions = f.permissions;
  owner = f.owner;
  content = f.content;
}

-- The commands before those of the operator.
unfoldable pub setup_commands : BootstrapSpec → String → String → List String
unfolding concat trim_space append_heredoc unattended_upgrades_enabled systemd_cgroup_enabled
setup_commands boot minor version =
    ("sysctl --system"
      ∷ "modprobe br_netfilter"
      ∷ "mkdir -p /etc/apt/keyrings"
      ∷ concat (
          "curl -fsSL https://pkgs.k8s.io/core:/stable:/v" ∷ minor
          ∷ "/deb/Release.key | gpg --dearmor -o /etc/apt/keyrings/kubernetes-apt-keyring.gpg" ∷ [])
      ∷ concat (
          "echo 'deb [signed-by=/etc/apt/keyrings/kubernetes-apt-keyring.gpg] "
          ∷ "https://pkgs.k8s.io/core:/stable:/v" ∷ minor
          ∷ "/deb/ /' > /etc/apt/sources.list.d/kubernetes.list" ∷ [])
      ∷ "curl -fsSL https://download.docker.com/linux/debian/gpg | gpg --dearmor -o /etc/apt/keyrings/docker.gpg"
      ∷ "echo \"deb [arch=$(dpkg --print-architecture) signed-by=/etc/apt/keyrings/docker.gpg] https://download.docker.com/linux/debian $(. /etc/os-release && echo \\\"$VERSION_CODENAME\\\") stable\" > /etc/apt/sources.list.d/docker.list"
      ∷ "apt-get update"
      ∷ concat (
          "apt-get install -y -o Dpkg::Options::=\"--force-confold\" containerd.io kubelet="
          ∷ version ∷ " kubeadm=" ∷ version ∷ " kubectl=" ∷ version ∷ [])
      ∷ "apt-mark hold kubelet kubeadm kubectl"
      ∷ [])
    ++ ((if unattended_upgrades_enabled boot.unattended_upgrades
          then "dpkg-reconfigure -f noninteractive unattended-upgrades" ∷ []
          else [])
        ++ (("mkdir -p /etc/containerd" ∷ "containerd config default > /etc/containerd/config.toml"
              ∷ [])
            ++ ((if systemd_cgroup_enabled boot.containerd
                  then "sed -i 's/SystemdCgroup = false/SystemdCgroup = true/' /etc/containerd/config.toml"
                    ∷ []
                  else [])
                ++ ((let extra = trim_space boot.containerd.extra_config in
                      if extra == ""
                      then []
                      else append_heredoc "/etc/containerd/config.toml" extra ∷ [])
                    ++ ("systemctl restart containerd" ∷ "systemctl enable kubelet" ∷ [])))))

-- `buildRuncmd`
unfoldable pub build_runcmd : BootstrapSpec → String → String → List String
unfolding setup_commands
build_runcmd boot minor version =
    setup_commands boot minor version
    ++ (boot.pre_join_commands ++ (join_command ∷ boot.post_join_commands))

-- The document that `Render` marshals.
unfoldable pub cloud_config : (String → String) → BootstrapSpec → String → String → CloudConfig
unfolding own_files build_runcmd dedupe append_text package_revision_or_default
    package_upgrade_on_boot_enabled
cloud_config quote boot join_yaml minor =
    let upgrade = package_upgrade_on_boot_enabled boot in
    let version =
      append_text boot.kubernetes_version (append_text "-" (package_revision_or_default boot)) in
    record {
      package_update = true;
      package_upgrade = upgrade;
      package_reboot_if_required = upgrade;
      packages = dedupe (base_packages ++ boot.extra_packages);
      write_files = own_files quote boot join_yaml ++ map operator_file boot.extra_files;
      runcmd = build_runcmd boot minor version;
    }

-- `maybeCompress`
unfoldable pub maybe_compress : (String → Result Bytes) → String → Result UserData
unfolding byte_length
maybe_compress gzip doc =
    if leb (byte_length (codes doc)) gzip_threshold_bytes
    then if ltb max_user_data_bytes (byte_length (codes doc))
      then err (errorf "userData is %d bytes, over the %d byte limit" [])
      else ok (plain doc)
    else elim (gzip doc) [
      | err e ↦ err (wrapf "compressing userData: %w" [] e)
      | ok bytes ↦
          if ltb max_user_data_bytes (length bytes)
          then err (errorf "userData is %d bytes compressed, over the %d byte limit" [])
          else ok (gzipped bytes)
    ]

-- `Render` of a NodeClass that is there.
unfoldable pub render : Encoding → BootstrapSpec → JoinInput → Result UserData
unfolding render_join_configuration minor_version cloud_config append_text maybe_compress
render encoding boot input =
    if not (boot.os_family == "") && not (boot.os_family == os_family_debian)
    then err (errorf "unsupported osFamily %q" (boot.os_family ∷ []))
    else elim (render_join_configuration encoding.marshal_join input) [
      | err e ↦ err e
      | ok join_yaml ↦ elim (minor_version boot.kubernetes_version) [
        | err e ↦ err e
        | ok minor ↦
            elim (encoding.marshal_config (cloud_config encoding.quote boot join_yaml minor)) [
              | err e ↦ err (wrapf "marshalling cloud-config: %w" [] e)
              | ok doc ↦ maybe_compress encoding.gzip (append_text "#cloud-config\n" doc)
            ]
      ]
    ]
