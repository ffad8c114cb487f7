-- ===== src/Tests/Memory.antt =====
-- Test data: Hetzner's servers as a map in memory, a cluster, a NodeClass and a claim.
use karpenter_provider_hclou.Base.{
  ℕ, suc, ◌*◌, ◌≡◌, ◌≢◌, refl, Bool, true, false, Option, none, some, List, [], ◌∷◌, map, String,
  arith, if◌then◌else◌, ◌==◌, nat_comparable, string_comparable,
}
use karpenter_provider_hclou.Base.Int.{pos}
use karpenter_provider_hclou.Api.Bootstrap.{BootstrapSpec}
use karpenter_provider_hclou.Api.Hash.{annotation_hash, annotation_hash_version, hash_version}
use karpenter_provider_hclou.Api.NodeClass.{HCloudNodeClass, HCloudNodeClassSpec, SelectorTerm}
use karpenter_provider_hclou.Hcloudapi.Errors.{api_error, resource_unavailable, ok, err}
use karpenter_provider_hclou.Hcloudapi.Servers.{Server, CreateServerRequest, Action, Servers}
use karpenter_provider_hclou.Hcloudapi.Servers.Isolated.{Isolated}
use karpenter_provider_hclou.Instance.World.{World, ListCache}
use karpenter_provider_hclou.Karpenter.{Scheduling, Offering, InstanceType, NodeClaim}

-- Servers by id, the ids in use, the next id, and the locations that are sold out.
pub record Memory : Type 0 where
  pub clock : ℕ
  pub at : ℕ → Option Server
  pub ids : List ℕ
  pub next : ℕ
  pub sold_out : String → Bool
  pub actions : List Action

abbrev pub made : CreateServerRequest → ℕ → ℕ → Server
made req id now = record {
  id = id;
  name = req.name;
  server_type = req.server_type;
  location = req.location;
  status = "running";
  labels = req.labels;
  image_id = req.image_id;
  created = now;
  private_ipv4 = "";
  public_ipv4 = "";
  network_ids = req.network_ids;
  firewall_ids = req.firewall_ids;
  placement_group_id = 0;
  has_public_ipv4 = req.public_ipv4;
  has_public_ipv6 = req.public_ipv6;
}

abbrev pub named : String → Memory → List ℕ → Option Server
named name m [] = none
named name m (id ∷ ids) =
    let rest = named name m ids in
    elim (m.at id) [ none ↦ rest | some srv ↦ if srv.name == name then some srv else rest ]

abbrev pub memory : Servers
memory = record {
  Cloud = Memory;
  now = λ m. m.clock;
  create = λ req m.
      if m.sold_out req.location then (err (api_error resource_unavailable "sold out"), m) else (
        ok (made req m.next m.clock),
        record m {
          at = λ j. if j == m.next then some (made req m.next m.clock) else m.at j;
          ids = m.next ∷ m.ids;
          next = suc m.next;
        },
      );
  delete = λ id m. (ok tt, record m { at = λ j. if j == id then none else m.at j });
  get = λ id m. (ok (m.at id), m);
  get_by_name = λ name m. (ok (named name m m.ids), m);
  list = λ selector m. (ok (map m.at m.ids), m);
  reset = λ id m. (ok tt, m);
  recent_actions = λ id m. (ok m.actions, m);
}

pub other_kept : (j id : ℕ) (o : Option Server) → j ≢ id → (if j == id then none else o) ≡ o
other_kept j id o n = ground arith

unfoldable pub memory_isolated : Isolated memory
memory_isolated = record {
  view = λ m. m.at;
  get_reads = λ id c c' r h. cc;
  get_keeps = λ id j c. refl;
  actions_keeps = λ id j c. refl;
  delete_local = λ id j c n. other_kept j id (c.at j) n;
  reset_local = λ id j c n. refl;
}

abbrev pub second : ℕ
second = 1_000_000_000

abbrev pub cluster : String
cluster = "c1"

-- A server that this cluster runs for `claim-1`, and one of somebody else.
abbrev pub ours : Server
ours = record {
  id = 7;
  name = "claim-1";
  server_type = "cx22";
  location = "fsn1";
  status = "running";
  labels = ("karpenter.sh/managed-by", "c1") ∷ ("karpenter.itsh.dev/nodeclaim", "claim-1") ∷ [];
  image_id = 5;
  created = 1000 * second;
  private_ipv4 = "";
  public_ipv4 = "";
  network_ids = 3 ∷ [];
  firewall_ids = 2 ∷ 1 ∷ [];
  placement_group_id = 0;
  has_public_ipv4 = true;
  has_public_ipv6 = true;
}

abbrev pub foreign : Server
foreign = record ours { id = 8; name = "database"; labels = [] }

abbrev pub stocked : Memory
stocked = record {
  clock = 2000 * second;
  at = λ j. if j == 7 then some ours else if j == 8 then some foreign else none;
  ids = 7 ∷ 8 ∷ [];
  next = 9;
  sold_out = λ l. l == "fsn1";
  actions = [];
}

abbrev pub empty_cache : ListCache
empty_cache = record { cached = none; fetched_at = 0 }

abbrev pub world : World memory
world = record {
  cloud = stocked;
  unavailable = record { ttl = 300 * second; items = [] };
  cache = empty_cache;
  metrics = [];
}

-- Requirements that fit everything, and pin at most the region.
abbrev pub lenient : Scheduling
lenient = record {
  Requirements = Option String;
  intersects = λ a b. true;
  is_compatible = λ a b. true;
  pinned = λ r key. r;
  pins = λ r. [];
  unconstrained = none;
}

abbrev pub offer : String → ℕ → Offering (Option String)
offer location price = record { requirements = some location; price = price; available = true }

abbrev pub cx22 : InstanceType (Option String)
cx22 = record {
  name = "cx22";
  requirements = none;
  offerings = offer "nbg1" 5 ∷ offer "fsn1" 3 ∷ [];
  capacity = [];
  allocatable = ("cpu", pos 2) ∷ [];
}

abbrev pub claim : NodeClaim (Option String)
claim = record {
  name = "claim-1";
  uid = "uid-1";
  taints = [];
  startup_taints = [];
  labels = ("karpenter.sh/nodepool", "pool") ∷ [];
  annotations = [];
  requirements = none;
  requests = ("cpu", pos 1) ∷ [];
  node_class_ref = some "default";
  provider_id = "hcloud://7";
  capacity = [];
  allocatable = [];
  creation_timestamp = 900 * second;
  rebooting_since = none;
}

abbrev pub anything : SelectorTerm
anything = record { name = "any"; id = none }

abbrev boot : BootstrapSpec
boot = record {
  os_family = "Debian";
  mode = "Managed";
  kubernetes_version = "1.34.7";
  package_revision = "";
  api_server_endpoint = "";
  ca_cert_hashes = [];
  containerd = record { systemd_cgroup = none; apt_pin = ""; extra_config = "" };
  unattended_upgrades = record {
    enabled = none;
    extra_origins = [];
    remove_unused_kernel_packages = none;
  };
  sysctls = [];
  kernel_modules = [];
  package_upgrade_on_boot = none;
  extra_packages = [];
  extra_files = [];
  pre_join_commands = [];
  post_join_commands = [];
  revision = "";
}

abbrev pub spec : HCloudNodeClassSpec
spec = record {
  image_selector = anything;
  image_drift_policy = "";
  max_node_age = none;
  locations = "fsn1" ∷ "fsn1" ∷ "xyz1" ∷ [];
  network_selector = some anything;
  firewall_selectors = [];
  ssh_key_selectors = [];
  placement_group = none;
  public_ipv4 = none;
  public_ipv6 = none;
  server_labels = ("karpenter.sh/nodepool", "other") ∷ [];
  bootstrap = boot;
  kubelet = record {
    kube_reserved = [];
    system_reserved = [];
    eviction_hard = [];
    max_pods = none;
    cluster_dns = [];
    extra_args = [];
  };
}

abbrev pub node_class : HCloudNodeClass
node_class = record {
  name = "default";
  annotations = (annotation_hash_version, hash_version) ∷ (annotation_hash, "h") ∷ [];
  deleting = false;
  ready = true;
  spec = spec;
  status = record {
    image = some (record { id = 5; name = "debian"; architecture = "x86" });
    network = some (record { id = 3; name = "net"; zone = "eu-central" });
    firewalls = record { id = 1; name = "a" } ∷ record { id = 2; name = "b" } ∷ [];
    ssh_keys = [];
    placement_group = none;
    locations = record { name = "fsn1"; network_zone = "eu-central" } ∷ [];
    api_server_endpoint = "10.0.0.2:6443";
    ca_cert_hashes = "sha256:ab" ∷ [];
  };
}
