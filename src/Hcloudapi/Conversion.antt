-- ===== src/Hcloudapi/Conversion.antt =====
-- internal/hcloudapi/servers.go: a server as hcloud-go has it, and an order as hcloud-go takes it. What
-- hcloud-go reaches by a pointer is an option.
use karpenter_provider_hclou.Base.{
  ℕ, true, false, not, Option, none, some, List, [], ◌∷◌, String, if◌then◌else◌, ◌==◌,
  nat_comparable, string_comparable,
}
use karpenter_provider_hclou.Hcloudapi.Hcloud.{PrivateNet, HcloudServer, ServerCreateOpts}
use karpenter_provider_hclou.Hcloudapi.Servers.{Server, CreateServerRequest}

-- The first address among the private networks.
unfoldable pub first_ip : List PrivateNet → String
first_ip [] = ""
first_ip (n ∷ ns) =
    let rest = first_ip ns in elim (n.ip) [ none ↦ rest | some ip ↦ if ip == "" then rest else ip ]

unfoldable pub network_ids : List PrivateNet → List ℕ
network_ids [] = []
network_ids (n ∷ ns) =
    let rest = network_ids ns in elim (n.network) [ none ↦ rest | some id ↦ id ∷ rest ]

abbrev pub text_or_empty : Option String → String
text_or_empty none = ""
text_or_empty (some s) = s

abbrev pub id_or_zero : Option ℕ → ℕ
id_or_zero none = 0
id_or_zero (some id) = id

-- `serverFromHcloud`
unfoldable pub server_from_hcloud : HcloudServer → Server
unfolding first_ip network_ids
server_from_hcloud srv = record {
  id = srv.id;
  name = srv.name;
  server_type = text_or_empty srv.server_type;
  location = text_or_empty srv.location;
  status = srv.status;
  labels = srv.labels;
  image_id = id_or_zero srv.image;
  created = srv.created;
  private_ipv4 = first_ip srv.private_net;
  public_ipv4 = text_or_empty srv.ipv4;
  network_ids = network_ids srv.private_net;
  firewall_ids = srv.firewalls;
  placement_group_id = id_or_zero srv.placement_group;
  has_public_ipv4 = not (srv.ipv4_id == 0);
  has_public_ipv6 = not (srv.ipv6_id == 0);
}

-- A loop over pointers that passes over the nil ones.
unfoldable pub present : {A : Type 0} → List (Option A) → List A
present [] = []
present (none ∷ xs) = present xs
present (some x ∷ xs) = x ∷ present xs

unfoldable pub create_opts : CreateServerRequest → ServerCreateOpts
create_opts req = record {
  name = req.name;
  server_type = req.server_type;
  image = req.image_id;
  location = req.location;
  user_data = req.user_data;
  labels = req.labels;
  start_after_create = true;
  automount = false;
  enable_ipv4 = req.public_ipv4;
  enable_ipv6 = req.public_ipv6;
  ssh_keys = req.ssh_key_ids;
  networks = req.network_ids;
  firewalls = req.firewall_ids;
  placement_group = req.placement_group_id;
}
