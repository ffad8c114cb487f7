-- ===== src/Tests/Fleet.antt =====
-- hcloud-go over a fleet in memory, and what `serverClient` makes of it.
use karpenter_provider_hclou.Base.{
  List,
  ℕ, suc, ◌≡◌, ◌≢◌, refl, sym, ap, ◌∙◌, Bool-cases, inl, inr, Bool, true, false, Option, none, some,
  [], ◌∷◌, String, arith, if◌then◌else◌, ltb, ◌==◌, nat_comparable,
}
use karpenter_provider_hclou.Base.Map.{Map}
use karpenter_provider_hclou.Hcloudapi.Adapter.{
  ServerClient, settle, read_created, get, delete_quietly, create, delete, reset, servers, new_servers,
}
use karpenter_provider_hclou.Hcloudapi.Conversion.{server_from_hcloud, create_opts}
use karpenter_provider_hclou.Hcloudapi.Adapter.Classified.{
  FailedWith, Told, create-coded, delete_reset-Told,
}
use karpenter_provider_hclou.Hcloudapi.Adapter.Refined.{seen}
use karpenter_provider_hclou.Hcloudapi.Errors.{
  ok, Error, err, api_error, code_of, classify, resource_unavailable, code_not_found,
}
use karpenter_provider_hclou.Hcloudapi.Hcloud.{ServerCreateOpts, ServerCreateResult, Answer, HcloudServer, answered, failed, Hcloud}
use karpenter_provider_hclou.Hcloudapi.Hcloud.Documented.{Documented}
use karpenter_provider_hclou.Hcloudapi.Labels.{is_managed_by}
use karpenter_provider_hclou.Hcloudapi.Redact as Redact
use karpenter_provider_hclou.Hcloudapi.Redact.{Tree}
use karpenter_provider_hclou.Hcloudapi.Servers.{CreateServerRequest}
use karpenter_provider_hclou.Instance.Reads as Reads
use karpenter_provider_hclou.Instance.Reboot as Reboot
use karpenter_provider_hclou.Instance.Spared.{delete_reboot-spares}
use karpenter_provider_hclou.Instance.World.{World}
use karpenter_provider_hclou.Tests.Memory.{empty_cache}
use karpenter_provider_hclou.Tests.Secrets.{wording, token}

-- The servers below `next` that have not been deleted, with their labels and whether they have
-- started; whether orders are refused; and whether actions fail.
record Fleet : Type 0 where
  next : ℕ
  alive : ℕ → Bool
  started : ℕ → Bool
  labels : ℕ → Map String
  full : Bool
  stuck : Bool

abbrev machine : Fleet → ℕ → HcloudServer
machine m id = record {
  id = id;
  name = "claim-1";
  status = (if m.started id then "running" else "initializing");
  labels = m.labels id;
  created = 0;
  server_type = some "cx22";
  location = some "fsn1";
  image = some 5;
  ipv4 = none;
  ipv4_id = 0;
  ipv6_id = 0;
  placement_group = none;
  firewalls = [];
  private_net = [];
}

abbrev at : Fleet → ℕ → Option HcloudServer
at m id = if ltb id m.next then (if m.alive id then some (machine m id) else none) else none

abbrev no_room : Tree
no_room = Redact.action_error false resource_unavailable [] (some 4)

abbrev missing : Tree
missing = Redact.api_error false code_not_found [] none

abbrev grown : Fleet → Map String → Fleet
grown m labels = record m {
  next = suc m.next;
  alive = λ j. if j == m.next then true else m.alive j;
  started = λ j. if j == m.next then false else m.started j;
  labels = λ j. if j == m.next then labels else m.labels j;
}

abbrev started : Fleet → List ℕ → Fleet
started m [] = m
started m (action ∷ actions) = record m {
  started = λ j. if j == action then true else m.started j;
}

abbrev created : ServerCreateOpts → Fleet → Answer ServerCreateResult × Fleet
created opts m =
    if m.full
    then (failed no_room, m)
    else (
      answered
        (record {
          server = some (machine (grown m opts.labels) m.next);
          action = m.next;
          next_actions = [];
        }),
      grown m opts.labels,
    )

-- An order has a server, whose creation is the action with its id, and the wait for it starts it.
abbrev fleet : Hcloud
fleet = record {
  Cloud = Fleet;
  now = λ m. 0;
  server_create = created;
  wait_for = λ timeout actions m.
      if m.stuck then (failed no_room, m) else (answered tt, started m actions);
  server_delete = λ id m.
      (if ltb id m.next then answered tt else failed missing,
        record m { alive = λ j. if j == id then false else m.alive j });
  server_reset = λ id m. (if ltb id m.next then answered tt else failed missing, m);
  action_list_for = λ id per_page sort m. (answered [], m);
  get_by_id = λ id m. (answered (at m id), m);
  get_by_name = λ name m. (answered none, m);
  all_with_opts = λ selector m. (answered [], m);
}

abbrev id_or : ℕ → Option HcloudServer → ℕ
id_or id none = id
id_or id (some srv) = srv.id

at-id : (m : Fleet) (id : ℕ) (srv : HcloudServer) → at m id ≡ some srv → srv.id ≡ id
at-id m id srv h = sym (ap (id_or id) h) ∙ always
  where
    always : id_or id (at m id) ≡ id
    always = elim (Bool-cases (ltb id m.next)) [
      | inr outside ↦ rw outside refl
      | inl below ↦ elim (Bool-cases (m.alive id)) [
        | inl up ↦ rw (below, up) refl
        | inr down ↦ rw (below, down) refl
      ]
    ]

at-next : (m : Fleet) → at m m.next ≡ none
at-next m = ground arith

at-grown : (m : Fleet) (labels : Map String) (j : ℕ) → j ≢ m.next → at (grown m labels) j ≡ at m j
at-grown m labels j n =
    let other : (j == m.next) ≡ false = ground arith in
    let same : ltb j (suc m.next) ≡ ltb j m.next = ground arith in rw (other, same) refl

at-deleted :
    (m : Fleet) (id : ℕ)
    → at (record m { alive = λ j. if j == id then false else m.alive j }) id ≡ none
at-deleted m id = elim (Bool-cases (ltb id m.next)) [
  | inr outside ↦ rw outside refl
  | inl below ↦ let same : (id == id) ≡ true = ground arith in rw (below, same) refl
]

at-others :
    (m : Fleet) (id j : ℕ)
    → j ≢ id
    → at (record m { alive = λ j. if j == id then false else m.alive j }) j ≡ at m j
at-others m id j n = let other : (j == id) ≡ false = ground arith in rw other refl

answered_not_failed : {A : Type 0} {P : Type 0} (a : A) (e : Tree) → answered a ≡ failed e → P
answered_not_failed a e h = absurd cc

answered_injective : {A : Type 0} (a b : A) → answered a ≡ answered b → a ≡ b
answered_injective a b h = cc

below_next : (m : Fleet) (j : ℕ) (srv : HcloudServer) → at m j ≡ some srv → j ≢ m.next
below_next m j srv h e = clash (sym (at-next m) ∙ (ap (at m) (sym e) ∙ h))
  where
    clash : none ≡ some srv → ⊥
    clash p = cc

created-keeps :
    (opts : ServerCreateOpts) (m : Fleet) (j : ℕ) (srv : HcloudServer)
    → at m j ≡ some srv
    → at (created opts m).1 j ≡ some srv
created-keeps opts m j srv h = elim (Bool-cases (m.full)) [
  | inl full ↦ rw full h
  | inr room ↦ rw room (at-grown m opts.labels j (below_next m j srv h) ∙ h)
]

-- An answer is one of a fleet with room.
created-answered :
    (opts : ServerCreateOpts) (m : Fleet) (r : ServerCreateResult)
    → (created opts m).0 ≡ answered r
    → (m.full ≡ false)
      × (record {
          server = some (machine (grown m opts.labels) m.next);
          action = m.next;
          next_actions = [];
        }
        ≡ r)
created-answered opts m r h = elim (Bool-cases (m.full)) [
  | inl full ↦ answered_not_failed r no_room (sym (rw full at h))
  | inr room ↦ (room, answered_injective _ r (rw room at h))
]

at-started :
    (m : Fleet) (id j : ℕ) (actions : List ℕ)
    → j ≢ id
    → at (started m (id ∷ actions)) j ≡ at m j
at-started m id j actions n = let other : (j == id) ≡ false = ground arith in rw other refl

-- The server of an answer is the next one.
created-adds :
    (opts : ServerCreateOpts) (m : Fleet) (r : ServerCreateResult) (srv : HcloudServer)
    → (created opts m).0 ≡ answered r
    → r.server ≡ some srv
    → (m.full ≡ false) × (m.next ≡ srv.id) × (m.next ≡ r.action)
created-adds opts m r srv h e =
    let (room, same) = created-answered opts m r h in
    (room, ap (id_or 0) (ap (λ r. r.server) same ∙ e), ap (λ r. r.action) same)

fleet-create_adds :
    (opts : ServerCreateOpts) (m : Fleet) (r : ServerCreateResult) (srv : HcloudServer)
    → (created opts m).0 ≡ answered r
    → r.server ≡ some srv
    → (at m srv.id ≡ none)
      × ((j : ℕ) → j ≢ srv.id → at (created opts m).1 j ≡ at m j)
fleet-create_adds opts m r srv h e =
    let (room, same, _) = created-adds opts m r srv h e in
    (
      ap (at m) (sym same) ∙ at-next m,
      λ j n. rw room (at-grown m opts.labels j (λ k. n (k ∙ same))),
    )

fleet-wait_local :
    (opts : ServerCreateOpts) (m : Fleet) (r : ServerCreateResult) (srv : HcloudServer)
    (timeout j : ℕ)
    → (created opts m).0 ≡ answered r
    → r.server ≡ some srv
    → j ≢ srv.id
    → at (fleet.wait_for timeout (r.action ∷ r.next_actions) (created opts m).1).1 j
      ≡ at (created opts m).1 j
fleet-wait_local opts m r srv timeout j h e n =
    let (room, same, action) = created-adds opts m r srv h e in
    elim (Bool-cases ((created opts m).1.stuck)) [
      | inl stuck ↦ rw stuck refl
      | inr moving ↦
          rw moving
            (at-started (created opts m).1 r.action j r.next_actions
              (λ k. n (k ∙ (sym action ∙ same))))
    ]

abbrev documented : Documented fleet
documented = record {
  view = at;
  view_id = λ m id srv h. at-id m id srv h;
  create_keeps = created-keeps;
  create_adds = fleet-create_adds;
  wait_local = fleet-wait_local;
  get_reads = λ id m r h. answered_injective _ r h;
  get_keeps = λ id m j. refl;
  delete_gone = λ id m h. at-deleted m id;
  delete_local = λ id m j n. at-others m id j n;
  reset_local = λ id m j n. refl;
  actions_keeps = λ id per_page sort m j. refl;
}

abbrev client : ServerClient
client = new_servers fleet (some token) wording

-- Server 1 is this cluster's, server 2 somebody else's.
abbrev busy : Fleet
busy = record {
  next = 3;
  alive = λ j. true;
  started = λ j. true;
  full = false;
  labels = λ j. if j == 1 then ("karpenter.sh/managed-by", "c1") ∷ [] else [];
  stuck = true;
}

abbrev wanted : CreateServerRequest
wanted = record {
  name = "claim-1";
  server_type = "cx22";
  location = "fsn1";
  image_id = 5;
  ssh_key_ids = [];
  network_ids = 3 ∷ [];
  firewall_ids = [];
  placement_group_id = none;
  user_data = "";
  labels = [];
  public_ipv4 = true;
  public_ipv6 = true;
}

cleaned : at (create client wanted busy).1 3 ≡ none
unfolding create settle delete_quietly create_opts
cleaned = refl

-- A fleet without room takes no order; one whose actions succeed has the server started.
turned_away : (create client wanted (record busy { full = true })).1.next ≡ 3
unfolding create create_opts
turned_away = refl

brought_up :
    (create client wanted (record busy { stuck = false })).0
    ≡ ok (server_from_hcloud (machine (started (grown busy []) (3 ∷ [])) 3))
unfolding create settle read_created get create_opts
brought_up = refl

stuck_wait : FailedWith client wanted busy no_room
unfolding create_opts
stuck_wait = inr (
  record {
    server = some (machine (grown busy (create_opts wanted).labels) 3);
    action = 3;
    next_actions = [];
  },
  machine (grown busy (create_opts wanted).labels) 3,
  refl,
  refl,
  refl,
)

no_room_code : Redact.code_in no_room ≡ some resource_unavailable
unfolding Redact.code_in
no_room_code = refl

create-coded_example :
    (x : Error) × ((create client wanted busy).0 ≡ err x)
    × (code_of x ≡ some resource_unavailable)
    × (classify (some x) ≡ classify (some (api_error resource_unavailable "")))
create-coded_example =
    create-coded client wanted busy no_room resource_unavailable stuck_wait no_room_code

delete_reset-Told_example :
    ((fleet.server_delete 5 busy).0 ≡ failed missing
      → (x : Error) × ((delete client 5 busy).0 ≡ err x) × Told missing x)
    × ((fleet.server_reset 5 busy).0 ≡ failed missing
        → (x : Error) × ((reset client 5 busy).0 ≡ err x) × Told missing x)
delete_reset-Told_example = delete_reset-Told client 5 busy missing

abbrev watched : World (servers client)
watched = record {
  cloud = busy;
  unavailable = record { ttl = 300; items = [] };
  cache = empty_cache;
  metrics = [];
}

not_ours : is_managed_by (some (server_from_hcloud (machine busy 2))) "c1" ≡ false
unfolding is_managed_by server_from_hcloud
not_ours = refl

delete_reboot-spares_example :
    (seen (at (Reads.delete "c1" "hcloud://2" watched).1.cloud 2)
      ≡ some (server_from_hcloud (machine busy 2)))
    × (seen (at (Reboot.reboot "c1" "hcloud://2" "claim-1" 7 watched).1.cloud 2)
        ≡ some (server_from_hcloud (machine busy 2)))
delete_reboot-spares_example =
    delete_reboot-spares client documented "c1" "hcloud://2" "claim-1" 7 watched 2 (machine busy 2)
      refl not_ours
