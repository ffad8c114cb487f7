-- ===== src/Lib.antt =====
-- A verification of karpenter-provider-hcloud, the karpenter provider that runs the nodes of a
-- Kubernetes cluster on Hetzner Cloud servers.
--
-- Karpenter calls the cloud provider (internal/cloudprovider): `Create` launches a server for a
-- NodeClaim, `Delete`, `Get`, `List` and `Reboot` act on servers, and `IsDrifted` says which nodes to
-- replace. The cloud provider reads an `HCloudNodeClass` (api/v1alpha1) and calls the instance provider
-- (internal/providers/instance), which orders servers through the interface `Servers`
-- (internal/hcloudapi), skips offerings that were out of stock (internal/providers/instancetype) and
-- shares one recent listing. The catalogue (internal/providers/catalog) is refreshed beside it, and
-- controllers (internal/controllers) resolve the NodeClass, stamp the hash of its spec and delete
-- servers whose NodeClaim is gone.
--
-- Which file is about which part, with its state and its operations:
--   * Hcloudapi/Scrub, Hcloudapi/Redact, Hcloudapi/Client: internal/hcloudapi/redact.go and client.go.
--     `scrub_from` is the loop of `scrubToken`, `quoted_from` the replacement by the regular expression
--     `quotedToken`; `Tree` is an error with all that it wraps.
--   * Hcloudapi/Errors, Hcloudapi/Labels, Hcloudapi/ProviderId, Hcloudapi/Servers, Hcloudapi/Catalog:
--     internal/hcloudapi/errors.go (`classify`, `code_of`), labels.go (`is_managed_by`), servers.go and
--     types.go. `Servers` is the interface over an abstract state of the outside world, which every call
--     may change as it likes; Hcloudapi/Servers/Isolated has what the documentation of the API says of
--     the calls, as laws that a theorem takes where it rests on them.
--   * Hcloudapi/Conversion, Hcloudapi/Adapter: the methods of `serverClient` in servers.go, and what they
--     make of hcloud-go's structs. Hcloudapi/Hcloud is the part of hcloud-go that they call, an argument of
--     the client; Hcloudapi/Hcloud/Documented has Hetzner's documentation of it, as laws.
--   * Instancetype/Unavailable, Instancetype/Zone: internal/providers/instancetype/unavailable.go and
--     zone.go. A map is an association list without a key twice.
--   * Instancetype/Resources, Instancetype/Types: internal/providers/instancetype/resources.go and
--     types.go. `build_one` is a turn of the loop of `Build`, `offerings` the loop of `newInstanceType`.
--   * Bootstrap/Token: internal/providers/bootstrap/token.go, over the state of the world that `Minting`
--     keeps. Bootstrap/ClusterInfo: clusterinfo.go there, `Discovery` being its cache. Bootstrap/Kubeadm:
--     kubeadm.go. Bootstrap/Contents, Bootstrap/CloudInit: cloudinit.go. Bootstrap/Provider: provider.go.
--   * Instance/Candidates, Instance/Request, Instance/Create: internal/providers/instance/instance.go and
--     request.go. `World` is the state that one `Provider` shares with the outside; `walk` is the loop of
--     `Create`, `attempt` one turn of it, `react` its `switch` on the class of a failure.
--   * Instance/ListCache, Instance/Reads: internal/providers/instance/list.go. `list` and `flight` are the
--     two halves of `listCache.list` for one caller; Instance/ListCache/Race interleaves them.
--   * Instance/Reboot: internal/providers/instance/reboot.go.
--   * Catalog: internal/providers/catalog/catalog.go.
--   * Cloudprovider, Cloudprovider/Claims, Cloudprovider/Drift: internal/cloudprovider/cloudprovider.go
--     and drift.go.
--   * Controllers/Instancegc: internal/controllers/instancegc/controller.go over its interface `Provider`.
--   * Controllers/Nodeclass/Scope, Controllers/Nodeclass/Validation: validation.go, and
--     Controllers/Nodeclass/Hash: hash/controller.go, of internal/controllers/nodeclass.
--   * Controllers/Nodeclass/Resolve, Firewalls, SshKeys and Single beside it: resolve.go, firewall.go,
--     sshkey.go, and image.go, network.go and placementgroup.go. `gather` is the loop over selectors that
--     firewall.go and sshkey.go have in common, `give_up` the branch for an error of the other three.
--   * Controllers/Nodeclass/BootstrapDiscovery: bootstrap.go there; `publish` is its part after the
--     refresh.
--   * Controllers/Nodeclass/Reconciler: controller.go and termination.go, one pass with the answers of
--     the cluster's API and of Hetzner's as arguments.
--   * Api/NodeClass, Api/Bootstrap, Api/Hash: api/v1alpha1. Karpenter: what is taken of sigs.k8s.io/karpenter, its
--     requirements behind an interface.
--   * Base: lists, maps, sorting and tests that the parts share. Tests: runs at concrete inputs.
--
-- Conventions. An id is a number, a time is in nanoseconds since Go's zero time, which is 0, and no
-- addition of a duration overflows. A price is a number of 1/730 of the unit of a monthly price. An error
-- is a tree that `errors.As` walks; a message is its format and its arguments, unrendered. A nil
-- pointer is `none`. A mutex or an atomic pointer makes a method one step. Loops are recursion on the
-- list they range over; the endless loop of `Start` is taken for any number of turns, and decimal digits
-- are emitted by recursion on the accessibility of `<`. One loop runs on fuel: `collect_hashes`, over the
-- blocks of a bundle, with one round more than the bundle has bytes, which is enough since every block
-- that is decoded takes bytes. A Go string is a text of code points; where the code counts bytes, so
-- does the model.
--
-- Not modelled: the adapters of the catalogue, the images and the other resources, since they translate
-- between libraries; the floating-point calculations of sizes and thresholds, which are parameters of
-- the instance types; YAML, gzip, PEM, certificates, URLs, hashes and `strconv.Quote`, which are
-- parameters of what uses them; the watches and rate limits of the controllers; metrics beyond the
-- calls that the modelled code makes; and logging. The hash of a spec, the instance types of a NodeClass, the user data and the capacity of a
-- type are parameters of the instance provider and the cloud provider.
pub mod Base
pub mod Hcloudapi
pub mod Karpenter
pub mod Api
pub mod Instancetype
pub mod Instance
pub mod Bootstrap
pub mod Catalog
pub mod Cloudprovider
pub mod Controllers
pub mod Tests
