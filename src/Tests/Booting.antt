-- ===== src/Tests/Booting.antt =====
-- The join parameters, the token and the user data of a new node.
use mathlib.Core.List.{Permᴰ}
use karpenter_provider_hclou.Base.{
  ℕ, zero, suc, ◌+◌, ◌*◌, ◌%◌, ◌≡◌, ◌<◌, ◌⊎◌, refl, inl, Option, none, some, [], ◌∷◌, List, String,
  length, arith, if◌then◌else◌, string_comparable, nat_comparable, ◌==◌,
}
use karpenter_provider_hclou.Base.Map.{lookup}
use karpenter_provider_hclou.Bootstrap.CloudInit.{Encoding, UserData, plain}
use karpenter_provider_hclou.Bootstrap.CloudInit as CloudInit
use karpenter_provider_hclou.Bootstrap.CloudInit.Rendered.{IsRendered, render-IsRendered}
use karpenter_provider_hclou.Bootstrap.ClusterInfo.{
  Bytes, Block, Decoding, Discovery, ConfigMapAnswer, config_map, refresh, ca_cert_hashes,
  valid_hash,
}
use karpenter_provider_hclou.Bootstrap.ClusterInfo.Blocks.{
  IsDecoding, Blocks, pins_of, ca_cert_hashes-pins_of,
}
use karpenter_provider_hclou.Bootstrap.ClusterInfo.Found.{IsDiscovered, refresh-IsDiscovered}
use karpenter_provider_hclou.Bootstrap.Kubeadm.{JoinInput, join_configuration}
use karpenter_provider_hclou.Bootstrap.Kubeadm.Stable.{join_configuration-IsReread}
use karpenter_provider_hclou.Bootstrap.Provider.{Provider, join_input, render}
use karpenter_provider_hclou.Bootstrap.Provider.Minted.{IsLaunchable, render-IsLaunchable}
use karpenter_provider_hclou.Bootstrap.Token.{Minting, Secret, mint}
use karpenter_provider_hclou.Bootstrap.Token.Owned.{IsMinted, mint-IsMinted}
use karpenter_provider_hclou.Controllers.Nodeclass.BootstrapDiscovery.{reconcile}
use karpenter_provider_hclou.Controllers.Nodeclass.BootstrapDiscovery.Joined.{
  IsPublished, IsWithdrawn, IsUntouched, reconcile-IsPublished,
}
use karpenter_provider_hclou.Hcloudapi.Errors.{errorf, ok, err}
use karpenter_provider_hclou.Tests.Memory.{claim, node_class}
use karpenter_provider_hclou.Tests.Resolving.{subject}

-- A bundle is a list of bytes, each a block of one byte: a certificate where it is even. A hash repeats
-- the byte.
abbrev repeated : ℕ → ℕ → Bytes
repeated zero b = []
repeated (suc n) b = b ∷ repeated n b

abbrev block_of : ℕ → Block
block_of b = record { kind = if b % 2 == 0 then "CERTIFICATE" else "PUBLIC KEY"; bytes = b ∷ [] }

abbrev decode_byte : Bytes → Option (Block × Bytes)
decode_byte [] = none
decode_byte (b ∷ bs) = some (block_of b, bs)

abbrev first : Bytes → ℕ
first [] = 0
first (b ∷ bs) = b

abbrev decoding : Decoding
decoding = record {
  PublicKey = ℕ;
  load = λ raw.
      ok (none ∷ some (record { server = raw; certificate_authority_data = 8 ∷ 3 ∷ 4 ∷ [] }) ∷ []);
  parse_url = λ server. ok (record { host = server; port = "" });
  decode = decode_byte;
  parse_certificate = λ der. ok (first der);
  marshal_key = λ key. ok (key ∷ []);
  sum256 = λ bytes. repeated 32 (first bytes);
}

is_decoding : IsDecoding decoding
is_decoding = record { shorter = shorter; digest = λ bytes. refl }
  where
    nothing : {A : Type 0} {a : A} → none ≡ some a → ⊥
    nothing e = cc

    shorter :
        (bytes rest : Bytes) (block : Block)
        → decode_byte bytes ≡ some (block, rest)
        → length rest < length bytes
    shorter [] rest block h = absurd (nothing h)
    shorter (b ∷ bs) rest block h = let same : bs ≡ rest = cc in rw (← same) (omega arith)

abbrev bundle : Bytes
bundle = 8 ∷ 3 ∷ 4 ∷ []

abbrev pins : List String
pins =
    "sha256:0808080808080808080808080808080808080808080808080808080808080808"
    ∷ "sha256:0404040404040404040404040404040404040404040404040404040404040404" ∷ []

hashed : ca_cert_hashes decoding bundle ≡ ok pins
unfolding ca_cert_hashes
hashed = refl

ca_cert_hashes-pins_of_example :
    (blocks : List Block) × Blocks decoding bundle blocks
    × (ca_cert_hashes decoding bundle ≡ pins_of decoding blocks)
ca_cert_hashes-pins_of_example = ca_cert_hashes-pins_of decoding is_decoding bundle

abbrev cluster_info : ConfigMapAnswer
cluster_info = config_map (("kubeconfig", "10.0.0.2") ∷ [])

abbrev undiscovered : Discovery
undiscovered = record { endpoint = ""; hashes = [] }

refresh-IsDiscovered_example : IsDiscovered decoding (refresh decoding cluster_info undiscovered).1
refresh-IsDiscovered_example =
    refresh-IsDiscovered decoding is_decoding cluster_info undiscovered (inl (refl, refl))

-- The pass of a NodeClass that overrides nothing.
discovered :
    (reconcile decoding cluster_info undiscovered subject).0.1.node_class.status.ca_cert_hashes
    ≡ pins
unfolding reconcile lookup valid_hash
discovered = refl

reconcile-IsPublished_example :
    IsPublished (reconcile decoding cluster_info undiscovered subject).0
    ⊎ (IsWithdrawn (reconcile decoding cluster_info undiscovered subject).0
        ⊎ IsUntouched subject (reconcile decoding cluster_info undiscovered subject).0)
reconcile-IsPublished_example = reconcile-IsPublished decoding cluster_info undiscovered subject

-- A world that counts the draws, each of which takes the next letter.
abbrev minting : Minting
minting = record {
  World = ℕ;
  now = λ w. 1_500_000_000;
  draw = λ bound w. (ok (w % bound), w + 1);
  create = λ secret w. (ok tt, w);
  delete = λ namespace name w. (ok tt, w);
}

abbrev ttl : ℕ
ttl = 30 * 60 * 1_000_000_000

minted : (mint minting ttl claim "c1" 0).0 ≡ ok "abcdef.ghijklmnopqrstuv"
unfolding mint
minted = refl

mint-IsMinted_example :
    (secret : Secret) × (before : ℕ) × IsMinted minting ttl claim "abcdef.ghijklmnopqrstuv" secret
      before
      (mint minting ttl claim "c1" 0).1
mint-IsMinted_example = mint-IsMinted minting ttl claim "c1" "abcdef.ghijklmnopqrstuv" 0 minted

-- A document that shows the token.
abbrev encoding : Encoding
encoding = record {
  marshal_join = λ config. ok config.bootstrap_token.token;
  marshal_config = λ config. ok "packages: []";
  gzip = λ doc. err (errorf "no gzip" []);
  quote = λ text. text;
}

abbrev provider : Provider
provider = record { encoding = encoding; ttl = ttl; cluster_name = "c1" }

abbrev rendered : UserData
rendered = plain "#cloud-config\npackages: []"

launched : (render minting provider node_class claim 0).0 ≡ ok rendered
unfolding render
launched = refl

render-IsLaunchable_example :
    IsLaunchable minting provider node_class claim 0 rendered
      (render minting provider node_class claim 0).1
render-IsLaunchable_example =
    render-IsLaunchable minting provider node_class claim 0 rendered launched

abbrev input : JoinInput
input = join_input node_class claim "abcdef.ghijklmnopqrstuv"

documented : CloudInit.render encoding node_class.spec.bootstrap input ≡ ok rendered
unfolding CloudInit.render join_input
documented = refl

render-IsRendered_example : IsRendered encoding node_class.spec.bootstrap input rendered
render-IsRendered_example =
    render-IsRendered encoding node_class.spec.bootstrap input rendered documented

-- Two labels, read in either order.
abbrev labelled : JoinInput
labelled = record input { node_labels = ("a", "1") ∷ ("b", "2") ∷ [] }

abbrev reread : JoinInput
reread = record input { node_labels = ("b", "2") ∷ ("a", "1") ∷ [] }

join_configuration-IsReread_example : join_configuration labelled ≡ join_configuration reread
unfolding join_input
join_configuration-IsReread_example = join_configuration-IsReread labelled reread (record {
  api_server_endpoint = refl;
  token = refl;
  ca_cert_hashes = refl;
  taints = refl;
  node_labels = Permᴰ.swap refl refl;
  kube_reserved = Permᴰ.nil;
  system_reserved = Permᴰ.nil;
  eviction_hard = Permᴰ.nil;
  max_pods = refl;
  cluster_dns = refl;
  extra_args = refl;
})
