-- ===== src/Bootstrap/Contents.antt =====
-- internal/providers/bootstrap/cloudinit.go: the contents of the files that are written, and the texts
-- that they and the commands are made of.
pub mod Distinct
use Prim.Native.Char.{code}
use Prim.Native.String
use karpenter_provider_hclou.Base.{
  ℕ, Bool, true, false, ◌&&◌, ◌||◌, List, [], ◌∷◌, String, map, contains, leb, if◌then◌else◌, ◌==◌,
  nat_comparable, string_comparable,
}
use karpenter_provider_hclou.Base.Map.{Map, insert, get}
use karpenter_provider_hclou.Base.Sort.{sort_stable, text_ltb}
use karpenter_provider_hclou.Base.Texts.{append_text, concat, join}
use karpenter_provider_hclou.Hcloudapi.Errors.{errorf, Result, ok, err}

-- The loop of `dedupe`, with the map `seen` as the list of its keys.
unfoldable pub dedupe_from : List String → List String → List String
dedupe_from seen [] = []
dedupe_from seen (s ∷ ss) = elim (s == "" || contains s seen) [
  | true ↦ dedupe_from seen ss
  | false ↦ s ∷ dedupe_from (s ∷ seen) ss
]

unfoldable pub dedupe : List String → List String
unfolding dedupe_from
dedupe ss = dedupe_from [] ss

-- `strings.Split` at a character.
unfoldable pub split : ℕ → String → List String
split separator String.[] = "" ∷ []
split separator (String.◌∷◌ c s) =
    let rest = split separator s in
    if code c == separator
    then "" ∷ rest
    else elim rest [ [] ↦ String.◌∷◌ c "" ∷ [] | part ∷ parts ↦ String.◌∷◌ c part ∷ parts ]

-- `minorVersion`
unfoldable pub minor_version : String → Result String
unfolding split append_text
minor_version version = elim (split b'.' version) [
  | [] ↦ err (errorf "kubernetesVersion %q is not major.minor.patch" (version ∷ []))
  | major ∷ rest ↦ elim rest [
    | [] ↦ err (errorf "kubernetesVersion %q is not major.minor.patch" (version ∷ []))
    | minor ∷ more ↦ ok (append_text major (append_text "." minor))
  ]
]

-- `unicode.IsSpace`
unfoldable pub is_space : ℕ → Bool
is_space c =
    (leb 9 c && leb c 13)
    || ((c == 32 || (c == 0x85 || c == 0xA0))
        || ((c == 0x1680 || (leb 0x2000 c && leb c 0x200A))
            || ((c == 0x2028 || c == 0x2029) || (c == 0x202F || (c == 0x205F || c == 0x3000)))))

unfoldable pub trim_left : String → String
unfolding is_space
trim_left String.[] = ""
trim_left (String.◌∷◌ c s) = if is_space (code c) then trim_left s else String.◌∷◌ c s

unfoldable pub trim_right : String → String
unfolding is_space
trim_right String.[] = ""
trim_right (String.◌∷◌ c s) =
    let rest = trim_right s in if is_space (code c) && (rest == "") then "" else String.◌∷◌ c rest

-- `strings.TrimSpace`
unfoldable pub trim_space : String → String
unfolding trim_left trim_right
trim_space s = trim_right (trim_left s)

-- `appendHeredoc`
unfoldable pub append_heredoc : String → String → String
unfolding concat
append_heredoc path content =
    concat
      ("cat >> " ∷ path ∷ " << '" ∷ "KARPENTER_EOF" ∷ "'\n" ∷ content ∷ "\n" ∷ "KARPENTER_EOF" ∷ [])

abbrev pub default_sysctls : Map String
default_sysctls =
    ("net.bridge.bridge-nf-call-iptables", "1")
    ∷ ("net.ipv4.ip_forward", "1")
    ∷ ("net.bridge.bridge-nf-call-ip6tables", "1")
    ∷ ("fs.inotify.max_user_watches", "524288")
    ∷ ("fs.inotify.max_user_instances", "8192")
    ∷ []

-- `for k, v := range extra { values[k] = v }`
unfoldable pub insert_all : Map String → Map String → Map String
unfolding insert
insert_all [] values = values
insert_all (entry ∷ extra) values = insert_all extra (insert entry.0 entry.1 values)

-- `sysctlContent`
unfoldable pub sysctl_content : Map String → String
unfolding insert_all sort_stable text_ltb concat get
sysctl_content extra =
    let values = insert_all extra default_sysctls in
    concat (
      map (λ k. concat (k ∷ " = " ∷ get values k ∷ "\n" ∷ []))
        (sort_stable text_ltb (map (λ entry. entry.0) values)))

-- `modulesContent`
unfoldable pub modules_content : List String → String
unfolding dedupe join append_text
modules_content extra = append_text (join "\n" (dedupe ("br_netfilter" ∷ extra))) "\n"

-- `originsContent`
unfoldable pub origins_content : (String → String) → List String → String
unfolding concat append_text
origins_content quote origins =
    append_text "// Additional origins to auto-patch.\nUnattended-Upgrade::Origins-Pattern {\n"
      (append_text (concat (map (λ o. concat ("        " ∷ quote o ∷ ";\n" ∷ [])) origins)) "};\n")
