-- ===== src/Hcloudapi/Adapter.antt =====
-- internal/hcloudapi/servers.go: `serverClient`, which implements `Servers` with hcloud-go.
pub mod Clean
pub mod Refined
pub mod Classified
use karpenter_provider_hclou.Base.{
  ℕ, Bool, true, false, not, Option, none, some, List, [], ◌∷◌, map, String, if◌then◌else◌, ◌==◌,
  nat_comparable, string_comparable,
}
use karpenter_provider_hclou.Base.Map.{Map}
use karpenter_provider_hclou.Base.Texts.{Text}
use karpenter_provider_hclou.Hcloudapi.Conversion.{
  server_from_hcloud, present, create_opts, first_ip, network_ids,
}
use karpenter_provider_hclou.Hcloudapi.Errors.{
  ErrorCode, code_not_found, Error, api_error, action_error, not_found, errorf, wrapf, Result, ok,
  err,
}
use karpenter_provider_hclou.Hcloudapi.Hcloud.{
  PrivateNet, HcloudServer, ServerCreateOpts, ServerCreateResult, Answer, answered, failed, Hcloud,
}
use karpenter_provider_hclou.Hcloudapi.ProviderId.{format_int}
use karpenter_provider_hclou.Hcloudapi.Redact.{Tree, Wording, find_api, find_action, redact_error}
use karpenter_provider_hclou.Hcloudapi.Servers.{Server, CreateServerRequest, Action, Servers}

-- `hcloud.IsError(err, hcloud.ErrorCodeNotFound)`
unfoldable pub is_code_not_found : Option ErrorCode → Bool
is_code_not_found (some code_not_found) = true
is_code_not_found _ = false

-- `serverClient`, with the token that redaction knows and the wording of hcloud-go.
pub record ServerClient : Type 1 where
  pub api : Hcloud
  pub timeout : ℕ
  pub token : Option Text
  pub wording : Wording

module _ (s : ServerClient) where
  open s.api use {
    Cloud, server_create, wait_for, server_delete, server_reset, action_list_for, get_by_id,
    get_by_name, all_with_opts,
  }

  -- `redact(err)`, by what `errors.As` finds in it: the rest of the program asks for nothing else, and
  -- its text is left out.
  unfoldable pub redacted : Tree → Error
  unfolding redact_error find_api find_action
  redacted e =
      let e' = redact_error s.wording s.token e in
      elim (find_api e') [
        | some code ↦ api_error code ""
        | none ↦ elim (find_action e') [
          | some code ↦ action_error code ""
          | none ↦ errorf "an error of hcloud-go" []
        ]
      ]

  -- `Get`
  unfoldable pub get : ℕ → Cloud → Result (Option Server) × Cloud
  unfolding redacted server_from_hcloud
  get id c =
      let (answer, c') = get_by_id id c in
      elim answer [
        | failed e ↦ (err (wrapf "getting server %d: %w" (format_int id ∷ []) (redacted e)), c')
        | answered found ↦ elim found [
          | none ↦ (ok none, c')
          | some srv ↦ (ok (some (server_from_hcloud srv)), c')
        ]
      ]

  -- The part of `Create` after the wait has gone well.
  unfoldable pub read_created : ℕ → String → Cloud → Result Server × Cloud
  unfolding get
  read_created id name c =
      let (r, c') = get id c in
      elim r [
        | err e ↦ (err e, c')
        | ok found ↦ elim found [
          | none ↦ (err (errorf "server %q vanished immediately after creation" (name ∷ [])), c')
          | some srv ↦ (ok srv, c')
        ]
      ]

  -- `deleteQuietly`: a failure is only logged.
  unfoldable pub delete_quietly : ℕ → Cloud → Cloud
  delete_quietly id c = (server_delete id c).1

  -- The part of `Create` from the wait on.
  unfoldable pub settle : List ℕ → ℕ → String → Cloud → Result Server × Cloud
  unfolding read_created redacted delete_quietly
  settle actions id name c =
      let (waited, c') = wait_for s.timeout actions c in
      elim waited [
        | answered done ↦ read_created id name c'
        | failed e ↦ (
          err (wrapf "waiting for server %q to be created: %w" (name ∷ []) (redacted e)),
          delete_quietly id c',
        )
      ]

  -- `Create`
  unfoldable pub create : CreateServerRequest → Cloud → Result Server × Cloud
  unfolding settle redacted create_opts
  create req c =
      let (answer, c') = server_create (create_opts req) c in
      elim answer [
        | failed e ↦ (err (wrapf "creating server %q: %w" (req.name ∷ []) (redacted e)), c')
        | answered result ↦ elim (result.server) [
          | none ↦
              (err (errorf "creating server %q: hetzner returned no server" (req.name ∷ [])), c')
          | some srv ↦ settle (result.action ∷ result.next_actions) srv.id req.name c'
        ]
      ]

  -- The error of a call on a server: not-found is an error of its own.
  unfoldable pub server_error : String → ℕ → Tree → Error
  unfolding redacted is_code_not_found find_api
  server_error fmt id e =
      if is_code_not_found (find_api e)
      then not_found "server" (format_int id)
      else wrapf fmt (format_int id ∷ []) (redacted e)

  -- `Delete` and `Reset`
  unfoldable pub delete : ℕ → Cloud → Result (Unit {0}) × Cloud
  unfolding server_error
  delete id c =
      let (answer, c') = server_delete id c in
      elim answer [
        | answered done ↦ (ok tt, c')
        | failed e ↦ (err (server_error "deleting server %d: %w" id e), c')
      ]

  unfoldable pub reset : ℕ → Cloud → Result (Unit {0}) × Cloud
  unfolding server_error
  reset id c =
      let (answer, c') = server_reset id c in
      elim answer [
        | answered done ↦ (ok tt, c')
        | failed e ↦ (err (server_error "resetting server %d: %w" id e), c')
      ]

  unfoldable pub recent_actions : ℕ → Cloud → Result (List Action) × Cloud
  unfolding server_error present
  recent_actions id c =
      let (answer, c') = action_list_for id 50 ("started:desc" ∷ []) c in
      elim answer [
        | answered actions ↦ (ok (present actions), c')
        | failed e ↦ (err (server_error "listing actions of server %d: %w" id e), c')
      ]

  unfoldable pub find_by_name : String → Cloud → Result (Option Server) × Cloud
  unfolding redacted server_from_hcloud
  find_by_name name c =
      let (answer, c') = get_by_name name c in
      elim answer [
        | failed e ↦ (err (wrapf "getting server %q: %w" (name ∷ []) (redacted e)), c')
        | answered found ↦ elim found [
          | none ↦ (ok none, c')
          | some srv ↦ (ok (some (server_from_hcloud srv)), c')
        ]
      ]

  unfoldable pub list : String × String → Cloud → Result (List (Option Server)) × Cloud
  unfolding redacted server_from_hcloud present
  list selector c =
      let (answer, c') = all_with_opts selector c in
      elim answer [
        | failed e ↦
            (err (wrapf "listing servers %q: %w" (selector.0 ∷ selector.1 ∷ []) (redacted e)), c')
        | answered srvs ↦ (ok (map (λ srv. some (server_from_hcloud srv)) (present srvs)), c')
      ]

  -- The methods of the client, as `Servers`.
  abbrev pub servers : Servers
  servers = record {
    Cloud = Cloud;
    now = s.api.now;
    create = create;
    delete = delete;
    get = get;
    get_by_name = find_by_name;
    list = list;
    reset = reset;
    recent_actions = recent_actions;
  }

-- 90 s, in nanoseconds.
abbrev pub default_create_timeout : ℕ
default_create_timeout = 90000000000

-- `NewServersWithTimeout`, where a timeout that is not positive is 0.
abbrev pub new_servers_with_timeout : Hcloud → Option Text → Wording → ℕ → ServerClient
new_servers_with_timeout api token wording timeout = record {
  api = api;
  timeout = if timeout == 0 then default_create_timeout else timeout;
  token = token;
  wording = wording;
}

abbrev pub new_servers : Hcloud → Option Text → Wording → ServerClient
new_servers api token wording = new_servers_with_timeout api token wording default_create_timeout
