-- ===== src/Hcloudapi/Errors.antt =====
-- internal/hcloudapi/errors.go: error codes and the provider's reaction to them. An `error` value
-- is a tree: what the program builds with `%w` is unwrapped by `errors.As`, what it builds without
-- is not. A text is kept as its format string and its arguments, not rendered.
pub mod Reaction
use karpenter_provider_hclou.Base.{
  ℕ, ◌≡◌, refl, ◌⊎◌, inl, inr, Bool, true, false, Option, none, some, List, String, not, ◌&&◌, ◌==◌,
  string_comparable,
}

-- The codes of hcloud-go that the program names, which its compiler knows to be distinct texts
-- (a map literal with one of them twice is refused), and every other text.
pub data ErrorCode : Type 0 where
  resource_unavailable placement_error no_space_left_in_location maintenance : ErrorCode
  resource_limit_exceeded : ErrorCode
  rate_limit_exceeded service_error server_error bad_gateway timeout conflict locked : ErrorCode
  resource_locked protected json_error robot_unavailable unknown_error : ErrorCode
  invalid_input code_not_found unsupported_error invalid_server_type uniqueness_error : ErrorCode
  networks_overlap server_already_attached : ErrorCode
  forbidden unauthorized : ErrorCode
  other : String → ErrorCode

pub data Class : Type 0 where
  class_none class_capacity class_quota class_transient class_config class_fatal : Class

pub data Error : Type 0 where
  -- `hcloud.Error`
  api_error : ErrorCode → String → Error
  -- `hcloud.ActionError`
  action_error : ErrorCode → String → Error
  -- `*NotFoundError`: kind and selector
  not_found : String → String → Error
  -- `errNotManaged`: name and id
  not_managed : String → ℕ → Error
  -- `errors.New`, and `fmt.Errorf` without `%w`
  errorf : String → List String → Error
  -- `fmt.Errorf` with `%w`
  wrapf : String → List String → Error → Error
  -- karpenter's error constructors, which the program builds and does not look into
  insufficient_capacity node_claim_not_found node_reboot_failed node_class_not_ready : Error → Error
  create_error : Error → String → Error

pub data Result (A : Type 0) : Type 0 where
  ok : A → Result A
  err : Error → Result A

pub Result-cases :
    {A : Type 0} (r : Result A) → ((a : A) × (r ≡ ok a)) ⊎ ((e : Error) × (r ≡ err e))
Result-cases (ok a) = inl (a, refl)
Result-cases (err e) = inr (e, refl)

pub ok_injective : {A : Type 0} {a b : A} → ok a ≡ ok b → a ≡ b
ok_injective h = cc

pub err-ne-ok : {A : Type 0} {e : Error} {a : A} → err e ≡ ok a → ⊥
err-ne-ok h = cc

-- `Class.String`
unfoldable pub string : Class → String
string class_none = "none"
string class_capacity = "capacity"
string class_quota = "quota"
string class_transient = "transient"
string class_config = "config"
string class_fatal = "fatal"

-- The map `classes`: a code that is no key of it has no class.
unfoldable pub classes : ErrorCode → Option Class
classes resource_unavailable = some class_capacity
classes placement_error = some class_capacity
classes no_space_left_in_location = some class_capacity
classes maintenance = some class_capacity
classes resource_limit_exceeded = some class_quota
classes rate_limit_exceeded = some class_transient
classes service_error = some class_transient
classes server_error = some class_transient
classes bad_gateway = some class_transient
classes timeout = some class_transient
classes conflict = some class_transient
classes locked = some class_transient
classes resource_locked = some class_transient
classes protected = some class_transient
classes json_error = some class_transient
classes robot_unavailable = some class_transient
classes unknown_error = some class_transient
classes invalid_input = some class_config
classes code_not_found = some class_config
classes unsupported_error = some class_config
classes invalid_server_type = some class_config
classes uniqueness_error = some class_config
classes networks_overlap = some class_config
classes server_already_attached = some class_config
classes forbidden = some class_fatal
classes unauthorized = some class_fatal
classes (other code) = none

-- `errors.As(err, &apiErr)`: the first `hcloud.Error` in the chain.
unfoldable pub as_api_error : Error → Option ErrorCode
as_api_error (api_error code msg) = some code
as_api_error (wrapf fmt args e) = as_api_error e
as_api_error _ = none

-- `errors.As(err, &actionErr)`
unfoldable pub as_action_error : Error → Option ErrorCode
as_action_error (action_error code msg) = some code
as_action_error (wrapf fmt args e) = as_action_error e
as_action_error _ = none

-- `Code`: the synchronous error first, then the failure of an action.
unfoldable pub code_of : Error → Option ErrorCode
unfolding as_api_error as_action_error
code_of e = elim (as_api_error e) [ some c ↦ some c | none ↦ as_action_error e ]

-- `Classify`: `none` is the nil error.
unfoldable pub classify : Option Error → Class
unfolding code_of classes
classify none = class_none
classify (some e) = elim (code_of e) [
  | none ↦ class_transient
  | some code ↦ elim (classes code) [ some class ↦ class | none ↦ class_transient ]
]

unfoldable pub is_known_code : Error → Bool
unfolding code_of classes
is_known_code e = elim (code_of e) [
  | none ↦ false
  | some code ↦ elim (classes code) [ some class ↦ true | none ↦ false ]
]

-- `IsNotFound`: `errors.As` for `*NotFoundError`.
unfoldable pub is_not_found : Error → Bool
is_not_found (not_found kind selector) = true
is_not_found (wrapf fmt args e) = is_not_found e
is_not_found _ = false

-- `code == CodeUniqueness`, where `code` is "" for an error that has none.
unfoldable pub is_uniqueness : Option ErrorCode → Bool
is_uniqueness (some uniqueness_error) = true
is_uniqueness _ = false

-- `code != ""`: no constant of hcloud-go is the empty text.
is_present : ErrorCode → Bool
is_present (other code) = not (code == "")
is_present _ = true

-- `code != "" && !IsKnownCode(err)`
unfoldable pub is_unknown_code : Error → Bool
unfolding code_of is_known_code is_present
is_unknown_code e = elim (code_of e) [
  | none ↦ false
  | some code ↦ is_present code && not (is_known_code e)
]
