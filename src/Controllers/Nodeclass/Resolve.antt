-- ===== src/Controllers/Nodeclass/Resolve.antt =====
-- internal/controllers/nodeclass/resolve.go, and the loop over selectors that firewall.go and sshkey.go
-- have in common.
pub mod Gathering
pub mod Conditions
use karpenter_provider_hclou.Base.{
  ℕ, Bool, true, false, ◌||◌, Option, none, some, List, [], ◌∷◌, String, if◌then◌else◌,
}
use karpenter_provider_hclou.Base.Map.{insert}
use karpenter_provider_hclou.Base.Texts.{append_text}
use karpenter_provider_hclou.Hcloudapi.ProviderId.{format_int}
use karpenter_provider_hclou.Api.NodeClass.{SelectorTerm}
use karpenter_provider_hclou.Controllers.Nodeclass.Validation.{
  Status, is_false, is_unknown, misconfigured_requeue, Message, Subject, condition,
}
use karpenter_provider_hclou.Hcloudapi.Errors.{
  Class, class_config, class_fatal, Error, wrapf, Result, ok, err, classify, is_not_found,
}

pub data Reason : Type 0 where
  reason_not_found reason_invalid_configuration reason_credential_rejected : Reason

-- The suffix of a condition's reason.
unfoldable pub suffix : Reason → String
suffix reason_not_found = "NotFound"
suffix reason_invalid_configuration = "InvalidConfiguration"
suffix reason_credential_rejected = "CredentialRejected"

unfoldable pub class_reason : Class → Option Reason
class_reason class_config = some reason_invalid_configuration
class_reason class_fatal = some reason_credential_rejected
class_reason _ = none

-- `configFailure` of an error that is there; `none` is a transient failure.
unfoldable pub config_failure : Error → Option Reason
unfolding class_reason
config_failure e =
    if is_not_found e then some reason_not_found else class_reason (classify (some e))

-- `r != reasonNotFound`
unfoldable pub is_severe : Reason → Bool
is_severe reason_not_found = false
is_severe _ = true

-- `describeSelector`, without the quotes around a name.
unfoldable pub describe_selector : SelectorTerm → String
unfolding append_text
describe_selector sel = elim (sel.id) [
  | some id ↦ append_text "id " (format_int id)
  | none ↦ append_text "name " sel.name
]

-- `failureMessage`: the format with the selectors; the text of the error is left out.
unfoldable pub failure_message : String → List String → Option (Reason × Error) → Message
unfolding append_text
failure_message what selectors (some (reason_credential_rejected, e)) = (
  append_text "the Hetzner API rejected this controller's credential while resolving " what,
  selectors,
  [],
)
failure_message what selectors _ = (append_text "resolving " what, selectors, [])

-- A set operation on a condition.
unfoldable pub set_condition : String → Status → String → Message → Subject → Subject
set_condition name status reason message s = record s {
  conditions =
      insert name
        (record {
          status = status;
          reason = reason;
          message = message;
          observed_generation = s.generation;
        })
        s.conditions;
}

unfoldable pub is_unresolved : Status → Bool
is_unresolved is_unknown = true
is_unresolved _ = false

unfoldable pub note_unreachable : String → String → Subject → Subject
unfolding set_condition is_unresolved
note_unreachable name reason s =
    if is_unresolved (condition s name).status
    then set_condition name is_unknown reason ("the Hetzner API could not be reached", [], []) s
    else s

-- The selectors in the order of the spec, each with what the read of it answers.
abbrev pub Reads : Type 0 → Type 0
Reads A = List (SelectorTerm × Result A)

abbrev pub reads_of : {A : Type 0} → (SelectorTerm → Result A) → List SelectorTerm → Reads A
reads_of answer [] = []
reads_of answer (sel ∷ sels) = (sel, answer sel) ∷ reads_of answer sels

-- The variables of the loop: `cause` is the reason that is kept with its error.
pub record Gathered (A : Type 0) : Type 0 where
  pub resolved : List A
  pub missing : List SelectorTerm
  pub cause : Option (Reason × Error)
  pub fail_closed : Bool

-- The most severe cause is kept, not the most recent: the first that is severe, or else the first.
unfoldable pub keep_cause : Reason → Error → Option (Reason × Error) → Option (Reason × Error)
unfolding is_severe
keep_cause r e none = some (r, e)
keep_cause r e (some (later, f)) =
    if is_severe r then some (r, e) else if is_severe later then some (later, f) else some (r, e)

unfoldable pub add_resolved : {A : Type 0} → A → Gathered A → Gathered A
add_resolved a g = record g { resolved = a ∷ g.resolved }

unfoldable pub add_missing : {A : Type 0} → SelectorTerm → Reason → Error → Gathered A → Gathered A
unfolding keep_cause is_severe
add_missing sel r e g = record g {
  missing = sel ∷ g.missing;
  cause = keep_cause r e g.cause;
  fail_closed = is_severe r || g.fail_closed;
}

unfoldable pub map_ok : {A B : Type 0} → (A → B) → Result A → Result B
map_ok f (ok a) = ok (f a)
map_ok f (err e) = err e

-- The loop: the first transient failure ends it.
unfoldable pub gather : {A : Type 0} → Reads A → Result (Gathered A)
unfolding config_failure add_resolved add_missing map_ok
gather [] = ok (record { resolved = []; missing = []; cause = none; fail_closed = false })
gather ((sel, ok a) ∷ reads) = map_ok (add_resolved a) (gather reads)
gather ((sel, err e) ∷ reads) =
    let rest = gather reads in
    elim (config_failure e) [ none ↦ err e | some r ↦ map_ok (add_missing sel r e) rest ]

-- The reason suffix of the cause that is kept.
unfoldable pub cause_suffix : Option (Reason × Error) → String
unfolding suffix
cause_suffix none = ""
cause_suffix (some (r, e)) = suffix r

-- What the reconcilers of a single selector do with an error: they take back what is published, or
-- keep it after a transient failure.
unfoldable pub give_up :
    String
    → String
    → String
    → SelectorTerm
    → (Subject → Subject)
    → Error
    → Subject
    → Result ℕ × Subject
unfolding config_failure set_condition note_unreachable append_text suffix failure_message
    describe_selector
give_up name kind what sel clear e s = elim (config_failure e) [
  | some reason ↦ (
    ok misconfigured_requeue,
    set_condition name is_false (append_text kind (suffix reason))
        (failure_message what (describe_selector sel ∷ []) (some (reason, e))) (clear s),
  )
  | none ↦ (
    err (wrapf "resolving %s, %w" (kind ∷ []) e),
    note_unreachable name (append_text kind "Unreachable") s,
  )
]
