-- ===== src/Hcloudapi/Errors/Reaction.antt =====
-- Properties of internal/hcloudapi/errors.go.
use karpenter_provider_hclou.Base.{◌≡◌, refl, Option, none, some, List, String, ap}
use karpenter_provider_hclou.Hcloudapi.Errors.{
  ErrorCode, class_transient, Error, api_error, action_error, wrapf, classes, as_api_error,
  as_action_error, code_of, classify,
}

-- `Wraps e w`: `w` is `e` under any number of `fmt.Errorf("... %w")`.
pub data Wraps (e : Error) : Error → Type 0 where
  here : Wraps e e
  around : {w : Error} (fmt : String) (args : List String) → Wraps e w → Wraps e (wrapf fmt args w)

code_of-Wraps : {e w : Error} → Wraps e w → code_of w ≡ code_of e
unfolding code_of as_api_error as_action_error
code_of-Wraps here = refl
code_of-Wraps (around fmt args h) = code_of-Wraps h

-- A failure of an asynchronous action is classified like the synchronous API error with the same
-- code, whatever the two messages are and however deep each of the two is wrapped.
classify-async :
    (code : ErrorCode) (m n : String) {v w : Error}
    → Wraps (api_error code m) v
    → Wraps (action_error code n) w
    → classify (some w) ≡ classify (some v)
unfolding classify code_of as_api_error as_action_error
classify-async code m n {v} {w} hv hw =
    let p : code_of v ≡ some code = code_of-Wraps hv in
    let q : code_of w ≡ some code = code_of-Wraps hw in
    ap
      (λ c. elim c [
        | none ↦ class_transient
        | some k ↦ elim (classes k) [ some class ↦ class | none ↦ class_transient ]
      ])
      (q-to p q)
  where
    q-to : {a b : Option ErrorCode} {c : ErrorCode} → a ≡ some c → b ≡ some c → b ≡ a
    q-to x y = cc
