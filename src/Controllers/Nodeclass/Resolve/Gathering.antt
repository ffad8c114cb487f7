-- ===== src/Controllers/Nodeclass/Resolve/Gathering.antt =====
-- What the loop over selectors has gathered.
use mathlib.Core.Path.{subst}
use karpenter_provider_hclou.Base.{
  ◌≡◌, ◌≢◌, ◌⊎◌, refl, sym, ap, inl, inr, true, false, not, none, some, List, [], ◌∷◌, is_empty, arith, Bool-cases,
  Option-cases,
}
use karpenter_provider_hclou.Api.NodeClass.{SelectorTerm}
use karpenter_provider_hclou.Controllers.Nodeclass.Resolve.{
  Reason, reason_not_found, is_severe, class_reason, Gathered, Reads, gather, config_failure,
  map_ok, add_resolved, add_missing,
}
use karpenter_provider_hclou.Hcloudapi.Errors.{
  Class, class_none, class_capacity, class_quota, class_transient, class_config, class_fatal, Error,
  Result, ok, err, ok_injective, err-ne-ok, is_not_found, classify,
}

-- Every read has found its object, in the order of the selectors.
pub data AllFound {A : Type 0} : Reads A → List A → Type 0 where
  found_none : AllFound [] []
  found_one :
      {sel : SelectorTerm} {a : A} {reads : Reads A} {found : List A}
      → AllFound reads found
      → AllFound ((sel, ok a) ∷ reads) (a ∷ found)

-- Some read has failed.
pub data Failed {A : Type 0} : Reads A → Type 0 where
  failed_here : {sel : SelectorTerm} {e : Error} {reads : Reads A} → Failed ((sel, err e) ∷ reads)
  failed_later :
      {read : SelectorTerm × Result A} {reads : Reads A} → Failed reads → Failed (read ∷ reads)

-- Every read has found its object or has been told that there is none.
pub data Surviving {A : Type 0} : Reads A → List A → Type 0 where
  no_reads : Surviving [] []
  survivor :
      {sel : SelectorTerm} {a : A} {reads : Reads A} {found : List A}
      → Surviving reads found
      → Surviving ((sel, ok a) ∷ reads) (a ∷ found)
  deleted :
      {sel : SelectorTerm} {e : Error} {reads : Reads A} {found : List A}
      → is_not_found e ≡ true
      → Surviving reads found
      → Surviving ((sel, err e) ∷ reads) found

-- Some read has failed for another reason than that there is no such object.
pub data Rejected {A : Type 0} : Reads A → Type 0 where
  rejected_here :
      {sel : SelectorTerm} {e : Error} {reads : Reads A}
      → is_not_found e ≡ false
      → Rejected ((sel, err e) ∷ reads)
  rejected_later :
      {read : SelectorTerm × Result A} {reads : Reads A} → Rejected reads → Rejected (read ∷ reads)

-- A failure that a retry does not mend: there is no such object, or the API refuses the request or the
-- credential.
abbrev pub IsPermanent : Error → Type 0
IsPermanent e =
    (is_not_found e ≡ true)
    ⊎ ((classify (some e) ≡ class_config) ⊎ (classify (some e) ≡ class_fatal))

-- Every other failure.
abbrev pub IsTransient : Error → Type 0
IsTransient e =
    (is_not_found e ≡ false) × (classify (some e) ≢ class_config)
    × (classify (some e) ≢ class_fatal)

-- No read has failed in a way that a retry may mend.
pub data Conclusive {A : Type 0} : Reads A → Type 0 where
  all_read : Conclusive []
  read_ok :
      {sel : SelectorTerm} {a : A} {reads : Reads A}
      → Conclusive reads
      → Conclusive ((sel, ok a) ∷ reads)
  read_refused :
      {sel : SelectorTerm} {e : Error} {reads : Reads A}
      → IsPermanent e
      → Conclusive reads
      → Conclusive ((sel, err e) ∷ reads)

-- Some read has.
pub data Interrupted {A : Type 0} : Reads A → Type 0 where
  interrupted_here :
      {sel : SelectorTerm} {e : Error} {reads : Reads A}
      → IsTransient e
      → Interrupted ((sel, err e) ∷ reads)
  interrupted_later :
      {read : SelectorTerm × Result A} {reads : Reads A}
      → Interrupted reads
      → Interrupted (read ∷ reads)

class_reason-some :
    (c : Class) (r : Reason)
    → class_reason c ≡ some r
    → (c ≡ class_config) ⊎ (c ≡ class_fatal)
unfolding class_reason
class_reason-some class_config r h = inl refl
class_reason-some class_fatal r h = inr refl
class_reason-some class_none r h = absurd (ground arith)
class_reason-some class_capacity r h = absurd (ground arith)
class_reason-some class_quota r h = absurd (ground arith)
class_reason-some class_transient r h = absurd (ground arith)

class_reason-none :
    (c : Class) → class_reason c ≡ none → (c ≢ class_config) × (c ≢ class_fatal)
unfolding class_reason
class_reason-none class_config h = absurd (ground arith)
class_reason-none class_fatal h = absurd (ground arith)
class_reason-none class_none h = (λ e. cc, λ e. cc)
class_reason-none class_capacity h = (λ e. cc, λ e. cc)
class_reason-none class_quota h = (λ e. cc, λ e. cc)
class_reason-none class_transient h = (λ e. cc, λ e. cc)

config_failure-some : (e : Error) (r : Reason) → config_failure e ≡ some r → IsPermanent e
unfolding config_failure
config_failure-some e r h = elim (Bool-cases (is_not_found e)) [
  | inl gone ↦ inl gone
  | inr there ↦
      inr (class_reason-some (classify (some e)) r (rw (there, config_failure) at h))
]

config_failure-none : (e : Error) → config_failure e ≡ none → IsTransient e
unfolding config_failure
config_failure-none e h = elim (Bool-cases (is_not_found e)) [
  | inl gone ↦ absurd (apart (rw (gone, config_failure) at h))
  | inr there ↦
      let (valid, trusted) =
        class_reason-none (classify (some e)) (rw (there, config_failure) at h) in
      (there, valid, trusted)
]
  where
    apart : some reason_not_found ≡ none → ⊥
    apart p = cc

map_ok-inv :
    {A B : Type 0} (f : A → B) (r : Result A) (b : B)
    → map_ok f r ≡ ok b
    → (a : A) × (r ≡ ok a) × (f a ≡ b)
unfolding map_ok
map_ok-inv f (ok a) b h = (a, refl, cc)
map_ok-inv f (err e) b h = absurd (apart h)
  where
    apart : err e ≡ ok b → ⊥
    apart p = cc

class_reason-severe : (c : Class) (r : Reason) → class_reason c ≡ some r → is_severe r ≡ true
unfolding class_reason is_severe
class_reason-severe class_config r h = ground arith
class_reason-severe class_fatal r h = ground arith
class_reason-severe class_none r h = ground arith
class_reason-severe class_capacity r h = ground arith
class_reason-severe class_quota r h = ground arith
class_reason-severe class_transient r h = ground arith

config_failure-severe :
    (e : Error) (r : Reason) → config_failure e ≡ some r → is_severe r ≡ not (is_not_found e)
unfolding config_failure is_severe
config_failure-severe e r h = elim (Bool-cases (is_not_found e)) [
  | inl gone ↦ rw gone (absent (rw (gone, config_failure) at h))
  | inr there ↦
      rw there (class_reason-severe (classify (some e)) r (rw (there, config_failure) at h))
]
  where
    absent : some reason_not_found ≡ some r → is_severe r ≡ false
    absent p = ground arith

-- A failed read that does not end the loop.
gather-err :
    {A : Type 0} (sel : SelectorTerm) (e : Error) (reads : Reads A) (g : Gathered A)
    → gather ((sel, err e) ∷ reads) ≡ ok g
    → (r : Reason) × (rest : Gathered A) × (config_failure e ≡ some r)
      × (gather reads ≡ ok rest)
      × (add_missing sel r e rest ≡ g)
unfolding gather
gather-err sel e reads g h = elim (Option-cases (config_failure e)) [
  | inl transient ↦ absurd (apart (rw (transient, gather) at h))
  | inr (r, kept) ↦
      let (rest, gathered, same) =
        map_ok-inv (add_missing sel r e) (gather reads) g (rw (kept, gather) at h) in
      (r, rest, kept, gathered, same)
]
  where
    apart : err e ≡ ok g → ⊥
    apart p = cc

-- Nothing is missing exactly if every read has found its object.
abbrev pub Complete : {A : Type 0} → Reads A → Gathered A → Type 0
Complete reads g =
    ((is_empty g.missing ≡ true) × AllFound reads g.resolved)
    ⊎ ((is_empty g.missing ≡ false) × Failed reads)

-- The loop fails closed exactly if some read was rejected.
abbrev pub Tolerant : {A : Type 0} → Reads A → Gathered A → Type 0
Tolerant reads g =
    ((g.fail_closed ≡ false) × Surviving reads g.resolved)
    ⊎ ((g.fail_closed ≡ true) × Rejected reads)

pub gather-Complete :
    {A : Type 0} (reads : Reads A) (g : Gathered A) → gather reads ≡ ok g → Complete reads g
unfolding gather add_resolved add_missing
gather-Complete [] g h = subst (λ x. Complete [] x) (ok_injective h) (inl (refl, found_none))
gather-Complete ((sel, ok a) ∷ reads) g h =
    let (rest, gathered, same) = map_ok-inv (add_resolved a) (gather reads) g h in
    subst (λ x. Complete ((sel, ok a) ∷ reads) x) same
      (elim (gather-Complete reads rest gathered) [
        | inl (full, found) ↦ inl (full, found_one found)
        | inr (lost, failed) ↦ inr (lost, failed_later failed)
      ])
gather-Complete ((sel, err e) ∷ reads) g h =
    let (r, rest, kept, gathered, same) = gather-err sel e reads g h in
    subst (λ x. Complete ((sel, err e) ∷ reads) x) same (inr (refl, failed_here))

-- A failed read makes the loop fail closed, or leaves it as the rest of the loop has it.
add_missing-Tolerant :
    {A : Type 0} (sel : SelectorTerm) (e : Error) (r : Reason) (reads : Reads A) (rest : Gathered A)
    → is_severe r ≡ not (is_not_found e)
    → Tolerant reads rest
    → Tolerant ((sel, err e) ∷ reads) (add_missing sel r e rest)
unfolding add_missing
add_missing-Tolerant sel e r reads rest s h = elim (Bool-cases (is_not_found e)) [
  | inr there ↦ inr (ground arith, rejected_here there)
  | inl gone ↦ elim h [
    | inl (kept_open, found) ↦ inl (ground arith, deleted gone found)
    | inr (closed, bad) ↦ inr (ground arith, rejected_later bad)
  ]
]

pub gather-Tolerant :
    {A : Type 0} (reads : Reads A) (g : Gathered A) → gather reads ≡ ok g → Tolerant reads g
unfolding gather add_resolved
gather-Tolerant [] g h = subst (λ x. Tolerant [] x) (ok_injective h) (inl (refl, no_reads))
gather-Tolerant ((sel, ok a) ∷ reads) g h =
    let (rest, gathered, same) = map_ok-inv (add_resolved a) (gather reads) g h in
    subst (λ x. Tolerant ((sel, ok a) ∷ reads) x) same
      (elim (gather-Tolerant reads rest gathered) [
        | inl (kept_open, found) ↦ inl (kept_open, survivor found)
        | inr (closed, bad) ↦ inr (closed, rejected_later bad)
      ])
gather-Tolerant ((sel, err e) ∷ reads) g h =
    let (r, rest, kept, gathered, same) = gather-err sel e reads g h in
    subst (λ x. Tolerant ((sel, err e) ∷ reads) x) same
      (add_missing-Tolerant sel e r reads rest (config_failure-severe e r kept)
        (gather-Tolerant reads rest gathered))

-- The loop runs to its end only where no read is interrupted.
pub gather-Conclusive :
    {A : Type 0} (reads : Reads A) (g : Gathered A) → gather reads ≡ ok g → Conclusive reads
unfolding gather
gather-Conclusive [] g h = all_read
gather-Conclusive ((sel, ok a) ∷ reads) g h =
    let (rest, gathered, _) = map_ok-inv (add_resolved a) (gather reads) g h in
    read_ok (gather-Conclusive reads rest gathered)
gather-Conclusive ((sel, err e) ∷ reads) g h =
    let (r, rest, kept, gathered, _) = gather-err sel e reads g h in
    read_refused (config_failure-some e r kept) (gather-Conclusive reads rest gathered)

map_ok-err :
    {A B : Type 0} (f : A → B) (r : Result A) (e : Error) → map_ok f r ≡ err e → r ≡ err e
unfolding map_ok
map_ok-err f (ok a) e h = absurd (err-ne-ok (sym h))
map_ok-err f (err d) e h = ap (relabel (err d)) h
  where
    relabel : {X Y : Type 0} → Result X → Result Y → Result X
    relabel r (ok b) = r
    relabel r (err d) = err d

-- It ends early only where some read is.
pub gather-Interrupted :
    {A : Type 0} (reads : Reads A) (e : Error) → gather reads ≡ err e → Interrupted reads
unfolding gather
gather-Interrupted [] e h = absurd (err-ne-ok (sym h))
gather-Interrupted ((sel, ok a) ∷ reads) e h =
    interrupted_later (gather-Interrupted reads e (map_ok-err (add_resolved a) (gather reads) e h))
gather-Interrupted ((sel, err d) ∷ reads) e h = elim (Option-cases (config_failure d)) [
  | inl transient ↦ interrupted_here (config_failure-none d transient)
  | inr (r, kept) ↦ interrupted_later (
    gather-Interrupted reads e
      (map_ok-err (add_missing sel r d) (gather reads) e (rw (kept, gather) at h)))
]
