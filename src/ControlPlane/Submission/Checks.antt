-- ===== src/ControlPlane/Submission/Checks.antt =====
-- What normalizeSubmitRequest of controlplane/submit.go accepts.
use go_cloud_des.Prelude.{
  ℕ, suc, ◌≡◌, refl, String, Bool, true, false, Option, none, some, List, [], ◌∷◌, ◌&&◌,
  if◌then◌else◌, string_eq, nat_eq, contains, All, inl, inr, ◌⊎◌,
}
use go_cloud_des.Strings.{trim_space}
use go_cloud_des.ControlPlane.PendingQueue.{SetVar, StopRule}
use go_cloud_des.ControlPlane.Submission.{
  ExperimentCommonConfig, ExperimentParams, SubmitRequest, NormalizedExperiment, Refusal,
  Normalized, normalized, refused, is_blank, is_empty_stop_rule, operators, validate_stop_rule,
  validate_common_config, experiment_id, check_set_vars, with_first, normalize_experiments,
  batch_id_of, requested, in_batch, normalize_submit_request,
}

-- A variable with a name and a value.
abbrev pub IsGiven : Option SetVar → Type 0
IsGiven none = ⊥
IsGiven (some v) = (is_blank v.name ≡ false) × (is_blank v.value ≡ false)

abbrev pub IsRequested : Option ExperimentParams → Type 0
IsRequested none = ⊥
IsRequested (some e) = All IsGiven e.set_vars

abbrev pub IsComplete : StopRule → Type 0
IsComplete rule =
    (is_blank rule.left ≡ false)
    × (is_blank rule.op ≡ false)
    × (is_blank rule.right ≡ false)
    × (contains (trim_space rule.op) operators ≡ true)

-- No rule, one that is blank in all its parts, or three parts with an operator.
abbrev pub IsStopRule : Option StopRule → Type 0
IsStopRule none = Unit {0}
IsStopRule (some rule) =
    ((is_blank rule.left ≡ true) × (is_blank rule.op ≡ true) × (is_blank rule.right ≡ true))
    ⊎ IsComplete rule

abbrev pub IsCommon : Option ExperimentCommonConfig → Type 0
IsCommon none = ⊥
IsCommon (some common) = IsStopRule common.stop_rule

abbrev pub IsAcceptable : Option SubmitRequest → Type 0
IsAcceptable none = ⊥
IsAcceptable (some req) =
    (is_blank req.dsl ≡ false) × IsCommon req.common × All IsRequested (requested req.experiments)

-- The experiments are the requested ones, numbered from `i` on.
abbrev pub NumberedFrom :
    String → ℕ → List (Option ExperimentParams) → List NormalizedExperiment → Type 0
NumberedFrom batch_id i [] [] = Unit {0}
NumberedFrom batch_id i [] (n ∷ ns) = ⊥
NumberedFrom batch_id i (e ∷ es) [] = ⊥
NumberedFrom batch_id i (none ∷ es) (n ∷ ns) = ⊥
NumberedFrom batch_id i (some e ∷ es) (n ∷ ns) =
    (n.experiment_id ≡ experiment_id batch_id i)
    × (n.set_vars ≡ e.set_vars)
    × NumberedFrom batch_id (suc i) es ns

-- A check finds nothing exactly if `P` holds.
pub data Checks (P : Type 0) : Option Refusal → Type 0 where
  passes : P → Checks P none
  fails : {why : Refusal} → (P → ⊥) → Checks P (some why)

pub data Judged {A : Type 0} (P : Type 0) (Q : A → Type 0) : Normalized A → Type 0 where
  accepted : {a : A} → P → Q a → Judged P Q (normalized a)
  rejected : {why : Refusal} → (P → ⊥) → Judged P Q (refused why)

module _ {P : Type 0} where
  Checks-guard :
      (b : Bool) (why : Refusal) (o : Option Refusal)
      → (P → b ≡ false)
      → (b ≡ false → Checks P o)
      → Checks P (if b then some why else o)
  Checks-guard true why o need rest = fails (λ p. cc (need p))
  Checks-guard false why o need rest = rest refl

  Checks-last :
      (b : Bool) (why : Refusal)
      → (P → b ≡ true)
      → (b ≡ true → P)
      → Checks P (if b then none else some why)
  Checks-last true why need enough = passes (enough refl)
  Checks-last false why need enough = fails (λ p. cc (need p))

  Checks-weaken : {Q : Type 0} {o : Option Refusal} → Checks P o → (P → Q) → (Q → P) → Checks Q o
  Checks-weaken (passes p) f g = passes (f p)
  Checks-weaken (fails n) f g = fails (λ q. n (g q))

check_set_vars-Checks :
    (id : String) (set_vars : List (Option SetVar))
    → Checks (All IsGiven set_vars) (check_set_vars id set_vars)
unfolding check_set_vars
check_set_vars-Checks id [] = passes tt
check_set_vars-Checks id (none ∷ set_vars) = fails (λ all. absurd all.0)
check_set_vars-Checks id (some v ∷ set_vars) =
    Checks-guard (is_blank v.name) _ _ (λ all. all.0.0)
      λ named.
        Checks-guard (is_blank v.value) _ _ (λ all. all.0.1)
          λ valued.
            Checks-weaken (check_set_vars-Checks id set_vars) (λ rest. ((named, valued), rest))
              (λ all. all.1)

validate_stop_rule-Checks :
    (rule : StopRule) → Checks (IsComplete rule) (validate_stop_rule (some rule))
unfolding validate_stop_rule
validate_stop_rule-Checks rule =
    Checks-guard (is_blank rule.left) _ _ (λ c. c.0)
      λ l.
        Checks-guard (is_blank rule.op) _ _ (λ c. c.1)
          λ o.
            Checks-guard (is_blank rule.right) _ _ (λ c. c.2)
              λ r.
                Checks-last (contains (trim_space rule.op) operators) _ (λ c. c.3)
                  (λ h. (l, o, r, h))

Checks-either :
    {P Q : Type 0} (b : Bool) {o : Option Refusal}
    → Checks Q o
    → (P → b ≡ true)
    → (b ≡ true → P)
    → Checks (P ⊎ Q) (if b then none else o)
Checks-either true c need enough = passes (inl (enough refl))
Checks-either false (passes q) need enough = passes (inr q)
Checks-either false (fails n) need enough =
    fails (λ s. elim s [ inl p ↦ cc (need p) | inr q ↦ n q ])

all_true : (a b c : Bool) → (a && b && c) ≡ true → (a ≡ true) × (b ≡ true) × (c ≡ true)
all_true true true true h = (refl, refl, refl)
all_true true true false h = cc
all_true true false c h = cc
all_true false b c h = cc

validate_common_config-Checks :
    (common : Option ExperimentCommonConfig)
    → Checks (IsCommon common) (validate_common_config common)
unfolding validate_common_config is_empty_stop_rule
validate_common_config-Checks none = fails (λ c. c)
validate_common_config-Checks (some common) = go common.stop_rule
  where
    go :
        (rule : Option StopRule)
        → Checks
            (IsStopRule rule)
            (if is_empty_stop_rule rule then none else validate_stop_rule rule)
    go none = passes tt
    go (some rule) =
        Checks-either (is_blank rule.left && is_blank rule.op && is_blank rule.right)
          (validate_stop_rule-Checks rule) (λ (l, o, r). rw (l, o, r) refl)
          (all_true (is_blank rule.left) (is_blank rule.op) (is_blank rule.right))

normalize_experiments-Judged :
    (batch_id : String) (i : ℕ) (es : List (Option ExperimentParams))
    → Judged (All IsRequested es) (NumberedFrom batch_id i es) (normalize_experiments batch_id i es)
unfolding normalize_experiments
normalize_experiments-Judged batch_id i [] = accepted tt tt
normalize_experiments-Judged batch_id i (none ∷ es) = rejected (λ all. absurd all.0)
normalize_experiments-Judged batch_id i (some e ∷ es) =
    go (check_set_vars-Checks (experiment_id batch_id i) e.set_vars)
      (normalize_experiments-Judged batch_id (suc i) es)
  where
    first : NormalizedExperiment
    first = record { experiment_id = experiment_id batch_id i; set_vars = e.set_vars }

    go :
        {o : Option Refusal} {r : Normalized (List NormalizedExperiment)}
        → Checks (All IsGiven e.set_vars) o
        → Judged (All IsRequested es) (NumberedFrom batch_id (suc i) es) r
        → Judged
            (All IsRequested (some e ∷ es))
            (NumberedFrom batch_id i (some e ∷ es))
            (elim o [ some why ↦ refused why | none ↦ with_first first r ])
    go (fails n) r = rejected (λ all. n all.0)
    go (passes p) (accepted all numbered) = accepted (p, all) (refl, refl, numbered)
    go (passes p) (rejected n) = rejected (λ all. n all.1)

-- What a normalized request is.
abbrev pub IsNumbered : String → Option SubmitRequest → String × List NormalizedExperiment → Type 0
IsNumbered random_hex none r = ⊥
IsNumbered random_hex (some req) (batch_id, ns) =
    (batch_id ≡ batch_id_of random_hex req.batch_id)
    × NumberedFrom batch_id 0 (requested req.experiments) ns

Judged-guard :
    {P : Type 0} {A : Type 0} {Q : A → Type 0} (b : Bool) (why : Refusal) (r : Normalized A)
    → (P → b ≡ false)
    → (b ≡ false → Judged P Q r)
    → Judged P Q (if b then refused why else r)
Judged-guard true why r need rest = rejected (λ p. cc (need p))
Judged-guard false why r need rest = rest refl

-- A request is accepted exactly if it has a model text and a common configuration with no stop rule or a
-- well-formed one, and its experiments, if there are any, and their variables are there, with names and
-- values. The experiments are then the requested ones, or one without variables, in their order with
-- their variables, numbered in the batch, which has the requested name or else a random one.
pub normalize_submit_request-Judged :
    (random_hex : String) (req : Option SubmitRequest)
    → Judged
        (IsAcceptable req)
        (IsNumbered random_hex req)
        (normalize_submit_request random_hex req)
unfolding normalize_submit_request
normalize_submit_request-Judged random_hex none = rejected (λ a. a)
normalize_submit_request-Judged random_hex (some req) =
    Judged-guard (is_blank req.dsl) _ _ (λ a. a.0)
      λ has_dsl.
        go has_dsl (validate_common_config-Checks req.common)
          (normalize_experiments-Judged batch_id 0 (requested req.experiments))
  where
    batch_id : String
    batch_id = batch_id_of random_hex req.batch_id

    go :
        {o : Option Refusal} {r : Normalized (List NormalizedExperiment)}
        → is_blank req.dsl ≡ false
        → Checks (IsCommon req.common) o
        → Judged
            (All IsRequested (requested req.experiments))
            (NumberedFrom batch_id 0 (requested req.experiments))
            r
        → Judged
            (IsAcceptable (some req))
            (IsNumbered random_hex (some req))
            (elim o [ some why ↦ refused why | none ↦ in_batch batch_id r ])
    go d (fails n) r = rejected (λ a. n a.1)
    go d (passes c) (accepted all numbered) = accepted (d, c, all) (refl, numbered)
    go d (passes c) (rejected n) = rejected (λ a. n a.2)
