-- ===== src/ControlPlane/Submission.antt =====
-- controlplane/submit.go, its checks of a request; a refusal stands for the text of its error.
pub mod Creating
pub mod Building
pub mod Rows
pub mod Created
pub mod Succeeding
pub mod Truthful
pub mod Numbering
pub mod Checks
use Prim.Native.String.{◌++◌ as append}
use go_cloud_des.Prelude.{
  ℕ, zero, suc, ◌+◌, ◌-◌, String, Bool, true, false, ◌&&◌, ◌||◌, Option, none, some, List, [], ◌∷◌,
  ◌==◌, if◌then◌else◌, ltb, string_eq, nat_eq, contains, length, ◌/◌, ◌%◌,
}
use go_cloud_des.Strings.{trim_space, codes}
use go_cloud_des.ControlPlane.PendingQueue.{SetVar, StopRule}

-- The messages of api/controlplane/v1; nil is `none`.
pub record ExperimentCommonConfig : Type 0 where
  pub stop_rule : Option StopRule
  pub metrics : List String
  pub metric_step : ℕ
  pub store_metrics : Bool
  pub memory_limit_bytes : ℕ
  pub run_timeout_ms : ℕ

pub record ExperimentParams : Type 0 where
  pub set_vars : List (Option SetVar)

pub record SubmitRequest : Type 0 where
  pub batch_id : String
  pub dsl : String
  pub common : Option ExperimentCommonConfig
  pub experiments : List (Option ExperimentParams)

pub record NormalizedExperiment : Type 0 where
  pub experiment_id : String
  pub set_vars : List (Option SetVar)

pub data Refusal : Type 0 where
  empty_request empty_dsl empty_common_config : Refusal
  empty_stop_rule empty_left empty_op empty_right : Refusal
  unsupported_op : String → Refusal
  empty_experiment : ℕ → Refusal
  empty_set_var empty_name : (experiment_id : String) → Refusal
  empty_value : (experiment_id name : String) → Refusal

pub data Normalized {ℓ} (A : Type ℓ) : Type ℓ where
  normalized : A → Normalized A
  refused : Refusal → Normalized A

-- `strings.TrimSpace(s) == ""`
abbrev pub is_blank : String → Bool
is_blank s = trim_space s == ""

unfoldable pub is_empty_stop_rule : Option StopRule → Bool
is_empty_stop_rule none = true
is_empty_stop_rule (some rule) = is_blank rule.left && is_blank rule.op && is_blank rule.right

abbrev pub operators : List String
operators = "==" ∷ "!=" ∷ ">" ∷ ">=" ∷ "<" ∷ "<=" ∷ []

unfoldable pub validate_stop_rule : Option StopRule → Option Refusal
validate_stop_rule none = some empty_stop_rule
validate_stop_rule (some rule) =
    if is_blank rule.left
    then some empty_left
    else if is_blank rule.op
    then some empty_op
    else if is_blank rule.right
    then some empty_right
    else if contains (trim_space rule.op) operators
    then none
    else some (unsupported_op (trim_space rule.op))

unfoldable pub validate_common_config : Option ExperimentCommonConfig → Option Refusal
unfolding is_empty_stop_rule validate_stop_rule
validate_common_config none = some empty_common_config
validate_common_config (some common) =
    if is_empty_stop_rule common.stop_rule then none else validate_stop_rule common.stop_rule

-- `%d` of a number below `10 ^ fuel`, before a text.
digit : ℕ → String
digit d =
    if d == 0
    then "0"
    else if d == 1
    then "1"
    else if d == 2
    then "2"
    else if d == 3
    then "3"
    else if d == 4
    then "4"
    else if d == 5
    then "5"
    else if d == 6
    then "6"
    else if d == 7
    then "7"
    else if d == 8
    then "8"
    else "9"

digits : ℕ → ℕ → String → String
unfolding digit
digits zero n text = text
digits (suc fuel) n text =
    let rest = digits fuel (n / 10) (append (digit (n % 10)) text) in
    if ltb n 10 then append (digit n) text else rest

zeros : ℕ → String → String
zeros zero text = text
zeros (suc n) text = append "0" (zeros n text)

-- `%06d`
padded : ℕ → String
unfolding digits zeros
padded n = let text = digits (suc n) n "" in zeros (6 - length (codes text)) text

-- `fmt.Sprintf("%s-exp-%06d", batchID, i+1)`
unfoldable pub experiment_id : String → ℕ → String
unfolding padded
experiment_id batch_id i = append batch_id (append "-exp-" (padded (suc i)))

-- The loop over the set_vars of an experiment.
unfoldable pub check_set_vars : String → List (Option SetVar) → Option Refusal
check_set_vars id [] = none
check_set_vars id (none ∷ set_vars) = some (empty_set_var id)
check_set_vars id (some set_var ∷ set_vars) =
    if is_blank set_var.name
    then some (empty_name id)
    else if is_blank set_var.value
    then some (empty_value id set_var.name)
    else check_set_vars id set_vars

abbrev pub with_first :
    NormalizedExperiment
    → Normalized (List NormalizedExperiment)
    → Normalized (List NormalizedExperiment)
with_first e (normalized es) = normalized (e ∷ es)
with_first e (refused why) = refused why

-- The loop over the experiments, from number `i` on.
unfoldable pub normalize_experiments :
    String → ℕ → List (Option ExperimentParams) → Normalized (List NormalizedExperiment)
unfolding check_set_vars
normalize_experiments batch_id i [] = normalized []
normalize_experiments batch_id i (none ∷ experiments) = refused (empty_experiment i)
normalize_experiments batch_id i (some e ∷ experiments) =
    let id = experiment_id batch_id i in
    let rest = normalize_experiments batch_id (suc i) experiments in
    elim (check_set_vars id e.set_vars) [
      | some why ↦ refused why
      | none ↦ with_first (record { experiment_id = id; set_vars = e.set_vars }) rest
    ]

-- `if batchID == "" { batchID = "batch-" + randomHex(16) }`
unfoldable pub batch_id_of : String → String → String
batch_id_of random_hex batch_id =
    let trimmed = trim_space batch_id in
    if trimmed == "" then append "batch-" random_hex else trimmed

unfoldable pub requested : List (Option ExperimentParams) → List (Option ExperimentParams)
requested [] = some (record { set_vars = [] }) ∷ []
requested (e ∷ experiments) = e ∷ experiments

abbrev pub in_batch :
    String
    → Normalized (List NormalizedExperiment)
    → Normalized (String × List NormalizedExperiment)
in_batch batch_id (normalized es) = normalized (batch_id, es)
in_batch batch_id (refused why) = refused why

unfoldable pub normalize_submit_request :
    String → Option SubmitRequest → Normalized (String × List NormalizedExperiment)
unfolding validate_common_config normalize_experiments batch_id_of requested
normalize_submit_request random_hex none = refused empty_request
normalize_submit_request random_hex (some req) =
    if is_blank req.dsl then refused empty_dsl else elim (validate_common_config req.common) [
      | some why ↦ refused why
      | none ↦
          let batch_id = batch_id_of random_hex req.batch_id in
          in_batch batch_id (normalize_experiments batch_id 0 (requested req.experiments))
    ]
