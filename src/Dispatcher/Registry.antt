-- ===== src/Dispatcher/Registry.antt =====
-- dispatcher/registry.go: the experiments of one node, with its slots and memory. A method returns the
-- new registry; a cancel function is a handle, and a method that calls some returns them. A loop
-- over the map takes the order of its visits as the argument `order`.
pub mod Overview
pub mod Starting
pub mod Accounts
pub mod Cancellation
use go_cloud_des.Prelude.{
  ℕ, ◌+◌, ◌-◌, ◌≡◌, String, Bool, true, false, ◌&&◌, ◌||◌, not, Option, none, some, List, [], ◌∷◌,
  ◌++◌, arith, ◌==◌, if◌then◌else◌, ltb, leb, add64, string_eq, nat_eq, ℤ, pos, negsuc,
}
use go_cloud_des.Dict
use go_cloud_des.Dict.{Dict}
use go_cloud_des.Dispatcher.Types.{
  ExperimentKey, key_eq, experiment_key, ExperimentResult, is_active_status, status_starting,
  status_finished, status_canceled,
}

pub record ExperimentRecord : Type 0 where
  pub key : ExperimentKey
  pub result : ExperimentResult
  pub cancel : Option ℕ
  pub memory_reserved : ℕ
  pub cancel_requested : Bool
  pub cancel_reason : String

pub record Registry : Type 0 where
  pub total_slots : ℕ
  pub used_slots : ℕ
  pub total_memory_bytes : ℕ
  pub reserved_memory_bytes : ℕ
  pub experiments : Dict ExperimentKey ExperimentRecord

unfoldable pub new_registry : ℕ → ℕ → Registry
new_registry total_slots total_memory_bytes = record {
  total_slots = total_slots;
  used_slots = 0;
  total_memory_bytes = total_memory_bytes;
  reserved_memory_bytes = 0;
  experiments = Dict.empty;
}

-- The record of an experiment that starts now.
unfoldable pub new_record : String → String → ℕ → ExperimentRecord
new_record model_hash experiment_id limit = record {
  key = experiment_key model_hash experiment_id;
  result = record {
    experiment_id = experiment_id;
    model_hash = model_hash;
    status = status_starting;
    finish_reason = "";
    exit_code = negsuc 0;
    error_message = "";
    final_metrics = Dict.empty;
    stat_count = 0;
    metrics_file_rows = 0;
    metrics_artifact = none;
    started_at_unix_ms = pos 0;
    finished_at_unix_ms = pos 0;
    duration_ms = pos 0;
    memory_limit_bytes = limit;
    peak_memory_bytes = 0;
    stderr_tail = "";
  };
  cancel = none;
  memory_reserved = limit;
  cancel_requested = false;
  cancel_reason = "";
}

-- `existing, ok := r.experiments[key]; ok && isActiveStatus(existing.Result.Status)`
unfoldable pub is_active : Option ExperimentRecord → Bool
is_active none = false
is_active (some rec) = is_active_status rec.result.status

-- What TryStart answers: the record, or the code of the rejection.
pub data Start : Type 0 where
  started : ExperimentRecord → Start
  rejected : String → Start

unfoldable pub try_start : Registry → String → String → ℕ → Registry × Start
unfolding is_active
try_start r model_hash experiment_id limit =
    let key = experiment_key model_hash experiment_id in
    if is_active (Dict.get r.experiments key)
    then (r, rejected "experiment_already_running")
    else if ltb 0 r.total_slots && leb r.total_slots r.used_slots
    then (r, rejected "no_free_slots")
    else if ltb 0 r.total_memory_bytes
        && ltb 0 limit
        && ltb r.total_memory_bytes (add64 r.reserved_memory_bytes limit)
    then (r, rejected "not_enough_memory")
    else (
      record r {
        experiments = Dict.put r.experiments key (new_record model_hash experiment_id limit);
        used_slots = add64 r.used_slots 1;
        reserved_memory_bytes = add64 r.reserved_memory_bytes limit;
      },
      started (new_record model_hash experiment_id limit),
    )

-- Writes a record that is there, and does nothing on a missing key.
unfoldable pub modify : Registry → ExperimentKey → (ExperimentRecord → ExperimentRecord) → Registry
modify r key f = elim (Dict.get r.experiments key) [
  | none ↦ r
  | some rec ↦ record r { experiments = Dict.put r.experiments key (f rec) }
]

unfoldable pub set_cancel : Registry → String → String → ℕ → Registry
unfolding modify
set_cancel r model_hash experiment_id cancel =
    modify r (experiment_key model_hash experiment_id) (λ rec. record rec { cancel = some cancel })

abbrev pub with_status : String → ExperimentRecord → ExperimentRecord
with_status status rec = record rec { result = record rec.result { status = status } }

unfoldable pub set_status : Registry → String → String → String → Registry
unfolding modify
set_status r model_hash experiment_id status =
    modify r (experiment_key model_hash experiment_id) (with_status status)

abbrev pub reason_or : String → String → String
reason_or reason fallback = if reason == "" then fallback else reason

-- The record after Cancel: the reason of an earlier request stays.
unfoldable pub canceled_record : ExperimentRecord → ExperimentRecord
canceled_record rec =
    let reason = reason_or rec.cancel_reason "user_canceled" in
    record rec {
      cancel_requested = true;
      cancel_reason = reason;
      result = record rec.result { status = status_canceled; finish_reason = reason };
    }

-- The answer and its message, and the cancel function that was called.
unfoldable pub cancel : Registry → String → String → Registry × Bool × String × Option ℕ
unfolding canceled_record
cancel r model_hash experiment_id =
    let key = experiment_key model_hash experiment_id in
    elim (Dict.get r.experiments key) [
      | none ↦ (r, false, "experiment not found", none)
      | some rec ↦
          if not (is_active_status rec.result.status)
          then (r, false, "experiment is not active", none)
          else (
            record r { experiments = Dict.put r.experiments key (canceled_record rec) },
            true,
            "experiment cancellation requested",
            rec.cancel,
          )
    ]

-- The result that Finish stores: a requested cancellation wins over all but FINISHED.
unfoldable pub final_result : ExperimentRecord → ExperimentResult → ExperimentResult
final_result rec result =
    if rec.cancel_requested && not (result.status == status_finished)
    then record result {
      status = status_canceled;
      finish_reason =
          if not (rec.cancel_reason == "")
          then rec.cancel_reason
          else reason_or result.finish_reason "user_canceled";
    }
    else result

unfoldable pub finish : Registry → String → String → ExperimentResult → Registry × ExperimentResult
unfolding final_result
finish r model_hash experiment_id result =
    let key = experiment_key model_hash experiment_id in
    elim (Dict.get r.experiments key) [
      | none ↦ (
        record r {
          experiments = Dict.put r.experiments key (record {
            key = key;
            result = result;
            cancel = none;
            memory_reserved = 0;
            cancel_requested = false;
            cancel_reason = "";
          });
        },
        result,
      )
      | some rec ↦
          let result' = final_result rec result in
          (
            record r {
              experiments =
                  Dict.put r.experiments key (record rec { result = result'; memory_reserved = 0 });
              reserved_memory_bytes =
                  if ltb 0 rec.memory_reserved
                  then (if leb rec.memory_reserved r.reserved_memory_bytes
                      then r.reserved_memory_bytes - rec.memory_reserved
                      else 0)
                  else r.reserved_memory_bytes;
              used_slots = if ltb 0 r.used_slots then r.used_slots - 1 else r.used_slots;
            },
            result',
          )
    ]

unfoldable pub get : Registry → String → String → Option ExperimentResult
get r model_hash experiment_id =
    elim (Dict.get r.experiments (experiment_key model_hash experiment_id)) [
      | none ↦ none
      | some rec ↦ some rec.result
    ]
