-- ===== src/Dispatcher/Registry/Overview.antt =====
-- The methods of dispatcher/registry.go that read the whole map: List, Snapshot and CancelAll.
use go_cloud_des.Prelude.{
  ℕ, ◌+◌, String, true, false, ◌&&◌, not, Option, none, some, List, [], ◌∷◌, ◌++◌, ◌==◌,
  if◌then◌else◌, add64, string_eq, nat_eq,
}
use go_cloud_des.Dict
use go_cloud_des.Dict.{Dict, get-put, get-remove, get-empty}
use go_cloud_des.Dispatcher.Types.{
  ExperimentKey, key_eq, ExperimentResult, is_active_status, status_canceled,
}
use go_cloud_des.Dispatcher.Registry.{ExperimentRecord, Registry, is_active, reason_or}

pub record RegistrySnapshot : Type 0 where
  pub total_slots : ℕ
  pub used_slots : ℕ
  pub total_memory_bytes : ℕ
  pub reserved_memory_bytes : ℕ
  pub active_experiments : ℕ

unfoldable pub list_loop :
    Dict ExperimentKey ExperimentRecord
    → String
    → List ExperimentKey
    → List ExperimentResult
    → List ExperimentResult
list_loop d status [] out = out
list_loop d status (key ∷ order) out = list_loop d status order (elim (Dict.get d key) [
  | none ↦ out
  | some rec ↦
      if not (status == "") && not (rec.result.status == status)
      then out
      else out ++ rec.result ∷ []
])

unfoldable pub list : List ExperimentKey → Registry → String → List ExperimentResult
unfolding list_loop
list order r status = list_loop r.experiments status order []

unfoldable pub active_loop : Dict ExperimentKey ExperimentRecord → List ExperimentKey → ℕ → ℕ
unfolding is_active
active_loop d [] active = active
active_loop d (key ∷ order) active =
    active_loop d order (if is_active (Dict.get d key) then add64 active 1 else active)

unfoldable pub snapshot : List ExperimentKey → Registry → RegistrySnapshot
unfolding active_loop
snapshot order r = record {
  total_slots = r.total_slots;
  used_slots = r.used_slots;
  total_memory_bytes = r.total_memory_bytes;
  reserved_memory_bytes = r.reserved_memory_bytes;
  active_experiments = active_loop r.experiments order 0;
}

-- The record after CancelAll: reasons that are there stay.
unfoldable pub canceled_by : String → ExperimentRecord → ExperimentRecord
canceled_by reason rec =
    let why = reason_or rec.cancel_reason reason in
    record rec {
      cancel_requested = true;
      cancel_reason = why;
      result = record rec.result {
        status = status_canceled;
        finish_reason = reason_or rec.result.finish_reason why;
      };
    }

-- The map, the number of canceled experiments, and the cancel functions in the order of the calls.
unfoldable pub cancel_all_loop :
    String
    → List ExperimentKey
    → Dict ExperimentKey ExperimentRecord
    → ℕ
    → List (Option ℕ)
    → Dict ExperimentKey ExperimentRecord × ℕ × List (Option ℕ)
unfolding canceled_by
cancel_all_loop reason [] d count called = (d, count, called)
cancel_all_loop reason (key ∷ order) d count called = elim (Dict.get d key) [
  | none ↦ cancel_all_loop reason order d count called
  | some rec ↦ elim (is_active_status rec.result.status) [
    | false ↦ cancel_all_loop reason order d count called
    | true ↦
        cancel_all_loop reason order (Dict.put d key (canceled_by reason rec)) (count + 1)
          (called ++ rec.cancel ∷ [])
  ]
]

unfoldable pub cancel_all : List ExperimentKey → Registry → String → Registry × ℕ × List (Option ℕ)
unfolding cancel_all_loop
cancel_all order r reason =
    let (d, count, called) = cancel_all_loop reason order r.experiments 0 [] in
    (record r { experiments = d }, count, called)
