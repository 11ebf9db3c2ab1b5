-- ===== src/Dispatcher/Registry/Accounts.antt =====
-- The slots and the memory of dispatcher/registry.go against the runs that are under way. A run
-- begins when TryStart answers with a record, and ends with its one call of Finish, as in
-- dispatcher/server.go.
pub mod Kept
pub mod Slots
pub mod Memory
pub mod Leak
use go_cloud_des.Prelude.{
  ℕ, zero, suc, ◌+◌, ◌-◌, ◌≤◌, ◌<◌, ◌≡◌, ◌≢◌, ◌⊎◌, ◌↔◌, ◌∙◌, inl, inr, refl, sym, ap, String, Bool,
  true, false, ◌&&◌, ◌||◌, not, Option, none, some, List, [], ◌∷◌, ◌++◌, map, arith, ◌==◌,
  if◌then◌else◌, ltb, leb, add64, u64_mod, string_eq, nat_eq, ℤ, pos, negsuc, Bool-cases,
  Option-cases, eq_iff, beq_refl, contains, length, subst, Distinct,
}
use go_cloud_des.Dict
use go_cloud_des.Dict.{Dict, get-put, get-remove, get-empty, get-put_self, get-put_ne}
use go_cloud_des.Dispatcher.Types.{
  ExperimentKey, key_eq, experiment_key, ExperimentResult, is_active_status, status_starting,
  status_finished, status_canceled, status_running, status_pending,
}
use go_cloud_des.Dispatcher.Registry.{
  ExperimentRecord, Registry, new_registry, new_record, is_active, Start, started, rejected,
  try_start, modify, set_cancel, with_status, set_status, reason_or, canceled_record, cancel,
  final_result, finish,
}
use go_cloud_des.Dispatcher.Registry.Overview.{cancel_all, cancel_all_loop, canceled_by}

-- A registry with the runs under way, each with its memory limit.
pub record State : Type 0 where
  pub registry : Registry
  pub open registry use *
  pub runs : List (ExperimentKey × ℕ)

abbrev pub run_keys : List (ExperimentKey × ℕ) → List ExperimentKey
run_keys = map (λ r. r.0)

abbrev pub sum_limits : List (ExperimentKey × ℕ) → ℕ
sum_limits [] = 0
sum_limits ((k, m) ∷ rs) = m + sum_limits rs

-- Takes out the first run of a key.
pub end_run : ExperimentKey → List (ExperimentKey × ℕ) → List (ExperimentKey × ℕ)
end_run key [] = []
end_run key ((k, m) ∷ rs) = if k == key then rs else (k, m) ∷ end_run key rs

pub data Event : Type 0 where
  starts : String → String → ℕ → Event
  sets_cancel : String → String → ℕ → Event
  sets_running cancels : String → String → Event
  cancels_all : List ExperimentKey → String → Event
  finishes : String → String → ExperimentResult → Event

unfoldable pub begin : State → ExperimentKey → ℕ → Registry × Start → State
begin s key limit (r, started rec) = record { registry = r; runs = (key, limit) ∷ s.runs }
begin s key limit (r, rejected code) = record s { registry = r }

-- A run that is not under way does not finish.
unfoldable pub step : State → Event → State
unfolding begin
step s (starts h e limit) = begin s (experiment_key h e) limit (try_start s.registry h e limit)
step s (sets_cancel h e c) = record s { registry = set_cancel s.registry h e c }
step s (sets_running h e) = record s { registry = set_status s.registry h e status_running }
step s (cancels h e) = record s { registry = (cancel s.registry h e).0 }
step s (cancels_all order reason) = record s { registry = (cancel_all order s.registry reason).0 }
step s (finishes h e result) =
    let key = experiment_key h e in
    if contains key (run_keys s.runs)
    then record { registry = (finish s.registry h e result).0; runs = end_run key s.runs }
    else s

unfoldable pub run : State → List Event → State
run s [] = s
run s (e ∷ es) = run (step s e) es

unfoldable pub start : ℕ → ℕ → State
start slots memory = record { registry = new_registry slots memory; runs = [] }
