-- ===== src/Dispatcher/Tests.antt =====
-- dispatcher/registry.go on concrete registries.
use go_cloud_des.Prelude.{
  ◌<◌, ◌≡◌, refl, String, false, none, some, List, [], ◌∷◌, arith, pos, if◌then◌else◌, ◌==◌,
  string_eq,
}
use go_cloud_des.Dict
use go_cloud_des.Dict.{Dict}
use go_cloud_des.Dispatcher.Types.{
  experiment_key, ExperimentResult, is_active_status, status_canceled, status_finished, key_eq,
}
use go_cloud_des.Dispatcher.Registry.{
  ExperimentRecord, Registry, new_registry, new_record, try_start, cancel, finish, reason_or, get,
  is_active, set_status, modify,
}
use go_cloud_des.Dispatcher.Registry.Starting.{Answers, HasMemory, try_start-Answers}
use go_cloud_des.Dispatcher.Registry.Cancellation.{notes, reports, updates, finish-cancel}
use go_cloud_des.Dispatcher.Registry.Accounts.{
  Event, starts, cancels, cancels_all, sets_running, finishes, run, start, step, begin,
}
use go_cloud_des.Dispatcher.Registry.Accounts.Slots.{SlotsCounted, run-start-SlotsCounted}
use go_cloud_des.Dispatcher.Registry.Accounts.Memory.{
  MemoryCounted, run-start-MemoryCounted, AreFresh,
}
use go_cloud_des.Dispatcher.Registry.Accounts.Leak.{restart, restart-leaks}

abbrev result_of : String → ExperimentResult
result_of status = record {
  experiment_id = "e1";
  model_hash = "aa";
  status = status;
  finish_reason = "";
  exit_code = pos 0;
  error_message = "";
  final_metrics = record { entries = [] };
  stat_count = 3;
  metrics_file_rows = 0;
  metrics_artifact = none;
  started_at_unix_ms = pos 5;
  finished_at_unix_ms = pos 9;
  duration_ms = pos 4;
  memory_limit_bytes = 64;
  peak_memory_bytes = 10;
  stderr_tail = "";
}

abbrev running : ExperimentRecord
running = record {
  key = record { model_hash = "aa"; experiment_id = "e1" };
  result = result_of "RUNNING";
  cancel = some 7;
  memory_reserved = 64;
  cancel_requested = false;
  cancel_reason = "";
}

abbrev busy : Registry
busy = record {
  total_slots = 2;
  used_slots = 1;
  total_memory_bytes = 128;
  reserved_memory_bytes = 64;
  experiments = record {
    entries = (record { model_hash = "aa"; experiment_id = "e1" }, running) ∷ [];
  };
}

abbrev day : List Event
day =
    starts "aa" "e1" 64
    ∷ sets_running "aa" "e1"
    ∷ starts "aa" "e2" 64
    ∷ starts "aa" "e3" 64
    ∷ cancels "aa" "e2"
    ∷ finishes "aa" "e1" (result_of "FINISHED")
    ∷ cancels_all [] "node_shutdown"
    ∷ []

try_start-Answers_example :
    Answers HasMemory busy (experiment_key "aa" "e2") 65 (try_start busy "aa" "e2" 65)
try_start-Answers_example = try_start-Answers busy "aa" "e2" 65 (omega arith)

found : Dict.get busy.experiments (experiment_key "aa" "e1") ≡ some running
unfolding Dict.get Dict.lookup experiment_key
found = refl

finish-cancel_example :
    let r' = updates (cancel busy "aa" "e1").0 "aa" "e1" (reports "RUNNING" ∷ notes 8 ∷ []) in
    let stored = (finish r' "aa" "e1" (result_of "FAILED")).1 in
    (stored ≡ (
      if "FAILED" == status_finished then result_of "FAILED" else record (result_of "FAILED") {
        status = status_canceled;
        finish_reason = reason_or "" "user_canceled";
      }))
    × (get (finish r' "aa" "e1" (result_of "FAILED")).0 "aa" "e1" ≡ some stored)
finish-cancel_example =
    finish-cancel busy "aa" "e1" running (reports "RUNNING" ∷ notes 8 ∷ []) (result_of "FAILED")
      found (unfold is_active_status in refl)

run-start-SlotsCounted_example : SlotsCounted 2 (run (start 2 128) day)
run-start-SlotsCounted_example = run-start-SlotsCounted 2 128 day (omega arith) (omega arith)

fresh : AreFresh (start 2 128) day
unfolding step begin start new_registry try_start new_record is_active set_status modify
    experiment_key Dict.get Dict.lookup Dict.put Dict.without Dict.empty is_active_status
fresh =
    let one : (false ≡ false) × (64 < 9223372036854775808) = (refl, omega arith) in
    (one, (tt, (one, (one, (tt, (tt, (tt, tt)))))))

run-start-MemoryCounted_example : MemoryCounted 128 (run (start 2 128) day)
run-start-MemoryCounted_example =
    run-start-MemoryCounted 2 128 day (omega arith) (omega arith) fresh

restart-leaks_example :
    let s =
      run (start 2 128) (restart "aa" "e1" 64 32 (result_of "CANCELED") (result_of "FINISHED")) in
    (s.runs ≡ []) × (s.used_slots ≡ 0) × (s.reserved_memory_bytes ≡ 64)
restart-leaks_example =
    restart-leaks 2 128 "aa" "e1" 64 32 (result_of "CANCELED") (result_of "FINISHED") (omega arith)
      (omega arith) (omega arith) (omega arith) (omega arith)
