-- ===== src/ControlPlane/Scheduler/Starts.antt =====
-- controlplane/scheduler.go: what the reply of a dispatcher to StartExperiment means.
use go_cloud_des.Prelude.{
  String, Bool, true, false, not, [], ◌∷◌, ◌==◌, if◌then◌else◌, string_eq, contains,
}

pub data StartOutcome : Type 0 where
  accepted retryable fatal already_running ambiguous : StartOutcome

unfoldable pub is_transient_reject_code : String → Bool
is_transient_reject_code code =
    contains code ("no_free_slots" ∷ "not_enough_memory" ∷ "request_canceled" ∷ [])

unfoldable pub is_already_running_reject_code : String → Bool
is_already_running_reject_code code = code == "experiment_already_running"

-- An error of the client, or the fields of the response.
pub data StartReply : Type 0 where
  unreachable : String → StartReply
  responds : (accepted : Bool) (error_code message : String) → StartReply

unfoldable pub reject_message : String → String → String
reject_message error_code message =
    if not (message == "")
    then message
    else if not (error_code == "")
    then error_code
    else "dispatcher rejected experiment"

unfoldable pub start_experiment_on_node : StartReply → StartOutcome × String
unfolding is_transient_reject_code is_already_running_reject_code reject_message
start_experiment_on_node (unreachable err) = (ambiguous, err)
start_experiment_on_node (responds true error_code message) = (accepted, "")
start_experiment_on_node (responds false error_code message) =
    let text = reject_message error_code message in
    if is_already_running_reject_code error_code
    then (already_running, text)
    else if is_transient_reject_code error_code
    then (retryable, text)
    else (fatal, text)
