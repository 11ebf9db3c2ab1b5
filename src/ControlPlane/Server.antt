-- ===== src/ControlPlane/Server.antt =====
-- controlplane/server.go: the handlers that take the result of an experiment and cancel one. A gRPC
-- error is its code and message, an error of a call is its text, and there is a scheduler. The
-- dispatcher sees its calls through the replies that are arguments here.
pub mod Canceling
pub mod Reporting
use go_cloud_des.Prelude.{
  ℕ, zero, suc, ◌+◌, ◌-◌, ◌%◌, ◌≡◌, ◌≢◌, ◌≤◌, ◌<◌, ◌⊎◌, ◌↔◌, inl, inr, refl, sym, ap, ◌∙◌, subst,
  String, Bool, true, false, ◌&&◌, ◌||◌, not, Option, none, some, List, [], ◌∷◌, ◌++◌, ◌==◌,
  if◌then◌else◌, ltb, leb, string_eq, nat_eq, ℤ, pos, negsuc, contains, u32_mod, u64_mod, keep, map,
  arith, eq_iff, beq_refl, ne_of_beq, Bool-cases, Option-cases, All, Any, length,
}
use go_cloud_des.Dict
use go_cloud_des.Dict.{Dict}
use go_cloud_des.ControlPlane.NodeRegistry.{
  NodeStatus, NodeRegistry, release_reservation, register, heartbeat,
}
use go_cloud_des.ControlPlane.NodeRegistry.Listing
use go_cloud_des.ControlPlane.NodeRegistry.Listing.{list}
use go_cloud_des.ControlPlane.Repository.{
  status_pending, status_starting, status_running, status_finished, status_failed, status_canceled,
  ExperimentStatus, Database, Delivery,
}
use go_cloud_des.ControlPlane.Repository.Batches.{refresh_batch_status}
use go_cloud_des.ControlPlane.Repository.Statements.{
  update_experiment_result, get_experiment_for_cancel, mark_pending_experiment_canceled,
  CancelExperimentRecord,
}
use go_cloud_des.ControlPlane.Scheduler.{Scheduler}
use go_cloud_des.ControlPlane.Scheduler

pub record Response : Type 0 where
  pub ok : Bool
  pub message : String

abbrev pub answer : Bool → String → Response
answer ok message = record { ok = ok; message = message }

unfoldable pub register_node : ℕ → NodeRegistry → Option NodeStatus → NodeRegistry × Response
register_node now nodes node =
    let (nodes', err) = register now nodes node in
    (nodes', elim err [ some e ↦ answer false e | none ↦ answer true "node registered" ])

unfoldable pub send_heartbeat : ℕ → NodeRegistry → Option NodeStatus → NodeRegistry × Response
send_heartbeat now nodes node =
    let (nodes', err) = heartbeat now nodes node in
    (nodes', elim err [ some e ↦ answer false e | none ↦ answer true "heartbeat accepted" ])

unfoldable pub list_nodes :
    ℕ → List String → NodeRegistry → String → NodeRegistry × List (Option NodeStatus)
list_nodes now order nodes status =
    let (nodes', alive, evicted) = list now order nodes status in (nodes', alive)

-- From the answer of UpdateExperimentResult on.
unfoldable pub settle_report :
    Scheduler
    → String
    → ExperimentStatus
    → Database × String × Bool × Option String
    → Scheduler × Response
settle_report s node_id result (db, batch_id, found, some err) =
    (record s { db = db }, answer false err)
settle_report s node_id result (db, batch_id, false, none) =
    (record s { db = db }, answer false "experiment not found")
settle_report s node_id result (db, batch_id, true, none) = (
  record s { db = db; nodes = release_reservation s.nodes node_id result.memory_limit_bytes },
  answer true "experiment result accepted",
)

unfoldable pub report_experiment_result :
    ℕ
    → Delivery
    → Delivery × Delivery
    → Scheduler
    → String
    → Option ExperimentStatus
    → Scheduler × Response
unfolding settle_report
report_experiment_result now exec refresh s node_id none =
    (s, answer false "empty experiment result")
report_experiment_result now exec refresh s node_id (some result) =
    settle_report s node_id result
      (update_experiment_result now exec refresh s.db node_id (some result))

pub record CancelResponse : Type 0 where
  pub canceled : Bool
  pub model_hash : String
  pub experiment_id : String
  pub status : String
  pub message : String

-- `status.Error` and its message, or another error.
pub data Failure : Type 0 where
  invalid_argument not_found other : String → Failure

-- The reply to StopExperiment; the node's address cannot be dialled, or the call fails.
pub data StopReply : Type 0 where
  unreachable : String → StopReply
  responds : (stopped : Bool) (message : String) → StopReply

pub data Cancellation : Type 0 where
  refused : Failure → Cancellation
  answered : CancelResponse → Cancellation

abbrev pub reply_to : CancelExperimentRecord → Bool → String → String → Cancellation
reply_to rec canceled status message = answered (record {
  canceled = canceled;
  model_hash = rec.model_hash;
  experiment_id = rec.experiment_id;
  status = status;
  message = message;
})

-- What the surroundings decide in one call, with the clocks.
pub record Calls : Type 0 where
  pub now : ℕ
  pub db_now : ℕ
  pub now_ms : ℤ
  pub query : Delivery
  pub mark : Delivery
  pub refresh : Delivery × Delivery
  pub stop : StopReply

-- The case `statusPending`, after the scheduler's Remove, from the answer of
-- MarkPendingExperimentCanceled on.
unfoldable pub settle_pending :
    Calls → Scheduler → CancelExperimentRecord → Bool × Option String → Scheduler × Cancellation
settle_pending c s rec (canceled, some err) = (s, refused (other err))
settle_pending c s rec (false, none) =
    (s, reply_to rec false rec.status "experiment is no longer pending")
settle_pending c s rec (true, none) =
    let (db, err) = refresh_batch_status c.db_now c.refresh s.db rec.batch_id in
    (
      record s { db = db },
      elim err [
        | some e ↦ refused (other e)
        | none ↦ reply_to rec true status_canceled "pending experiment canceled"
      ],
    )

unfoldable pub cancel_pending :
    Calls → Scheduler → CancelExperimentRecord → Scheduler × Cancellation
unfolding settle_pending
cancel_pending c s rec =
    let s' = (Scheduler.remove s rec.model_hash rec.experiment_id).0 in
    let (db, marked) =
      mark_pending_experiment_canceled c.db_now c.now_ms c.mark s'.db rec.model_hash
        rec.experiment_id in
    settle_pending c (record s' { db = db }) rec marked

-- What the dispatcher's reply to StopExperiment is answered with.
unfoldable pub stop_message : Bool → String → String
stop_message true message =
    "cancellation requested; terminal status will be set when dispatcher reports result"
stop_message false message =
    if message == "" then "dispatcher could not stop experiment" else message

-- By the node that Get returns and the reply of its dispatcher.
unfoldable pub active_reply : CancelExperimentRecord → Option NodeStatus → StopReply → Cancellation
unfolding stop_message
active_reply rec none stop = reply_to rec false rec.status "dispatcher node is not available"
active_reply rec (some node) (unreachable err) = refused (other err)
active_reply rec (some node) (responds stopped message) =
    reply_to rec false rec.status (stop_message stopped message)

unfoldable pub cancel_active : Calls → Scheduler → CancelExperimentRecord → Scheduler × Cancellation
unfolding active_reply
cancel_active c s rec =
    if rec.dispatcher_node_id == ""
    then (s, reply_to rec false rec.status "experiment has no dispatcher node")
    else let (nodes, node) = Listing.get c.now s.nodes rec.dispatcher_node_id in
      (record s { nodes = nodes }, active_reply rec node c.stop)

unfoldable pub cancel_found : Calls → Scheduler → CancelExperimentRecord → Scheduler × Cancellation
unfolding cancel_pending cancel_active
cancel_found c s rec =
    if rec.status == status_pending
    then cancel_pending c s rec
    else if contains rec.status (status_starting ∷ status_running ∷ [])
    then cancel_active c s rec
    else if rec.status == status_canceled
    then (s, reply_to rec true status_canceled "experiment is already canceled")
    else if contains rec.status (status_finished ∷ status_failed ∷ [])
    then (s, reply_to rec false rec.status "experiment is already terminal")
    else (s, reply_to rec false rec.status "experiment cannot be canceled in current status")

-- From the answer of GetExperimentForCancel on.
unfoldable pub cancel_answered :
    Calls
    → Scheduler
    → Option CancelExperimentRecord × Bool × Option String
    → Scheduler × Cancellation
unfolding cancel_found
cancel_answered c s (rec, found, some err) = (s, refused (other err))
cancel_answered c s (rec, false, none) = (s, refused (not_found "experiment not found"))
cancel_answered c s (some rec, true, none) = cancel_found c s rec
-- GetExperimentForCancel finds no nil record.
cancel_answered c s (none, true, none) = (s, refused (other "nil"))

unfoldable pub cancel_experiment : Calls → Scheduler → String → String → Scheduler × Cancellation
unfolding cancel_answered
cancel_experiment c s model_hash experiment_id =
    if model_hash == ""
    then (s, refused (invalid_argument "empty model_hash"))
    else if experiment_id == ""
    then (s, refused (invalid_argument "empty experiment_id"))
    else cancel_answered c s (get_experiment_for_cancel c.query s.db model_hash experiment_id)
