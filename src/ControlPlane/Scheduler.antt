-- ===== src/ControlPlane/Scheduler.antt =====
-- controlplane/scheduler.go, without its logging. What the surroundings decide in one turn of RunOnce,
-- the clocks, the order of a loop over a map, the database and the dispatcher, is a record of its own.
pub mod Reconcile
pub mod Spared
pub mod ScaleOut
pub mod Reservations
pub mod Waiting
mod Starts
unfoldable pub use Starts.*
pub mod Carries
use go_cloud_des.Prelude.{
  ℕ, ◌+◌, ◌-◌, ◌%◌, ◌≡◌, String, Bool, true, false, ◌&&◌, ◌||◌, not, Option, none, some, List, [],
  ◌∷◌, ◌==◌, if◌then◌else◌, ltb, leb, string_eq, nat_eq, ℤ, pos, negsuc, contains, u32_mod, keep,
  map,
}
use go_cloud_des.Dict
use go_cloud_des.Dict.{Dict}
use go_cloud_des.ControlPlane.PendingQueue.{
  ScheduleExperimentRecord, PendingQueue, enqueue, stamp, len, pop_batch,
}
use go_cloud_des.ControlPlane.PendingQueue
use go_cloud_des.ControlPlane.NodeRegistry.{
  NodeStatus, NodeRegistry, pick_and_reserve, release_reservation, mark_node_failed,
  mark_node_succeeded,
}
use go_cloud_des.ControlPlane.NodeRegistry.Listing.{active_node_ids}
use go_cloud_des.ControlPlane.Repository.{Database, Delivery}
use go_cloud_des.ControlPlane.Repository.Batches.{refresh_batch_status}
use go_cloud_des.ControlPlane.Repository.Statements.{
  try_mark_experiment_starting, mark_experiment_pending, mark_experiment_failed_to_start,
  mark_orphaned_experiments_failed, OrphanedExperiment,
}

-- The fields of controlplane/config.go that the scheduler reads; durations in nanoseconds.
pub record Config : Type 0 where
  pub max_node_failures : ℕ
  pub node_lost_grace_period : ℕ
  pub scale_out_after : ℕ
  pub scale_out_cooldown : ℕ

-- The scheduler and what it shares: the database and the nodes. `provisioner` says that there is one,
-- and the zero time is 0.
pub record Scheduler : Type 0 where
  pub cfg : Config
  pub db : Database
  pub nodes : NodeRegistry
  pub queue : PendingQueue
  pub provisioner : Bool
  pub last_scale_out : ℕ

-- The surroundings of one turn: the Go clock, the clock of the database, the order in which
-- PickAndReserve visits the nodes, and what becomes of each call.
pub record Turn : Type 0 where
  pub now : ℕ
  pub db_now : ℕ
  pub order : List String
  pub starting : Delivery
  pub reply : StartReply
  pub mark : Delivery
  pub refresh : Delivery × Delivery

abbrev pub released : Scheduler → NodeStatus → ScheduleExperimentRecord → NodeRegistry
released s node r = release_reservation s.nodes node.node_id r.memory_limit_bytes

abbrev pub refreshed : Turn → Database → ScheduleExperimentRecord → Database
refreshed t db r = (refresh_batch_status t.db_now t.refresh db r.batch_id).0

-- The nodes after a start that the dispatcher has refused.
abbrev pub refused : Scheduler → ScheduleExperimentRecord → NodeStatus → Scheduler
refused s r node = record s { nodes = mark_node_succeeded (released s node r) node.node_id }

-- From the answer of MarkExperimentPending on.
unfoldable pub requeue :
    Turn → Scheduler → ScheduleExperimentRecord → Database × Option String → Scheduler
requeue t s r (db, some err) = record s { db = db }
requeue t s r (db, none) = record s { db = db; queue = (enqueue t.now s.queue (some r)).0 }

-- From the answer of MarkExperimentFailedToStart on.
unfoldable pub give_up :
    Turn → Scheduler → ScheduleExperimentRecord → Database × Option String → Scheduler
give_up t s r (db, some err) = record s { db = db }
give_up t s r (db, none) = record s { db = refreshed t db r }

-- The switch on the outcome of the start.
unfoldable pub settle :
    Turn → Scheduler → ScheduleExperimentRecord → NodeStatus → StartOutcome × String → Scheduler
unfolding requeue give_up
settle t s r node (accepted, message) = record s {
  nodes = mark_node_succeeded s.nodes node.node_id;
  db = refreshed t s.db r;
}
settle t s r node (retryable, message) =
    requeue t (refused s r node) r
      (mark_experiment_pending t.db_now t.mark s.db r.model_hash r.experiment_id message)
settle t s r node (fatal, message) = give_up t (refused s r node) r (
    mark_experiment_failed_to_start t.db_now t.mark s.db r.model_hash r.experiment_id node.node_id
      message)
settle t s r node (already_running, message) = record s {
  nodes = mark_node_succeeded s.nodes node.node_id;
  db = refreshed t s.db r;
}
settle t s r node (ambiguous, message) = record s {
  nodes = (mark_node_failed s.nodes node.node_id (s.cfg.max_node_failures % u32_mod)).0;
  db = refreshed t s.db r;
}

-- From the answer of TryMarkExperimentStarting on.
unfoldable pub acquire :
    Turn → Scheduler → ScheduleExperimentRecord → NodeStatus → Bool × Option String → Scheduler
unfolding settle start_experiment_on_node
acquire t s r node (acquired, some err) = record s {
  nodes = released s node r;
  queue = (enqueue t.now s.queue (some r)).0;
}
acquire t s r node (false, none) = record s { nodes = released s node r }
acquire t s r node (true, none) = settle t s r node (start_experiment_on_node t.reply)

-- A record that found no node, as its pointer stands after Enqueue.
abbrev pub blocked : ℕ → ScheduleExperimentRecord → PendingQueue × Bool → ScheduleExperimentRecord
blocked now r (q, added) = if added then stamp now r else r

-- From the answer of TryMarkExperimentStarting on, with the database.
abbrev pub claimed :
    Turn
    → Scheduler
    → ScheduleExperimentRecord
    → NodeStatus
    → Database × (Bool × Option String)
    → Scheduler
claimed t s r node (db, answer) = acquire t (record s { db = db }) r node answer

-- From the answer of PickAndReserve on.
unfoldable pub place :
    Turn
    → Scheduler
    → ScheduleExperimentRecord
    → Option NodeStatus
    → Scheduler × Option ScheduleExperimentRecord
unfolding acquire
place t s r none =
    let added = enqueue t.now s.queue (some r) in
    (record s { queue = added.0 }, some (blocked t.now r added))
place t s r (some node) = (
  claimed t s r node (
      try_mark_experiment_starting t.db_now t.starting s.db r.model_hash r.experiment_id
        node.node_id),
  none,
)

-- One round of the loop of RunOnce, and the record if it found no node.
unfoldable pub turn :
    Turn → Scheduler → ScheduleExperimentRecord → Scheduler × Option ScheduleExperimentRecord
unfolding place
turn t s r =
    let (nodes, picked) =
      pick_and_reserve t.now t.order s.nodes r.goos r.goarch r.memory_limit_bytes in
    place t (record s { nodes = nodes }) r picked

-- `noNode` and `firstBlocked`; the i-th record has the i-th turn.
unfoldable pub turns :
    (ℕ → Turn)
    → ℕ
    → Scheduler
    → List ScheduleExperimentRecord
    → ℕ
    → Option ScheduleExperimentRecord
    → Scheduler × ℕ × Option ScheduleExperimentRecord
unfolding turn
turns ts i s [] no_node first = (s, no_node, first)
turns ts i s (r ∷ rs) no_node first =
    let (s', o) = turn (ts i) s r in
    turns ts (i + 1) s' rs (elim o [ none ↦ no_node | some b ↦ no_node + 1 ])
      (elim first [ none ↦ o | some f ↦ some f ])

pub record ScaleOutRequest : Type 0 where
  pub pending_experiments : ℕ
  pub need_nodes : ℕ
  pub goos : String
  pub goarch : String
  pub memory_limit_bytes : ℕ
  pub oldest_pending_for : ℕ

-- The request that is sent, if one is.
unfoldable pub maybe_request_scale_out :
    ℕ → Scheduler → Option ScheduleExperimentRecord → Scheduler × Option ScaleOutRequest
maybe_request_scale_out now s none = (s, none)
maybe_request_scale_out now s (some r) =
    let oldest_pending_for = now - r.pending_since in
    if not s.provisioner
    then (s, none)
    else if ltb oldest_pending_for s.cfg.scale_out_after
    then (s, none)
    else if not (s.last_scale_out == 0) && ltb (now - s.last_scale_out) s.cfg.scale_out_cooldown
    then (s, none)
    else (
      record s { last_scale_out = now },
      some (record {
        pending_experiments = len s.queue;
        need_nodes = 1;
        goos = r.goos;
        goarch = r.goarch;
        memory_limit_bytes = r.memory_limit_bytes;
        oldest_pending_for = oldest_pending_for;
      }),
    )

-- After the batch is popped. With no record nothing happens.
unfoldable pub run_batch :
    (ℕ → Turn) → ℕ → Scheduler → List ScheduleExperimentRecord → Scheduler × Option ScaleOutRequest
unfolding turns maybe_request_scale_out
run_batch ts now s rs =
    let (s', no_node, first) = turns ts 0 s rs 0 none in
    if ltb 0 no_node then maybe_request_scale_out now s' first else (s', none)

-- `none` is a panic. `now` is the clock at the end.
unfoldable pub run_once : (ℕ → Turn) → ℕ → Scheduler → Option (Scheduler × Option ScaleOutRequest)
unfolding run_batch len
run_once ts now s = elim (pop_batch s.queue (pos (len s.queue))) [
  | none ↦ none
  | some (queue, rs) ↦ some (run_batch ts now (record s { queue = queue }) rs)
]

unfoldable pub remove : Scheduler → String → String → Scheduler × Bool
remove s model_hash experiment_id =
    let (queue, removed) = PendingQueue.remove s.queue model_hash experiment_id in
    (record s { queue = queue }, removed)
