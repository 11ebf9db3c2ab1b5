-- ===== src/ControlPlane/SchedulerTests.antt =====
-- controlplane/repository.go, controlplane/scheduler.go and controlplane/server.go on concrete states.
use go_cloud_des.Prelude.{
  ℕ, ◌≡◌, inl, inr, refl, String, true, false, Option, none, some, List, [], ◌∷◌, string_eq, nat_eq,
  pos, negsuc, contains, arith, ◌*◌, ◌-◌,
}
use go_cloud_des.Dict
use go_cloud_des.Dict.{Dict}
use go_cloud_des.ControlPlane.Tests.{
  queued, node, held, cluster, picked, cluster-IsKeyed, cluster-HasRoom, picks_n1,
}
use go_cloud_des.ControlPlane.PendingQueue.{
  queue_key, keys, len, pop_batch, enqueue, enqueue_many, batch_size, stamp,
}
use go_cloud_des.ControlPlane.PendingQueue.Invariant.{IsSynced}
use go_cloud_des.ControlPlane.Repository.{
  ExperimentStatus, ExperimentRow, Database, delivered, find, is_experiment, has_status, count,
  Delivery, unsent, unheard,
}
use go_cloud_des.ControlPlane.Repository.Batches.{status_of_batch}
use go_cloud_des.ControlPlane.Repository.BatchStatus.{Summary, rows_of, status_of_batch_lem}
use go_cloud_des.ControlPlane.Repository.Statements.{try_mark_experiment_starting, is_experiment_in}
use go_cloud_des.ControlPlane.Repository.Transitions.{
  starts, cancels, claim, claims, all_false, pending_count, claims_lem,
}
use go_cloud_des.ControlPlane.Scheduler.{
  Scheduler, Turn, responds, run_once, ScaleOutRequest, turn, run_batch, turns, place,
  maybe_request_scale_out,
}
use go_cloud_des.ControlPlane.Scheduler.ScaleOut.{
  Event, enqueues, ticks, removes, requests, Spaced, requests-Spaced,
}
use go_cloud_des.ControlPlane.Scheduler.Waiting.{Awaits, run_once-Awaits}
use go_cloud_des.ControlPlane.Scheduler.Reservations.{Balance, fate, reservation, turn-Balance}
use go_cloud_des.ControlPlane.Scheduler.Reconcile.{reconcile_lost_nodes}
use go_cloud_des.ControlPlane.Scheduler.Spared.{Rows, Spared, reconcile-Spared}
use go_cloud_des.ControlPlane.Server
use go_cloud_des.ControlPlane.Server.{cancel_experiment, Calls}
use go_cloud_des.ControlPlane.Server.Canceling.{Truthful, cancel_experiment-Truthful}
use go_cloud_des.ControlPlane.Server.Reporting.{Statements, working, reports, reports-release}
use go_cloud_des.ControlPlane.NodeRegistry.{pick_and_reserve, pick_loop}
use go_cloud_des.Strings.{trim_space, trim_left, trim_right, is_space}

abbrev row : String → String → ExperimentRow
row id status = record {
  model_hash = "aa";
  experiment_id = id;
  batch_id = "b";
  status = status;
  dispatcher_node_id = none;
  finish_reason = none;
  exit_code = negsuc 0;
  error_message = none;
  final_metrics = record { entries = [] };
  stat_count = pos 0;
  metrics_file_rows = pos 0;
  metrics_artifact_key = none;
  metrics_artifact_sha256 = none;
  metrics_artifact_size = none;
  metrics_artifact_content_type = none;
  started_at_unix_ms = none;
  finished_at_unix_ms = none;
  duration_ms = none;
  memory_limit_bytes = pos 64;
  peak_memory_bytes = pos 0;
  stderr_tail = none;
  updated_at = 1;
}

abbrev lost : ExperimentRow
lost = record (row "e3" "RUNNING") { dispatcher_node_id = some "n9" }

abbrev rows : List ExperimentRow
rows = row "e1" "PENDING" ∷ row "e2" "FINISHED" ∷ lost ∷ []

abbrev database : Database
database = record {
  experiments = rows;
  batches =
      record {
        batch_id = "b";
        status = "RUNNING";
        error_code = none;
        message = none;
        updated_at = 1;
      }
      ∷ [];
}

status_of_batch_lem_example : Summary (rows_of "b" rows) (status_of_batch rows "b")
status_of_batch_lem_example = status_of_batch_lem rows "b"

one_pending : pending_count database "aa" "e1" ≡ 1
unfolding count is_experiment_in is_experiment has_status
one_pending = refl

claims_lem_example :
    claims database "aa" "e1" (starts 5 "n1" ∷ cancels 6 (pos 7) ∷ starts 8 "n2" ∷ []) ≡ (
      (claim database "aa" "e1" (starts 5 "n1")).0,
      true ∷ all_false (cancels 6 (pos 7) ∷ starts 8 "n2" ∷ []),
    )
claims_lem_example =
    claims_lem database "aa" "e1" (starts 5 "n1") (cancels 6 (pos 7) ∷ starts 8 "n2" ∷ [])
      one_pending

abbrev scheduler : Scheduler
scheduler = record {
  cfg = record {
    max_node_failures = 3;
    node_lost_grace_period = 60;
    scale_out_after = 5;
    scale_out_cooldown = 30;
  };
  db = database;
  nodes = cluster held;
  queue = record { items = queued "e1" ∷ []; index = record { entries = ("aa:e1", tt) ∷ [] } };
  provisioner = true;
  last_scale_out = 0;
}

abbrev busy : ℕ → Turn
busy i = record {
  now = 120;
  db_now = 121;
  order = "n1" ∷ [];
  starting = delivered;
  reply = responds false "no_free_slots" "";
  mark = delivered;
  refresh = (delivered, delivered);
}

-- A turn that visits no node.
abbrev idle : ℕ → Turn
idle i = record {
  now = 120;
  db_now = 121;
  order = [];
  starting = delivered;
  reply = responds false "no_free_slots" "";
  mark = delivered;
  refresh = (delivered, delivered);
}

abbrev life : List Event
life =
    ticks idle 120
    ∷ enqueues 121 (some (queued "e2") ∷ [])
    ∷ ticks idle 130
    ∷ ticks idle 150
    ∷ ticks idle 160
    ∷ removes "aa" "e1"
    ∷ []

two_requests : requests scheduler life ≡ 130 ∷ 160 ∷ []
unfolding requests run_once run_batch turns turn place maybe_request_scale_out pick_and_reserve
    pick_loop enqueue enqueue_many pop_batch batch_size stamp len queue_key trim_space trim_left
    trim_right is_space Dict.get Dict.lookup Dict.put Dict.without Dict.remove
two_requests = refl

requests-Spaced_example :
    Spaced scheduler.cfg.scale_out_cooldown scheduler.last_scale_out (requests scheduler life)
requests-Spaced_example = requests-Spaced scheduler 100 life (omega arith) (
  omega arith,
  omega arith,
  (omega arith, omega arith, (omega arith, omega arith, (omega arith, omega arith, tt))),
)

synced : IsSynced scheduler.queue
unfolding Dict.get Dict.lookup queue_key
synced = record { synced = λ k. ground arith; distinct = (refl, tt) }

queued_now : contains (queue_key "aa" "e1") (keys scheduler.queue) ≡ true
unfolding queue_key
queued_now = refl

run_once-Awaits_example :
    (out : Scheduler × Option ScaleOutRequest) × (run_once busy 120 scheduler ≡ some out)
    × IsSynced out.0.queue
    × Awaits "aa" "e1" out.0 []
run_once-Awaits_example =
    run_once-Awaits "aa" "e1" busy 120 scheduler (omega arith, (omega arith, tt)) (λ j. refl)
      ((omega arith, (omega arith, tt)), tt) synced (inr (inl queued_now))

turn-Balance_example :
    let answer = (try_mark_experiment_starting 121 delivered database "aa" "e1" "n1").1 in
    Balance
      (fate (busy 0) answer)
      64
      (reservation (cluster held) "n1")
      (reservation (turn (busy 0) scheduler (queued "e1")).0.nodes "n1")
turn-Balance_example =
    turn-Balance (busy 0) scheduler (queued "e1") (cluster picked) (node "n1") cluster-IsKeyed
      cluster-HasRoom picks_n1

abbrev calls : Calls
calls = record {
  now = 120;
  db_now = 121;
  now_ms = pos 1;
  query = delivered;
  mark = delivered;
  refresh = (delivered, delivered);
  stop = Server.responds true "";
}

cancel_experiment-Truthful_example :
    Truthful "aa" "e1" (cancel_experiment calls scheduler "aa" "e1")
cancel_experiment-Truthful_example = cancel_experiment-Truthful calls scheduler "aa" "e1"

abbrev ended : ExperimentStatus
ended = record {
  model_hash = "aa";
  experiment_id = "e1";
  status = "FINISHED";
  finish_reason = "";
  exit_code = pos 0;
  error_message = "";
  final_metrics = record { entries = [] };
  stat_count = 3;
  metrics_file_rows = 0;
  metrics_artifact = none;
  started_at_unix_ms = pos 5;
  finished_at_unix_ms = pos 9;
  duration_ms = pos 4;
  memory_limit_bytes = 64;
  peak_memory_bytes = 10;
  stderr_tail = "";
}

known : find (is_experiment "aa" "e1") rows ≡ some (row "e1" "PENDING")
unfolding find is_experiment
known = refl

reserved : reservation (cluster picked) "n1" ≡ some (2, 128)
unfolding Dict.get Dict.lookup
reserved = refl

abbrev sent : Delivery × Delivery × Delivery → Statements
sent (exec, query, update) = record { exec = exec; refresh = (query, update) }

abbrev attempts : List Statements
attempts =
    sent (unsent "timeout", delivered, delivered)
    ∷ sent (delivered, delivered, unheard "timeout")
    ∷ sent (delivered, delivered, delivered)
    ∷ []

reports-release_example :
    reservation
      (reports 121 attempts (record scheduler { nodes = cluster picked }) "n1" ended).nodes
      "n1"
    ≡ some (2 - working attempts, 128 - working attempts * 64)
reports-release_example =
    reports-release 121 attempts (record scheduler { nodes = cluster picked }) "n1" ended
      (row "e1" "PENDING") 2 128 known reserved

one_works : working attempts ≡ 1
unfolding working
one_works = refl

visited :
    (id : String)
    → Dict.has (cluster held).nodes id ≡ true
    → (contains id ("n1" ∷ []) ≡ true) × (contains id ("n1" ∷ []) ≡ true)
unfolding Dict.get Dict.lookup
visited id h = (ground (arith, h), ground (arith, h))

reconcile-Spared_example :
    Rows
      (Spared 200 (200 - 60) (cluster held) 201 (pos 1))
      rows
      (reconcile_lost_nodes 200 201
        (pos 1)
        ("n1" ∷ [])
        ("n1" ∷ [])
        ("b" ∷ [])
        delivered
        (λ i. (delivered, delivered))
        scheduler).0.db.experiments
reconcile-Spared_example =
    reconcile-Spared 200 201 (pos 1) ("n1" ∷ []) ("n1" ∷ []) ("b" ∷ []) delivered
      (λ i. (delivered, delivered)) scheduler visited
