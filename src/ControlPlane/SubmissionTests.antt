-- ===== src/ControlPlane/SubmissionTests.antt =====
-- controlplane/submit.go on a request with two experiments.
use go_cloud_des.Prelude.{
  ◌≡◌, refl, true, false, Option, none, some, List, [], ◌∷◌, map, inr, string_eq,
}
use go_cloud_des.Strings.{trim_space}
use go_cloud_des.ControlPlane.NodeRegistry.{new_node_registry}
use go_cloud_des.ControlPlane.PendingQueue.{new_pending_queue, ScheduleExperimentRecord}
use go_cloud_des.ControlPlane.Repository.{Database, delivered, find}
use go_cloud_des.ControlPlane.Scheduler.{Scheduler}
use go_cloud_des.ControlPlane.Submission.{
  ExperimentParams, SubmitRequest, NormalizedExperiment, empty_value, unsupported_op, experiment_id,
  check_set_vars, validate_stop_rule, normalize_submit_request,
}
use go_cloud_des.ControlPlane.Submission.Checks.{
  IsAcceptable, IsNumbered, Judged, normalize_submit_request-Judged,
}
use go_cloud_des.ControlPlane.Submission.Building.{Submitting, answer_of, submit_experiment_batch}
use go_cloud_des.ControlPlane.Submission.Creating.{
  create_experiment_batch, new_batch, new_experiment,
}
use go_cloud_des.ControlPlane.Submission.Truthful.{Truthful, submit_experiment_batch-Truthful}
use go_cloud_des.ControlPlane.Submission.Succeeding.{create_experiment_batch-succeeds}

abbrev request : Option SubmitRequest
request = some (record {
  batch_id = "b7";
  dsl = "ENTITY 1 {";
  common = some (record {
    stop_rule = some (record { left = "CLOCK"; op = ">="; right = "10" });
    metrics = [];
    metric_step = 0;
    store_metrics = false;
    memory_limit_bytes = 64;
    run_timeout_ms = 0;
  });
  experiments =
      some (record { set_vars = some (record { name = "rate"; value = "2" }) ∷ [] })
      ∷ some (record { set_vars = [] })
      ∷ [];
})

numbered : experiment_id "b7" 41 ≡ "b7-exp-000042"
unfolding experiment_id
numbered = refl

blank_value :
    check_set_vars "e" (some (record { name = "rate"; value = " " }) ∷ [])
    ≡ some (empty_value "e" "rate")
unfolding check_set_vars trim_space
blank_value = refl

bad_op :
    validate_stop_rule (some (record { left = "CLOCK"; op = "=>"; right = "1" }))
    ≡ some (unsupported_op "=>")
unfolding validate_stop_rule trim_space
bad_op = refl

no_binary :
    answer_of (record { ok = true; error_code = ""; message = ""; binary = some ("key", "") })
    ≡ ("FAILED", "empty_binary_artifact", "codegen returned no binary artifact")
unfolding answer_of
no_binary = refl

normalize_submit_request-Judged_example :
    Judged (IsAcceptable request) (IsNumbered "ff" request) (normalize_submit_request "ff" request)
normalize_submit_request-Judged_example = normalize_submit_request-Judged "ff" request

abbrev empty_database : Database
empty_database = record { experiments = []; batches = [] }

abbrev server : Scheduler
server = record {
  cfg = record {
    max_node_failures = 3;
    node_lost_grace_period = 60;
    scale_out_after = 5;
    scale_out_cooldown = 30;
  };
  db = empty_database;
  nodes = new_node_registry 9;
  queue = new_pending_queue;
  provisioner = false;
  last_scale_out = 0;
}

abbrev scheduled : ScheduleExperimentRecord
scheduled = record {
  batch_id = "b7";
  model_hash = "aa";
  experiment_id = "b7-exp-000001";
  goos = "linux";
  goarch = "";
  binary_key = "key";
  binary_sha256 = "sha";
  set_vars = [];
  stop_rule = none;
  metrics = [];
  metric_step = 0;
  store_metrics = false;
  memory_limit_bytes = 64;
  run_timeout_ms = 0;
  pending_since = 0;
}

-- The model is built, and the queue is given a record.
abbrev surroundings : Submitting
surroundings = record {
  now = 5;
  db_now = 5;
  random_hex = "ff";
  model_hash = "aa";
  create = record { failure = none; violation = "duplicate key"; commit = delivered };
  ready = inr false;
  update_ready = delivered;
  build = record {
    mark_building = none;
    update_building = delivered;
    build_model =
        inr (record { ok = true; error_code = ""; message = ""; binary = some ("key", "sha") });
    save_result = none;
    update = delivered;
  };
  listed = inr (some scheduled ∷ []);
}

submit_experiment_batch-Truthful_example :
    Truthful surroundings server (submit_experiment_batch surroundings server request)
submit_experiment_batch-Truthful_example =
    submit_experiment_batch-Truthful surroundings server request

abbrev requests : List (Option ExperimentParams)
requests = some (record { set_vars = [] }) ∷ some (record { set_vars = [] }) ∷ []

abbrev experiments : List NormalizedExperiment
experiments =
    record { experiment_id = experiment_id "b7" 0; set_vars = [] }
    ∷ record { experiment_id = experiment_id "b7" 1; set_vars = [] }
    ∷ []

create_experiment_batch-succeeds_example :
    create_experiment_batch 5
      (record { failure = none; violation = "duplicate key"; commit = delivered })
      empty_database
      "aa"
      "b7"
      64
      experiments
    ≡ (
      record empty_database {
        batches = new_batch 5 "b7" ∷ [];
        experiments = map (new_experiment 5 "aa" "b7" 64) experiments;
      },
      none,
    )
unfolding find
create_experiment_batch-succeeds_example =
    create_experiment_batch-succeeds 5 "aa" "b7" 64 "duplicate key" empty_database requests
      experiments (refl, refl, (refl, refl, tt)) refl (refl, (refl, tt))
