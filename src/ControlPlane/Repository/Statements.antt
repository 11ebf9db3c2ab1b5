-- ===== src/ControlPlane/Repository/Statements.antt =====
-- controlplane/repository.go: the statements on the table `experiments`.
use go_cloud_des.Prelude.{
  ℕ, String, Bool, true, false, ◌&&◌, not, Option, none, some, List, [], ◌∷◌, ◌==◌, if◌then◌else◌,
  ltb, string_eq, nat_eq, ℤ, contains,
}
use go_cloud_des.ControlPlane.Repository.{
  status_pending, status_starting, status_running, status_failed, status_canceled, ArtifactRef,
  ExperimentStatus, ExperimentRow, Database, Delivery, after, error, nil_if_empty, nil_if_zero_i64,
  u64_to_i64, int64_to_u64, update_where, count, find, is_experiment, has_status,
}
use go_cloud_des.ControlPlane.Repository.Batches.{refresh_batch_status}

-- SET of UpdateExperimentResult.
unfoldable pub reported : ℕ → String → ExperimentStatus → ExperimentRow → ExperimentRow
unfolding nil_if_empty nil_if_zero_i64 u64_to_i64
reported now node_id result row = record row {
  status = result.status;
  dispatcher_node_id = nil_if_empty node_id;
  finish_reason = nil_if_empty result.finish_reason;
  exit_code = result.exit_code;
  error_message = nil_if_empty result.error_message;
  final_metrics = result.final_metrics;
  stat_count = u64_to_i64 result.stat_count;
  metrics_file_rows = u64_to_i64 result.metrics_file_rows;
  metrics_artifact_key = artifact (λ a. nil_if_empty a.key);
  metrics_artifact_sha256 = artifact (λ a. nil_if_empty a.sha256);
  metrics_artifact_size = artifact (λ a. some a.size);
  metrics_artifact_content_type = artifact (λ a. nil_if_empty a.content_type);
  started_at_unix_ms = nil_if_zero_i64 result.started_at_unix_ms;
  finished_at_unix_ms = nil_if_zero_i64 result.finished_at_unix_ms;
  duration_ms = nil_if_zero_i64 result.duration_ms;
  memory_limit_bytes = u64_to_i64 result.memory_limit_bytes;
  peak_memory_bytes = u64_to_i64 result.peak_memory_bytes;
  stderr_tail = nil_if_empty result.stderr_tail;
  updated_at = now;
}
  where
    artifact : {A : Type 0} → (ArtifactRef → Option A) → Option A
    artifact f = elim result.metrics_artifact [ none ↦ none | some a ↦ f a ]

-- The batch of the updated row, whether there is one, and the error.
unfoldable pub update_experiment_result :
    ℕ
    → Delivery
    → Delivery × Delivery
    → Database
    → String
    → Option ExperimentStatus
    → Database × String × Bool × Option String
unfolding error after update_where find is_experiment reported
update_experiment_result now exec refresh db node_id none =
    (db, "", false, some "empty experiment result")
update_experiment_result now exec refresh db node_id (some result) =
    let here = is_experiment result.model_hash result.experiment_id in
    let rows = update_where here (reported now node_id result) db.experiments in
    let db' = record db { experiments = after exec db.experiments rows } in
    elim (error exec) [
      | some e ↦ (db', "", false, some e)
      | none ↦ elim (find here db.experiments) [
        | none ↦ (db', "", false, none)
        | some row ↦
            let (db'', e) = refresh_batch_status now refresh db' row.batch_id in
            (db'', row.batch_id, true, e)
      ]
    ]

-- `tag.RowsAffected() == 1`, and false with an error.
unfoldable pub one_affected :
    Delivery → (ExperimentRow → Bool) → List ExperimentRow → Bool × Option String
unfolding error count
one_affected exec p rows = elim (error exec) [
  | some e ↦ (false, some e)
  | none ↦ (count p rows == 1, none)
]

unfoldable pub is_experiment_in : String → String → String → ExperimentRow → Bool
unfolding is_experiment has_status
is_experiment_in status model_hash experiment_id row =
    is_experiment model_hash experiment_id row && has_status status row

-- SET of TryMarkExperimentStarting.
abbrev pub set_starting : ℕ → String → ExperimentRow → ExperimentRow
set_starting now node_id row = record row {
  status = status_starting;
  dispatcher_node_id = nil_if_empty node_id;
  error_message = none;
  updated_at = now;
}

unfoldable pub try_mark_experiment_starting :
    ℕ → Delivery → Database → String → String → String → Database × (Bool × Option String)
unfolding after update_where is_experiment_in one_affected nil_if_empty
try_mark_experiment_starting now exec db model_hash experiment_id node_id =
    let here = is_experiment_in status_pending model_hash experiment_id in
    let rows = update_where here (set_starting now node_id) db.experiments in
    (
      record db { experiments = after exec db.experiments rows },
      one_affected exec here db.experiments,
    )

-- SET of MarkExperimentPending.
abbrev pub set_pending : ℕ → String → ExperimentRow → ExperimentRow
set_pending now message row = record row {
  status = status_pending;
  dispatcher_node_id = none;
  error_message = nil_if_empty message;
  updated_at = now;
}

unfoldable pub mark_experiment_pending :
    ℕ → Delivery → Database → String → String → String → Database × Option String
unfolding after error update_where is_experiment nil_if_empty
mark_experiment_pending now exec db model_hash experiment_id message =
    let rows =
      update_where (is_experiment model_hash experiment_id) (set_pending now message)
        db.experiments in
    (record db { experiments = after exec db.experiments rows }, error exec)

-- SET of MarkExperimentFailedToStart.
abbrev pub set_failed_to_start : ℕ → String → String → ExperimentRow → ExperimentRow
set_failed_to_start now node_id message row = record row {
  status = status_failed;
  dispatcher_node_id = nil_if_empty node_id;
  error_message = nil_if_empty message;
  updated_at = now;
}

unfoldable pub mark_experiment_failed_to_start :
    ℕ → Delivery → Database → String → String → String → String → Database × Option String
unfolding after error update_where is_experiment nil_if_empty
mark_experiment_failed_to_start now exec db model_hash experiment_id node_id message =
    let rows =
      update_where (is_experiment model_hash experiment_id)
        (set_failed_to_start now node_id message) db.experiments in
    (record db { experiments = after exec db.experiments rows }, error exec)

pub record CancelExperimentRecord : Type 0 where
  pub batch_id : String
  pub model_hash : String
  pub experiment_id : String
  pub status : String
  pub dispatcher_node_id : String
  pub memory_limit_bytes : ℕ

abbrev pub null_string : Option String → String
null_string none = ""
null_string (some s) = s

abbrev pub to_cancel : ExperimentRow → CancelExperimentRecord
to_cancel row = record {
  batch_id = row.batch_id;
  model_hash = row.model_hash;
  experiment_id = row.experiment_id;
  status = row.status;
  dispatcher_node_id = null_string row.dispatcher_node_id;
  memory_limit_bytes = int64_to_u64 row.memory_limit_bytes;
}

unfoldable pub get_experiment_for_cancel :
    Delivery → Database → String → String → Option CancelExperimentRecord × Bool × Option String
unfolding error find is_experiment int64_to_u64
get_experiment_for_cancel query db model_hash experiment_id = elim (error query) [
  | some e ↦ (none, false, some e)
  | none ↦ elim (find (is_experiment model_hash experiment_id) db.experiments) [
    | none ↦ (none, false, none)
    | some row ↦ (some (to_cancel row), true, none)
  ]
]

-- SET of MarkPendingExperimentCanceled.
abbrev pub set_canceled : ℕ → ℤ → ExperimentRow → ExperimentRow
set_canceled now now_ms row = record row {
  status = status_canceled;
  finish_reason = some "user_canceled";
  error_message = none;
  finished_at_unix_ms = some now_ms;
  updated_at = now;
}

-- `now_ms` is `time.Now().UnixMilli()`.
unfoldable pub mark_pending_experiment_canceled :
    ℕ → ℤ → Delivery → Database → String → String → Database × (Bool × Option String)
unfolding after update_where is_experiment_in one_affected
mark_pending_experiment_canceled now now_ms exec db model_hash experiment_id =
    let here = is_experiment_in status_pending model_hash experiment_id in
    let rows = update_where here (set_canceled now now_ms) db.experiments in
    (
      record db { experiments = after exec db.experiments rows },
      one_affected exec here db.experiments,
    )

pub record OrphanedExperiment : Type 0 where
  pub batch_id : String
  pub model_hash : String
  pub experiment_id : String
  pub dispatcher_node_id : String

-- The WHERE clause of MarkOrphanedExperimentsFailed.
unfoldable pub is_orphaned : ℕ → List String → ExperimentRow → Bool
is_orphaned cutoff active_node_ids row =
    contains row.status (status_starting ∷ status_running ∷ [])
    && ltb row.updated_at cutoff
    && (elim row.dispatcher_node_id [
      | none ↦ false
      | some node_id ↦ not (contains node_id active_node_ids)
    ])

abbrev pub orphan : ExperimentRow → OrphanedExperiment
orphan row = record {
  batch_id = row.batch_id;
  model_hash = row.model_hash;
  experiment_id = row.experiment_id;
  dispatcher_node_id = null_string row.dispatcher_node_id;
}

unfoldable pub orphans : (ExperimentRow → Bool) → List ExperimentRow → List OrphanedExperiment
orphans p [] = []
orphans p (row ∷ rows) = let rest = orphans p rows in if p row then orphan row ∷ rest else rest

-- SET of MarkOrphanedExperimentsFailed.
abbrev pub set_lost : ℕ → ℤ → ExperimentRow → ExperimentRow
set_lost now now_ms row = record row {
  status = status_failed;
  finish_reason = some "node_lost";
  error_message = some "dispatcher node lost contact";
  finished_at_unix_ms = some now_ms;
  updated_at = now;
}

-- An error while the rows are read comes after the update as well.
unfoldable pub mark_orphaned_experiments_failed :
    ℕ
    → ℕ
    → ℤ
    → Delivery
    → Database
    → List String
    → Database × List OrphanedExperiment × Option String
unfolding after error update_where is_orphaned orphans
mark_orphaned_experiments_failed now cutoff now_ms exec db active_node_ids =
    let lost = is_orphaned cutoff active_node_ids in
    let rows = update_where lost (set_lost now now_ms) db.experiments in
    let db' = record db { experiments = after exec db.experiments rows } in
    elim (error exec) [
      | some e ↦ (db', [], some e)
      | none ↦ (db', orphans lost db.experiments, none)
    ]
