-- ===== src/ControlPlane/Submission/Creating.antt =====
-- CreateExperimentBatch of controlplane/repository.go. The table of models is not in the database of the
-- model, nor are the columns that are only handed on.
use go_cloud_des.Prelude.{
  ℕ, String, Option, none, some, List, [], ◌∷◌, ◌++◌, ◌==◌, string_eq, pos, negsuc, map,
}
use go_cloud_des.Dict
use go_cloud_des.ControlPlane.Repository.{
  status_pending, status_submitted, ExperimentRow, BatchRow, Database, Delivery, after, error,
  u64_to_i64, is_experiment, find,
}
use go_cloud_des.ControlPlane.Submission.{NormalizedExperiment}

-- The rows that CreateExperimentBatch inserts; the other columns have their defaults.
unfoldable pub new_experiment : ℕ → String → String → ℕ → NormalizedExperiment → ExperimentRow
unfolding u64_to_i64
new_experiment now model_hash batch_id memory_limit_bytes e = record {
  model_hash = model_hash;
  experiment_id = e.experiment_id;
  batch_id = batch_id;
  status = status_pending;
  dispatcher_node_id = none;
  finish_reason = none;
  exit_code = negsuc 0;
  error_message = none;
  final_metrics = Dict.empty;
  stat_count = pos 0;
  metrics_file_rows = pos 0;
  metrics_artifact_key = none;
  metrics_artifact_sha256 = none;
  metrics_artifact_size = none;
  metrics_artifact_content_type = none;
  started_at_unix_ms = none;
  finished_at_unix_ms = none;
  duration_ms = none;
  memory_limit_bytes = u64_to_i64 memory_limit_bytes;
  peak_memory_bytes = pos 0;
  stderr_tail = none;
  updated_at = now;
}

unfoldable pub new_batch : ℕ → String → BatchRow
new_batch now batch_id = record {
  batch_id = batch_id;
  status = status_submitted;
  error_code = none;
  message = none;
  updated_at = now;
}

-- INSERT INTO experiments, one row after the other; `none` is a violation of the primary key.
unfoldable pub insert_experiments :
    List ExperimentRow → List ExperimentRow → Option (List ExperimentRow)
unfolding find is_experiment
insert_experiments rows [] = some rows
insert_experiments rows (row ∷ new) =
    let rest = insert_experiments (rows ++ row ∷ []) new in
    elim (find (is_experiment row.model_hash row.experiment_id) rows) [
      | some old ↦ none
      | none ↦ rest
    ]

unfoldable pub insert_batch : ℕ → String → List BatchRow → Option (List BatchRow)
unfolding find new_batch
insert_batch now batch_id batches = elim (find (λ b. b.batch_id == batch_id) batches) [
  | some old ↦ none
  | none ↦ some (batches ++ new_batch now batch_id ∷ [])
]

-- What becomes of the transaction: an error before its commit, the text of a violation of a primary
-- key, and its commit.
pub record Transaction : Type 0 where
  pub failure : Option String
  pub violation : String
  pub commit : Delivery

abbrev pub committed :
    Transaction
    → Database
    → Option (List BatchRow)
    → Option (List ExperimentRow)
    → Database × Option String
committed t db none rows = (db, some t.violation)
committed t db (some batches) none = (db, some t.violation)
committed t db (some batches) (some rows) =
    (after t.commit db (record db { experiments = rows; batches = batches }), error t.commit)

unfoldable pub create_experiment_batch :
    ℕ
    → Transaction
    → Database
    → String
    → String
    → ℕ
    → List NormalizedExperiment
    → Database × Option String
unfolding error after insert_experiments insert_batch new_experiment
create_experiment_batch now t db model_hash batch_id memory_limit_bytes experiments =
    elim t.failure [
      | some e ↦ (db, some e)
      | none ↦ committed t db (insert_batch now batch_id db.batches) (
          insert_experiments db.experiments
            (map (new_experiment now model_hash batch_id memory_limit_bytes) experiments))
    ]
