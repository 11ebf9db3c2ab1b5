-- ===== src/Dispatcher/Types.antt =====
-- dispatcher/types.go.
use go_cloud_des.Prelude.{
  ℕ, ◌≡◌, ◌↔◌, String, Bool, true, ◌&&◌, ◌||◌, Option, arith, Eq, ◌==◌, string_eq, eq_iff, ℤ,
}
use go_cloud_des.Dict.{Dict}

abbrev pub status_pending : String
status_pending = "PENDING"

abbrev pub status_starting : String
status_starting = "STARTING"

abbrev pub status_running : String
status_running = "RUNNING"

abbrev pub status_finished : String
status_finished = "FINISHED"

abbrev pub status_failed : String
status_failed = "FAILED"

abbrev pub status_canceled : String
status_canceled = "CANCELED"

pub record ArtifactRef : Type 0 where
  pub key : String
  pub sha256 : String
  pub size : ℤ
  pub content_type : String

pub record ExperimentResult : Type 0 where
  pub experiment_id : String
  pub model_hash : String
  pub status : String
  pub finish_reason : String
  pub exit_code : ℤ
  pub error_message : String
  pub final_metrics : Dict String String
  pub stat_count : ℕ
  pub metrics_file_rows : ℕ
  pub metrics_artifact : Option ArtifactRef
  pub started_at_unix_ms : ℤ
  pub finished_at_unix_ms : ℤ
  pub duration_ms : ℤ
  pub memory_limit_bytes : ℕ
  pub peak_memory_bytes : ℕ
  pub stderr_tail : String

pub record ExperimentKey : Type 0 where
  pub model_hash : String
  pub experiment_id : String

unfoldable pub experiment_key : String → String → ExperimentKey
experiment_key model_hash experiment_id = record {
  model_hash = model_hash;
  experiment_id = experiment_id;
}

abbrev pub key_beq : ExperimentKey → ExperimentKey → Bool
key_beq a b = a.model_hash == b.model_hash && a.experiment_id == b.experiment_id

pub key_beq_iff : (a b : ExperimentKey) → (key_beq a b ≡ true) ↔ (a ≡ b)
key_beq_iff a b =
    ground (arith, eq_iff a.model_hash b.model_hash, eq_iff a.experiment_id b.experiment_id)

-- Go compares struct keys field by field.
instance abbrev pub key_eq : Eq ExperimentKey
key_eq = record { beq = key_beq; beq_iff = key_beq_iff }

unfoldable pub is_active_status : String → Bool
is_active_status status =
    status == status_pending || status == status_starting || status == status_running
