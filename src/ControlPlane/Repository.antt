-- ===== src/ControlPlane/Repository.antt =====
-- controlplane/repository.go: the statements that change the status of an experiment or of a batch.
-- A table is the list of its rows, without the columns that none of these statements reads or writes.
-- `now()` of the database is the argument `now`. What becomes of each statement, whose error text the
-- callers only pass on, is an argument as well.
pub mod Batches
pub mod Frames
pub mod BatchStatus
pub mod Statements
pub mod Transitions
use go_cloud_des.Prelude.{
  ℕ, ◌+◌, ◌≡◌, String, Bool, true, false, ◌&&◌, ◌||◌, not, Option, none, some, List, [], ◌∷◌, ◌==◌,
  if◌then◌else◌, ltb, leb, string_eq, nat_eq, ℤ, pos, negsuc, length, contains,
}
use go_cloud_des.Dict
use go_cloud_des.Dict.{Dict}

-- controlplane/types.go.
abbrev pub status_pending : String
status_pending = "PENDING"

abbrev pub status_starting : String
status_starting = "STARTING"

abbrev pub status_submitted : String
status_submitted = "SUBMITTED"

abbrev pub status_running : String
status_running = "RUNNING"

abbrev pub status_finished : String
status_finished = "FINISHED"

abbrev pub status_failed : String
status_failed = "FAILED"

abbrev pub status_canceled : String
status_canceled = "CANCELED"

-- The messages of api/dispatcher/v1.
pub record ArtifactRef : Type 0 where
  pub key : String
  pub sha256 : String
  pub size : ℤ
  pub content_type : String

pub record ExperimentStatus : Type 0 where
  pub model_hash : String
  pub experiment_id : String
  pub status : String
  pub finish_reason : String
  pub exit_code : ℤ
  pub error_message : String
  pub final_metrics : Dict String String
  pub stat_count : ℕ
  pub metrics_file_rows : ℕ
  pub metrics_artifact : Option ArtifactRef
  pub started_at_unix_ms : ℤ
  pub finished_at_unix_ms : ℤ
  pub duration_ms : ℤ
  pub memory_limit_bytes : ℕ
  pub peak_memory_bytes : ℕ
  pub stderr_tail : String

-- The table `experiments`; NULL is `none`.
pub record ExperimentRow : Type 0 where
  pub model_hash : String
  pub experiment_id : String
  pub batch_id : String
  pub status : String
  pub dispatcher_node_id : Option String
  pub finish_reason : Option String
  pub exit_code : ℤ
  pub error_message : Option String
  pub final_metrics : Dict String String
  pub stat_count : ℤ
  pub metrics_file_rows : ℤ
  pub metrics_artifact_key : Option String
  pub metrics_artifact_sha256 : Option String
  pub metrics_artifact_size : Option ℤ
  pub metrics_artifact_content_type : Option String
  pub started_at_unix_ms : Option ℤ
  pub finished_at_unix_ms : Option ℤ
  pub duration_ms : Option ℤ
  pub memory_limit_bytes : ℤ
  pub peak_memory_bytes : ℤ
  pub stderr_tail : Option String
  pub updated_at : ℕ

-- The table `experiment_batches`.
pub record BatchRow : Type 0 where
  pub batch_id : String
  pub status : String
  pub error_code : Option String
  pub message : Option String
  pub updated_at : ℕ

pub record Database : Type 0 where
  pub experiments : List ExperimentRow
  pub batches : List BatchRow

-- What becomes of a statement: it is done, or an error is returned, before or after it was done.
pub data Delivery : Type 0 where
  delivered : Delivery
  unsent unheard : String → Delivery

unfoldable pub after {ℓ} : {A : Type ℓ} → Delivery → A → A → A
after delivered old new = new
after (unsent e) old new = old
after (unheard e) old new = new

unfoldable pub error : Delivery → Option String
error delivered = none
error (unsent e) = some e
error (unheard e) = some e

unfoldable pub nil_if_empty : String → Option String
nil_if_empty value = if value == "" then none else some value

unfoldable pub nil_if_zero_i64 : ℤ → Option ℤ
nil_if_zero_i64 (pos n) = if n == 0 then none else some (pos n)
nil_if_zero_i64 (negsuc n) = some (negsuc n)

unfoldable pub u64_to_i64 : ℕ → ℤ
u64_to_i64 value = if ltb 9223372036854775807 value then pos 9223372036854775807 else pos value

unfoldable pub int64_to_u64 : ℤ → ℕ
int64_to_u64 (pos n) = n
int64_to_u64 (negsuc n) = 0

-- UPDATE … SET f WHERE p, and the number of rows that a test holds for.
module _ {ℓ} {A : Type ℓ} where
  unfoldable pub update_where : (A → Bool) → (A → A) → List A → List A
  update_where p f [] = []
  update_where p f (r ∷ rs) = (if p r then f r else r) ∷ update_where p f rs

  unfoldable pub count : (A → Bool) → List A → ℕ
  count p [] = 0
  count p (r ∷ rs) = let rest = count p rs in if p r then rest + 1 else rest

  unfoldable pub find : (A → Bool) → List A → Option A
  find p [] = none
  find p (r ∷ rs) = if p r then some r else find p rs

-- WHERE model_hash = $1 AND experiment_id = $2, for hashes of the 64 characters of the column.
unfoldable pub is_experiment : String → String → ExperimentRow → Bool
is_experiment model_hash experiment_id row =
    row.model_hash == model_hash && row.experiment_id == experiment_id

unfoldable pub in_batch : String → (ExperimentRow → Bool) → ExperimentRow → Bool
in_batch batch_id p row = row.batch_id == batch_id && p row

unfoldable pub has_status : String → ExperimentRow → Bool
has_status status row = row.status == status
