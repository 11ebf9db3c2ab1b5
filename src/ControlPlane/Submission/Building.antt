-- ===== src/ControlPlane/Submission/Building.antt =====
-- SubmitExperimentBatch and buildModelArtifact of controlplane/submit.go. The table of the artifacts is
-- not in the database of the model; what a call on it returns is an argument. The platform of the server
-- is left out of the answers.
use go_cloud_des.Prelude.{
  ℕ, String, Bool, true, false, ◌&&◌, not, Option, none, some, List, ◌==◌, if◌then◌else◌, string_eq,
  map, inl, inr, ◌⊎◌,
}
use go_cloud_des.ControlPlane.PendingQueue.{ScheduleExperimentRecord, enqueue_many}
use go_cloud_des.ControlPlane.Repository.{status_failed, Database, Delivery}
use go_cloud_des.ControlPlane.Repository.Batches.{update_batch_status}
use go_cloud_des.ControlPlane.Scheduler.{Scheduler}
use go_cloud_des.ControlPlane.Submission.{
  SubmitRequest, NormalizedExperiment, Refusal, normalized, refused, normalize_submit_request,
}
use go_cloud_des.ControlPlane.Submission.Creating.{Transaction, create_experiment_batch}

abbrev pub status_building : String
status_building = "BUILDING"

abbrev pub status_ready : String
status_ready = "READY"

-- The result of a code generation task, as far as it is read; `binary` is the key and the SHA-256.
pub record CodegenResult : Type 0 where
  pub ok : Bool
  pub error_code : String
  pub message : String
  pub binary : Option (String × String)

-- What becomes of the calls of buildModelArtifact, of which only one of the last updates is made.
pub record Build : Type 0 where
  pub mark_building : Option String
  pub update_building : Delivery
  pub build_model : String ⊎ CodegenResult
  pub save_result : Option String
  pub update : Delivery

-- The status, the error code and the message.
abbrev pub BatchAnswer : Type 0
BatchAnswer = String × String × String

abbrev pub or_else : String → String → String
or_else text default = if text == "" then default else text

abbrev pub has_binary : Option (String × String) → Bool
has_binary none = false
has_binary (some (key, sha256)) = not (key == "") && not (sha256 == "")

-- The answer that a result calls for.
unfoldable pub answer_of : CodegenResult → BatchAnswer
answer_of result =
    if not result.ok
    then (
      status_failed,
      or_else result.error_code "codegen_error",
      or_else result.message "codegen task failed",
    )
    else if not (has_binary result.binary)
    then (status_failed, "empty_binary_artifact", "codegen returned no binary artifact")
    else (status_ready, "", "")

-- UpdateBatchStatus with the answer, which is then returned, or the error.
unfoldable pub answered_with :
    ℕ → Delivery → Database → String → BatchAnswer → Database × (String ⊎ BatchAnswer)
unfolding update_batch_status
answered_with now update db batch_id (status, code, message) =
    let (db', err) = update_batch_status now update db batch_id status code message in
    (db', elim err [ some e ↦ inl e | none ↦ inr (status, code, message) ])

-- From the status BUILDING on.
unfoldable pub finish_build :
    ℕ → Build → String → Database × Option String → Database × (String ⊎ BatchAnswer)
unfolding answered_with answer_of
finish_build now b batch_id (db, some e) = (db, inl e)
finish_build now b batch_id (db, none) = elim b.build_model [
  | inl e ↦ answered_with now b.update db batch_id (status_failed, "codegen_request_error", e)
  | inr result ↦ elim b.save_result [
    | some e ↦ (db, inl e)
    | none ↦ answered_with now b.update db batch_id (answer_of result)
  ]
]

unfoldable pub build_model_artifact :
    ℕ → Build → Database → String → Database × (String ⊎ BatchAnswer)
unfolding finish_build update_batch_status
build_model_artifact now b db batch_id = elim b.mark_building [
  | some e ↦ (db, inl e)
  | none ↦
      finish_build now b batch_id
        (update_batch_status now b.update_building db batch_id status_building "" "")
]

-- What the surroundings decide in one submission: the random name, the hash of the text, whether
-- GetReadyModelArtifact finds a binary, and which records ListSchedulableExperimentsByBatch finds.
pub record Submitting : Type 0 where
  pub now : ℕ
  pub db_now : ℕ
  pub random_hex : String
  pub model_hash : String
  pub create : Transaction
  pub ready : String ⊎ Bool
  pub update_ready : Delivery
  pub build : Build
  pub listed : String ⊎ List (Option ScheduleExperimentRecord)

pub data SubmitResponse : Type 0 where
  bad_request : (batch_id : String) → Refusal → SubmitResponse
  internal : String → SubmitResponse
  submitted :
      (accepted : Bool) (batch_id model_hash : String) (answer : BatchAnswer)
      (experiment_ids : List String)
      → SubmitResponse

-- The answer for the batch: of an artifact that is reused, or of its build.
unfoldable pub prepare : Submitting → Database → String → Database × (String ⊎ BatchAnswer)
unfolding answered_with build_model_artifact
prepare t db batch_id = elim t.ready [
  | inl e ↦ (db, inl e)
  | inr true ↦ answered_with t.db_now t.update_ready db batch_id (status_ready, "", "")
  | inr false ↦ build_model_artifact t.db_now t.build db batch_id
]

-- From the answer for the batch on.
unfoldable pub answer_submission :
    Submitting
    → Scheduler
    → String
    → List NormalizedExperiment
    → Database × (String ⊎ BatchAnswer)
    → Scheduler × SubmitResponse
unfolding enqueue_many
answer_submission t s batch_id experiments (db, inl e) = (record s { db = db }, internal e)
answer_submission t s batch_id experiments (db, inr (status, code, message)) =
    let reply =
      submitted (not (status == status_failed)) batch_id t.model_hash (status, code, message)
        (map (λ e. e.experiment_id) experiments) in
    if status == status_ready
    then elim t.listed [
      | inl e ↦ (record s { db = db }, internal e)
      | inr records ↦ (record s { db = db; queue = (enqueue_many t.now s.queue records).0 }, reply)
    ]
    else (record s { db = db }, reply)

-- From the answer of CreateExperimentBatch on.
unfoldable pub submit_created :
    Submitting
    → Scheduler
    → String
    → List NormalizedExperiment
    → Database × Option String
    → Scheduler × SubmitResponse
unfolding prepare answer_submission
submit_created t s batch_id experiments (db, some e) = (record s { db = db }, internal e)
submit_created t s batch_id experiments (db, none) =
    answer_submission t s batch_id experiments (prepare t db batch_id)

abbrev pub memory_of : Option SubmitRequest → ℕ
memory_of none = 0
memory_of (some req) = elim req.common [ none ↦ 0 | some common ↦ common.memory_limit_bytes ]

abbrev pub batch_id_in : Option SubmitRequest → String
batch_id_in none = ""
batch_id_in (some req) = req.batch_id

unfoldable pub submit_experiment_batch :
    Submitting → Scheduler → Option SubmitRequest → Scheduler × SubmitResponse
unfolding normalize_submit_request create_experiment_batch submit_created
submit_experiment_batch t s req = elim (normalize_submit_request t.random_hex req) [
  | refused why ↦ (s, bad_request (batch_id_in req) why)
  | normalized (batch_id, experiments) ↦ submit_created t s batch_id experiments (
      create_experiment_batch t.db_now t.create s.db t.model_hash batch_id (memory_of req)
        experiments)
]
