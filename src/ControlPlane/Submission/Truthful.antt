-- ===== src/ControlPlane/Submission/Truthful.antt =====
-- The answers of SubmitExperimentBatch of controlplane/submit.go against the database.
use go_cloud_des.Prelude.{
  ◌≡◌, refl, sym, String, Bool, true, false, not, Option, none, some, List, ◌==◌, if◌then◌else◌,
  string_eq, eq_iff, inl, inr, ◌⊎◌, All, map, subst,
}
use go_cloud_des.ControlPlane.PendingQueue.{PendingQueue, ScheduleExperimentRecord, enqueue_many}
use go_cloud_des.ControlPlane.Repository.{status_failed, Database, ExperimentRow}
use go_cloud_des.ControlPlane.Scheduler.{Scheduler}
use go_cloud_des.ControlPlane.Submission.{
  SubmitRequest, NormalizedExperiment, Refusal, Normalized, normalized, refused,
  normalize_submit_request,
}
use go_cloud_des.ControlPlane.Submission.Building.{
  BatchAnswer, Submitting, SubmitResponse, bad_request, internal, submitted, prepare,
  answer_submission, submit_created, submit_experiment_batch, memory_of, batch_id_in, status_ready,
}
use go_cloud_des.ControlPlane.Submission.Creating.{create_experiment_batch}
use go_cloud_des.ControlPlane.Submission.Rows.{Stands, Settled, settled, broken, prepare-Settled}
use go_cloud_des.ControlPlane.Submission.Created.{
  IsWaiting, ids, Created, created, not_created, create_experiment_batch-Created,
}

-- The queue has taken up what was listed, if the batch is ready, and is else as it was.
abbrev pub Queued : Submitting → String → PendingQueue → PendingQueue → Type 0
Queued t status before after =
    (status ≡ status_ready)
      × ((records : List (Option ScheduleExperimentRecord)) × (t.listed ≡ inr records)
          × (after ≡ (enqueue_many t.now before records).0))
    ⊎ ((status == status_ready) ≡ false) × (after ≡ before)

-- An answer and what stands in the database and in the queue.
pub data Truthful (t : Submitting) (s : Scheduler) : Scheduler × SubmitResponse → Type 0 where
  untouched : {batch_id : String} {why : Refusal} → Truthful t s (s, bad_request batch_id why)
  failed : {s' : Scheduler} {e : String} → s'.queue ≡ s.queue → Truthful t s (s', internal e)
  truthful :
      {s' : Scheduler} {batch_id status code message : String} {experiment_ids : List String}
      → Stands batch_id s'.db.batches (status, code, message)
      → All (IsWaiting t.model_hash batch_id s'.db.experiments) experiment_ids
      → Queued t status s.queue s'.queue
      → Truthful t s (
        s',
        submitted
            (not (status == status_failed))
            batch_id
            t.model_hash
            (status, code, message)
            experiment_ids,
      )

module _ (t : Submitting) (s : Scheduler) (batch_id : String) (es : List NormalizedExperiment) where
  answer_submission-Truthful :
      (rows : List ExperimentRow) (r : Database × (String ⊎ BatchAnswer))
      → All (IsWaiting t.model_hash batch_id rows) (ids es)
      → Settled batch_id rows r
      → Truthful t s (answer_submission t s batch_id es r)
  unfolding answer_submission
  answer_submission-Truthful rows (db, inl e) waiting broken = failed refl
  answer_submission-Truthful rows (db, inr (status, code, message)) waiting (settled stands same) =
      go (status == status_ready) refl t.listed refl
    where
      still : All (IsWaiting t.model_hash batch_id db.experiments) (ids es)
      still = subst (λ rs. All (IsWaiting t.model_hash batch_id rs) (ids es)) (sym same) waiting

      go :
          (b : Bool)
          → (status == status_ready) ≡ b
          → (listed : String ⊎ List (Option ScheduleExperimentRecord)) → t.listed ≡ listed
          → Truthful t s (
              if b
              then elim listed [
                | inl e ↦ (record s { db = db }, internal e)
                | inr records ↦ (
                  record s { db = db; queue = (enqueue_many t.now s.queue records).0 },
                  submitted
                      (not (status == status_failed))
                      batch_id
                      t.model_hash
                      (status, code, message)
                      (map (λ e. e.experiment_id) es),
                )
              ]
              else (
                record s { db = db },
                submitted
                    (not (status == status_failed))
                    batch_id
                    t.model_hash
                    (status, code, message)
                    (map (λ e. e.experiment_id) es),
              ))
      go true h (inl e) l = failed refl
      go true h (inr records) l =
          truthful stands still (inl ((eq_iff status status_ready).0 h, (records, l, refl)))
      go false h listed l = truthful stands still (inr (h, refl))

  submit_created-Truthful :
      (r : Database × Option String)
      → Created t.model_hash batch_id es r
      → Truthful t s (submit_created t s batch_id es r)
  unfolding submit_created
  submit_created-Truthful (db, some e) not_created = failed refl
  submit_created-Truthful (db, none) (created row waiting) =
      answer_submission-Truthful db.experiments (prepare t db batch_id) waiting
        (prepare-Settled t db batch_id row)

-- SubmitExperimentBatch answers that a batch is submitted only if the row of the batch has the status, the
-- error code and the message of the answer, and the row of every experiment of the answer is PENDING in
-- the batch; the answer is accepted unless that status is FAILED, and if it is READY the queue has taken up
-- the records that ListSchedulableExperiments returned, which are an argument of the model. A bad request
-- changes nothing, and an internal error leaves the queue as it was.
pub submit_experiment_batch-Truthful :
    (t : Submitting) (s : Scheduler) (req : Option SubmitRequest)
    → Truthful t s (submit_experiment_batch t s req)
unfolding submit_experiment_batch
submit_experiment_batch-Truthful t s req = go (normalize_submit_request t.random_hex req)
  where
    go :
        (n : Normalized (String × List NormalizedExperiment))
        → Truthful t s (elim n [
          | refused why ↦ (s, bad_request (batch_id_in req) why)
          | normalized (batch_id, experiments) ↦ submit_created t s batch_id experiments (
              create_experiment_batch t.db_now t.create s.db t.model_hash batch_id
                (memory_of req)
                experiments)
        ])
    go (refused why) = untouched
    go (normalized (batch_id, es)) = submit_created-Truthful t s batch_id es _ (
        create_experiment_batch-Created t.db_now t.model_hash batch_id (memory_of req) t.create s.db
          es)
