-- ===== src/ControlPlane/Repository/Batches.antt =====
-- controlplane/repository.go: RefreshBatchStatus and UpdateBatchStatus.
use go_cloud_des.Prelude.{
  ℕ, ◌+◌, String, Bool, true, ◌&&◌, ◌||◌, Option, none, some, List, ◌==◌, if◌then◌else◌, ltb,
  string_eq, nat_eq,
}
use go_cloud_des.ControlPlane.Repository.{
  status_pending, status_starting, status_submitted, status_running, status_finished, status_failed,
  status_canceled, ExperimentRow, BatchRow, Database, Delivery, after, error, nil_if_empty,
  update_where, count, in_batch, has_status,
}

-- The status of a batch with these counts of experiments.
unfoldable pub batch_status : ℕ → ℕ → ℕ → ℕ → ℕ → ℕ → String
batch_status total pending running finished failed canceled =
    if total == 0
    then status_submitted
    else if ltb 0 failed && finished + failed + canceled == total
    then status_failed
    else if ltb 0 canceled && finished + canceled == total
    then status_canceled
    else if finished == total
    then status_finished
    else if ltb 0 pending || ltb 0 running
    then status_running
    else status_running

-- What RefreshBatchStatus computes from the rows.
unfoldable pub status_of_batch : List ExperimentRow → String → String
unfolding count in_batch has_status batch_status
status_of_batch rows batch_id =
    let counted : (ExperimentRow → Bool) → ℕ = λ p. count (in_batch batch_id p) rows in
    batch_status (counted (λ row. true))
      (counted (λ row. has_status status_pending row || has_status status_starting row))
      (counted (has_status status_running)) (counted (has_status status_finished))
      (counted (has_status status_failed)) (counted (has_status status_canceled))

unfoldable pub set_batch_status : ℕ → String → String → List BatchRow → List BatchRow
unfolding update_where
set_batch_status now batch_id status =
    update_where (λ b. b.batch_id == batch_id) (λ b. record b { status = status; updated_at = now })

-- The deliveries are those of the query and of the update.
unfoldable pub refresh_batch_status :
    ℕ → Delivery × Delivery → Database → String → Database × Option String
unfolding error after status_of_batch set_batch_status
refresh_batch_status now (query, exec) db batch_id = elim (error query) [
  | some e ↦ (db, some e)
  | none ↦
      let status = status_of_batch db.experiments batch_id in
      let batches = set_batch_status now batch_id status db.batches in
      (record db { batches = after exec db.batches batches }, error exec)
]

unfoldable pub update_batch_status :
    ℕ → Delivery → Database → String → String → String → String → Database × Option String
unfolding error after update_where nil_if_empty
update_batch_status now exec db batch_id status error_code message =
    let batches =
      update_where (λ b. b.batch_id == batch_id)
        (λ b. record b {
          status = status;
          error_code = nil_if_empty error_code;
          message = nil_if_empty message;
          updated_at = now;
        })
        db.batches in
    (record db { batches = after exec db.batches batches }, error exec)
