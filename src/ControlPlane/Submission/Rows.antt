-- ===== src/ControlPlane/Submission/Rows.antt =====
-- The rows that CreateExperimentBatch and UpdateBatchStatus of controlplane/repository.go leave.
use go_cloud_des.Prelude.{
  ℕ, ◌≡◌, refl, String, Bool, true, false, Option, none, some, List, [], ◌∷◌, ◌++◌, ◌==◌, string_eq,
  Bool-cases, inl, inr, ◌⊎◌,
}
use go_cloud_des.ControlPlane.Repository.{
  status_failed, ExperimentRow, BatchRow, Database, Delivery, delivered, unsent, unheard, after,
  error, nil_if_empty, find, update_where,
}
use go_cloud_des.ControlPlane.Repository.Batches.{update_batch_status}
use go_cloud_des.ControlPlane.Submission.Building.{
  BatchAnswer, CodegenResult, Build, Submitting, answered_with, answer_of, finish_build,
  build_model_artifact, prepare, status_building, status_ready,
}

module _ {ℓ} {A : Type ℓ} (p : A → Bool) where
  pub find-append : (xs ys : List A) (x : A) → find p xs ≡ some x → find p (xs ++ ys) ≡ some x
  unfolding find
  find-append [] ys x h = cc
  find-append (y ∷ xs) ys x h = elim (Bool-cases (p y)) [
    | inl e ↦ rw e (rw e at h)
    | inr e ↦ rw e (find-append xs ys x (rw e at h))
  ]

  pub find-last :
      (xs : List A) (x : A) → find p xs ≡ none → p x ≡ true → find p (xs ++ x ∷ []) ≡ some x
  unfolding find
  find-last [] x h px = rw px refl
  find-last (y ∷ xs) x h px = elim (Bool-cases (p y)) [
    | inl e ↦ absurd (cc (rw e at h))
    | inr e ↦ rw e (find-last xs x (rw e at h) px)
  ]

  find-update :
      (f : A → A) (xs : List A) (x : A)
      → ((y : A) → p y ≡ true → p (f y) ≡ true)
      → find p xs ≡ some x
      → find p (update_where p f xs) ≡ some (f x)
  unfolding find update_where
  find-update f [] x keeps h = cc
  find-update f (y ∷ xs) x keeps h = elim (Bool-cases (p y)) [
    | inl e ↦ let same = rw e at h in rw (e, keeps y e) (cc)
    | inr e ↦ rw (e, e) (find-update f xs x keeps (rw e at h))
  ]

-- The batch has a row with this answer.
abbrev pub Stands : String → List BatchRow → BatchAnswer → Type 0
Stands batch_id batches (status, code, message) =
    (row : BatchRow) × (find (λ b. b.batch_id == batch_id) batches ≡ some row)
    × (row.status ≡ status)
    × (row.error_code ≡ nil_if_empty code)
    × (row.message ≡ nil_if_empty message)

abbrev pub HasRow : String → List BatchRow → Type 0
HasRow batch_id batches = (row : BatchRow) × (find (λ b. b.batch_id == batch_id) batches ≡ some row)

-- An answer that stands in the row of the batch, the experiments being as they were, or an error.
pub data Settled (batch_id : String) (rows : List ExperimentRow)
    : Database × (String ⊎ BatchAnswer) → Type 0 where
  settled :
      {db : Database} {a : BatchAnswer}
      → Stands batch_id db.batches a
      → db.experiments ≡ rows
      → Settled batch_id rows (db, inr a)
  broken : {db : Database} {e : String} → Settled batch_id rows (db, inl e)

update-Stands :
    (now : ℕ) (db : Database) (batch_id status code message : String)
    → HasRow batch_id db.batches
    → Stands batch_id
        (update_batch_status now delivered db batch_id status code message).0.batches
        (status, code, message)
unfolding update_batch_status after error
update-Stands now db batch_id status code message (row, found) = (
  record row {
    status = status;
    error_code = nil_if_empty code;
    message = nil_if_empty message;
    updated_at = now;
  },
  find-update (λ b. b.batch_id == batch_id) _ db.batches row (λ y h. h) found,
  refl,
  refl,
  refl,
)

pub answered_with-Settled :
    (now : ℕ) (update : Delivery) (db : Database) (batch_id : String) (a : BatchAnswer)
    → HasRow batch_id db.batches
    → Settled batch_id db.experiments (answered_with now update db batch_id a)
unfolding answered_with update_batch_status error after
answered_with-Settled now delivered db batch_id (status, code, message) row =
    settled (update-Stands now db batch_id status code message row) refl
answered_with-Settled now (unsent e) db batch_id (status, code, message) row = broken
answered_with-Settled now (unheard e) db batch_id (status, code, message) row = broken

finish_build-Settled :
    (now : ℕ) (b : Build) (db : Database) (batch_id : String)
    → HasRow batch_id db.batches
    → Settled batch_id db.experiments (finish_build now b batch_id (db, none))
unfolding finish_build
finish_build-Settled now b db batch_id row = go b.build_model b.save_result
  where
    go :
        (built : String ⊎ CodegenResult) (saved : Option String)
        → Settled batch_id db.experiments (elim built [
          | inl e ↦
              answered_with now b.update db batch_id (status_failed, "codegen_request_error", e)
          | inr result ↦ elim saved [
            | some e ↦ (db, inl e)
            | none ↦ answered_with now b.update db batch_id (answer_of result)
          ]
        ])
    go (inl e) saved =
        answered_with-Settled now b.update db batch_id (status_failed, "codegen_request_error", e)
          row
    go (inr result) (some e) = broken
    go (inr result) none = answered_with-Settled now b.update db batch_id (answer_of result) row

build_model_artifact-Settled :
    (now : ℕ) (b : Build) (db : Database) (batch_id : String)
    → HasRow batch_id db.batches
    → Settled batch_id db.experiments (build_model_artifact now b db batch_id)
unfolding build_model_artifact finish_build update_batch_status error after
build_model_artifact-Settled now b db batch_id row = go b.mark_building b.update_building
  where
    go :
        (mark : Option String) (update : Delivery)
        → Settled batch_id db.experiments (elim mark [
          | some e ↦ (db, inl e)
          | none ↦
              finish_build now b batch_id
                (update_batch_status now update db batch_id status_building "" "")
        ])
    go (some e) update = broken
    go none (unsent e) = broken
    go none (unheard e) = broken
    go none delivered =
        let (row', found, _, _, _) = update-Stands now db batch_id status_building "" "" row in
        finish_build-Settled now b
          (update_batch_status now delivered db batch_id status_building "" "").0 batch_id
          (row', found)

pub prepare-Settled :
    (t : Submitting) (db : Database) (batch_id : String)
    → HasRow batch_id db.batches
    → Settled batch_id db.experiments (prepare t db batch_id)
unfolding prepare
prepare-Settled t db batch_id row = go t.ready
  where
    go :
        (ready : String ⊎ Bool)
        → Settled batch_id db.experiments (elim ready [
          | inl e ↦ (db, inl e)
          | inr true ↦ answered_with t.db_now t.update_ready db batch_id (status_ready, "", "")
          | inr false ↦ build_model_artifact t.db_now t.build db batch_id
        ])
    go (inl e) = broken
    go (inr true) =
        answered_with-Settled t.db_now t.update_ready db batch_id (status_ready, "", "") row
    go (inr false) = build_model_artifact-Settled t.db_now t.build db batch_id row
