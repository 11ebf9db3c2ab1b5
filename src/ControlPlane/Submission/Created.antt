-- ===== src/ControlPlane/Submission/Created.antt =====
-- What CreateExperimentBatch of controlplane/repository.go leaves.
use go_cloud_des.Prelude.{
  ℕ, ◌≡◌, refl, String, Bool, Option, none, some, List, [], ◌∷◌, ◌++◌, ◌==◌, string_eq, All, map,
  beq_refl, subst, ap,
}
use go_cloud_des.ControlPlane.Repository.{
  status_pending, ExperimentRow, BatchRow, Database, Delivery, delivered, unsent, unheard, after,
  error, find, is_experiment,
}
use go_cloud_des.ControlPlane.Submission.{NormalizedExperiment}
use go_cloud_des.ControlPlane.Submission.Rows.{HasRow, find-append, find-last}
use go_cloud_des.ControlPlane.Submission.Creating.{
  Transaction, committed, create_experiment_batch, new_experiment, new_batch, insert_experiments,
  insert_batch,
}

-- The experiment waits in the batch.
abbrev pub IsWaiting : String → String → List ExperimentRow → String → Type 0
IsWaiting model_hash batch_id rows experiment_id =
    (row : ExperimentRow) × (find (is_experiment model_hash experiment_id) rows ≡ some row)
    × (row.status ≡ status_pending)
    × (row.batch_id ≡ batch_id)

abbrev pub ids : List NormalizedExperiment → List String
ids = map (λ e. e.experiment_id)

-- Either the batch has a row and all its experiments wait, or there is an error.
pub data Created (model_hash batch_id : String) (experiments : List NormalizedExperiment)
    : Database × Option String → Type 0 where
  created :
      {db : Database}
      → HasRow batch_id db.batches
      → All (IsWaiting model_hash batch_id db.experiments) (ids experiments)
      → Created model_hash batch_id experiments (db, none)
  not_created : {db : Database} {e : String} → Created model_hash batch_id experiments (db, some e)

module _ (now : ℕ) (model_hash batch_id : String) (memory : ℕ) where
  -- Rows that are found stay, and the new ones wait.
  data Inserted (rows : List ExperimentRow) (es : List NormalizedExperiment)
      : Option (List ExperimentRow) → Type 0 where
    inserted :
        {rows' : List ExperimentRow}
        → ((p : ExperimentRow → Bool) (row : ExperimentRow)
            → find p rows ≡ some row
            → find p rows' ≡ some row)
        → All (IsWaiting model_hash batch_id rows') (ids es)
        → Inserted rows es (some rows')
    violated : Inserted rows es none

  insert_experiments-Inserted :
      (rows : List ExperimentRow) (es : List NormalizedExperiment)
      → Inserted rows es
          (insert_experiments rows (map (new_experiment now model_hash batch_id memory) es))
  unfolding insert_experiments new_experiment is_experiment
  insert_experiments-Inserted rows [] = inserted (λ p row h. h) tt
  insert_experiments-Inserted rows (e ∷ es) =
      go (find (is_experiment model_hash e.experiment_id) rows) refl (
        insert_experiments-Inserted (rows ++ new_experiment now model_hash batch_id memory e ∷ [])
          es)
    where
      row : ExperimentRow
      row = new_experiment now model_hash batch_id memory e

      go :
          (old : Option ExperimentRow) {o : Option (List ExperimentRow)}
          → find (is_experiment model_hash e.experiment_id) rows ≡ old
          → Inserted (rows ++ row ∷ []) es o
          → Inserted rows (e ∷ es) (elim old [ some r ↦ none | none ↦ o ])
      go (some old) h i = violated
      go none h violated = violated
      go none h (inserted keep waiting) =
          inserted (λ p r found. keep p r (find-append p rows (row ∷ []) r found))
            (
              (
                row,
                keep (is_experiment model_hash e.experiment_id) row (
                    find-last (is_experiment model_hash e.experiment_id) rows row h
                      (rw (beq_refl model_hash, beq_refl e.experiment_id) refl)),
                refl,
                refl,
              ),
              waiting,
            )

  insert_batch-HasRow :
      (batches : List BatchRow) (o : Option BatchRow)
      → find (λ b. b.batch_id == batch_id) batches ≡ o
      → (b' : List BatchRow) → insert_batch now batch_id batches ≡ some b'
      → HasRow batch_id b'
  unfolding insert_batch new_batch
  insert_batch-HasRow batches (some old) h b' e = absurd (cc (rw (insert_batch, h) at e))
  insert_batch-HasRow batches none h b' e =
      let same = rw (insert_batch, h) at e in
      subst (HasRow batch_id) (ap (get_or []) same)
        (new_batch now batch_id, find-last _ batches (new_batch now batch_id) h (beq_refl batch_id))
    where
      get_or : List BatchRow → Option (List BatchRow) → List BatchRow
      get_or d none = d
      get_or d (some x) = x

  -- CreateExperimentBatch that returns no error has made the batch, with all its experiments PENDING.
  pub create_experiment_batch-Created :
      (t : Transaction) (db : Database) (es : List NormalizedExperiment)
      → Created model_hash batch_id es
          (create_experiment_batch now t db model_hash batch_id memory es)
  unfolding create_experiment_batch error after
  create_experiment_batch-Created t db es =
      go t.failure t.commit (insert_batch now batch_id db.batches)
        (insert_batch-HasRow db.batches _ refl) (insert_experiments-Inserted db.experiments es)
    where
      go :
          (failure : Option String) (commit : Delivery) (batches : Option (List BatchRow))
          {rows : Option (List ExperimentRow)}
          → ((b' : List BatchRow) → batches ≡ some b' → HasRow batch_id b')
          → Inserted db.experiments es rows
          → Created model_hash batch_id es (elim failure [
            | some e ↦ (db, some e)
            | none ↦ committed (record t { commit = commit }) db batches rows
          ])
      go (some e) commit batches row i = not_created
      go none commit none row i = not_created
      go none commit (some b') row violated = not_created
      go none delivered (some b') row (inserted keep waiting) = created (row b' refl) waiting
      go none (unsent e) (some b') row (inserted keep waiting) = not_created
      go none (unheard e) (some b') row (inserted keep waiting) = not_created
