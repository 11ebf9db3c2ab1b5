-- ===== src/ControlPlane/Submission/Succeeding.antt =====
-- When CreateExperimentBatch of controlplane/repository.go succeeds.
use go_cloud_des.Prelude.{
  ℕ, suc, ◌≡◌, ◌<◌, refl, sym, arith, String, Bool, false, Option, none, some, List, [], ◌∷◌, ◌++◌,
  ◌==◌, string_eq, nat_eq, eq_iff, Bool-cases, inl, inr, All, map, beq_refl, ap, ◌∙◌,
}
use go_cloud_des.ControlPlane.Repository.{
  ExperimentRow, Database, delivered, after, error, find, is_experiment,
}
use go_cloud_des.ControlPlane.Submission.{ExperimentParams, NormalizedExperiment, experiment_id}
use go_cloud_des.ControlPlane.Submission.Numbering.{experiment_id-injective}
use go_cloud_des.ControlPlane.Submission.Checks.{NumberedFrom}
use go_cloud_des.ControlPlane.Submission.Creating.{
  create_experiment_batch, new_experiment, new_batch, insert_experiments, insert_batch,
}
use mathlib.Core.List.{append-nil, append_assoc}

find-none {ℓ} :
    {A : Type ℓ} (p : A → Bool) (xs : List A) (x : A)
    → find p xs ≡ none
    → p x ≡ false
    → find p (xs ++ x ∷ []) ≡ none
unfolding find
find-none p [] x h px = rw px refl
find-none p (y ∷ xs) x h px = elim (Bool-cases (p y)) [
  | inl e ↦ absurd (cc (rw e at h))
  | inr e ↦ rw e (find-none p xs x (rw e at h) px)
]

module _ (now : ℕ) (model_hash batch_id : String) (memory : ℕ) where
  -- No row of the model has the identifier of one of the experiments.
  abbrev pub Fresh : List ExperimentRow → NormalizedExperiment → Type 0
  Fresh rows e = find (is_experiment model_hash e.experiment_id) rows ≡ none

  -- A row with a smaller number leaves the later ones fresh.
  new_experiment-Fresh :
      (rows : List ExperimentRow) (e : NormalizedExperiment) (i j : ℕ)
      (reqs : List (Option ExperimentParams)) (es : List NormalizedExperiment)
      → e.experiment_id ≡ experiment_id batch_id i
      → i < j
      → NumberedFrom batch_id j reqs es
      → All (Fresh rows) es
      → All (Fresh (rows ++ new_experiment now model_hash batch_id memory e ∷ [])) es
  unfolding new_experiment is_experiment
  new_experiment-Fresh rows e i j reqs [] at lt n fresh = tt
  new_experiment-Fresh rows e i j [] (f ∷ es) at lt n fresh = absurd n
  new_experiment-Fresh rows e i j (none ∷ reqs) (f ∷ es) at lt n fresh = absurd n
  new_experiment-Fresh rows e i j (some req ∷ reqs) (f ∷ es) at lt n fresh = (
    find-none (is_experiment model_hash f.experiment_id) rows _ fresh.0
        (elim (Bool-cases (e.experiment_id == f.experiment_id)) [
          | inl same ↦ absurd (
              omega (
                arith,
                lt,
                experiment_id-injective batch_id i j
                    (sym at ∙ (eq_iff e.experiment_id f.experiment_id).0 same ∙ n.0),
              ))
          | inr other ↦ rw (beq_refl model_hash, other) refl
        ]),
    new_experiment-Fresh rows e i (suc j) reqs es at (omega (arith, lt)) n.2 fresh.1,
  )

  insert_experiments-succeeds :
      (rows : List ExperimentRow) (i : ℕ) (reqs : List (Option ExperimentParams))
      (es : List NormalizedExperiment)
      → NumberedFrom batch_id i reqs es
      → All (Fresh rows) es
      → insert_experiments rows (map (new_experiment now model_hash batch_id memory) es)
        ≡ some (rows ++ map (new_experiment now model_hash batch_id memory) es)
  unfolding insert_experiments new_experiment
  insert_experiments-succeeds rows i reqs [] n fresh = ap some (sym (append-nil rows))
  insert_experiments-succeeds rows i [] (f ∷ es) n fresh = absurd n
  insert_experiments-succeeds rows i (none ∷ reqs) (f ∷ es) n fresh = absurd n
  insert_experiments-succeeds rows i (some req ∷ reqs) (e ∷ es) n fresh =
      rw (insert_experiments, fresh.0)
        (insert_experiments-succeeds (rows ++ new_experiment now model_hash batch_id memory e ∷ [])
            (suc i) reqs es n.2
            (new_experiment-Fresh rows e i (suc i) reqs es n.0 (omega arith) n.2 fresh.1)
          ∙ ap some (
              append_assoc rows (new_experiment now model_hash batch_id memory e ∷ [])
                (map (new_experiment now model_hash batch_id memory) es)))

  -- If the transaction does not fail, and no row of the model has an identifier of the experiments,
  -- CreateExperimentBatch adds the row of a new batch and those of its experiments, numbered from the
  -- first, behind the rows that are there: no two of their identifiers clash.
  pub create_experiment_batch-succeeds :
      (violation : String) (db : Database) (reqs : List (Option ExperimentParams))
      (es : List NormalizedExperiment)
      → NumberedFrom batch_id 0 reqs es
      → find (λ b. b.batch_id == batch_id) db.batches ≡ none
      → All (Fresh db.experiments) es
      → create_experiment_batch now
          (record { failure = none; violation = violation; commit = delivered })
          db
          model_hash
          batch_id
          memory
          es
        ≡ (
          record db {
            batches = db.batches ++ new_batch now batch_id ∷ [];
            experiments = db.experiments ++ map (new_experiment now model_hash batch_id memory) es;
          },
          none,
        )
  unfolding create_experiment_batch insert_batch error after
  create_experiment_batch-succeeds violation db reqs es n no_batch fresh =
      rw (insert_batch, no_batch, insert_experiments-succeeds db.experiments 0 reqs es n fresh) refl
