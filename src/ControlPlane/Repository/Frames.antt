-- ===== src/ControlPlane/Repository/Frames.antt =====
-- What the statements of controlplane/repository.go do to the PENDING state of the experiment they
-- name and of the others.
use go_cloud_des.Prelude.{
  ℕ, ◌≡◌, String, Bool, true, false, none, List, [], ◌∷◌, string_eq, nat_eq, arith, eq_iff, inl,
  inr, refl, Bool-cases, ◌∙◌,
}
use go_cloud_des.ControlPlane.Repository.{
  status_pending, ExperimentRow, Database, Delivery, delivered, unsent, unheard, after, error,
  update_where, count, is_experiment, has_status,
}
use go_cloud_des.ControlPlane.Repository.Batches.{refresh_batch_status}
use go_cloud_des.ControlPlane.Repository.Statements.{
  try_mark_experiment_starting, mark_experiment_pending, mark_experiment_failed_to_start,
  is_experiment_in, one_affected, set_starting, set_pending, set_failed_to_start,
}
use go_cloud_des.ControlPlane.Repository.Transitions.{pending_count, count-update_where}

-- The PENDING state of every experiment but one is the same.
abbrev pub SameOthers : String → String → Database → Database → Type 0
SameOthers h e db db' =
    (k f : String) → ¬ ((k ≡ h) × (f ≡ e)) → pending_count db' k f ≡ pending_count db k f

module _ {ℓ} {A : Type ℓ} (p q : A → Bool) (f : A → A) where
  count-untouched :
      ((x : A) → p x ≡ true → (q (f x) ≡ false) × (q x ≡ false))
      → (xs : List A) → count q (update_where p f xs) ≡ count q xs
  unfolding count update_where
  count-untouched apart [] = refl
  count-untouched apart (x ∷ xs) = elim (Bool-cases (p x)) [
    | inl h ↦ rw (h, (apart x h).0, (apart x h).1) (count-untouched apart xs)
    | inr h ↦ rw (h, count-untouched apart xs) refl
  ]

  -- Nothing that passes `q` is outside `p`, and what is written does not pass it.
  count-cleared :
      ((x : A) → p x ≡ true → q (f x) ≡ false)
      → ((x : A) → p x ≡ false → q x ≡ false)
      → (xs : List A) → count q (update_where p f xs) ≡ 0
  unfolding count update_where
  count-cleared clears within [] = refl
  count-cleared clears within (x ∷ xs) = elim (Bool-cases (p x)) [
    | inl h ↦ rw (h, clears x h) (count-cleared clears within xs)
    | inr h ↦ rw (h, within x h) (count-cleared clears within xs)
  ]

-- A row of one experiment is not one of another.
other_row :
    (h e k f : String) (row : ExperimentRow)
    → ¬ ((k ≡ h) × (f ≡ e))
    → is_experiment h e row ≡ true
    → is_experiment_in status_pending k f row ≡ false
unfolding is_experiment_in is_experiment
other_row h e k f row apart is = ground (
  arith,
  eq_iff row.model_hash h,
  eq_iff row.experiment_id e,
  eq_iff row.model_hash k,
  eq_iff row.experiment_id f,
)

same_others :
    (h e : String) (p : ExperimentRow → Bool) (set : ExperimentRow → ExperimentRow)
    (rows : List ExperimentRow)
    → ((row : ExperimentRow) → p row ≡ true → is_experiment h e row ≡ true)
    → ((row : ExperimentRow) → is_experiment h e (set row) ≡ is_experiment h e row)
    → (k f : String) → ¬ ((k ≡ h) × (f ≡ e))
    → count (is_experiment_in status_pending k f) (update_where p set rows)
      ≡ count (is_experiment_in status_pending k f) rows
same_others h e p set rows within keyed k f apart =
    count-untouched p (is_experiment_in status_pending k f) set
      (λ row is. (
        other_row h e k f (set row) apart (keyed row ∙ within row is),
        other_row h e k f row apart (within row is),
      ))
      rows

pub after-elim {ℓ} :
    {A : Type ℓ} (P : A → Type 0) (d : Delivery) (old new : A) → P old → P new → P (after d old new)
unfolding after
after-elim P delivered old new o n = n
after-elim P (unsent e) old new o n = o
after-elim P (unheard e) old new o n = n

after-same_others :
    (d : Delivery) (h e : String) (p : ExperimentRow → Bool) (set : ExperimentRow → ExperimentRow)
    (rows : List ExperimentRow)
    → ((row : ExperimentRow) → p row ≡ true → is_experiment h e row ≡ true)
    → ((row : ExperimentRow) → is_experiment h e (set row) ≡ is_experiment h e row)
    → (k f : String) → ¬ ((k ≡ h) × (f ≡ e))
    → count (is_experiment_in status_pending k f) (after d rows (update_where p set rows))
      ≡ count (is_experiment_in status_pending k f) rows
after-same_others d h e p set rows within keyed k f apart =
    after-elim
      (λ rows'.
        count (is_experiment_in status_pending k f) rows'
        ≡ count (is_experiment_in status_pending k f) rows)
      d rows (update_where p set rows) refl (same_others h e p set rows within keyed k f apart)

pub try_mark-SameOthers :
    (now : ℕ) (d : Delivery) (db : Database) (h e node_id : String)
    → SameOthers h e db (try_mark_experiment_starting now d db h e node_id).0
unfolding try_mark_experiment_starting is_experiment_in is_experiment
try_mark-SameOthers now d db h e node_id =
    after-same_others d h e (is_experiment_in status_pending h e) (set_starting now node_id)
      db.experiments (λ row is. ground (arith, is)) (λ row. refl)

pub mark_pending-SameOthers :
    (now : ℕ) (d : Delivery) (db : Database) (h e message : String)
    → SameOthers h e db (mark_experiment_pending now d db h e message).0
unfolding mark_experiment_pending is_experiment
mark_pending-SameOthers now d db h e message =
    after-same_others d h e (is_experiment h e) (set_pending now message) db.experiments
      (λ row is. is) (λ row. refl)

pub mark_failed-SameOthers :
    (now : ℕ) (d : Delivery) (db : Database) (h e node_id message : String)
    → SameOthers h e db (mark_experiment_failed_to_start now d db h e node_id message).0
unfolding mark_experiment_failed_to_start is_experiment
mark_failed-SameOthers now d db h e node_id message =
    after-same_others d h e (is_experiment h e) (set_failed_to_start now node_id message)
      db.experiments (λ row is. is) (λ row. refl)

-- Whether a start was claimed or not: after the statement was done, the experiment is not PENDING.
pub try_mark-claimed :
    (now : ℕ) (db : Database) (h e node_id : String) (d : Delivery) (b : Bool)
    → (try_mark_experiment_starting now d db h e node_id).1 ≡ (b, none)
    → pending_count (try_mark_experiment_starting now d db h e node_id).0 h e ≡ 0
unfolding try_mark_experiment_starting one_affected after error
try_mark-claimed now db h e node_id delivered b q =
    count-update_where (is_experiment_in status_pending h e) (set_starting now node_id)
      (λ row is. unfold is_experiment_in has_status in ground (arith, eq_iff row.model_hash h))
      db.experiments
try_mark-claimed now db h e node_id (unsent err) b q = absurd (cc)
try_mark-claimed now db h e node_id (unheard err) b q = absurd (cc)

pub mark_failed-cleared :
    (now : ℕ) (d : Delivery) (db : Database) (h e node_id message : String)
    → pending_count db h e ≡ 0
    → pending_count (mark_experiment_failed_to_start now d db h e node_id message).0 h e ≡ 0
unfolding mark_experiment_failed_to_start is_experiment_in has_status
mark_failed-cleared now d db h e node_id message none_left =
    after-elim (λ rows. count (is_experiment_in status_pending h e) rows ≡ 0) d db.experiments
      (update_where (is_experiment h e) (set_failed_to_start now node_id message) db.experiments)
      none_left
      (count-cleared (is_experiment h e) (is_experiment_in status_pending h e)
        (set_failed_to_start now node_id message) (λ row is. ground arith)
        (λ row is. ground (arith, is)) db.experiments)

pub refresh-experiments :
    (now : ℕ) (ds : Delivery × Delivery) (db : Database) (b : String)
    → (refresh_batch_status now ds db b).0.experiments ≡ db.experiments
unfolding refresh_batch_status error
refresh-experiments now (delivered, exec) db b = refl
refresh-experiments now (unsent e, exec) db b = refl
refresh-experiments now (unheard e, exec) db b = refl
