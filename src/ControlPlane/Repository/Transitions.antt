-- ===== src/ControlPlane/Repository/Transitions.antt =====
-- Which changes of status the statements of controlplane/repository.go make.
use go_cloud_des.Prelude.{
  ℕ, ◌≡◌, String, Bool, true, false, List, [], ◌∷◌, ◌==◌, string_eq, nat_eq, ℤ, arith, inl, inr,
  refl, Bool-cases, ap, map,
}
use go_cloud_des.ControlPlane.Repository.{
  status_pending, status_starting, status_canceled, ExperimentRow, Database, delivered, after,
  error, update_where, count, has_status,
}
use go_cloud_des.ControlPlane.Repository.Statements.{
  try_mark_experiment_starting, mark_pending_experiment_canceled, is_experiment_in, one_affected,
  set_starting, set_canceled,
}

module _ {ℓ} {A : Type ℓ} (p : A → Bool) (f : A → A) where
  pub update_where-none : (xs : List A) → count p xs ≡ 0 → update_where p f xs ≡ xs
  unfolding count update_where
  update_where-none [] h = refl
  update_where-none (x ∷ xs) h = elim (Bool-cases (p x)) [
    | inl e ↦ absurd (let k = rw e at h in omega arith)
    | inr e ↦ rw e (ap (◌∷◌ x) (update_where-none xs (rw e at h)))
  ]

  -- The test is false on what is written.
  pub count-update_where :
      ((x : A) → p x ≡ true → p (f x) ≡ false) → (xs : List A) → count p (update_where p f xs) ≡ 0
  unfolding count update_where
  count-update_where clears [] = refl
  count-update_where clears (x ∷ xs) = elim (Bool-cases (p x)) [
    | inl e ↦ rw (e, clears x e) (count-update_where clears xs)
    | inr e ↦ rw (e, e) (count-update_where clears xs)
  ]

-- Two parts of the program take a PENDING experiment: the scheduler for a node, and a cancellation.
pub data Claim : Type 0 where
  starts : ℕ → String → Claim
  cancels : ℕ → ℤ → Claim

-- The new database, and whether the claim is answered by true.
unfoldable pub claim : Database → String → String → Claim → Database × Bool
claim db h e (starts now node_id) =
    let (db', answer) = try_mark_experiment_starting now delivered db h e node_id in (db', answer.0)
claim db h e (cancels now now_ms) =
    let (db', answer) = mark_pending_experiment_canceled now now_ms delivered db h e in
    (db', answer.0)

unfoldable pub claims : Database → String → String → List Claim → Database × List Bool
unfolding claim
claims db h e [] = (db, [])
claims db h e (c ∷ cs) =
    let (db', won) = claim db h e c in let (db'', rest) = claims db' h e cs in (db'', won ∷ rest)

abbrev pub all_false : List Claim → List Bool
all_false = map (λ c. false)

abbrev pub pending_count : Database → String → String → ℕ
pending_count db h e = count (is_experiment_in status_pending h e) db.experiments

not_pending :
    (h e status : String) (row : ExperimentRow)
    → (status == status_pending) ≡ false
    → row.status ≡ status
    → is_experiment_in status_pending h e row ≡ false
unfolding is_experiment_in has_status
not_pending h e status row other is = rw (is, other) (ground arith)

claim-taken :
    (db : Database) (h e : String) (c : Claim)
    → pending_count db h e ≡ 0
    → claim db h e c ≡ (db, false)
unfolding claim try_mark_experiment_starting mark_pending_experiment_canceled after one_affected
    error
claim-taken db h e (starts now node_id) h0 =
    let here = is_experiment_in status_pending h e in
    rw (h0, update_where-none here (set_starting now node_id) db.experiments h0) refl
claim-taken db h e (cancels now now_ms) h0 =
    let here = is_experiment_in status_pending h e in
    rw (h0, update_where-none here (set_canceled now now_ms) db.experiments h0) refl

claim-first :
    (db : Database) (h e : String) (c : Claim)
    → pending_count db h e ≡ 1
    → ((claim db h e c).1 ≡ true) × (pending_count (claim db h e c).0 h e ≡ 0)
unfolding claim try_mark_experiment_starting mark_pending_experiment_canceled after one_affected
    error
claim-first db h e (starts now node_id) h1 = (
  rw h1 refl,
  count-update_where (is_experiment_in status_pending h e) (set_starting now node_id)
      (λ row t. not_pending h e status_starting (set_starting now node_id row) refl refl)
      db.experiments,
)
claim-first db h e (cancels now now_ms) h1 = (
  rw h1 refl,
  count-update_where (is_experiment_in status_pending h e) (set_canceled now now_ms)
      (λ row t. not_pending h e status_canceled (set_canceled now now_ms row) refl refl)
      db.experiments,
)

claims-taken :
    (db : Database) (h e : String) (cs : List Claim)
    → pending_count db h e ≡ 0
    → claims db h e cs ≡ (db, all_false cs)
unfolding claims
claims-taken db h e [] h0 = refl
claims-taken db h e (c ∷ cs) h0 = rw (claim-taken db h e c h0) (rw (claims-taken db h e cs h0) refl)

-- Of any claims on one PENDING experiment, starts and cancellations in any order whose statements are
-- all delivered, the first one is answered by true and the others by false, and the others leave the database as it is.
pub claims_lem :
    (db : Database) (h e : String) (c : Claim) (cs : List Claim)
    → pending_count db h e ≡ 1
    → claims db h e (c ∷ cs) ≡ ((claim db h e c).0, true ∷ all_false cs)
unfolding claims
claims_lem db h e c cs h1 =
    let (won, none_left) = claim-first db h e c h1 in
    rw (won, claims-taken (claim db h e c).0 h e cs none_left) refl
