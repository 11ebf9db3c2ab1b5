-- ===== src/ControlPlane/Server/Reporting.antt =====
-- What ReportExperimentResult of controlplane/server.go gives back on the node of the experiment.
use native.Mathlib.Nat.{suc-mul}
use go_cloud_des.Prelude.{
  ℕ, ◌+◌, ◌≡◌, inl, inr, refl, ap, ◌∙◌, String, Bool, true, some, List, [], ◌∷◌, string_eq, nat_eq,
  arith, Bool-cases, Option-cases, ◌*◌, false, ◌&&◌, ◌-◌, if◌then◌else◌,
}
use go_cloud_des.Dict
use go_cloud_des.Dict.{Dict}
use go_cloud_des.Dict.{get-put, get-remove, get-put_self}
use go_cloud_des.ControlPlane.NodeRegistry.{NodeRegistry, release_reservation, released}
use go_cloud_des.ControlPlane.Scheduler.Reservations.{reservation}
use go_cloud_des.ControlPlane.Repository.{
  ExperimentStatus, ExperimentRow, delivered, is_experiment, update_where, find, error, after,
  Delivery, unsent, unheard,
}
use go_cloud_des.ControlPlane.Repository.Batches.{refresh_batch_status}
use go_cloud_des.ControlPlane.Repository.Statements.{update_experiment_result, reported}
use go_cloud_des.ControlPlane.Scheduler.{Scheduler}
use go_cloud_des.ControlPlane.Server.{settle_report, report_experiment_result}

module _ {ℓ} {A : Type ℓ} (p : A → Bool) (f : A → A) where
  find-update_where :
      ((x : A) → p (f x) ≡ p x)
      → (xs : List A) (x : A) → find p xs ≡ some x
      → find p (update_where p f xs) ≡ some (f x)
  unfolding find update_where
  find-update_where same [] x h = absurd (cc)
  find-update_where same (y ∷ ys) x h = elim (Bool-cases (p y)) [
    | inl e ↦ let k : y ≡ x = cc (rw e at h) in rw (e, same y, e) (ap (λ z. some (f z)) k)
    | inr e ↦ rw (e, e) (find-update_where same ys x (rw e at h))
  ]

-- What becomes of the statements of one call: the UPDATE, and the two of the refresh.
pub record Statements : Type 0 where
  pub exec : Delivery
  pub refresh : Delivery × Delivery

abbrev is_delivered : Delivery → Bool
is_delivered delivered = true
is_delivered (unsent e) = false
is_delivered (unheard e) = false

abbrev pub work : Statements → Bool
work c = is_delivered c.exec && (is_delivered c.refresh.0 && is_delivered c.refresh.1)

-- The number of calls all of whose statements work.
unfoldable pub working : List Statements → ℕ
working [] = 0
working (c ∷ cs) = let rest = working cs in if work c then rest + 1 else rest

-- The scheduler after the same result has been reported once for each of the calls.
unfoldable pub reports : ℕ → List Statements → Scheduler → String → ExperimentStatus → Scheduler
reports now [] s node_id result = s
reports now (c ∷ cs) s node_id result =
    reports now cs (report_experiment_result now c.exec c.refresh s node_id (some result)).0 node_id
      result

-- What one call leaves.
record Reported (c : Statements) (s s' : Scheduler) (node_id : String) (result : ExperimentStatus)
    : Type 0 where
  row : ExperimentRow
  found : find (is_experiment result.model_hash result.experiment_id) s'.db.experiments ≡ some row
  nodes :
      s'.nodes
      ≡ (if work c then release_reservation s.nodes node_id result.memory_limit_bytes else s.nodes)

module _ (now : ℕ) (s : Scheduler) (node_id : String) (result : ExperimentStatus)
    (row : ExperimentRow) where
  abbrev Found : Type 0
  Found = find (is_experiment result.model_hash result.experiment_id) s.db.experiments ≡ some row

  updated :
      Found
      → find (is_experiment result.model_hash result.experiment_id) (
          update_where
            (is_experiment result.model_hash result.experiment_id)
            (reported now node_id result)
            s.db.experiments)
        ≡ some (reported now node_id result row)
  unfolding reported is_experiment
  updated found =
      find-update_where (is_experiment result.model_hash result.experiment_id)
        (reported now node_id result) (λ x. refl) s.db.experiments row found

  report-Reported :
      (exec query update : Delivery)
      → Found
      → Reported
          (record { exec = exec; refresh = (query, update) })
          s
          (report_experiment_result now exec (query, update) s node_id (some result)).0
          node_id
          result
  unfolding report_experiment_result update_experiment_result settle_report error after
      refresh_batch_status
  report-Reported (unsent e) query update found = record { row = row; found = found; nodes = refl }
  report-Reported (unheard e) query update found = record {
    row = reported now node_id result row;
    found = updated found;
    nodes = refl;
  }
  report-Reported delivered (unsent e) update found =
      rw (found, update_experiment_result)
        (record { row = reported now node_id result row; found = updated found; nodes = refl })
  report-Reported delivered (unheard e) update found =
      rw (found, update_experiment_result)
        (record { row = reported now node_id result row; found = updated found; nodes = refl })
  report-Reported delivered delivered (unsent e) found =
      rw (found, update_experiment_result)
        (record { row = reported now node_id result row; found = updated found; nodes = refl })
  report-Reported delivered delivered (unheard e) found =
      rw (found, update_experiment_result)
        (record { row = reported now node_id result row; found = updated found; nodes = refl })
  report-Reported delivered delivered delivered found =
      rw (found, update_experiment_result)
        (record { row = reported now node_id result row; found = updated found; nodes = refl })

release-reservation :
    (r : NodeRegistry) (id : String) (limit slots bytes : ℕ)
    → reservation r id ≡ some (slots, bytes)
    → reservation (release_reservation r id limit) id ≡ some (slots - 1, bytes - limit)
unfolding release_reservation released
release-reservation r id limit slots bytes h = elim (Option-cases (Dict.get r.nodes id)) [
  | inl absent ↦ absurd (cc (rw absent at h))
  | inr (rec, found) ↦
      let k : some (rec.reserved_slots, rec.reserved_memory_bytes) ≡ some (slots, bytes) =
        rw found at h in
      let a : rec.reserved_slots ≡ slots = cc in
      let b : rec.reserved_memory_bytes ≡ bytes = cc in
      rw (found, release_reservation, get-put_self) (ground (arith, a, b))
]

-- Where the experiment has a row and the node that reports is in the registry, the same result reported any number of times, whatever becomes of
-- the statements of each call, gives back on the node that reports one slot and the limit of the
-- result for each call all of whose statements work, down to 0, and nothing for any other: a result
-- that is reported again gives back again.
pub reports-release :
    (now : ℕ) (cs : List Statements) (s : Scheduler) (node_id : String) (result : ExperimentStatus)
    (row : ExperimentRow) (slots bytes : ℕ)
    → find (is_experiment result.model_hash result.experiment_id) s.db.experiments ≡ some row
    → reservation s.nodes node_id ≡ some (slots, bytes)
    → reservation (reports now cs s node_id result).nodes node_id
      ≡ some (slots - working cs, bytes - working cs * result.memory_limit_bytes)
unfolding reports working
reports-release now [] s node_id result row slots bytes found held = held ∙ ap some (ground arith)
reports-release now (c ∷ cs) s node_id result row slots bytes found held =
    let limit = result.memory_limit_bytes in
    let s' = (report_experiment_result now c.exec c.refresh s node_id (some result)).0 in
    let r : Reported c s s' node_id result =
      report-Reported now s node_id result row c.exec c.refresh.0 c.refresh.1 found in
    elim (Bool-cases (work c)) [
      | inl e ↦
          let nodes : s'.nodes ≡ release_reservation s.nodes node_id limit = rw e at r.nodes in
          reports-release now cs s' node_id result r.row (slots - 1) (bytes - limit) r.found
            (rw nodes (release-reservation s.nodes node_id limit slots bytes held))
          ∙ rw e (ap some (ground (arith, suc-mul (working cs) limit)))
      | inr e ↦
          let nodes : s'.nodes ≡ s.nodes = rw e at r.nodes in
          reports-release now cs s' node_id result r.row slots bytes r.found (rw nodes held)
          ∙ rw e refl
    ]
