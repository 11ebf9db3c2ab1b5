-- ===== src/ControlPlane/Server/Canceling.antt =====
-- What CancelExperiment of controlplane/server.go answers, against the row of the experiment.
use go_cloud_des.Prelude.{
  ℕ, ◌≡◌, ◌<◌, inl, inr, refl, sym, ap, subst, String, Bool, true, false, Option, none, some, List,
  [], ◌∷◌, ◌==◌, string_eq, nat_eq, ℤ, contains, arith, eq_iff, Bool-cases, Option-cases, Any,
}
use go_cloud_des.ControlPlane.Repository.{
  status_pending, status_starting, status_running, status_finished, status_failed, status_canceled,
  ExperimentRow, Database, Delivery, delivered, unsent, unheard, is_experiment, update_where, count,
  find, error, after,
}
use go_cloud_des.ControlPlane.Repository.Batches.{refresh_batch_status}
use go_cloud_des.ControlPlane.Repository.Statements.{
  get_experiment_for_cancel, mark_pending_experiment_canceled, CancelExperimentRecord,
  is_experiment_in, one_affected, set_canceled, to_cancel,
}
use go_cloud_des.ControlPlane.Repository.Frames.{refresh-experiments}
use go_cloud_des.ControlPlane.NodeRegistry.{NodeStatus}
use go_cloud_des.ControlPlane.NodeRegistry.Listing
use go_cloud_des.ControlPlane.Scheduler.{Scheduler}
use go_cloud_des.ControlPlane.Scheduler
use go_cloud_des.ControlPlane.Server.{
  StopReply, unreachable, responds, Cancellation, refused, answered, Calls, settle_pending,
  cancel_pending, cancel_active, cancel_found, cancel_answered, cancel_experiment, active_reply,
}

-- The experiment has a row with this status.
abbrev pub StatusIn : String → String → String → List ExperimentRow → Type 0
StatusIn status h e = Any (λ row. (is_experiment h e row ≡ true) × (row.status ≡ status))

-- What an answer says of the state after it: the experiment it names, and that it is CANCELED if the
-- answer says so.
abbrev pub Truthful : String → String → Scheduler × Cancellation → Type 0
Truthful h e (s', refused f) = Unit
Truthful h e (s', answered resp) =
    (resp.model_hash ≡ h)
    × (resp.experiment_id ≡ e)
    × (resp.canceled ≡ true
        → (resp.status ≡ status_canceled) × StatusIn status_canceled h e s'.db.experiments)

find-StatusIn :
    (h e : String) (rows : List ExperimentRow) (row : ExperimentRow)
    → find (is_experiment h e) rows ≡ some row
    → StatusIn row.status h e rows × (is_experiment h e row ≡ true)
unfolding find
find-StatusIn h e [] row f = absurd (cc)
find-StatusIn h e (x ∷ xs) row f = elim (Bool-cases (is_experiment h e x)) [
  | inl here ↦
      let same : x ≡ row = cc (rw here at f) in
      (inl (here, ap (λ x. x.status) same), rw (sym same) here)
  | inr away ↦ let (s, is) = find-StatusIn h e xs row (rw away at f) in (inr s, is)
]

canceled-StatusIn :
    (h e : String) (now : ℕ) (now_ms : ℤ) (rows : List ExperimentRow)
    → 0 < count (is_experiment_in status_pending h e) rows
    → StatusIn status_canceled h e
        (update_where (is_experiment_in status_pending h e) (set_canceled now now_ms) rows)
unfolding count update_where is_experiment_in is_experiment
canceled-StatusIn h e now now_ms [] some_row = absurd (omega arith)
canceled-StatusIn h e now now_ms (x ∷ xs) some_row =
    elim (Bool-cases (is_experiment_in status_pending h e x)) [
      | inl here ↦ rw here (inl (ground (arith, here), refl))
      | inr away ↦ rw away (inr (canceled-StatusIn h e now now_ms xs (rw away at some_row)))
    ]

marked-StatusIn :
    (h e : String) (now : ℕ) (now_ms : ℤ) (d : Delivery) (db : Database)
    → (mark_pending_experiment_canceled now now_ms d db h e).1 ≡ (true, none)
    → StatusIn status_canceled h e
        (mark_pending_experiment_canceled now now_ms d db h e).0.experiments
unfolding mark_pending_experiment_canceled one_affected after error
marked-StatusIn h e now now_ms delivered db q = canceled-StatusIn h e now now_ms db.experiments (
    let c : (count (is_experiment_in status_pending h e) db.experiments == 1) ≡ true =
      ap (λ p. p.0) q in
    ground (arith, c))
marked-StatusIn h e now now_ms (unsent err) db q = absurd (cc)
marked-StatusIn h e now now_ms (unheard err) db q = absurd (cc)

module _ (c : Calls) (rec : CancelExperimentRecord) where
  abbrev Says : Scheduler × Cancellation → Type 0
  Says = Truthful rec.model_hash rec.experiment_id

  settle_pending-Truthful :
      (s : Scheduler) (m : Bool × Option String)
      → (m ≡ (true, none)
          → StatusIn status_canceled rec.model_hash rec.experiment_id s.db.experiments)
      → Says (settle_pending c s rec m)
  unfolding settle_pending
  settle_pending-Truthful s (b, some err) marked = tt
  settle_pending-Truthful s (false, none) marked = (refl, refl, λ no. cc)
  settle_pending-Truthful s (true, none) marked =
      let db = (refresh_batch_status c.db_now c.refresh s.db rec.batch_id).0 in
      let kept : db.experiments ≡ s.db.experiments =
        refresh-experiments c.db_now c.refresh s.db rec.batch_id in
      elim (Option-cases (refresh_batch_status c.db_now c.refresh s.db rec.batch_id).1) [
        | inl fine ↦ rw (fine, settle_pending) (refl, refl, λ yes. (refl, rw kept (marked refl)))
        | inr (err, failed) ↦ rw (failed, settle_pending) tt
      ]

  cancel_pending-Truthful : (s : Scheduler) → Says (cancel_pending c s rec)
  unfolding cancel_pending Scheduler.remove
  cancel_pending-Truthful s =
      let s' = (Scheduler.remove s rec.model_hash rec.experiment_id).0 in
      let m =
        mark_pending_experiment_canceled c.db_now c.now_ms c.mark s'.db rec.model_hash
          rec.experiment_id in
      settle_pending-Truthful (record s' { db = m.0 }) m.1
        (marked-StatusIn rec.model_hash rec.experiment_id c.db_now c.now_ms c.mark s'.db)

  active_reply-Truthful :
      (s : Scheduler) (node : Option NodeStatus) (stop : StopReply)
      → Says (s, active_reply rec node stop)
  unfolding active_reply
  active_reply-Truthful s none stop = (refl, refl, λ no. cc)
  active_reply-Truthful s (some node) (unreachable err) = tt
  active_reply-Truthful s (some node) (responds stopped message) = (refl, refl, λ no. cc)

  cancel_active-Truthful : (s : Scheduler) → Says (cancel_active c s rec)
  unfolding cancel_active
  cancel_active-Truthful s = elim (Bool-cases (rec.dispatcher_node_id == "")) [
    | inl nowhere ↦ rw nowhere (refl, refl, λ no. cc)
    | inr placed ↦ rw placed (
        let (nodes, node) = Listing.get c.now s.nodes rec.dispatcher_node_id in
        active_reply-Truthful (record s { nodes = nodes }) node c.stop)
  ]

  cancel_found-Truthful :
      (s : Scheduler)
      → StatusIn rec.status rec.model_hash rec.experiment_id s.db.experiments
      → Says (cancel_found c s rec)
  unfolding cancel_found
  cancel_found-Truthful s row = elim (Bool-cases (rec.status == status_pending)) [
    | inl pending ↦ rw pending (cancel_pending-Truthful s)
    | inr p ↦ elim (Bool-cases (contains rec.status (status_starting ∷ status_running ∷ []))) [
      | inl active ↦ rw (p, active) (cancel_active-Truthful s)
      | inr q ↦ elim (Bool-cases (rec.status == status_canceled)) [
        | inl already ↦
            rw (p, q, already)
              (refl, refl, λ yes. (refl, rw ((eq_iff rec.status status_canceled).0 already) at row))
        | inr u ↦ elim (Bool-cases (contains rec.status (status_finished ∷ status_failed ∷ []))) [
          | inl ended ↦ rw (p, q, u, ended) (refl, refl, λ no. cc)
          | inr v ↦ rw (p, q, u, v) (refl, refl, λ no. cc)
        ]
      ]
    ]
  ]

cancel_found-at :
    (c : Calls) (s : Scheduler) (rec : CancelExperimentRecord) (h e : String)
    → rec.model_hash ≡ h
    → rec.experiment_id ≡ e
    → StatusIn rec.status h e s.db.experiments
    → Truthful h e (cancel_found c s rec)
cancel_found-at c s rec h e hash id =
    subst (λ k. StatusIn rec.status k e s.db.experiments → Truthful k e (cancel_found c s rec)) hash
      (subst
        (λ f.
          StatusIn rec.status rec.model_hash f s.db.experiments
          → Truthful rec.model_hash f (cancel_found c s rec))
        id (cancel_found-Truthful c rec s))

row_key :
    (h e : String) (row : ExperimentRow)
    → is_experiment h e row ≡ true
    → (row.model_hash ≡ h) × (row.experiment_id ≡ e)
unfolding is_experiment
row_key h e row is =
    (ground (arith, eq_iff row.model_hash h), ground (arith, eq_iff row.experiment_id e))

looked_up-Truthful :
    (c : Calls) (s : Scheduler) (h e : String) (query : Delivery)
    → Truthful h e (cancel_answered c s (get_experiment_for_cancel query s.db h e))
unfolding cancel_answered get_experiment_for_cancel error
looked_up-Truthful c s h e (unsent err) = tt
looked_up-Truthful c s h e (unheard err) = tt
looked_up-Truthful c s h e delivered =
    elim (Option-cases (find (is_experiment h e) s.db.experiments)) [
      | inl absent ↦ rw (absent, get_experiment_for_cancel) tt
      | inr (row, found) ↦
          let (has, is) = find-StatusIn h e s.db.experiments row found in
          let (hash, id) = row_key h e row is in
          rw (found, get_experiment_for_cancel)
            (cancel_found-at c s (to_cancel row) h e hash id has)
    ]

-- An answer of CancelExperiment names the experiment of the request. If it says that the experiment is
-- canceled, then the status it gives is CANCELED, and the experiment has a row of that status when the
-- call ends. This holds for whatever the database and the dispatcher do.
pub cancel_experiment-Truthful :
    (c : Calls) (s : Scheduler) (h e : String) → Truthful h e (cancel_experiment c s h e)
unfolding cancel_experiment
cancel_experiment-Truthful c s h e = elim (Bool-cases (h == "")) [
  | inl no_hash ↦ rw no_hash tt
  | inr hashed ↦ elim (Bool-cases (e == "")) [
    | inl no_id ↦ rw (hashed, no_id) tt
    | inr named ↦ rw (hashed, named) (looked_up-Truthful c s h e c.query)
  ]
]
