-- ===== src/ControlPlane/Scheduler/Spared.antt =====
-- ReconcileLostNodes of controlplane/scheduler.go fails no experiment of a node in contact.
use go_cloud_des.Prelude.{
  ℕ, ◌+◌, ◌-◌, ◌≡◌, ◌≤◌, ◌<◌, ◌⊎◌, inl, inr, refl, ◌∙◌, String, Bool, true, false, ◌&&◌, not,
  Option, none, some, List, [], ◌∷◌, ◌==◌, ltb, string_eq, nat_eq, ℤ, contains, keep, arith, eq_iff,
  beq_refl, Bool-cases, Option-cases,
}
use go_cloud_des.Dict
use go_cloud_des.Dict.{Dict}
use go_cloud_des.Dict.{has-put, has-empty}
use go_cloud_des.ControlPlane.NodeRegistry.{NodeRecord, NodeRegistry, is_expired}
use go_cloud_des.ControlPlane.NodeRegistry.Listing.{active_loop, active_node_ids, note_active}
use go_cloud_des.ControlPlane.Repository.{
  ExperimentRow, Database, Delivery, delivered, unsent, unheard, after, error, update_where,
  status_starting, status_running,
}
use go_cloud_des.ControlPlane.Repository.Batches.{refresh_batch_status}
use go_cloud_des.ControlPlane.Repository.Statements.{
  mark_orphaned_experiments_failed, is_orphaned, set_lost,
}
use go_cloud_des.ControlPlane.Repository.Frames.{refresh-experiments}
use go_cloud_des.ControlPlane.Scheduler.{Scheduler}
use go_cloud_des.ControlPlane.Scheduler.Reconcile.{reconcile_lost_nodes, refresh_batches}

note_active-keeps :
    (now ttl : ℕ) (o : Option NodeRecord) (j id : String) (result : Dict String (Unit {0}))
    → Dict.has result id ≡ true
    → Dict.has (note_active now ttl o j result) id ≡ true
unfolding note_active
note_active-keeps now ttl none j id result h = h
note_active-keeps now ttl (some rec) j id result h = elim (Bool-cases (is_expired now ttl rec)) [
  | inl e ↦ rw e h
  | inr e ↦ rw e (rw (has-put result j id tt, h) (ground arith))
]

active_loop-keeps :
    (now ttl : ℕ) (order : List String) (nodes : Dict String NodeRecord)
    (result : Dict String (Unit {0})) (id : String)
    → Dict.has result id ≡ true
    → Dict.has (active_loop now ttl order nodes result) id ≡ true
unfolding active_loop
active_loop-keeps now ttl [] nodes result id h = h
active_loop-keeps now ttl (j ∷ order) nodes result id h =
    active_loop-keeps now ttl order nodes (note_active now ttl (Dict.get nodes j) j result) id
      (note_active-keeps now ttl (Dict.get nodes j) j id result h)

active_loop-finds :
    (now ttl : ℕ) (order : List String) (nodes : Dict String NodeRecord)
    (result : Dict String (Unit {0})) (id : String) (rec : NodeRecord)
    → Dict.get nodes id ≡ some rec
    → is_expired now ttl rec ≡ false
    → contains id order ≡ true
    → Dict.has (active_loop now ttl order nodes result) id ≡ true
unfolding active_loop note_active
active_loop-finds now ttl [] nodes result id rec found fresh within = absurd (cc)
active_loop-finds now ttl (j ∷ order) nodes result id rec found fresh within =
    let result' = note_active now ttl (Dict.get nodes j) j result in
    elim (Bool-cases (j == id)) [
      | inl same ↦ active_loop-keeps now ttl order nodes result' id (
          rw ((eq_iff j id).0 same)
            (rw found (rw fresh (rw (has-put result id id tt, beq_refl id) refl))))
      | inr other ↦
          active_loop-finds now ttl order nodes result' id rec found fresh (rw other at within)
    ]

contains-keep :
    (p : String → Bool) (id : String) (xs : List String)
    → contains id xs ≡ true
    → p id ≡ true
    → contains id (keep p xs) ≡ true
contains-keep p id [] within h = absurd (cc)
contains-keep p id (x ∷ xs) within h = elim (Bool-cases (x == id)) [
  | inl same ↦ rw ((eq_iff x id).0 same) (rw h (rw (beq_refl id) refl))
  | inr other ↦
      let rest = contains-keep p id xs (rw other at within) h in
      elim (Bool-cases (p x)) [ inl e ↦ rw e (rw other rest) | inr e ↦ rw e rest ]
]

-- The registry has a record of the node and heard from it within the time to live.
abbrev pub InContact : ℕ → NodeRegistry → String → Type 0
InContact now r id =
    (rec : NodeRecord) × (Dict.get r.nodes id ≡ some rec) × (now ≤ rec.last_seen_at + r.ttl)

-- What a row may become: it stays, or its experiment was starting or running on a node that is not in
-- contact, had no update since the cutoff, and has failed.
abbrev pub Spared : ℕ → ℕ → NodeRegistry → ℕ → ℤ → ExperimentRow → ExperimentRow → Type 0
Spared now cutoff r db_now now_ms row row' =
    (row' ≡ row)
    ⊎ ((row' ≡ set_lost db_now now_ms row)
        × ((row.status ≡ status_starting) ⊎ (row.status ≡ status_running))
        × (row.updated_at < cutoff)
        × ((id : String) × (row.dispatcher_node_id ≡ some id) × ¬ InContact now r id))

abbrev pub Rows :
    (ExperimentRow → ExperimentRow → Type 0) → List ExperimentRow → List ExperimentRow → Type 0
Rows R [] [] = Unit
Rows R (x ∷ xs) (y ∷ ys) = R x y × Rows R xs ys
Rows R _ _ = ⊥

module _ (now cutoff : ℕ) (r : NodeRegistry) (order active_order : List String)
    (visited : (id : String)
      → Dict.has r.nodes id ≡ true
      → (contains id order ≡ true) × (contains id active_order ≡ true)) where
  abbrev active_ids : List String
  active_ids = keep (Dict.has (active_node_ids now order r)) active_order

  active-found : (id : String) → InContact now r id → contains id active_ids ≡ true
  unfolding active_node_ids
  active-found id (rec, found, fresh) =
      let (seen, seen_active) = visited id (rw (found, Dict.has) refl) in
      contains-keep (Dict.has (active_node_ids now order r)) id active_order seen_active (
        active_loop-finds now r.ttl order r.nodes Dict.empty id rec found
          (unfold is_expired in ground arith) seen)

  orphaned :
      (row : ExperimentRow)
      → is_orphaned cutoff active_ids row ≡ true
      → ((row.status ≡ status_starting) ⊎ (row.status ≡ status_running))
        × (row.updated_at < cutoff)
        × ((id : String) × (row.dispatcher_node_id ≡ some id) × ¬ InContact now r id)
  unfolding is_orphaned
  orphaned row h = elim (Option-cases row.dispatcher_node_id) [
    | inl nowhere ↦
        let k : (contains row.status (status_starting ∷ status_running ∷ [])
              && ltb row.updated_at cutoff
              && false)
            ≡ true =
          rw (nowhere, is_orphaned) at h in
        absurd (ground (arith, k))
    | inr (id, at) ↦
        let k : (contains row.status (status_starting ∷ status_running ∷ [])
              && ltb row.updated_at cutoff
              && not (contains id active_ids))
            ≡ true =
          rw (at, is_orphaned) at h in
        (
          ground (arith, k, eq_iff status_starting row.status, eq_iff status_running row.status),
          ground (arith, k),
          (id, at, λ c. ground (arith, k, active-found id c)),
        )
  ]

  update-Spared :
      (db_now : ℕ) (now_ms : ℤ) (rows : List ExperimentRow)
      → Rows
          (Spared now cutoff r db_now now_ms)
          rows
          (update_where (is_orphaned cutoff active_ids) (set_lost db_now now_ms) rows)
  unfolding update_where
  update-Spared db_now now_ms [] = tt
  update-Spared db_now now_ms (row ∷ rows) = elim (Bool-cases (is_orphaned cutoff active_ids row)) [
    | inl lost ↦ rw lost (
      inr (let (st, old, gone) = orphaned row lost in (refl, st, old, gone)),
      update-Spared db_now now_ms rows,
    )
    | inr spared ↦ rw spared (inl refl, update-Spared db_now now_ms rows)
  ]

same-Spared :
    (now cutoff : ℕ) (r : NodeRegistry) (db_now : ℕ) (now_ms : ℤ) (rows : List ExperimentRow)
    → Rows (Spared now cutoff r db_now now_ms) rows rows
same-Spared now cutoff r db_now now_ms [] = tt
same-Spared now cutoff r db_now now_ms (row ∷ rows) =
    (inl refl, same-Spared now cutoff r db_now now_ms rows)

refresh_batches-experiments :
    (db_now : ℕ) (refresh : ℕ → Delivery × Delivery) (i : ℕ) (db : Database) (order : List String)
    → (refresh_batches db_now refresh i db order).experiments ≡ db.experiments
unfolding refresh_batches
refresh_batches-experiments db_now refresh i db [] = refl
refresh_batches-experiments db_now refresh i db (b ∷ order) =
    refresh_batches-experiments db_now refresh (i + 1)
      (refresh_batch_status db_now (refresh i) db b).0 order
    ∙ refresh-experiments db_now (refresh i) db b

-- ReconcileLostNodes changes no row but those of experiments that were starting or running on a node
-- that is not in contact, and were not updated within the grace period; these fail. This holds for
-- loops that visit every key of their maps, and whatever becomes of the statements.
pub reconcile-Spared :
    (now db_now : ℕ) (now_ms : ℤ) (order active_order batch_order : List String) (exec : Delivery)
    (refresh : ℕ → Delivery × Delivery) (s : Scheduler)
    → ((id : String)
        → Dict.has s.nodes.nodes id ≡ true
        → (contains id order ≡ true) × (contains id active_order ≡ true))
    → Rows
        (Spared now (now - s.cfg.node_lost_grace_period) s.nodes db_now now_ms)
        s.db.experiments
        (reconcile_lost_nodes now db_now now_ms order active_order batch_order exec refresh
          s).0.db.experiments
unfolding reconcile_lost_nodes mark_orphaned_experiments_failed error after
reconcile-Spared now db_now now_ms order active_order batch_order delivered refresh s visited =
    rw refresh_batches-experiments (
      update-Spared now (now - s.cfg.node_lost_grace_period) s.nodes order active_order visited
        db_now now_ms s.db.experiments)
reconcile-Spared now db_now now_ms order active_order batch_order (unsent e) refresh s visited =
    same-Spared now (now - s.cfg.node_lost_grace_period) s.nodes db_now now_ms s.db.experiments
reconcile-Spared now db_now now_ms order active_order batch_order (unheard e) refresh s visited =
    update-Spared now (now - s.cfg.node_lost_grace_period) s.nodes order active_order visited db_now
      now_ms s.db.experiments
