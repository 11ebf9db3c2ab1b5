-- ===== src/ControlPlane/Scheduler/Reconcile.antt =====
-- controlplane/scheduler.go: ReconcileLostNodes.
use go_cloud_des.Prelude.{
  ℕ, ◌+◌, ◌-◌, String, Option, none, some, List, [], ◌∷◌, string_eq, nat_eq, ℤ, contains, keep, map,
}
use go_cloud_des.Dict
use go_cloud_des.Dict.{Dict}
use go_cloud_des.ControlPlane.Scheduler.{Scheduler}
use go_cloud_des.ControlPlane.NodeRegistry.Listing.{active_node_ids}
use go_cloud_des.ControlPlane.Repository.{Database, Delivery}
use go_cloud_des.ControlPlane.Repository.Batches.{refresh_batch_status}
use go_cloud_des.ControlPlane.Repository.Statements.{
  mark_orphaned_experiments_failed, OrphanedExperiment,
}

-- Each batch is refreshed with the deliveries of its round, in the order `batches` of the loop over
-- the map of the batches of the lost experiments.
unfoldable pub refresh_batches :
    ℕ → (ℕ → Delivery × Delivery) → ℕ → Database → List String → Database
refresh_batches db_now refresh i db [] = db
refresh_batches db_now refresh i db (b ∷ batches) =
    refresh_batches db_now refresh (i + 1) (refresh_batch_status db_now (refresh i) db b).0 batches

abbrev pub batch_ids : List OrphanedExperiment → List String
batch_ids = map (λ item. item.batch_id)

-- `order`, `active_order` and `batch_order` are those of the loops over three maps. Nothing but the
-- database changes; `some e` is the error that ends the call early.
unfoldable pub reconcile_lost_nodes :
    ℕ
    → ℕ
    → ℤ
    → List String
    → List String
    → List String
    → Delivery
    → (ℕ → Delivery × Delivery)
    → Scheduler
    → Scheduler × Option String
unfolding active_node_ids refresh_batches mark_orphaned_experiments_failed
reconcile_lost_nodes now db_now now_ms order active_order batch_order exec refresh s =
    let active = active_node_ids now order s.nodes in
    let active_ids = keep (Dict.has active) active_order in
    let (db, lost, err) =
      mark_orphaned_experiments_failed db_now (now - s.cfg.node_lost_grace_period) now_ms exec s.db
        active_ids in
    elim err [
      | some e ↦ (record s { db = db }, some e)
      | none ↦
          let visits = keep (λ b. contains b (batch_ids lost)) batch_order in
          (record s { db = refresh_batches db_now refresh 0 db visits }, none)
    ]
