-- ===== src/ControlPlane/Scheduler/Carries.antt =====
-- What one turn of RunOnce of controlplane/scheduler.go does to the queue and to the PENDING state of
-- the experiments.
use go_cloud_des.Prelude.{
  ℕ, ◌≡◌, ◌⊎◌, inl, inr, refl, sym, ap, ◌∙◌, String, Bool, true, false, Option, none, some, [], ◌∷◌,
  string_eq, nat_eq, contains, arith, beq_refl, Bool-cases, contains-append,
}
use go_cloud_des.Dict
use go_cloud_des.Dict.{Dict}
use go_cloud_des.ControlPlane.Scheduler.{
  requeue, give_up, refused, place, StartOutcome, accepted, retryable, fatal, already_running,
  ambiguous, Scheduler, start_experiment_on_node, Turn, settle, acquire, turn, refreshed,
}
use go_cloud_des.ControlPlane.PendingQueue.{
  ScheduleExperimentRecord, PendingQueue, enqueue, record_key, keys,
}
use go_cloud_des.ControlPlane.PendingQueue.Invariant.{IsSynced, enqueue-IsSynced, keys-append}
use go_cloud_des.ControlPlane.NodeRegistry.{NodeStatus, pick_and_reserve}
use go_cloud_des.ControlPlane.Repository.{Database, delivered, error}
use go_cloud_des.ControlPlane.Repository.Statements.{
  try_mark_experiment_starting, mark_experiment_pending, mark_experiment_failed_to_start,
}
use go_cloud_des.ControlPlane.Repository.Transitions.{pending_count}
use go_cloud_des.ControlPlane.Repository.Frames.{
  SameOthers, try_mark-SameOthers, mark_pending-SameOthers, mark_failed-SameOthers,
  try_mark-claimed, mark_failed-cleared, refresh-experiments,
}

-- One record is handled: the queue keeps what it has, the other experiments stay as they are, and
-- the record is queued again if its experiment is PENDING.
pub record Carries (r : ScheduleExperimentRecord) (s s' : Scheduler) : Type 0 where
  pub synced : IsSynced s'.queue
  pub stays : (k : String) → contains k (keys s.queue) ≡ true → contains k (keys s'.queue) ≡ true
  pub others : SameOthers r.model_hash r.experiment_id s.db s'.db
  pub own :
      (pending_count s'.db r.model_hash r.experiment_id ≡ 0)
      ⊎ (contains (record_key r) (keys s'.queue) ≡ true)

enqueue-queued :
    (now : ℕ) (q : PendingQueue) (r : ScheduleExperimentRecord)
    → IsSynced q
    → contains (record_key r) (keys (enqueue now q (some r)).0) ≡ true
unfolding enqueue
enqueue-queued now q r v = elim (Bool-cases (Dict.has q.index (record_key r))) [
  | inl old ↦ rw old (sym (v.synced (record_key r)) ∙ old)
  | inr new ↦ rw new (
      rw (keys-append now q.items r, contains-append (record_key r) (keys q) (record_key r ∷ []))
        (ground (arith, beq_refl (record_key r))))
]

enqueue-stays :
    (now : ℕ) (q : PendingQueue) (r : ScheduleExperimentRecord) (k : String)
    → contains k (keys q) ≡ true
    → contains k (keys (enqueue now q (some r)).0) ≡ true
unfolding enqueue
enqueue-stays now q r k h = elim (Bool-cases (Dict.has q.index (record_key r))) [
  | inl old ↦ rw old h
  | inr new ↦
      rw new
        (rw (keys-append now q.items r, contains-append k (keys q) (record_key r ∷ []), h) refl)
]

module _ (t : Turn) (r : ScheduleExperimentRecord) where
  -- The queue as it is, or with the record; and a database whose other experiments are the same.
  unqueued :
      (s s' : Scheduler)
      → IsSynced s.queue
      → s'.queue ≡ s.queue
      → SameOthers r.model_hash r.experiment_id s.db s'.db
      → pending_count s'.db r.model_hash r.experiment_id ≡ 0
      → Carries r s s'
  unqueued s s' v q others none_left = record {
    synced = rw q v;
    stays = λ k c. rw q c;
    others = others;
    own = inl none_left;
  }

  queued :
      (s s' : Scheduler)
      → IsSynced s.queue
      → s'.queue ≡ (enqueue t.now s.queue (some r)).0
      → SameOthers r.model_hash r.experiment_id s.db s'.db
      → Carries r s s'
  queued s s' v q others = record {
    synced = rw q (enqueue-IsSynced t.now s.queue (some r) v);
    stays = λ k c. rw q (enqueue-stays t.now s.queue r k c);
    others = others;
    own = inr (rw q (enqueue-queued t.now s.queue r v));
  }

  same_db :
      (db db' : Database)
      → db'.experiments ≡ db.experiments
      → SameOthers r.model_hash r.experiment_id db db'
  same_db db db' e k f apart = rw e refl

  SameOthers-trans :
      (a b c : Database)
      → SameOthers r.model_hash r.experiment_id a b
      → SameOthers r.model_hash r.experiment_id b c
      → SameOthers r.model_hash r.experiment_id a c
  SameOthers-trans a b c p q k f apart = q k f apart ∙ p k f apart

  refreshed-unqueued :
      (s s' : Scheduler) (db : Database)
      → IsSynced s.queue
      → s'.queue ≡ s.queue
      → s'.db ≡ refreshed t db r
      → SameOthers r.model_hash r.experiment_id s.db db
      → pending_count db r.model_hash r.experiment_id ≡ 0
      → Carries r s s'
  refreshed-unqueued s s' db v q d others none_left =
      let e : s'.db.experiments ≡ db.experiments =
        ap (λ x. x.experiments) d ∙ refresh-experiments t.db_now t.refresh db r.batch_id in
      unqueued s s' v q (SameOthers-trans s.db db s'.db others (same_db db s'.db e))
        (rw e none_left)

  Carries-from :
      (s s' s'' : Scheduler)
      → s'.queue ≡ s.queue
      → SameOthers r.model_hash r.experiment_id s.db s'.db
      → Carries r s' s''
      → Carries r s s''
  Carries-from s s' s'' q others c = record {
    synced = c.synced;
    stays = λ k h. c.stays k (rw q h);
    others = SameOthers-trans s.db s'.db s''.db others c.others;
    own = c.own;
  }

  requeue-Carries :
      (s : Scheduler) (a : Database × Option String)
      → IsSynced s.queue
      → SameOthers r.model_hash r.experiment_id s.db a.0
      → a.1 ≡ none
      → Carries r s (requeue t s r a)
  unfolding requeue
  requeue-Carries s (db, none) v others done = queued s _ v refl others
  requeue-Carries s (db, some e) v others done = absurd (cc)

  give_up-Carries :
      (s : Scheduler) (a : Database × Option String)
      → IsSynced s.queue
      → SameOthers r.model_hash r.experiment_id s.db a.0
      → pending_count a.0 r.model_hash r.experiment_id ≡ 0
      → Carries r s (give_up t s r a)
  unfolding give_up
  give_up-Carries s (db, none) v others none_left =
      refreshed-unqueued s _ db v refl refl others none_left
  give_up-Carries s (db, some e) v others none_left = unqueued s _ v refl others none_left

  settle-Carries :
      (s : Scheduler) (node : NodeStatus) (o : StartOutcome × String)
      → t.mark ≡ delivered
      → IsSynced s.queue
      → pending_count s.db r.model_hash r.experiment_id ≡ 0
      → Carries r s (settle t s r node o)
  unfolding settle
  settle-Carries s node (accepted, message) works v none_left =
      refreshed-unqueued s _ s.db v refl refl (λ k f apart. refl) none_left
  settle-Carries s node (already_running, message) works v none_left =
      refreshed-unqueued s _ s.db v refl refl (λ k f apart. refl) none_left
  settle-Carries s node (ambiguous, message) works v none_left =
      refreshed-unqueued s _ s.db v refl refl (λ k f apart. refl) none_left
  settle-Carries s node (retryable, message) works v none_left =
      Carries-from s (refused s r node) _ refl (λ k f apart. refl)
        (requeue-Carries (refused s r node)
          (mark_experiment_pending t.db_now t.mark s.db r.model_hash r.experiment_id message) v
          (mark_pending-SameOthers t.db_now t.mark s.db r.model_hash r.experiment_id message)
          (unfold mark_experiment_pending error in rw works refl))
  settle-Carries s node (fatal, message) works v none_left =
      Carries-from s (refused s r node) _ refl (λ k f apart. refl)
        (give_up-Carries (refused s r node)
          (mark_experiment_failed_to_start t.db_now t.mark s.db r.model_hash r.experiment_id
            node.node_id message)
          v
          (mark_failed-SameOthers t.db_now t.mark s.db r.model_hash r.experiment_id node.node_id
            message)
          (mark_failed-cleared t.db_now t.mark s.db r.model_hash r.experiment_id node.node_id
            message none_left))

  acquire-Carries :
      (s : Scheduler) (node : NodeStatus) (a : Bool × Option String)
      → t.mark ≡ delivered
      → IsSynced s.queue
      → ((b : Bool) → a ≡ (b, none) → pending_count s.db r.model_hash r.experiment_id ≡ 0)
      → Carries r s (acquire t s r node a)
  unfolding acquire
  acquire-Carries s node (b, some err) works v claimed_now = queued s _ v refl (λ k f apart. refl)
  acquire-Carries s node (false, none) works v claimed_now =
      unqueued s _ v refl (λ k f apart. refl) (claimed_now false refl)
  acquire-Carries s node (true, none) works v claimed_now =
      settle-Carries s node (start_experiment_on_node t.reply) works v (claimed_now true refl)

  place-Carries :
      (s : Scheduler) (o : Option NodeStatus)
      → t.mark ≡ delivered
      → IsSynced s.queue
      → Carries r s (place t s r o).0
  unfolding place
  place-Carries s none works v = queued s _ v refl (λ k f apart. refl)
  place-Carries s (some node) works v =
      let a =
        try_mark_experiment_starting t.db_now t.starting s.db r.model_hash r.experiment_id
          node.node_id in
      Carries-from s (record s { db = a.0 }) _ refl
        (try_mark-SameOthers t.db_now t.starting s.db r.model_hash r.experiment_id node.node_id)
        (acquire-Carries (record s { db = a.0 }) node a.1 works v
          (try_mark-claimed t.db_now s.db r.model_hash r.experiment_id node.node_id t.starting))

  pub turn-Carries :
      (s : Scheduler) → t.mark ≡ delivered → IsSynced s.queue → Carries r s (turn t s r).0
  unfolding turn
  turn-Carries s works v =
      let (nodes, picked) =
        pick_and_reserve t.now t.order s.nodes r.goos r.goarch r.memory_limit_bytes in
      Carries-from s (record s { nodes = nodes }) _ refl (λ k f apart. refl)
        (place-Carries (record s { nodes = nodes }) picked works v)
