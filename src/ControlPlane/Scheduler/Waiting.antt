-- ===== src/ControlPlane/Scheduler/Waiting.antt =====
-- No experiment that waits is lost by RunOnce of controlplane/scheduler.go.
use go_cloud_des.Prelude.{
  ℕ, ◌+◌, ◌-◌, ◌≡◌, ◌⊎◌, inl, inr, refl, sym, ◌∙◌, String, true, ◌&&◌, not, Option, none, some,
  List, [], ◌∷◌, ◌==◌, ltb, string_eq, nat_eq, pos, contains, map, arith, eq_iff, ne_of_beq,
  Bool-cases, All, length, take_all, drop_all,
}
use go_cloud_des.ControlPlane.Scheduler.{
  Scheduler, Turn, turn, turns, ScaleOutRequest, maybe_request_scale_out, run_batch, run_once,
}
use go_cloud_des.ControlPlane.PendingQueue.{
  ScheduleExperimentRecord, PendingQueue, len, pop_batch, record_key, queue_key, keys, batch_size,
}
use go_cloud_des.ControlPlane.PendingQueue.Invariant.{
  IsSynced, pop_batch_lem, pop-IsSynced, without_all,
}
use go_cloud_des.ControlPlane.PendingQueue.Keys.{ColonFree, queue_key-injective}
use go_cloud_des.ControlPlane.Repository.{delivered}
use go_cloud_des.ControlPlane.Repository.Transitions.{pending_count}
use go_cloud_des.ControlPlane.Scheduler.Carries.{Carries, turn-Carries}

-- The experiment is not PENDING, or it is queued, or it is among the records.
abbrev pub Awaits : String → String → Scheduler → List ScheduleExperimentRecord → Type 0
Awaits h e s rs =
    (pending_count s.db h e ≡ 0)
    ⊎ (contains (queue_key h e) (keys s.queue) ≡ true)
    ⊎ (contains (queue_key h e) (map record_key rs) ≡ true)

Carries-Awaits :
    (h e : String) (r : ScheduleExperimentRecord) (rs : List ScheduleExperimentRecord)
    (s s' : Scheduler)
    → ColonFree h
    → ColonFree r.model_hash
    → Carries r s s'
    → Awaits h e s (r ∷ rs)
    → Awaits h e s' rs
Carries-Awaits h e r rs s s' free free' c w = elim (Bool-cases (record_key r == queue_key h e)) [
  | inl same ↦
      let k : record_key r ≡ queue_key h e = (eq_iff (record_key r) (queue_key h e)).0 same in
      let (hash, experiment) =
        queue_key-injective h r.model_hash e r.experiment_id free free' (sym k) in
      elim c.own [
        | inl none_left ↦ inl (rw (hash, experiment) none_left)
        | inr waits ↦ inr (inl (rw k at waits))
      ]
  | inr other ↦
      let apart : ¬ ((h ≡ r.model_hash) × (e ≡ r.experiment_id)) =
        λ p. ne_of_beq (record_key r) (queue_key h e) other (rw (p.0, p.1) refl) in
      elim w [
        | inl none_left ↦ inl (c.others h e apart ∙ none_left)
        | inr (inl waits) ↦ inr (inl (c.stays (queue_key h e) waits))
        | inr (inr left) ↦ inr (inr (rw other at left))
      ]
]

turns-Awaits :
    (h e : String) (ts : ℕ → Turn) (i : ℕ) (s : Scheduler) (rs : List ScheduleExperimentRecord)
    (no_node : ℕ) (first : Option ScheduleExperimentRecord)
    → ColonFree h
    → ((j : ℕ) → (ts j).mark ≡ delivered)
    → All (λ r. ColonFree r.model_hash) rs
    → IsSynced s.queue
    → Awaits h e s rs
    → let s' = (turns ts i s rs no_node first).0 in IsSynced s'.queue × Awaits h e s' []
unfolding turns
turns-Awaits h e ts i s [] no_node first free works frees v w = (v, w)
turns-Awaits h e ts i s (r ∷ rs) no_node first free works frees v w =
    let c = turn-Carries (ts i) r s (works i) v in
    let s' = (turn (ts i) s r).0 in
    turns-Awaits h e ts (i + 1) s' rs _ _ free works frees.1 c.synced
      (Carries-Awaits h e r rs s s' free frees.0 c w)

-- What stays of the state when a request is sent.
maybe-same :
    (now : ℕ) (s : Scheduler) (first : Option ScheduleExperimentRecord)
    → let s' = (maybe_request_scale_out now s first).0 in (s'.queue ≡ s.queue) × (s'.db ≡ s.db)
unfolding maybe_request_scale_out
maybe-same now s none = (refl, refl)
maybe-same now s (some r) = elim (Bool-cases s.provisioner) [
  | inr e ↦ rw e (refl, refl)
  | inl e ↦ elim (Bool-cases (ltb (now - r.pending_since) s.cfg.scale_out_after)) [
    | inl f ↦ rw (e, f) (refl, refl)
    | inr f ↦
        elim (Bool-cases
          (not (s.last_scale_out == 0) && ltb (now - s.last_scale_out) s.cfg.scale_out_cooldown)) [
            | inl g ↦ rw (e, f, g) (refl, refl)
            | inr g ↦ rw (e, f, g) (refl, refl)
          ]
  ]
]

run_batch-Awaits :
    (h e : String) (ts : ℕ → Turn) (now : ℕ) (s : Scheduler) (rs : List ScheduleExperimentRecord)
    → ColonFree h
    → ((j : ℕ) → (ts j).mark ≡ delivered)
    → All (λ r. ColonFree r.model_hash) rs
    → IsSynced s.queue
    → Awaits h e s rs
    → let s' = (run_batch ts now s rs).0 in IsSynced s'.queue × Awaits h e s' []
unfolding run_batch
run_batch-Awaits h e ts now s rs free works frees v w =
    let (v', w') = turns-Awaits h e ts 0 s rs 0 none free works frees v w in
    let (s', no_node, first) = turns ts 0 s rs 0 none in
    let (q, d) = maybe-same now s' first in
    elim (Bool-cases (ltb 0 no_node)) [
      | inl e ↦ rw e (rw q v', rw (q, d) w')
      | inr e ↦ rw e (v', w')
    ]

whole_batch : (n : ℕ) → batch_size (pos n) n ≡ n
unfolding batch_size
whole_batch n = ground arith

abbrev emptied : PendingQueue → PendingQueue
emptied q = record { items = []; index = without_all q.index q.items }

pop_all : (q : PendingQueue) → pop_batch q (pos (len q)) ≡ some (emptied q, q.items)
unfolding len
pop_all q =
    rw (whole_batch (length q.items), take_all q.items, drop_all q.items) at
      (pop_batch_lem q (pos (length q.items)))

emptied-IsSynced : (q : PendingQueue) → IsSynced q → IsSynced (emptied q)
emptied-IsSynced q v =
    rw (take_all q.items, drop_all q.items) at (pop-IsSynced (length q.items) q.items q.index v)

-- RunOnce returns, and loses no experiment that waits: if it was queued, then after the tick it is
-- queued again or it is not PENDING any more. This holds whatever the nodes and the dispatchers answer
-- and whether TryMarkExperimentStarting works, where the statements of MarkExperimentPending and
-- MarkExperimentFailedToStart work and no model hash has a colon.
pub run_once-Awaits :
    (h e : String) (ts : ℕ → Turn) (now : ℕ) (s : Scheduler)
    → ColonFree h
    → ((j : ℕ) → (ts j).mark ≡ delivered)
    → All (λ r. ColonFree r.model_hash) s.queue.items
    → IsSynced s.queue
    → Awaits h e s []
    → (out : Scheduler × Option ScaleOutRequest) × (run_once ts now s ≡ some out)
      × IsSynced out.0.queue
      × Awaits h e out.0 []
unfolding run_once
run_once-Awaits h e ts now s free works frees v w =
    let s' : Scheduler = record s { queue = emptied s.queue } in
    let rest =
      run_batch-Awaits h e ts now s' s.queue.items free works frees (emptied-IsSynced s.queue v)
        (elim w [
          | inl none_left ↦ inl none_left
          | inr (inl waits) ↦ inr (inr waits)
          | inr (inr left) ↦ absurd (cc)
        ]) in
    (run_batch ts now s' s.queue.items, rw (pop_all s.queue, run_once) refl, rest.0, rest.1)
