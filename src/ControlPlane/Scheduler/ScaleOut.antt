-- ===== src/ControlPlane/Scheduler/ScaleOut.antt =====
-- The scale-out requests of controlplane/scheduler.go over its whole life.
use go_cloud_des.Prelude.{
  ℕ, ◌+◌, ◌-◌, ◌≡◌, ◌≤◌, ◌<◌, ◌⊎◌, inl, inr, refl, sym, ap, ◌∙◌, String, Bool, true, false, ◌&&◌,
  not, Option, none, some, List, [], ◌∷◌, ◌==◌, ltb, string_eq, nat_eq, pos, arith, Bool-cases,
  Option-cases,
}
use go_cloud_des.ControlPlane.Scheduler.{
  requeue, give_up, refused, place, StartOutcome, accepted, retryable, fatal, already_running,
  ambiguous, Scheduler, Turn, settle, acquire, turn, turns, ScaleOutRequest,
  maybe_request_scale_out, run_batch, run_once, remove,
}
use go_cloud_des.ControlPlane.PendingQueue.{ScheduleExperimentRecord, enqueue_many, len, pop_batch}
use go_cloud_des.ControlPlane.NodeRegistry.{NodeStatus}
use go_cloud_des.ControlPlane.Repository.{Database}

pub data Event : Type 0 where
  enqueues : ℕ → List (Option ScheduleExperimentRecord) → Event
  ticks : (ℕ → Turn) → ℕ → Event
  removes : String → String → Event

-- What a call of the scheduler never changes, scale-out aside.
record Keeps (s s' : Scheduler) : Type 0 where
  same_cfg : s'.cfg ≡ s.cfg
  same_last : s'.last_scale_out ≡ s.last_scale_out

Keeps-refl : (s : Scheduler) → Keeps s s
Keeps-refl s = record { same_cfg = refl; same_last = refl }

requeue-Keeps :
    (t : Turn) (s : Scheduler) (r : ScheduleExperimentRecord) (a : Database × Option String)
    → Keeps s (requeue t s r a)
unfolding requeue
requeue-Keeps t s r (db, none) = record { same_cfg = refl; same_last = refl }
requeue-Keeps t s r (db, some e) = record { same_cfg = refl; same_last = refl }

give_up-Keeps :
    (t : Turn) (s : Scheduler) (r : ScheduleExperimentRecord) (a : Database × Option String)
    → Keeps s (give_up t s r a)
unfolding give_up
give_up-Keeps t s r (db, none) = record { same_cfg = refl; same_last = refl }
give_up-Keeps t s r (db, some e) = record { same_cfg = refl; same_last = refl }

settle-Keeps :
    (t : Turn) (s : Scheduler) (r : ScheduleExperimentRecord) (node : NodeStatus)
    (o : StartOutcome × String)
    → Keeps s (settle t s r node o)
unfolding settle
settle-Keeps t s r node (accepted, message) = record { same_cfg = refl; same_last = refl }
settle-Keeps t s r node (retryable, message) =
    let k = requeue-Keeps t (refused s r node) r _ in
    record { same_cfg = k.same_cfg; same_last = k.same_last }
settle-Keeps t s r node (fatal, message) =
    let k = give_up-Keeps t (refused s r node) r _ in
    record { same_cfg = k.same_cfg; same_last = k.same_last }
settle-Keeps t s r node (already_running, message) = record { same_cfg = refl; same_last = refl }
settle-Keeps t s r node (ambiguous, message) = record { same_cfg = refl; same_last = refl }

acquire-Keeps :
    (t : Turn) (s : Scheduler) (r : ScheduleExperimentRecord) (node : NodeStatus)
    (a : Bool × Option String)
    → Keeps s (acquire t s r node a)
unfolding acquire
acquire-Keeps t s r node (b, some err) = record { same_cfg = refl; same_last = refl }
acquire-Keeps t s r node (false, none) = record { same_cfg = refl; same_last = refl }
acquire-Keeps t s r node (true, none) = settle-Keeps t s r node _

place-Keeps :
    (t : Turn) (s : Scheduler) (r : ScheduleExperimentRecord) (o : Option NodeStatus)
    → Keeps s (place t s r o).0
unfolding place
place-Keeps t s r none = record { same_cfg = refl; same_last = refl }
place-Keeps t s r (some node) =
    let k = acquire-Keeps t (record s { db = _ }) r node _ in
    record { same_cfg = k.same_cfg; same_last = k.same_last }

turn-Keeps : (t : Turn) (s : Scheduler) (r : ScheduleExperimentRecord) → Keeps s (turn t s r).0
unfolding turn
turn-Keeps t s r =
    let k = place-Keeps t (record s { nodes = _ }) r _ in
    record { same_cfg = k.same_cfg; same_last = k.same_last }

turns-Keeps :
    (ts : ℕ → Turn) (i : ℕ) (s : Scheduler) (rs : List ScheduleExperimentRecord) (no_node : ℕ)
    (first : Option ScheduleExperimentRecord)
    → Keeps s (turns ts i s rs no_node first).0
unfolding turns
turns-Keeps ts i s [] no_node first = Keeps-refl s
turns-Keeps ts i s (r ∷ rs) no_node first =
    let k = turn-Keeps (ts i) s r in
    let k' = turns-Keeps ts (i + 1) (turn (ts i) s r).0 rs _ _ in
    record { same_cfg = k'.same_cfg ∙ k.same_cfg; same_last = k'.same_last ∙ k.same_last }

-- What a call of RunOnce does to the time of the last request.
abbrev pub Paced : ℕ → Scheduler → Scheduler × Option ScaleOutRequest → Type 0
Paced now s (s', none) = (s'.cfg ≡ s.cfg) × (s'.last_scale_out ≡ s.last_scale_out)
Paced now s (s', some request) =
    (s'.cfg ≡ s.cfg)
    × (s'.last_scale_out ≡ now)
    × ((s.last_scale_out ≡ 0) ⊎ (s.cfg.scale_out_cooldown ≤ now - s.last_scale_out))

maybe-Paced :
    (now : ℕ) (s : Scheduler) (first : Option ScheduleExperimentRecord)
    → Paced now s (maybe_request_scale_out now s first)
unfolding maybe_request_scale_out
maybe-Paced now s none = (refl, refl)
maybe-Paced now s (some r) = elim (Bool-cases s.provisioner) [
  | inr e ↦ rw e (refl, refl)
  | inl e ↦ elim (Bool-cases (ltb (now - r.pending_since) s.cfg.scale_out_after)) [
    | inl f ↦ rw (e, f) (refl, refl)
    | inr f ↦
        elim (Bool-cases
          (not (s.last_scale_out == 0) && ltb (now - s.last_scale_out) s.cfg.scale_out_cooldown)) [
            | inl g ↦ rw (e, f, g) (refl, refl)
            | inr g ↦ rw (e, f, g) (refl, refl, ground arith)
          ]
  ]
]

Paced-from :
    (now : ℕ) (s s' : Scheduler)
    → Keeps s s'
    → (o : Scheduler × Option ScaleOutRequest) → Paced now s' o
    → Paced now s o
Paced-from now s s' k (s'', none) p = (p.0 ∙ k.same_cfg, p.1 ∙ k.same_last)
Paced-from now s s' k (s'', some request) (c, l, gap) =
    (c ∙ k.same_cfg, l, rw (k.same_last, k.same_cfg) at gap)

run_batch-Paced :
    (ts : ℕ → Turn) (now : ℕ) (s : Scheduler) (rs : List ScheduleExperimentRecord)
    → Paced now s (run_batch ts now s rs)
unfolding run_batch
run_batch-Paced ts now s rs =
    let (s', no_node, first) = turns ts 0 s rs 0 none in
    let k = turns-Keeps ts 0 s rs 0 none in
    elim (Bool-cases (ltb 0 no_node)) [
      | inr e ↦ rw e (k.same_cfg, k.same_last)
      | inl e ↦
          rw e (
            Paced-from now s s' k (maybe_request_scale_out now s' first) (maybe-Paced now s' first))
    ]

run_once-Paced :
    (ts : ℕ → Turn) (now : ℕ) (s : Scheduler) (out : Scheduler × Option ScaleOutRequest)
    → run_once ts now s ≡ some out
    → Paced now s out
unfolding run_once
run_once-Paced ts now s out e = elim (Option-cases (pop_batch s.queue (pos (len s.queue)))) [
  | inl panics ↦ absurd (cc (rw (panics, run_once) at e))
  | inr ((queue, rs), popped) ↦
      let s' = record s { queue = queue } in
      let q : run_batch ts now s' rs ≡ out = cc (rw (popped, run_once) at e) in
      rw (sym q) (
        Paced-from now s s' (record { same_cfg = refl; same_last = refl }) (run_batch ts now s' rs)
          (run_batch-Paced ts now s' rs))
]

-- The times of the requests that the events of a scheduler send, until a panic.
unfoldable pub requests : Scheduler → List Event → List ℕ
requests s [] = []
requests s (enqueues now rs ∷ es) =
    requests (record s { queue = (enqueue_many now s.queue rs).0 }) es
requests s (removes h e ∷ es) = requests (remove s h e).0 es
requests s (ticks ts now ∷ es) = elim (run_once ts now s) [
  | none ↦ []
  | some (s', o) ↦ let rest = requests s' es in elim o [ none ↦ rest | some r ↦ now ∷ rest ]
]

-- The clock does not run backwards, nor show the zero time.
abbrev pub Clock : ℕ → List Event → Type 0
Clock since [] = Unit
Clock since (ticks ts now ∷ es) = (0 < now) × (since ≤ now) × Clock now es
Clock since (enqueues now rs ∷ es) = Clock since es
Clock since (removes h e ∷ es) = Clock since es

-- Each time is `gap` or more after the one before it; `last` is the one before the first, if any.
abbrev pub Spaced : ℕ → ℕ → List ℕ → Type 0
Spaced gap last [] = Unit
Spaced gap last (t ∷ ts) = ((last ≡ 0) ⊎ (last + gap ≤ t)) × (0 < t) × Spaced gap t ts

abbrev times_of : ℕ → List ℕ → Option ScaleOutRequest → List ℕ
times_of now rest o = elim o [ none ↦ rest | some r ↦ now ∷ rest ]

tick :
    (s s' : Scheduler) (now : ℕ) (later : List ℕ) (o : Option ScaleOutRequest)
    → Paced now s (s', o)
    → 0 < now
    → s.last_scale_out ≤ now
    → (s'.last_scale_out ≤ now → Spaced s'.cfg.scale_out_cooldown s'.last_scale_out later)
    → Spaced s.cfg.scale_out_cooldown s.last_scale_out (times_of now later o)
tick s s' now later none (c, l) shown before rest = rw (c, l) at (rest (omega (arith, before, l)))
tick s s' now later (some r) (c, l, gap) shown before rest =
    (ground arith, shown, rw (c, l) at (rest (omega (arith, l))))

requests-ticks :
    (s : Scheduler) (ts : ℕ → Turn) (now : ℕ) (es : List Event)
    (a : Option (Scheduler × Option ScaleOutRequest))
    → run_once ts now s ≡ a
    → requests s (ticks ts now ∷ es)
      ≡ (elim a [ none ↦ [] | some out ↦ times_of now (requests out.0 es) out.1 ])
unfolding requests
requests-ticks s ts now es a e =
    ap
      (λ a. elim a as (λ x. List ℕ) [
        | none ↦ []
        | some out ↦ times_of now (requests out.0 es) out.1
      ])
      e

-- Between two scale-out requests the cooldown passes, whatever is enqueued, removed and scheduled,
-- and whatever the dispatchers and the database answer, on a clock that does not run backwards.
pub requests-Spaced :
    (s : Scheduler) (since : ℕ) (es : List Event)
    → s.last_scale_out ≤ since
    → Clock since es
    → Spaced s.cfg.scale_out_cooldown s.last_scale_out (requests s es)
unfolding requests remove
requests-Spaced s since [] before clock = tt
requests-Spaced s since (enqueues now rs ∷ es) before clock =
    requests-Spaced (record s { queue = (enqueue_many now s.queue rs).0 }) since es before clock
requests-Spaced s since (removes h e ∷ es) before clock =
    requests-Spaced (remove s h e).0 since es before clock
requests-Spaced s since (ticks ts now ∷ es) before clock = elim (Option-cases (run_once ts now s)) [
  | inl panics ↦ rw (requests-ticks s ts now es none panics) tt
  | inr ((s', o), runs) ↦ rw (requests-ticks s ts now es (some (s', o)) runs) (
      tick s s' now (requests s' es) o (run_once-Paced ts now s (s', o) runs) clock.0
        (omega (arith, before, clock.1)) (λ b. requests-Spaced s' now es b clock.2))
]
