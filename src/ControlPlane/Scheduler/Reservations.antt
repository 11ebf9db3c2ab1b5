-- ===== src/ControlPlane/Scheduler/Reservations.antt =====
-- The reservations that one turn of RunOnce of controlplane/scheduler.go leaves on the node it picks.
use go_cloud_des.Prelude.{
  ℕ, ◌+◌, ◌%◌, ◌≡◌, ◌⊎◌, inl, inr, refl, ap, ◌∙◌, String, Bool, true, false, Option, none, some,
  List, ◌==◌, leb, string_eq, nat_eq, u32_mod, arith, beq_refl, Bool-cases, Option-cases, add32,
}
use go_cloud_des.Dict
use go_cloud_des.Dict.{Dict}
use go_cloud_des.ControlPlane.Scheduler.{
  requeue, give_up, refused, place, StartOutcome, accepted, retryable, fatal, already_running,
  ambiguous, Scheduler, start_experiment_on_node, Turn, settle, acquire, turn, released,
}
use go_cloud_des.Dict.{get-put, get-remove, get-put_self}
use go_cloud_des.ControlPlane.PendingQueue.{ScheduleExperimentRecord}
use go_cloud_des.ControlPlane.NodeRegistry.{
  NodeStatus, NodeRecord, NodeRegistry, pick_and_reserve, reserve, mark_node_failed,
  mark_node_succeeded,
}
use go_cloud_des.ControlPlane.NodeRegistry.Picking.{picked}
use go_cloud_des.ControlPlane.NodeRegistry.Reservations.{IsKeyed, HasRoom, release-pick}
use go_cloud_des.ControlPlane.Repository.{Database}
use go_cloud_des.ControlPlane.Repository.Statements.{try_mark_experiment_starting}

-- The slots and the bytes that are reserved on a node.
abbrev pub reservation_of : Option NodeRecord → Option (ℕ × ℕ)
reservation_of none = none
reservation_of (some rec) = some (rec.reserved_slots, rec.reserved_memory_bytes)

abbrev pub reservation : NodeRegistry → String → Option (ℕ × ℕ)
reservation nodes id = reservation_of (Dict.get nodes.nodes id)

-- What becomes of the reservation of a turn.
pub data Fate : Type 0 where
  given_back kept doubtful : Fate

abbrev pub fate_of : StartOutcome → Fate
fate_of accepted = kept
fate_of retryable = given_back
fate_of fatal = given_back
fate_of already_running = kept
fate_of ambiguous = doubtful

-- By the answer of TryMarkExperimentStarting and the reply of the dispatcher.
abbrev pub fate : Turn → Bool × Option String → Fate
fate t (acquired, some err) = given_back
fate t (false, none) = given_back
fate t (true, none) = fate_of (start_experiment_on_node t.reply).0

-- The reservation before and after. Of a doubtful start the whole record may be gone.
abbrev pub Balance : Fate → ℕ → Option (ℕ × ℕ) → Option (ℕ × ℕ) → Type 0
Balance given_back limit before later = later ≡ before
Balance kept limit before later =
    (slots bytes : ℕ) × (before ≡ some (slots, bytes)) × (later ≡ some (slots + 1, bytes + limit))
Balance doubtful limit before later =
    (later ≡ none)
    ⊎ ((slots bytes : ℕ) × (before ≡ some (slots, bytes))
        × (later ≡ some (slots + 1, bytes + limit)))

succeeded-reservation :
    (r : NodeRegistry) (id : String) → reservation (mark_node_succeeded r id) id ≡ reservation r id
unfolding mark_node_succeeded
succeeded-reservation r id = elim (Option-cases (Dict.get r.nodes id)) [
  | inl absent ↦ rw (absent, mark_node_succeeded) (rw absent refl)
  | inr (rec, found) ↦ elim (Bool-cases (rec.failure_count == 0)) [
    | inl clear ↦ rw (found, mark_node_succeeded) (rw clear (rw found refl))
    | inr failed ↦ rw (found, mark_node_succeeded) (rw (failed, get-put, beq_refl id) refl)
  ]
]

failed-reservation :
    (r : NodeRegistry) (id : String) (max : ℕ)
    → let later = reservation (mark_node_failed r id max).0 id in
      (later ≡ none) ⊎ (later ≡ reservation r id)
unfolding mark_node_failed
failed-reservation r id max = elim (Option-cases (Dict.get r.nodes id)) [
  | inl absent ↦ rw (absent, mark_node_failed) (inl (rw absent refl))
  | inr (rec, found) ↦ elim (Bool-cases (leb max (add32 rec.failure_count 1))) [
    | inl over ↦ rw (found, mark_node_failed) (rw (over, get-remove, beq_refl id) (inl refl))
    | inr under ↦ rw (found, mark_node_failed) (rw (under, get-put, beq_refl id) (inr refl))
  ]
]

picked-reservation :
    (now : ℕ) (order : List String) (r r' : NodeRegistry) (goos goarch : String) (limit : ℕ)
    (node : NodeStatus)
    → IsKeyed r.nodes
    → HasRoom limit r.nodes
    → pick_and_reserve now order r goos goarch limit ≡ (r', some node)
    → Balance kept limit (reservation r node.node_id) (reservation r' node.node_id)
unfolding reserve
picked-reservation now order r r' goos goarch limit node keyed room e =
    let c = picked now order r r' goos goarch limit node e in
    let k : node.node_id ≡ c.id = keyed c.id c.rec node c.found c.host.known in
    let (s, m) = room c.id c.rec c.found in
    let held : Dict.get r'.nodes node.node_id ≡ some (reserve limit c.rec) = rw k c.reserved in
    let was : Dict.get r.nodes node.node_id ≡ some c.rec = rw k c.found in
    (c.rec.reserved_slots, c.rec.reserved_memory_bytes, rw was refl, rw held (ground arith))

requeue-nodes :
    (t : Turn) (s : Scheduler) (r : ScheduleExperimentRecord) (a : Database × Option String)
    → (requeue t s r a).nodes ≡ s.nodes
unfolding requeue
requeue-nodes t s r (db, none) = refl
requeue-nodes t s r (db, some e) = refl

give_up-nodes :
    (t : Turn) (s : Scheduler) (r : ScheduleExperimentRecord) (a : Database × Option String)
    → (give_up t s r a).nodes ≡ s.nodes
unfolding give_up
give_up-nodes t s r (db, none) = refl
give_up-nodes t s r (db, some e) = refl

module _ (t : Turn) (r : ScheduleExperimentRecord) (node : NodeStatus)
    (before : Option (ℕ × ℕ)) where
  -- The state after the pick: releasing gives back what was reserved before.
  record Picked (s : Scheduler) : Type 0 where
    back : reservation (released s node r) node.node_id ≡ before
    reserved : Balance kept r.memory_limit_bytes before (reservation s.nodes node.node_id)

  refused-back :
      (s : Scheduler) → Picked s → reservation (refused s r node).nodes node.node_id ≡ before
  refused-back s p = succeeded-reservation (released s node r) node.node_id ∙ p.back

  succeeded-kept :
      (s : Scheduler)
      → Picked s
      → Balance kept r.memory_limit_bytes before
          (reservation (mark_node_succeeded s.nodes node.node_id) node.node_id)
  succeeded-kept s p = rw (succeeded-reservation s.nodes node.node_id) p.reserved

  settle-Balance :
      (s : Scheduler) (o : StartOutcome × String)
      → Picked s
      → Balance
          (fate_of o.0)
          r.memory_limit_bytes
          before
          (reservation (settle t s r node o).nodes node.node_id)
  unfolding settle
  settle-Balance s (accepted, message) p = succeeded-kept s p
  settle-Balance s (already_running, message) p = succeeded-kept s p
  settle-Balance s (retryable, message) p =
      rw (requeue-nodes t (refused s r node) r _) (refused-back s p)
  settle-Balance s (fatal, message) p =
      rw (give_up-nodes t (refused s r node) r _) (refused-back s p)
  settle-Balance s (ambiguous, message) p =
      elim (failed-reservation s.nodes node.node_id (s.cfg.max_node_failures % u32_mod)) [
        | inl gone ↦ inl gone
        | inr same ↦ inr (rw same p.reserved)
      ]

  acquire-Balance :
      (s : Scheduler) (a : Bool × Option String)
      → Picked s
      → Balance
          (fate t a)
          r.memory_limit_bytes
          before
          (reservation (acquire t s r node a).nodes node.node_id)
  unfolding acquire
  acquire-Balance s (acquired, some err) p = p.back
  acquire-Balance s (false, none) p = p.back
  acquire-Balance s (true, none) p = settle-Balance s (start_experiment_on_node t.reply) p

-- Where every record stands under its node's identifier and every node has room below 2^64 for one
-- more slot and the limit, a turn that has picked a node gives the slot and the limit back unless the start was claimed and
-- the dispatcher has, or may have, the experiment: then they stay reserved. Only after a failed call of
-- the dispatcher may the node be gone instead.
pub turn-Balance :
    (t : Turn) (s : Scheduler) (r : ScheduleExperimentRecord) (nodes : NodeRegistry)
    (node : NodeStatus)
    → IsKeyed s.nodes.nodes
    → HasRoom r.memory_limit_bytes s.nodes.nodes
    → pick_and_reserve t.now t.order s.nodes r.goos r.goarch r.memory_limit_bytes
      ≡ (nodes, some node)
    → let answer =
        (try_mark_experiment_starting t.db_now t.starting s.db r.model_hash r.experiment_id
          node.node_id).1 in
      Balance
        (fate t answer)
        r.memory_limit_bytes
        (reservation s.nodes node.node_id)
        (reservation (turn t s r).0.nodes node.node_id)
unfolding turn place
turn-Balance t s r nodes node keyed room picks =
    let (db, answer) =
      try_mark_experiment_starting t.db_now t.starting s.db r.model_hash r.experiment_id
        node.node_id in
    let s' : Scheduler = record s { nodes = nodes; db = db } in
    let b = acquire-Balance t r node (reservation s.nodes node.node_id) s' answer (record {
      back = ap reservation_of (
          release-pick t.now t.order s.nodes nodes r.goos r.goarch r.memory_limit_bytes node keyed
            room picks);
      reserved =
          picked-reservation t.now t.order s.nodes nodes r.goos r.goarch r.memory_limit_bytes node
            keyed room picks;
    }) in
    rw (picks, turn) b
