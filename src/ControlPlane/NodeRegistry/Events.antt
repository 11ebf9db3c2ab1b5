-- ===== src/ControlPlane/NodeRegistry/Events.antt =====
-- Every record of the registry stands under the identifier of its own node, after any events.
use go_cloud_des.Prelude.{
  ℕ, ◌≡◌, inl, inr, refl, String, Bool, true, false, Option, none, some, List, [], ◌∷◌, arith,
  if◌then◌else◌, string_eq, eq_iff, Option-cases, Bool-cases, ◌==◌, ◌∙◌, sym, ◌||◌, ◌++◌, nat_eq,
  add32, leb,
}
use go_cloud_des.ControlPlane.NodeRegistry.Reservations.{IsKeyed}
use go_cloud_des.Strings.{trim_space}
use go_cloud_des.Dict
use go_cloud_des.Dict.{Dict, get-put, get-remove, get-empty}
use go_cloud_des.ControlPlane.NodeRegistry.{
  NodeStatus, NodeRecord, NodeRegistry, new_node_registry, pick_and_reserve, reserve, released,
  release_reservation, register, heartbeat, seen, mark_node_failed, mark_node_succeeded, remove,
  update, add32, is_expired, leb, clone_node_status,
}
use go_cloud_des.ControlPlane.NodeRegistry.Listing.{list, get, list_loop, filtered_out}
use go_cloud_des.ControlPlane.NodeRegistry.Picking.{outcome, Outcome}

-- The events of the registry, with the time or the order of a loop where the code takes one.
pub data Event : Type 0 where
  registers heartbeats : ℕ → Option NodeStatus → Event
  picks : ℕ → List String → String → String → ℕ → Event
  releases : String → ℕ → Event
  removes succeeds : String → Event
  fails : String → ℕ → Event
  lists : ℕ → List String → String → Event
  gets : ℕ → String → Event

pub step : NodeRegistry → Event → NodeRegistry
step r (registers now node) = (register now r node).0
step r (heartbeats now node) = (heartbeat now r node).0
step r (picks now order goos goarch limit) = (pick_and_reserve now order r goos goarch limit).0
step r (releases id limit) = release_reservation r id limit
step r (removes id) = remove r id
step r (succeeds id) = mark_node_succeeded r id
step r (fails id max_failures) = (mark_node_failed r id max_failures).0
step r (lists now order status) = (list now order r status).0
step r (gets now id) = (get now r id).0

pub run : NodeRegistry → List Event → NodeRegistry
run r [] = r
run r (e ∷ es) = run (step r e) es

IsKeyed-put :
    (d : Dict String NodeRecord) (id : String) (rec : NodeRecord)
    → ((node : NodeStatus) → rec.node ≡ some node → node.node_id ≡ id)
    → IsKeyed d
    → IsKeyed (Dict.put d id rec)
IsKeyed-put d id rec at k j rec' node e n =
    ground (arith, get-put d id j rec, eq_iff id j, at node, k j rec' node)

IsKeyed-remove : (d : Dict String NodeRecord) (id : String) → IsKeyed d → IsKeyed (Dict.remove d id)
IsKeyed-remove d id k j rec node e n = ground (arith, get-remove d id j, k j rec node)

seen-node :
    (now : ℕ) (node : NodeStatus) (o : Option NodeRecord) → (seen now node o).node ≡ some node
unfolding seen
seen-node now node none = refl
seen-node now node (some rec) = refl

update-IsKeyed :
    (now : ℕ) (r : NodeRegistry) (node : NodeStatus)
    → IsKeyed r.nodes
    → IsKeyed (update now r node).nodes
unfolding update
update-IsKeyed now r node k =
    IsKeyed-put r.nodes node.node_id (seen now node (Dict.get r.nodes node.node_id))
      (λ n e. cc (seen-node now node (Dict.get r.nodes node.node_id))) k

picked-IsKeyed :
    (now : ℕ) (order : List String) (r : NodeRegistry) (goos goarch : String) (limit : ℕ)
    (o : Option NodeStatus)
    → Outcome now r.ttl
        (trim_space goos)
        (trim_space goarch)
        limit
        order
        r.nodes
        ((pick_and_reserve now order r goos goarch limit).0.nodes, o)
    → IsKeyed r.nodes
    → IsKeyed (pick_and_reserve now order r goos goarch limit).0.nodes
picked-IsKeyed now order r goos goarch limit none o k j rec node e n =
    ground (arith, o.others j, k j rec node)
picked-IsKeyed now order r goos goarch limit (some chosen) o k j rec node e n =
    unfold reserve in
    elim (Bool-cases (o.id == j)) [
      | inl same ↦
          let at = (eq_iff o.id j).0 same in ground (arith, at, o.reserved, o.found, k j o.rec node)
      | inr other ↦ ground (arith, eq_iff o.id j, o.others j, k j rec node)
    ]

IsKeyed-put_same :
    (d : Dict String NodeRecord) (id : String) (old rec : NodeRecord)
    → Dict.get d id ≡ some old
    → rec.node ≡ old.node
    → IsKeyed d
    → IsKeyed (Dict.put d id rec)
IsKeyed-put_same d id old rec found same k =
    IsKeyed-put d id rec (λ node e. k id old node found (sym same ∙ e)) k

IsKeyed-if :
    (b : Bool) (d d' : Dict String NodeRecord)
    → IsKeyed d
    → IsKeyed d'
    → IsKeyed (if b then d else d')
IsKeyed-if true d d' k k' = k
IsKeyed-if false d d' k k' = k'

list_loop-IsKeyed :
    (now ttl : ℕ) (out : Bool) (order : List String) (d : Dict String NodeRecord)
    (alive : List (Option NodeStatus)) (evicted : List String)
    → IsKeyed d
    → IsKeyed (list_loop now ttl out order d alive evicted).0
unfolding list_loop
list_loop-IsKeyed now ttl out [] d alive evicted k = k
list_loop-IsKeyed now ttl out (id ∷ order) d alive evicted k = elim (Option-cases (Dict.get d id)) [
  | inl absent ↦ rw (absent, list_loop) (list_loop-IsKeyed now ttl out order d alive evicted k)
  | inr (rec, found) ↦
      let over = is_expired now ttl rec in
      rw (found, list_loop)
        (list_loop-IsKeyed now ttl out order (if over then Dict.remove d id else d)
          (if over || out then alive else alive ++ clone_node_status rec.node ∷ [])
          (if over then evicted ++ id ∷ [] else evicted)
          (IsKeyed-if over (Dict.remove d id) d (IsKeyed-remove d id k) k))
]

release-IsKeyed :
    (r : NodeRegistry) (id : String) (limit : ℕ) (o : Option NodeRecord)
    → Dict.get r.nodes id ≡ o
    → IsKeyed r.nodes
    → IsKeyed (release_reservation r id limit).nodes
unfolding release_reservation
release-IsKeyed r id limit none e k = rw (e, release_reservation) k
release-IsKeyed r id limit (some old) e k =
    rw (e, release_reservation)
      (IsKeyed-put_same r.nodes id old (released limit old) e (unfold released in refl) k)

succeeded-IsKeyed :
    (r : NodeRegistry) (id : String) (o : Option NodeRecord)
    → Dict.get r.nodes id ≡ o
    → IsKeyed r.nodes
    → IsKeyed (mark_node_succeeded r id).nodes
unfolding mark_node_succeeded
succeeded-IsKeyed r id none e k = rw (e, mark_node_succeeded) k
succeeded-IsKeyed r id (some old) e k = elim (Bool-cases (old.failure_count == 0)) [
  | inl clear ↦ rw (e, mark_node_succeeded) (rw clear k)
  | inr failing ↦
      rw (e, mark_node_succeeded)
        (rw failing (IsKeyed-put_same r.nodes id old (record old { failure_count = 0 }) e refl k))
]

failed-IsKeyed :
    (r : NodeRegistry) (id : String) (max_failures : ℕ) (o : Option NodeRecord)
    → Dict.get r.nodes id ≡ o
    → IsKeyed r.nodes
    → IsKeyed (mark_node_failed r id max_failures).0.nodes
unfolding mark_node_failed
failed-IsKeyed r id max_failures none e k = rw (e, mark_node_failed) k
failed-IsKeyed r id max_failures (some old) e k =
    let rec : NodeRecord = record old { failure_count = add32 old.failure_count 1 } in
    let put = IsKeyed-put_same r.nodes id old rec e refl k in
    elim (Bool-cases (leb max_failures (add32 old.failure_count 1))) [
      | inl over ↦
          rw (e, mark_node_failed) (rw over (IsKeyed-remove (Dict.put r.nodes id rec) id put))
      | inr under ↦ rw (e, mark_node_failed) (rw under put)
    ]

get-IsKeyed :
    (now : ℕ) (r : NodeRegistry) (id : String) → IsKeyed r.nodes → IsKeyed (get now r id).0.nodes
unfolding get
get-IsKeyed now r id k j rec node e n = ground (arith, get-remove r.nodes id j, k j rec node)

register-IsKeyed :
    (now : ℕ) (r : NodeRegistry) (node : NodeStatus)
    → IsKeyed r.nodes
    → IsKeyed (register now r (some node)).0.nodes × IsKeyed (heartbeat now r (some node)).0.nodes
unfolding register heartbeat
register-IsKeyed now r node k = (
  λ j rec nd e n. ground (arith, update-IsKeyed now r node k j rec nd, k j rec nd),
  λ j rec nd e n. ground (arith, update-IsKeyed now r node k j rec nd, k j rec nd),
)

step-IsKeyed : (r : NodeRegistry) (e : Event) → IsKeyed r.nodes → IsKeyed (step r e).nodes
unfolding step
step-IsKeyed r (registers now none) k = unfold register in k
step-IsKeyed r (registers now (some node)) k = (register-IsKeyed now r node k).0
step-IsKeyed r (heartbeats now none) k = unfold heartbeat in k
step-IsKeyed r (heartbeats now (some node)) k = (register-IsKeyed now r node k).1
step-IsKeyed r (picks now order goos goarch limit) k =
    picked-IsKeyed now order r goos goarch limit _ (outcome now order r goos goarch limit) k
step-IsKeyed r (releases id limit) k = release-IsKeyed r id limit _ refl k
step-IsKeyed r (removes id) k = unfold remove in IsKeyed-remove r.nodes id k
step-IsKeyed r (succeeds id) k = succeeded-IsKeyed r id _ refl k
step-IsKeyed r (fails id max_failures) k = failed-IsKeyed r id max_failures _ refl k
step-IsKeyed r (lists now order status) k =
    unfold list in list_loop-IsKeyed now r.ttl (filtered_out status) order r.nodes [] [] k
step-IsKeyed r (gets now id) k = get-IsKeyed now r id k

run-IsKeyed : (r : NodeRegistry) (es : List Event) → IsKeyed r.nodes → IsKeyed (run r es).nodes
unfolding run
run-IsKeyed r [] k = k
run-IsKeyed r (e ∷ es) k = run-IsKeyed (step r e) es (step-IsKeyed r e k)

-- Whatever happens to a new registry, every record stands under the identifier of its own node.
pub run-new-IsKeyed : (ttl : ℕ) (es : List Event) → IsKeyed (run (new_node_registry ttl) es).nodes
run-new-IsKeyed ttl es =
    run-IsKeyed (new_node_registry ttl) es
      (unfold new_node_registry in λ id rec node e n. cc (get-empty {V = NodeRecord} id))
