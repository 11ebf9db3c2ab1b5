-- ===== src/Codegen/EventQueue.antt =====
-- codegen/container/binary.go: the events of a simulation in a heap with four children to a node. A
-- float64 other than NaN is its place in the order of the float64 values, from -Inf as 0, so that
-- comparisons are those of numbers. A handler is a handle. A method that mutates the queue returns the
-- new one, and `none` is a panic of an index out of range.
pub mod Order
pub mod Array
pub mod Sifting
pub mod Sinking
pub mod Contract
pub mod Draining
use go_cloud_des.Prelude.{
  ℕ, zero, suc, ◌+◌, ◌-◌, ◌*◌, ◌/◌, Bool, true, false, Option, none, some, List, [], ◌∷◌, ◌++◌,
  ◌==◌, nat_eq, if◌then◌else◌, ltb, leb, length, take,
}
use go_cloud_des.Codegen.Slices.{get_elem?, set_elem, one}

pub record Event : Type 0 where
  pub time : ℕ
  pub handler : Option ℕ

pub record EventQueue : Type 0 where
  pub nodes : List Event

unfoldable pub new_event_queue : ℕ → EventQueue
new_event_queue capacity = record { nodes = [] }

unfoldable pub len : EventQueue → ℕ
len q = length q.nodes

-- The place of -1.0.
abbrev pub minus_one : ℕ
minus_one = 0x4000000000000000

-- Goes on with two values that were read, or panics.
abbrev pub both {ℓ κ} :
    {A : Type ℓ} {B : Type κ} → Option A → Option A → (A → A → Option B) → Option B
both none b k = none
both (some a) none k = none
both (some a) (some b) k = k a b

-- `q.nodes[i], q.nodes[j] = q.nodes[j], q.nodes[i]`
unfoldable pub swap : List Event → ℕ → ℕ → Option (List Event)
unfolding get_elem? set_elem
swap nodes i j =
    both (get_elem? nodes i) (get_elem? nodes j) (λ a b. some (set_elem (set_elem nodes i b) j a))

-- The loop of siftUp. It ends within `idx` rounds; `none` is a panic, or the end of the fuel.
unfoldable pub sift_up : ℕ → List Event → ℕ → Option (List Event)
unfolding get_elem? swap
sift_up zero nodes idx = if ltb 0 idx then none else some nodes
sift_up (suc fuel) nodes idx =
    let parent = (idx - 1) / 4 in
    if ltb 0 idx
    then both (get_elem? nodes idx) (get_elem? nodes parent) (λ a b. elim (leb b.time a.time) [
      | true ↦ some nodes
      | false ↦ elim (swap nodes idx parent) [
        | none ↦ none
        | some nodes' ↦ sift_up fuel nodes' parent
      ]
    ])
    else some nodes

-- The nested tests of siftDown on the children in turn: each is read only if the one before it is
-- there.
unfoldable pub min_index : List Event → List ℕ → ℕ → Option ℕ
unfolding get_elem?
min_index nodes [] min_idx = some min_idx
min_index nodes (child ∷ children) min_idx =
    if ltb child (length nodes)
    then both (get_elem? nodes child) (get_elem? nodes min_idx)
        (λ a b. min_index nodes children (if ltb a.time b.time then child else min_idx))
    else some min_idx

abbrev pub from : ℕ → ℕ → List ℕ
from i zero = []
from i (suc k) = i ∷ from (suc i) k

-- `4*idx+1` to `4*idx+4`.
abbrev pub children : ℕ → List ℕ
children idx = from (4 * idx + 1) 4

-- The loop of siftDown. It ends within as many rounds as there are nodes from `idx` on.
unfoldable pub sift_down : ℕ → List Event → ℕ → Option (List Event)
sift_down zero nodes idx = if ltb (4 * idx + 1) (length nodes) then none else some nodes
sift_down (suc fuel) nodes idx =
    if ltb (4 * idx + 1) (length nodes)
    then elim (min_index nodes (children idx) idx) [
      | none ↦ none
      | some min_idx ↦ elim (min_idx == idx) [
        | true ↦ some nodes
        | false ↦ elim (swap nodes idx min_idx) [
          | none ↦ none
          | some nodes' ↦ sift_down fuel nodes' min_idx
        ]
      ]
    ]
    else some nodes

abbrev pub queue_of : Option (List Event) → Option EventQueue
queue_of none = none
queue_of (some nodes) = some (record { nodes = nodes })

unfoldable pub push : EventQueue → Event → Option EventQueue
unfolding sift_up
push q e =
    let nodes = q.nodes ++ e ∷ [] in queue_of (sift_up (length nodes - 1) nodes (length nodes - 1))

-- The last node takes the place of the first, and the slice loses its last place.
unfoldable pub pop_nodes : List Event → Option (Event × List Event)
unfolding get_elem? set_elem
pop_nodes nodes =
    let last_idx = length nodes - 1 in
    both (get_elem? nodes 0) (get_elem? nodes last_idx)
      (λ result last. some (result, take last_idx (set_elem nodes 0 last)))

unfoldable pub pop : EventQueue → Option (EventQueue × Event)
unfolding pop_nodes sift_down
pop q =
    if length q.nodes == 0
    then some (q, record { time = minus_one; handler = none })
    else elim (pop_nodes q.nodes) [
      | none ↦ none
      | some (result, nodes) ↦
          elim (if ltb 0 (length nodes) then sift_down (length nodes) nodes 0 else some nodes) [
            | none ↦ none
            | some nodes' ↦ some (record { nodes = nodes' }, result)
          ]
    ]
