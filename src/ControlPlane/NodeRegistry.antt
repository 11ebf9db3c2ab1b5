-- ===== src/ControlPlane/NodeRegistry.antt =====
-- controlplane/node_registry.go: the dispatcher nodes that the control plane knows, with what it has
-- reserved on each. `time.Now()` is the argument `now`, in nanoseconds, and a loop over the map takes
-- the order of its visits as the argument `order`. A heartbeat is never newer than `now`, and no
-- span reaches 2^63 ns.
pub mod Picking
pub mod Reservations
pub mod Listing
pub mod Events
pub mod Failures
use go_cloud_des.Prelude.{
  ℕ, ◌+◌, ◌-◌, ◌++◌, ◌||◌, ◌≡◌, String, Bool, true, false, ◌&&◌, ◌||◌, not, Option, none, some,
  List, [], ◌∷◌, ◌++◌, arith, ◌==◌, if◌then◌else◌, ltb, leb, add64, add32, string_eq, nat_eq,
}
use go_cloud_des.Strings.{trim_space}
use go_cloud_des.Dict
use go_cloud_des.Dict.{Dict}

-- The fields of the protobuf message.
pub record NodeStatus : Type 0 where
  pub node_id : String
  pub address : String
  pub runtime_goos : String
  pub runtime_goarch : String
  pub total_slots : ℕ
  pub used_slots : ℕ
  pub total_memory_bytes : ℕ
  pub reserved_memory_bytes : ℕ
  pub active_experiments : ℕ
  pub cached_models : ℕ

pub record NodeRecord : Type 0 where
  pub node : Option NodeStatus
  pub last_seen_at : ℕ
  pub reserved_slots : ℕ
  pub reserved_memory_bytes : ℕ
  pub failure_count : ℕ

pub record NodeRegistry : Type 0 where
  pub ttl : ℕ
  pub nodes : Dict String NodeRecord

unfoldable pub new_node_registry : ℕ → NodeRegistry
new_node_registry ttl = record { ttl = ttl; nodes = Dict.empty }

-- A fresh message with the same fields; of nil it is nil.
unfoldable pub clone_node_status : Option NodeStatus → Option NodeStatus
clone_node_status none = none
clone_node_status (some node) = some (record {
  node_id = node.node_id;
  address = node.address;
  runtime_goos = node.runtime_goos;
  runtime_goarch = node.runtime_goarch;
  total_slots = node.total_slots;
  used_slots = node.used_slots;
  total_memory_bytes = node.total_memory_bytes;
  reserved_memory_bytes = node.reserved_memory_bytes;
  active_experiments = node.active_experiments;
  cached_models = node.cached_models;
})

-- `now.Sub(record.LastSeenAt) > r.ttl`
unfoldable pub is_expired : ℕ → ℕ → NodeRecord → Bool
is_expired now ttl rec = ltb ttl (now - rec.last_seen_at)

-- The record of a node that is seen now: reservations and failures are those of the old record.
unfoldable pub seen : ℕ → NodeStatus → Option NodeRecord → NodeRecord
unfolding clone_node_status
seen now node none = record {
  node = clone_node_status (some node);
  last_seen_at = now;
  reserved_slots = 0;
  reserved_memory_bytes = 0;
  failure_count = 0;
}
seen now node (some existing) = record {
  node = clone_node_status (some node);
  last_seen_at = now;
  reserved_slots = existing.reserved_slots;
  reserved_memory_bytes = existing.reserved_memory_bytes;
  failure_count = existing.failure_count;
}

update : ℕ → NodeRegistry → NodeStatus → NodeRegistry
unfolding seen
update now r node = record r {
  nodes = Dict.put r.nodes node.node_id (seen now node (Dict.get r.nodes node.node_id));
}

-- The error is the message of `fmt.Errorf`; `none` is a nil error.
unfoldable pub register : ℕ → NodeRegistry → Option NodeStatus → NodeRegistry × Option String
unfolding update
register now r none = (r, some "empty node")
register now r (some node) =
    if node.node_id == ""
    then (r, some "empty node_id")
    else if node.address == ""
    then (r, some "empty node address")
    else if node.runtime_goos == ""
    then (r, some "empty runtime_goos")
    else if node.runtime_goarch == ""
    then (r, some "empty runtime_goarch")
    else (update now r node, none)

unfoldable pub heartbeat : ℕ → NodeRegistry → Option NodeStatus → NodeRegistry × Option String
unfolding update
heartbeat now r none = (r, some "empty node")
heartbeat now r (some node) =
    if node.node_id == "" then (r, some "empty node_id") else (update now r node, none)

unfoldable pub has_enough_memory_at : NodeStatus → ℕ → ℕ → Bool
has_enough_memory_at node current_reserved limit =
    if limit == 0
    then true
    else if node.total_memory_bytes == 0
    then true
    else leb (add64 current_reserved limit) node.total_memory_bytes

unfoldable pub has_enough_memory : NodeStatus → ℕ → Bool
unfolding has_enough_memory_at
has_enough_memory node limit = has_enough_memory_at node node.reserved_memory_bytes limit

-- The larger of what the node reports and what the control plane has reserved.
unfoldable pub effective : ℕ → ℕ → ℕ
effective reported reserved = if ltb reported reserved then reserved else reported

-- The record after a slot and the memory limit are reserved.
unfoldable pub reserve : ℕ → NodeRecord → NodeRecord
reserve limit rec = record rec {
  reserved_slots = add64 rec.reserved_slots 1;
  reserved_memory_bytes =
      if ltb 0 limit then add64 rec.reserved_memory_bytes limit else rec.reserved_memory_bytes;
}

-- What the loop of PickAndReserve does at one node.
pub data Visit : Type 0 where
  skip drop : Visit
  pick : NodeRecord → NodeStatus → Visit

unfoldable pub visit_node : String → String → ℕ → NodeRecord → NodeStatus → Visit
unfolding has_enough_memory_at
visit_node goos goarch limit rec node =
    if not (goos == "") && not (node.runtime_goos == goos)
    then skip
    else if not (goarch == "") && not (node.runtime_goarch == goarch)
    then skip
    else if leb node.total_slots (effective node.used_slots rec.reserved_slots)
    then skip
    else if not (
        has_enough_memory_at node (effective node.reserved_memory_bytes rec.reserved_memory_bytes)
          limit)
    then skip
    else pick (reserve limit rec) node

unfoldable pub visit : ℕ → ℕ → String → String → ℕ → Option NodeRecord → Visit
unfolding is_expired visit_node
visit now ttl goos goarch limit none = skip
visit now ttl goos goarch limit (some rec) =
    if is_expired now ttl rec
    then drop
    else elim rec.node [ none ↦ drop | some node ↦ visit_node goos goarch limit rec node ]

unfoldable pub pick_loop :
    ℕ
    → ℕ
    → String
    → String
    → ℕ
    → List String
    → Dict String NodeRecord
    → Dict String NodeRecord × Option NodeStatus
pick_loop now ttl goos goarch limit [] nodes = (nodes, none)
pick_loop now ttl goos goarch limit (id ∷ order) nodes =
    elim (visit now ttl goos goarch limit (Dict.get nodes id)) [
      | skip ↦ pick_loop now ttl goos goarch limit order nodes
      | drop ↦ pick_loop now ttl goos goarch limit order (Dict.remove nodes id)
      | pick rec node ↦ (Dict.put nodes id rec, clone_node_status (some node))
    ]

unfoldable pub pick_and_reserve :
    ℕ → List String → NodeRegistry → String → String → ℕ → NodeRegistry × Option NodeStatus
unfolding pick_loop visit clone_node_status effective reserve
pick_and_reserve now order r goos goarch limit =
    let (nodes, node) =
      pick_loop now r.ttl (trim_space goos) (trim_space goarch) limit order r.nodes in
    (record r { nodes = nodes }, node)

-- What ReleaseReservation takes back; each counter stops at 0.
unfoldable pub released : ℕ → NodeRecord → NodeRecord
released limit rec = record rec {
  reserved_slots = if ltb 0 rec.reserved_slots then rec.reserved_slots - 1 else rec.reserved_slots;
  reserved_memory_bytes =
      if ltb 0 limit
      then (if leb limit rec.reserved_memory_bytes then rec.reserved_memory_bytes - limit else 0)
      else rec.reserved_memory_bytes;
}

unfoldable pub release_reservation : NodeRegistry → String → ℕ → NodeRegistry
unfolding released
release_reservation r id limit = elim (Dict.get r.nodes id) [
  | none ↦ r
  | some rec ↦ record r { nodes = Dict.put r.nodes id (released limit rec) }
]

unfoldable pub remove : NodeRegistry → String → NodeRegistry
remove r id = record r { nodes = Dict.remove r.nodes id }

unfoldable pub mark_node_failed : NodeRegistry → String → ℕ → NodeRegistry × Bool
mark_node_failed r id max_failures = elim (Dict.get r.nodes id) [
  | none ↦ (r, false)
  | some rec ↦
      let count = add32 rec.failure_count 1 in
      let nodes = Dict.put r.nodes id (record rec { failure_count = count }) in
      if leb max_failures count
      then (record r { nodes = Dict.remove nodes id }, true)
      else (record r { nodes = nodes }, false)
]

unfoldable pub mark_node_succeeded : NodeRegistry → String → NodeRegistry
mark_node_succeeded r id = elim (Dict.get r.nodes id) [
  | none ↦ r
  | some rec ↦
      if rec.failure_count == 0
      then r
      else record r { nodes = Dict.put r.nodes id (record rec { failure_count = 0 }) }
]
