-- ===== src/ControlPlane/NodeRegistry/Picking/Hosting.antt =====
-- When a node of controlplane/node_registry.go can host an experiment, and when it passes the tests of
-- PickAndReserve.
use Prim.Native.Nat.{max}
use go_cloud_des.Prelude.{
  ℕ, ◌+◌, ◌≤◌, ◌<◌, ◌≡◌, ◌⊎◌, refl, String, Option, none, some, arith, add64, u64_mod, string_eq,
  eq_iff,
}
use go_cloud_des.Dict
use go_cloud_des.Dict.{Dict, get-put, get-remove}
use go_cloud_des.ControlPlane.NodeRegistry.{
  NodeStatus, NodeRecord, pick, visit_node, reserve, effective, clone_node_status,
}

pub clone_node_status_lem : (o : Option NodeStatus) → clone_node_status o ≡ o
unfolding clone_node_status
clone_node_status_lem none = refl
clone_node_status_lem (some node) = refl

-- The limit fits the memory of the node beside what it reports and what is reserved on it.
abbrev pub FitsMemory : ℕ → NodeRecord → NodeStatus → Type 0
FitsMemory limit rec node =
    (limit ≡ 0)
    ⊎ (node.total_memory_bytes ≡ 0)
    ⊎ (max node.reserved_memory_bytes rec.reserved_memory_bytes + limit ≤ node.total_memory_bytes)

-- The same with the sum of the code, which wraps at 2^64.
abbrev pub PassesMemory : ℕ → NodeRecord → NodeStatus → Type 0
PassesMemory limit rec node =
    (limit ≡ 0)
    ⊎ (node.total_memory_bytes ≡ 0)
    ⊎ (add64 (max node.reserved_memory_bytes rec.reserved_memory_bytes) limit
        ≤ node.total_memory_bytes)

-- The node of `rec` is `node`, is fresh, is of the wanted platform, and has a free slot by its own
-- report and by the reservations alike, and memory by `M`.
pub record Suits (M : ℕ → NodeRecord → NodeStatus → Type 0) (now ttl : ℕ) (goos goarch : String)
    (limit : ℕ) (rec : NodeRecord) (node : NodeStatus) : Type 0 where
  pub known : rec.node ≡ some node
  pub fresh : now ≤ rec.last_seen_at + ttl
  pub os : (goos ≡ "") ⊎ (node.runtime_goos ≡ goos)
  pub arch : (goarch ≡ "") ⊎ (node.runtime_goarch ≡ goarch)
  pub reported_slot : node.used_slots < node.total_slots
  pub reserved_slot : rec.reserved_slots < node.total_slots
  pub memory : M limit rec node

-- The node can host the experiment.
abbrev pub CanHost : ℕ → ℕ → String → String → ℕ → NodeRecord → NodeStatus → Type 0
CanHost = Suits FitsMemory

-- The node passes the tests of the code.
abbrev pub Passes : ℕ → ℕ → String → String → ℕ → NodeRecord → NodeStatus → Type 0
Passes = Suits PassesMemory

-- What any node has reserved, and the limit, sum below 2^64.
abbrev pub IsBounded : ℕ → Dict String NodeRecord → Type 0
IsBounded limit d =
    (id : String) (rec : NodeRecord) (node : NodeStatus)
    → Dict.get d id ≡ some rec
    → rec.node ≡ some node
    → max node.reserved_memory_bytes rec.reserved_memory_bytes + limit < u64_mod

pub Passes-CanHost :
    (now ttl : ℕ) (goos goarch : String) (limit : ℕ) (rec : NodeRecord) (node : NodeStatus)
    → max node.reserved_memory_bytes rec.reserved_memory_bytes + limit < u64_mod
    → Passes now ttl goos goarch limit rec node
    → CanHost now ttl goos goarch limit rec node
Passes-CanHost now ttl goos goarch limit rec node b h = record {
  known = h.known;
  fresh = h.fresh;
  os = h.os;
  arch = h.arch;
  reported_slot = h.reported_slot;
  reserved_slot = h.reserved_slot;
  memory = ground (arith, h.memory);
}

pub CanHost-Passes :
    (now ttl : ℕ) (goos goarch : String) (limit : ℕ) (rec : NodeRecord) (node : NodeStatus)
    → CanHost now ttl goos goarch limit rec node
    → Passes now ttl goos goarch limit rec node
CanHost-Passes now ttl goos goarch limit rec node h = record {
  known = h.known;
  fresh = h.fresh;
  os = h.os;
  arch = h.arch;
  reported_slot = h.reported_slot;
  reserved_slot = h.reserved_slot;
  memory = ground (arith, h.memory);
}

-- No contact for longer than the time to live, or no status.
abbrev pub IsStale : ℕ → ℕ → Option NodeRecord → Type 0
IsStale now ttl none = ⊥
IsStale now ttl (some rec) = (rec.last_seen_at + ttl < now) ⊎ (rec.node ≡ none)

pub effective-max : (a b : ℕ) → effective a b ≡ max a b
unfolding effective
effective-max a b = ground arith

pub visit_node_sound :
    (now ttl : ℕ) (goos goarch : String) (limit : ℕ) (rec rec' : NodeRecord)
    (node node' : NodeStatus)
    → now ≤ rec.last_seen_at + ttl
    → rec.node ≡ some node
    → visit_node goos goarch limit rec node ≡ pick rec' node'
    → Passes now ttl goos goarch limit rec node' × (rec' ≡ reserve limit rec)
unfolding visit_node
visit_node_sound now ttl goos goarch limit rec rec' node node' f k e = ground (
  arith,
  eq_iff goos "",
  eq_iff goarch "",
  eq_iff node.runtime_goos goos,
  eq_iff node.runtime_goarch goarch,
  effective-max node.used_slots rec.reserved_slots,
  effective-max node.reserved_memory_bytes rec.reserved_memory_bytes,
)

pub visit_node_complete :
    (now ttl : ℕ) (goos goarch : String) (limit : ℕ) (rec : NodeRecord) (node : NodeStatus)
    → Passes now ttl goos goarch limit rec node
    → visit_node goos goarch limit rec node ≡ pick (reserve limit rec) node
unfolding visit_node
visit_node_complete now ttl goos goarch limit rec node h = ground (
  arith,
  eq_iff goos "",
  eq_iff goarch "",
  eq_iff node.runtime_goos goos,
  eq_iff node.runtime_goarch goarch,
  effective-max node.used_slots rec.reserved_slots,
  effective-max node.reserved_memory_bytes rec.reserved_memory_bytes,
)
