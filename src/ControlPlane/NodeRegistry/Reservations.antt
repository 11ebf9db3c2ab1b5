-- ===== src/ControlPlane/NodeRegistry/Reservations.antt =====
-- Reservations of controlplane/node_registry.go: what a pick takes, a release gives back, and a
-- report of the node leaves alone.
use Prim.Native.Nat.{max}
use go_cloud_des.Prelude.{
  ℕ, ◌+◌, ◌-◌, ◌<◌, ◌≡◌, String, some, List, arith, u64_mod, string_eq, beq_refl, ◌∷◌, inr,
}
use go_cloud_des.Dict
use go_cloud_des.Dict.{Dict, get-put, get-remove, get-empty}
use go_cloud_des.ControlPlane.NodeRegistry.{
  NodeStatus, NodeRecord, NodeRegistry, pick_and_reserve, reserve, released, release_reservation,
  pick_loop, trim_space, visit, pick,
}
use go_cloud_des.ControlPlane.NodeRegistry.Picking.{
  picked, CanHost, Passes, visit_complete, clone_node_status_lem,
}

-- PickAndReserve gives a node an experiment that its whole memory does not hold: with `held` bytes
-- reserved, by its report or by the reservations, the sum of `held` and a limit of 2^64 - held wraps
-- to 0. The node is the first of the loop and can host an experiment without a limit, 0 < held, and
-- its whole memory and `held` sum below 2^64.
pub pick_and_reserve_overcommits :
    (now : ℕ) (id : String) (order : List String) (r : NodeRegistry) (goos goarch : String)
    (rec : NodeRecord) (node : NodeStatus)
    → Dict.get r.nodes id ≡ some rec
    → CanHost now r.ttl (trim_space goos) (trim_space goarch) 0 rec node
    → let held = max node.reserved_memory_bytes rec.reserved_memory_bytes in
      0 < held
      → node.total_memory_bytes + held < u64_mod
      → ((pick_and_reserve now (id ∷ order) r goos goarch (u64_mod - held)).1 ≡ some node)
        × (node.total_memory_bytes < u64_mod - held)
unfolding pick_and_reserve pick_loop
pick_and_reserve_overcommits now id order r goos goarch rec node found h taken small =
    let held = max node.reserved_memory_bytes rec.reserved_memory_bytes in
    let passes : Passes now r.ttl (trim_space goos) (trim_space goarch) (u64_mod - held) rec node =
      record {
        known = h.known;
        fresh = h.fresh;
        os = h.os;
        arch = h.arch;
        reported_slot = h.reported_slot;
        reserved_slot = h.reserved_slot;
        memory = inr (inr (ground (arith)));
      } in
    let visited : visit now r.ttl (trim_space goos) (trim_space goarch) (u64_mod - held)
          (Dict.get r.nodes id)
        ≡ pick (reserve (u64_mod - held) rec) node =
      rw found (
        visit_complete now r.ttl (trim_space goos) (trim_space goarch) (u64_mod - held) rec node
          passes) in
    (rw (visited, pick_loop) (clone_node_status_lem (some node)), ground (arith))

-- Every record stands under the node's own identifier.
abbrev pub IsKeyed : Dict String NodeRecord → Type 0
IsKeyed d =
    (id : String) (rec : NodeRecord) (node : NodeStatus)
    → Dict.get d id ≡ some rec
    → rec.node ≡ some node
    → node.node_id ≡ id

-- There is room below 2^64 for one more reservation on every node.
abbrev pub HasRoom : ℕ → Dict String NodeRecord → Type 0
HasRoom limit d =
    (id : String) (rec : NodeRecord)
    → Dict.get d id ≡ some rec
    → (rec.reserved_slots + 1 < u64_mod) × (rec.reserved_memory_bytes + limit < u64_mod)

released-reserve :
    (limit : ℕ) (rec : NodeRecord)
    → rec.reserved_slots + 1 < u64_mod
    → rec.reserved_memory_bytes + limit < u64_mod
    → released limit (reserve limit rec) ≡ rec
unfolding released reserve
released-reserve limit rec s m = ground arith

-- Releasing what a pick has reserved restores the record of the picked node, where every record
-- stands under its node's identifier and every node has room below 2^64 for one more slot and the
-- limit.
pub release-pick :
    (now : ℕ) (order : List String) (r r' : NodeRegistry) (goos goarch : String) (limit : ℕ)
    (node : NodeStatus)
    → IsKeyed r.nodes
    → HasRoom limit r.nodes
    → pick_and_reserve now order r goos goarch limit ≡ (r', some node)
    → Dict.get (release_reservation r' node.node_id limit).nodes node.node_id
      ≡ Dict.get r.nodes node.node_id
unfolding release_reservation
release-pick now order r r' goos goarch limit node keyed room e =
    let c = picked now order r r' goos goarch limit node e in
    let k : node.node_id ≡ c.id = keyed c.id c.rec node c.found c.host.known in
    let (s, m) = room c.id c.rec c.found in
    let held : Dict.get r'.nodes node.node_id ≡ some (reserve limit c.rec) = rw k c.reserved in
    let was : Dict.get r.nodes node.node_id ≡ some c.rec = rw k c.found in
    rw (held, release_reservation, get-put, beq_refl node.node_id, was)
      (rw (released-reserve limit c.rec s m))
