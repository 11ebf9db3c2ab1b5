-- ===== src/ControlPlane/NodeRegistry/Listing.antt =====
-- The readers of controlplane/node_registry.go: List, ActiveNodeIDs and Get.
use go_cloud_des.Prelude.{
  ℕ, String, Bool, ◌&&◌, ◌||◌, not, Option, none, some, List, [], ◌∷◌, ◌++◌, if◌then◌else◌,
  string_eq, nat_eq,
}
use go_cloud_des.Strings.{trim_space, to_upper, same_codes, codes}
use go_cloud_des.Dict
use go_cloud_des.Dict.{Dict}
use go_cloud_des.ControlPlane.NodeRegistry.{
  NodeStatus, NodeRecord, NodeRegistry, clone_node_status, is_expired,
}

-- `status != "" && status != nodeStatusOnline`, after TrimSpace and ToUpper.
unfoldable pub filtered_out : String → Bool
unfolding trim_space to_upper same_codes
filtered_out status =
    let upper = to_upper (trim_space status) in
    not (same_codes upper (codes "")) && not (same_codes upper (codes "ONLINE"))

unfoldable pub list_loop :
    ℕ
    → ℕ
    → Bool
    → List String
    → Dict String NodeRecord
    → List (Option NodeStatus)
    → List String
    → Dict String NodeRecord × List (Option NodeStatus) × List String
list_loop now ttl out [] nodes alive evicted = (nodes, alive, evicted)
list_loop now ttl out (id ∷ order) nodes alive evicted = elim (Dict.get nodes id) [
  | none ↦ list_loop now ttl out order nodes alive evicted
  | some rec ↦
      let over = is_expired now ttl rec in
      list_loop now ttl out order (if over then Dict.remove nodes id else nodes)
        (if over || out then alive else alive ++ clone_node_status rec.node ∷ [])
        (if over then evicted ++ id ∷ [] else evicted)
]

unfoldable pub list :
    ℕ → List String → NodeRegistry → String → NodeRegistry × List (Option NodeStatus) × List String
unfolding list_loop is_expired clone_node_status filtered_out
list now order r status =
    let (nodes, alive, evicted) = list_loop now r.ttl (filtered_out status) order r.nodes [] [] in
    (record r { nodes = nodes }, alive, evicted)

-- One round of the loop of ActiveNodeIDs, at the record of the identifier.
unfoldable pub note_active :
    ℕ → ℕ → Option NodeRecord → String → Dict String (Unit {0}) → Dict String (Unit {0})
note_active now ttl none id result = result
note_active now ttl (some rec) id result =
    if is_expired now ttl rec then result else Dict.put result id tt

unfoldable pub active_loop :
    ℕ → ℕ → List String → Dict String NodeRecord → Dict String (Unit {0}) → Dict String (Unit {0})
unfolding note_active
active_loop now ttl [] nodes result = result
active_loop now ttl (id ∷ order) nodes result =
    active_loop now ttl order nodes (note_active now ttl (Dict.get nodes id) id result)

unfoldable pub active_node_ids : ℕ → List String → NodeRegistry → Dict String (Unit {0})
unfolding active_loop is_expired note_active
active_node_ids now order r = active_loop now r.ttl order r.nodes Dict.empty

unfoldable pub get : ℕ → NodeRegistry → String → NodeRegistry × Option NodeStatus
unfolding is_expired clone_node_status
get now r id = elim (Dict.get r.nodes id) [
  | none ↦ (r, none)
  | some rec ↦
      if is_expired now r.ttl rec
      then (record r { nodes = Dict.remove r.nodes id }, none)
      else elim rec.node [
        | none ↦ (record r { nodes = Dict.remove r.nodes id }, none)
        | some node ↦ (r, clone_node_status (some node))
      ]
]
