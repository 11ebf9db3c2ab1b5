-- ===== src/ControlPlane/Tests.antt =====
-- controlplane/pending_queue.go and controlplane/node_registry.go on concrete queues and registries.
use Prim.Native.Nat.{max}
use go_cloud_des.Prelude.{
  ◌+◌, ◌≡◌, refl, String, false, none, some, List, [], ◌∷◌, arith, pos, negsuc, string_eq, leb,
  eq_iff, inl, inr, ◌-◌, ◌<◌, u64_mod,
}
use go_cloud_des.Dict
use go_cloud_des.Dict.{Dict}
use go_cloud_des.Strings.{trim_space, trim_left, trim_right, is_space}
use go_cloud_des.ControlPlane.PendingQueue.{ScheduleExperimentRecord, new_pending_queue}
use go_cloud_des.ControlPlane.PendingQueue.Refinement.{
  Call, enqueues, pops, removes, Implements, spec_run, run-eq-contract,
}
use go_cloud_des.ControlPlane.PendingQueue.Refinement
use go_cloud_des.ControlPlane.PendingQueue.Keys.{queue_key-injective}
use go_cloud_des.ControlPlane.NodeRegistry.{
  NodeStatus, NodeRecord, NodeRegistry, new_node_registry, pick_and_reserve, release_reservation,
  has_enough_memory_at, mark_node_failed, mark_node_succeeded, pick_loop, visit, visit_node,
  is_expired, effective, reserve, clone_node_status,
}
use go_cloud_des.ControlPlane.NodeRegistry.Picking.{
  Chosen, NoneChosen, pick_and_reserve_sound, pick_and_reserve_complete, FitsMemory, CanHost,
  IsBounded, NoHost,
}
use go_cloud_des.ControlPlane.NodeRegistry.Reservations.{
  pick_and_reserve_overcommits, IsKeyed, HasRoom, release-pick,
}
use go_cloud_des.ControlPlane.NodeRegistry.Events.{
  Event, registers, heartbeats, picks, fails, run-new-IsKeyed,
}
use go_cloud_des.ControlPlane.NodeRegistry.Events
use go_cloud_des.ControlPlane.NodeRegistry.Failures.{failing, fail_times, failures-after_success}

abbrev pub queued : String → ScheduleExperimentRecord
queued id = record {
  batch_id = "b";
  model_hash = "aa";
  experiment_id = id;
  goos = "linux";
  goarch = "";
  binary_key = "k";
  binary_sha256 = "s";
  set_vars = [];
  stop_rule = none;
  metrics = [];
  metric_step = 0;
  store_metrics = false;
  memory_limit_bytes = 64;
  run_timeout_ms = 0;
  pending_since = 0;
}

abbrev calls : List Call
calls =
    enqueues 5 (some (queued "e1") ∷ none ∷ some (queued "e2") ∷ some (queued "e1") ∷ [])
    ∷ removes "aa" "e1"
    ∷ enqueues 6 (some (queued "e1") ∷ [])
    ∷ pops (pos 1)
    ∷ pops (negsuc 0)
    ∷ []

run-eq-contract_example : Implements (spec_run [] calls) (Refinement.run new_pending_queue calls)
run-eq-contract_example = run-eq-contract calls

queue_key-injective_example : (◌≡◌ {A = String} "aa" "aa") × (◌≡◌ {A = String} "e:1" "e:1")
queue_key-injective_example =
    queue_key-injective "aa" "aa" "e:1" "e:1" (omega arith, (omega arith, tt))
      (omega arith, (omega arith, tt)) refl

abbrev pub node : String → NodeStatus
node id = record {
  node_id = id;
  address = "a";
  runtime_goos = "linux";
  runtime_goarch = "amd64";
  total_slots = 2;
  used_slots = 1;
  total_memory_bytes = 128;
  reserved_memory_bytes = 32;
  active_experiments = 1;
  cached_models = 0;
}

abbrev pub held : NodeRecord
held = record {
  node = some (node "n1");
  last_seen_at = 100;
  reserved_slots = 1;
  reserved_memory_bytes = 64;
  failure_count = 2;
}

abbrev pub cluster : NodeRecord → NodeRegistry
cluster rec = record { ttl = 50; nodes = record { entries = ("n1", rec) ∷ [] } }

abbrev pub picked : NodeRecord
picked = record held { reserved_slots = 2; reserved_memory_bytes = 128 }

pub picks_n1 :
    pick_and_reserve 120 ("n1" ∷ []) (cluster held) "linux" "" 64
    ≡ (cluster picked, some (node "n1"))
unfolding pick_and_reserve pick_loop visit visit_node is_expired effective reserve
    has_enough_memory_at clone_node_status trim_space trim_left trim_right is_space Dict.get
    Dict.lookup Dict.put Dict.without
picks_n1 = refl

cluster-IsBounded : IsBounded 64 (cluster held).nodes
unfolding Dict.get Dict.lookup
cluster-IsBounded id rec n e f = ground (arith, eq_iff "n1" id)

pick_and_reserve_sound_example :
    Chosen 120 50
      (trim_space "linux")
      (trim_space "")
      64
      FitsMemory
      (cluster held).nodes
      (cluster picked).nodes
      (node "n1")
pick_and_reserve_sound_example =
    pick_and_reserve_sound 120 ("n1" ∷ []) (cluster held) (cluster picked) "linux" "" 64 (node "n1")
      cluster-IsBounded picks_n1

picks_none : pick_and_reserve 120 ("n1" ∷ []) (cluster held) "linux" "" 65 ≡ (cluster held, none)
unfolding pick_and_reserve pick_loop visit visit_node is_expired effective reserve
    has_enough_memory_at clone_node_status trim_space trim_left trim_right is_space Dict.get
    Dict.lookup Dict.put Dict.without
picks_none = refl

pick_and_reserve_complete_example :
    NoneChosen 120 50
      (trim_space "linux")
      (trim_space "")
      65
      ("n1" ∷ [])
      (cluster held).nodes
      (cluster held).nodes
    × NoHost 120 50 (trim_space "linux") (trim_space "") 65 ("n1" ∷ []) (cluster held).nodes
pick_and_reserve_complete_example =
    pick_and_reserve_complete 120 ("n1" ∷ []) (cluster held) (cluster held) "linux" "" 65 picks_none

pub cluster-IsKeyed : IsKeyed (cluster held).nodes
unfolding Dict.get Dict.lookup
cluster-IsKeyed id rec n e f = ground (arith, eq_iff "n1" id)

pub cluster-HasRoom : HasRoom 64 (cluster held).nodes
unfolding Dict.get Dict.lookup
cluster-HasRoom id rec e = ground (arith, eq_iff "n1" id)

release-pick_example :
    Dict.get (release_reservation (cluster picked) "n1" 64).nodes "n1"
    ≡ Dict.get (cluster held).nodes "n1"
release-pick_example =
    release-pick 120 ("n1" ∷ []) (cluster held) (cluster picked) "linux" "" 64 (node "n1")
      cluster-IsKeyed cluster-HasRoom picks_n1

held_now : Dict.get (cluster held).nodes "n1" ≡ some held
unfolding Dict.get Dict.lookup
held_now = refl

held-CanHost : CanHost 120 50 (trim_space "linux") (trim_space "") 0 held (node "n1")
unfolding trim_space trim_left trim_right is_space
held-CanHost = record {
  known = refl;
  fresh = omega arith;
  os = inr refl;
  arch = inl refl;
  reported_slot = omega arith;
  reserved_slot = omega arith;
  memory = inl refl;
}

pick_and_reserve_overcommits_example :
    ((pick_and_reserve 120 ("n1" ∷ []) (cluster held) "linux" "" (u64_mod - max 32 64)).1
      ≡ some (node "n1"))
    × (128 < u64_mod - max 32 64)
pick_and_reserve_overcommits_example =
    pick_and_reserve_overcommits 120 "n1" [] (cluster held) "linux" "" held (node "n1") held_now
      held-CanHost (omega arith) (omega arith)

abbrev hours : List Event
hours =
    registers 100 (some (node "n1"))
    ∷ heartbeats 110 (some (node "n2"))
    ∷ picks 120 ("n2" ∷ "n1" ∷ []) "linux" "amd64" 16
    ∷ fails "n2" 1
    ∷ []

run-new-IsKeyed_example : IsKeyed (Events.run (new_node_registry 50) hours).nodes
run-new-IsKeyed_example = run-new-IsKeyed 50 hours

found : Dict.get (cluster held).nodes "n1" ≡ some held
unfolding Dict.get Dict.lookup
found = refl

failures-after_success_example :
    let r' = fail_times 2 (mark_node_succeeded (cluster held) "n1") "n1" 3 in
    (Dict.get r'.nodes "n1" ≡ some (failing held 2))
    × ((mark_node_failed r' "n1" 3).1 ≡ leb 3 (2 + 1))
    × (2 + 1 ≡ 3 → Dict.get (mark_node_failed r' "n1" 3).0.nodes "n1" ≡ none)
failures-after_success_example =
    failures-after_success (cluster held) "n1" 3 held found (omega arith) 2 (omega arith)
