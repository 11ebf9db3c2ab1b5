-- ===== src/ControlPlane/NodeRegistry/Picking.antt =====
-- Which node PickAndReserve of controlplane/node_registry.go chooses, in every order of its loop.
mod Hosting
pub use Hosting.*
use Prim.Native.Nat.{max}
use go_cloud_des.Prelude.{
  ℕ, ◌+◌, ◌≤◌, ◌<◌, ◌≡◌, ◌≢◌, ◌⊎◌, inl, inr, refl, String, true, Option, none, some, List, [], ◌∷◌,
  arith, add64, u64_mod, contains, string_eq, eq_iff, Option-cases, Bool-cases, ◌==◌, subst,
  beq_refl,
}
use go_cloud_des.Strings.{trim_space}
use go_cloud_des.Dict
use go_cloud_des.Dict.{Dict, get-put, get-remove}
use go_cloud_des.ControlPlane.NodeRegistry.{
  NodeStatus, NodeRecord, NodeRegistry, Visit, skip, drop, pick, visit, visit_node, pick_loop,
  pick_and_reserve, reserve, is_expired, effective, clone_node_status,
}

module _ (now ttl : ℕ) (goos goarch : String) (limit : ℕ) where
  abbrev look : Option NodeRecord → Visit
  look o = visit now ttl goos goarch limit o

  -- What a visit says of the record that it read.
  abbrev Explains : Option NodeRecord → Visit → Type 0
  Explains o skip = Unit
  Explains o drop = IsStale now ttl o
  Explains o (pick rec' node) =
      (rec : NodeRecord) × (o ≡ some rec)
      × Passes now ttl goos goarch limit rec node
      × (rec' ≡ reserve limit rec)

  visit_node-Explains :
      (rec : NodeRecord) (node : NodeStatus) (v : Visit)
      → now ≤ rec.last_seen_at + ttl
      → rec.node ≡ some node
      → visit_node goos goarch limit rec node ≡ v
      → Explains (some rec) v
  visit_node-Explains rec node skip f k e = tt
  visit_node-Explains rec node drop f k e = unfold visit_node in ground arith
  visit_node-Explains rec node (pick rec' node') f k e =
      let (host, reserved) = visit_node_sound now ttl goos goarch limit rec rec' node node' f k e in
      (rec, refl, host, reserved)

  visit_Explains : (o : Option NodeRecord) (v : Visit) → look o ≡ v → Explains o v
  unfolding visit
  visit_Explains none skip e = tt
  visit_Explains none drop e = cc
  visit_Explains none (pick rec node) e = cc
  visit_Explains (some rec) v e = elim (Bool-cases (is_expired now ttl rec)) [
    | inl over ↦ subst (Explains (some rec)) (rw over at e) (inl (ground arith))
    | inr fresh ↦ elim (Option-cases rec.node) [
      | inl k ↦ subst (Explains (some rec)) (rw (fresh, k) at e) (inr k)
      | inr (node, k) ↦ visit_node-Explains rec node v (ground arith) k (rw (fresh, k) at e)
    ]
  ]

  pub visit_complete :
      (rec : NodeRecord) (node : NodeStatus)
      → Passes now ttl goos goarch limit rec node
      → look (some rec) ≡ pick (reserve limit rec) node
  unfolding visit
  visit_complete rec node h =
      ground (arith, visit_node_complete now ttl goos goarch limit rec node h)

  -- A node out of contact may be gone from the registry; any other is as it was.
  abbrev pub Kept : Dict String NodeRecord → Dict String NodeRecord → String → Type 0
  Kept d d' j =
      (Dict.get d' j ≡ Dict.get d j) ⊎ ((Dict.get d' j ≡ none) × IsStale now ttl (Dict.get d j))

  Kept-remove :
      (d d' : Dict String NodeRecord) (id j : String)
      → IsStale now ttl (Dict.get d id)
      → Kept (Dict.remove d id) d' j
      → Kept d d' j
  Kept-remove d d' id j stale p = elim (Bool-cases (id == j)) [
    | inl same ↦
        let e = (eq_iff id j).0 same in
        let gone : Dict.get (Dict.remove d id) j ≡ none = rw (get-remove d id j, same) in
        elim (rw gone at p) [
          | inl n ↦ inr (n, subst (λ k. IsStale now ttl (Dict.get d k)) e stale)
          | inr (n, bad) ↦ absurd bad
        ]
    | inr other ↦ rw (get-remove d id j, other) at p
  ]

  -- The loop reserved on the node `id`, which has memory by `M`, and returned its status.
  pub record Chosen (M : ℕ → NodeRecord → NodeStatus → Type 0) (d d' : Dict String NodeRecord)
      (node : NodeStatus) : Type 0 where
    pub id : String
    pub rec : NodeRecord
    pub found : Dict.get d id ≡ some rec
    pub host : Suits M now ttl goos goarch limit rec node
    pub reserved : Dict.get d' id ≡ some (reserve limit rec)
    pub others : (j : String) → id ≢ j → Kept d d' j

  -- No visited node passes the tests of the code.
  pub record NoneChosen (order : List String) (d d' : Dict String NodeRecord) : Type 0 where
    pub others : (j : String) → Kept d d' j
    pub unfit :
        (j : String) (rec : NodeRecord) (node : NodeStatus)
        → contains j order ≡ true
        → Dict.get d j ≡ some rec
        → ¬ Passes now ttl goos goarch limit rec node

  -- No visited node can host.
  abbrev pub NoHost : List String → Dict String NodeRecord → Type 0
  NoHost order d =
      (j : String) (rec : NodeRecord) (node : NodeStatus)
      → contains j order ≡ true
      → Dict.get d j ≡ some rec
      → ¬ CanHost now ttl goos goarch limit rec node

  abbrev pub Outcome :
      List String → Dict String NodeRecord → Dict String NodeRecord × Option NodeStatus → Type 0
  Outcome order d (d', none) = NoneChosen order d d'
  Outcome order d (d', some node) = Chosen PassesMemory d d' node

  abbrev loop : List String → Dict String NodeRecord → Dict String NodeRecord × Option NodeStatus
  loop order d = pick_loop now ttl goos goarch limit order d

  stale_unfit :
      (o : Option NodeRecord) (rec : NodeRecord) (node : NodeStatus)
      → IsStale now ttl o
      → o ≡ some rec
      → ¬ Passes now ttl goos goarch limit rec node
  stale_unfit none rec node s e h = s
  stale_unfit (some r) rec node s e h = ground arith

  Outcome-drop :
      (id : String) (order : List String) (d : Dict String NodeRecord)
      (r : Dict String NodeRecord × Option NodeStatus)
      → IsStale now ttl (Dict.get d id)
      → Outcome order (Dict.remove d id) r
      → Outcome (id ∷ order) d r
  Outcome-drop id order d (d', none) stale o = record {
    others = λ j. Kept-remove d d' id j stale (o.others j);
    unfit = λ j rec node c e h. elim (Bool-cases (id == j)) [
      | inl same ↦
          stale_unfit (Dict.get d j) rec node
            (subst (λ k. IsStale now ttl (Dict.get d k)) ((eq_iff id j).0 same) stale) e h
      | inr other ↦ o.unfit j rec node (rw other at c) (rw (get-remove d id j, other) e) h
    ];
  }
  Outcome-drop id order d (d', some node) stale o = record {
    id = o.id;
    rec = o.rec;
    found = ground (arith, o.found, get-remove d id o.id);
    host = o.host;
    reserved = o.reserved;
    others = λ j ne. Kept-remove d d' id j stale (o.others j ne);
  }

  Outcome-skip :
      (id : String) (order : List String) (d : Dict String NodeRecord)
      (r : Dict String NodeRecord × Option NodeStatus)
      → look (Dict.get d id) ≡ skip
      → Outcome order d r
      → Outcome (id ∷ order) d r
  Outcome-skip id order d (d', none) e o = record {
    others = o.others;
    unfit = λ j rec node c f h. elim (Bool-cases (id == j)) [
      | inl same ↦ cc (visit_complete rec node h, (eq_iff id j).0 same)
      | inr other ↦ o.unfit j rec node (rw other at c) f h
    ];
  }
  Outcome-skip id order d (d', some node) e o = o

  Outcome-visit :
      (id : String) (order : List String) (d : Dict String NodeRecord) (v : Visit)
      → look (Dict.get d id) ≡ v
      → Explains (Dict.get d id) v
      → Outcome order d (loop order d)
      → Outcome order (Dict.remove d id) (loop order (Dict.remove d id))
      → Outcome (id ∷ order) d (loop (id ∷ order) d)
  unfolding pick_loop
  Outcome-visit id order d skip e x s t =
      rw (e, pick_loop) (Outcome-skip id order d (loop order d) e s)
  Outcome-visit id order d drop e x s t =
      rw (e, pick_loop) (Outcome-drop id order d (loop order (Dict.remove d id)) x t)
  Outcome-visit id order d (pick rec' node) e (rec, found, host, reserved) s t =
      rw (e, pick_loop, clone_node_status_lem)
        (record {
          id = id;
          rec = rec;
          found = found;
          host = host;
          reserved = rw (get-put d id id rec', beq_refl id, reserved);
          others = λ j ne. inl (ground (arith, get-put d id j rec', eq_iff id j));
        })

  loop-Outcome : (order : List String) (d : Dict String NodeRecord) → Outcome order d (loop order d)
  loop-Outcome [] d =
      unfold pick_loop in record { others = λ j. inl refl; unfit = λ j rec node c e h. cc }
  loop-Outcome (id ∷ order) d =
      Outcome-visit id order d (look (Dict.get d id)) refl (visit_Explains (Dict.get d id) _ refl)
        (loop-Outcome order d) (loop-Outcome order (Dict.remove d id))

-- The outcome of one call, for the visits of the loop in the order `order`.
pub outcome :
    (now : ℕ) (order : List String) (r : NodeRegistry) (goos goarch : String) (limit : ℕ)
    → let (r', o) = pick_and_reserve now order r goos goarch limit in
      Outcome now r.ttl (trim_space goos) (trim_space goarch) limit order r.nodes (r'.nodes, o)
unfolding pick_and_reserve
outcome now order r goos goarch limit =
    loop-Outcome now r.ttl (trim_space goos) (trim_space goarch) limit order r.nodes

module _ (now : ℕ) (order : List String) (r r' : NodeRegistry) (goos goarch : String)
    (limit : ℕ) where
  -- A node that is returned passed the tests of the code.
  pub picked :
      (node : NodeStatus)
      → pick_and_reserve now order r goos goarch limit ≡ (r', some node)
      → Chosen now r.ttl
          (trim_space goos)
          (trim_space goarch)
          limit
          PassesMemory
          r.nodes
          r'.nodes
          node
  picked node e = rw e at (outcome now order r goos goarch limit)

  -- Where no node's sum of reserved memory and the limit reaches 2^64, a node that is returned can
  -- host the experiment: it is in contact, of the trimmed platform, has a free slot, and its memory
  -- holds the limit beside what it reports and what is reserved on it. Its record, and no other, has
  -- one more slot and the limit reserved; only nodes out of contact are dropped.
  pub pick_and_reserve_sound :
      (node : NodeStatus)
      → IsBounded limit r.nodes
      → pick_and_reserve now order r goos goarch limit ≡ (r', some node)
      → Chosen now r.ttl
          (trim_space goos)
          (trim_space goarch)
          limit
          FitsMemory
          r.nodes
          r'.nodes
          node
  pick_and_reserve_sound node bound e =
      let c = picked node e in
      record {
        id = c.id;
        rec = c.rec;
        found = c.found;
        host =
            Passes-CanHost now r.ttl (trim_space goos) (trim_space goarch) limit c.rec node
              (bound c.id c.rec node c.found c.host.known) c.host;
        reserved = c.reserved;
        others = c.others;
      }

  -- No node is returned only if no node that the loop visits passes the tests, so none can host the
  -- experiment, and then only nodes out of contact are dropped.
  pub pick_and_reserve_complete :
      pick_and_reserve now order r goos goarch limit ≡ (r', none)
      → NoneChosen now r.ttl (trim_space goos) (trim_space goarch) limit order r.nodes r'.nodes
        × NoHost now r.ttl (trim_space goos) (trim_space goarch) limit order r.nodes
  pick_and_reserve_complete e =
      let n : NoneChosen now r.ttl (trim_space goos) (trim_space goarch) limit order r.nodes
          r'.nodes =
        rw e at (outcome now order r goos goarch limit) in
      (
        n,
        λ j rec node c f h.
            n.unfit j rec node c f
              (CanHost-Passes now r.ttl (trim_space goos) (trim_space goarch) limit rec node h),
      )
