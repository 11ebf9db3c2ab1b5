-- ===== src/Codegen/Generator/Validate/Sound.antt =====
-- What ValidateAndLink of codegen/generator/validate.go returns.
use go_cloud_des.Prelude.{
  ℕ, zero, suc, ◌≡◌, ◌<◌, ◌∙◌, refl, sym, ap, Bool, true, not, nat_eq, some, List, [], ◌∷◌, length,
  All,
}
use go_cloud_des.Dict
use go_cloud_des.Dict.{Dict}
use go_cloud_des.Codegen.Slices.{get_elem?}
use go_cloud_des.Codegen.Generator.Text.{Bytes, bytes_eq}
use go_cloud_des.Codegen.Generator.Model.{
  BlockParams, create, queue, delay, seize, release, assign, branch, terminate, BlockDesc, Model,
}
use go_cloud_des.Codegen.Generator.Parsed.{incorrect_format, unknown_reference}
use go_cloud_des.Codegen.Generator.Names.Sound.{not-eq_false}
use go_cloud_des.Codegen.Generator.Sections.Section.{Indexed}
use go_cloud_des.Codegen.Generator.Validate.{
  is_create, is_terminate, some_block, validate_required_blocks, queues_of, reachable_from_all,
  validate_wait_queues_from, validate_wait_queue_reachability, validate_and_link, is_queue,
}
use go_cloud_des.Codegen.Generator.Validate.Reach.{queue_next}
use go_cloud_des.Codegen.Generator.Validate.Search.{Leads}
use go_cloud_des.Codegen.Generator.Validate.Reachable.{successors, IsPassable, can_reach-Decides}
use go_cloud_des.Codegen.Generator.Validate.Rules.{
  Allows, holds, Allows-bind, Allows-weaken, reject_if-Allows,
}
use go_cloud_des.Codegen.Generator.Validate.Links.{WaitsAt, IsLinked, unlinked, IsUnset}
use go_cloud_des.Codegen.Generator.Validate.Blocks.{
  LinkedAs, LinkedAs-length, SeizedAs, link_blocks-Allows, link_resources-Allows, points-lt,
  linked-IsPassable,
}

-- A way from the block behind a queue to the block that waits at it.
abbrev pub WayFrom : List BlockDesc → ℕ → ℕ → Type 0
WayFrom bs q target =
    (next : ℕ) × (queue_next (get_elem? bs q) ≡ some next) × Leads (successors bs) next target

-- From every queue that one of these blocks waits at, `at` being the place of the first.
abbrev pub WaitsFrom : List BlockDesc → ℕ → List BlockDesc → Type 0
WaitsFrom bs at [] = Unit {0}
WaitsFrom bs at (b ∷ rest) =
    All (λ q. WayFrom bs q at) (queues_of bs b.params) × WaitsFrom bs (suc at) rest

abbrev IsReady : List BlockDesc → ℕ → Type 0
IsReady bs q = (next : ℕ) × (queue_next (get_elem? bs q) ≡ some next) × (next < length bs)

abbrev is_queue_kind : BlockParams → Bool
is_queue_kind params = is_queue (record { name = []; params = params })

kind-unlinked : (p : BlockParams) → is_queue_kind (unlinked p) ≡ is_queue_kind p
kind-unlinked (create p) = refl
kind-unlinked (queue p) = refl
kind-unlinked (delay p) = refl
kind-unlinked (seize p) = refl
kind-unlinked (release p) = refl
kind-unlinked (assign p) = refl
kind-unlinked (branch p) = refl
kind-unlinked terminate = refl

-- A block keeps its kind.
LinkedAs-queue :
    (m : Model) (before bs : List BlockDesc) (i : ℕ) (a : BlockDesc)
    → LinkedAs m before bs
    → get_elem? before i ≡ some a
    → is_queue a ≡ true
    → (b : BlockDesc) × (get_elem? bs i ≡ some b) × (is_queue b ≡ true) × IsLinked m b.name b.params
unfolding get_elem?
LinkedAs-queue m [] bs i a l h q = cc
LinkedAs-queue m (c ∷ before) [] i a l h q = absurd l
LinkedAs-queue m (c ∷ before) (b ∷ bs) zero a l h q =
    let same : c ≡ a = cc in
    let kept : is_queue_kind b.params ≡ is_queue_kind c.params =
      sym (kind-unlinked b.params) ∙ ap is_queue_kind l.1.1 ∙ kind-unlinked c.params in
    (b, refl, kept ∙ ap is_queue same ∙ q, l.1.0)
LinkedAs-queue m (c ∷ before) (b ∷ bs) (suc i) a l h q = LinkedAs-queue m before bs i a l.2 h q

queue-next :
    (m : Model) (name : Bytes) (params : BlockParams)
    → is_queue_kind params ≡ true
    → IsLinked m name params
    → (next : ℕ) × (queue_next (some (record { name = name; params = params })) ≡ some next)
      × ((text : Bytes) × (Dict.get m.block_by_name text ≡ some next))
queue-next m name (queue p) q l = (l.0.0, l.0.1, (p.next_name, l.0.2))
queue-next m name (create p) q l = cc
queue-next m name (delay p) q l = cc
queue-next m name (seize p) q l = cc
queue-next m name (release p) q l = cc
queue-next m name (assign p) q l = cc
queue-next m name (branch p) q l = cc
queue-next m name terminate q l = cc

reachable_from_all-Allows :
    (bs : List BlockDesc) (target : ℕ) (queues : List ℕ)
    → IsPassable bs
    → All (IsReady bs) queues
    → Allows
        (λ (_ : Unit {0}). All (λ q. WayFrom bs q target) queues)
        (reachable_from_all bs queues target)
unfolding reachable_from_all
reachable_from_all-Allows bs target [] passable ready = holds tt
reachable_from_all-Allows bs target (q ∷ queues) passable ((next, starts, lt), ready) =
    let d = can_reach-Decides bs q target next passable starts lt in
    rw d.result (
      Allows-bind (reject_if-Allows (not d.reached) incorrect_format) λ _ r.
        Allows-weaken (reachable_from_all-Allows bs target queues passable ready)
          (λ _ rest. ((next, starts, d.sound (not-eq_false d.reached r)), rest)))

waits-Allows :
    (bs : List BlockDesc) (at : ℕ) (rest : List BlockDesc)
    → IsPassable bs
    → All (λ (b : BlockDesc). All (IsReady bs) (queues_of bs b.params)) rest
    → Allows (λ (_ : Unit {0}). WaitsFrom bs at rest) (validate_wait_queues_from bs at rest)
unfolding validate_wait_queues_from
waits-Allows bs at [] passable ready = holds tt
waits-Allows bs at (b ∷ rest) passable (first, ready) =
    Allows-bind (reachable_from_all-Allows bs at (queues_of bs b.params) passable first) λ _ ways.
      Allows-weaken (waits-Allows bs (suc at) rest passable ready) (λ _ others. (ways, others))

-- What ValidateAndLink makes of a model.
pub record IsLinkedModel (m r : Model) : Type 0 where
  pub has_create : some_block is_create m.blocks ≡ true
  pub has_terminate : some_block is_terminate m.blocks ≡ true
  pub blocks : LinkedAs m m.blocks r.blocks
  pub resources : SeizedAs m m.resources r.resources
  pub waits : WaitsFrom r.blocks 0 r.blocks
  pub others : r ≡ record m { blocks = r.blocks; resources = r.resources }

module _ (m : Model) (blocks_at : Indexed (λ b. b.name) m.blocks m.block_by_name)
    (entities_at : Indexed (λ e. e.name) m.entities m.entity_by_name)
    (resources_at : Indexed (λ r. r.name) m.resources m.resource_by_name) where
  queues-IsReady :
      (bs : List BlockDesc)
      → LinkedAs m m.blocks bs
      → (names : List Bytes) (queues : List ℕ) → WaitsAt m names queues
      → All (IsReady bs) queues
  queues-IsReady bs l [] [] w = tt
  queues-IsReady bs l [] (q ∷ queues) w = absurd w
  queues-IsReady bs l (name ∷ names) [] w = absurd w
  queues-IsReady bs l (name ∷ names) (q ∷ queues) (at, (a, here, is_q), w) =
      let (b, found, kind, linked) = LinkedAs-queue m m.blocks bs q a l here is_q in
      let (next, e, (text, points)) = queue-next m b.name b.params kind linked in
      (
        (
          next,
          rw found e,
          rw (LinkedAs-length m m.blocks bs l)
              (points-lt m blocks_at entities_at resources_at text next points),
        ),
        queues-IsReady bs l names queues w,
      )

  block-IsReady :
      (bs : List BlockDesc)
      → LinkedAs m m.blocks bs
      → (name : Bytes) (params : BlockParams) → IsLinked m name params
      → All (IsReady bs) (queues_of bs params)
  block-IsReady bs l name (delay p) linked =
      queues-IsReady bs l p.wait_queue_names p.wait_queues linked.1
  block-IsReady bs l name (seize p) linked =
      queues-IsReady bs l p.wait_queue_names p.wait_queues linked.1
  block-IsReady bs l name (create p) linked = tt
  block-IsReady bs l name (queue p) linked = tt
  block-IsReady bs l name (release p) linked = tt
  block-IsReady bs l name (assign p) linked = tt
  block-IsReady bs l name (branch p) linked = tt
  block-IsReady bs l name terminate linked = tt

  blocks-IsReady :
      (bs : List BlockDesc)
      → LinkedAs m m.blocks bs
      → (before rest : List BlockDesc) → LinkedAs m before rest
      → All (λ (b : BlockDesc). All (IsReady bs) (queues_of bs b.params)) rest
  blocks-IsReady bs l [] [] k = tt
  blocks-IsReady bs l [] (b ∷ rest) k = absurd k
  blocks-IsReady bs l (a ∷ before) [] k = absurd k
  blocks-IsReady bs l (a ∷ before) (b ∷ rest) k =
      (block-IsReady bs l b.name b.params k.1.0, blocks-IsReady bs l before rest k.2)

  required-Allows :
      Allows
        (λ (_ : Unit {0}).
          (some_block is_create m.blocks ≡ true) × (some_block is_terminate m.blocks ≡ true))
        (validate_required_blocks m)
  unfolding validate_required_blocks
  required-Allows =
      Allows-bind (reject_if-Allows (not (some_block is_create m.blocks)) unknown_reference) λ _ c.
        Allows-weaken (reject_if-Allows (not (some_block is_terminate m.blocks)) unknown_reference)
          (λ _ t. (
            not-eq_false (some_block is_create m.blocks) c,
            not-eq_false (some_block is_terminate m.blocks) t,
          ))

  -- If the maps by name of a model agree with its lists, and its pointers that are set only under a flag
  -- are nil, as Parse leaves them, ValidateAndLink follows no nil pointer, and a model
  -- that it returns has a CREATE and a TERMINATE block; each block has its text and points to what it
  -- names, a wait queue being a QUEUE block and a SEIZE block being listed by its resource; each resource
  -- points to SEIZE blocks of its own; and a way through ASSIGN and BRANCH blocks leads from each wait
  -- queue to the block that waits at it. Nothing else is changed.
  pub validate_and_link-Allows :
      All (λ (b : BlockDesc). IsUnset b.params) m.blocks
      → Allows (IsLinkedModel m) (validate_and_link m)
  unfolding validate_and_link validate_wait_queue_reachability
  validate_and_link-Allows unset = Allows-bind required-Allows λ _ required.
      Allows-bind (link_blocks-Allows m blocks_at entities_at resources_at m.blocks unset) λ bs l.
        Allows-bind (link_resources-Allows m blocks_at entities_at resources_at m.resources)
          λ rs seized.
            Allows-bind
              (waits-Allows bs 0 bs (linked-IsPassable m blocks_at entities_at resources_at bs l)
                (blocks-IsReady bs l m.blocks bs l))
              λ _ waits. holds (record {
                has_create = required.0;
                has_terminate = required.1;
                blocks = l;
                resources = seized;
                waits = waits;
                others = refl;
              })
