-- ===== src/Codegen/Generator/Validate/Links.antt =====
-- What the blocks that validate.go has linked point to.
use go_cloud_des.Prelude.{
  ℕ, ◌≡◌, ◌⊎◌, inl, inr, refl, ap, arith, Bool, true, false, not, ◌&&◌, ◌==◌, nat_eq, eq_iff,
  Option, none, some, List, [], ◌∷◌, contains, All, Bool-cases,
}
use go_cloud_des.Dict
use go_cloud_des.Dict.{Dict}
use go_cloud_des.Codegen.Slices.{get_elem?}
use go_cloud_des.Codegen.Generator.Text.{Bytes, bytes_eq}
use go_cloud_des.Codegen.Generator.Model.{
  EntityDesc, ResourceDesc, CreateParams, QueueParams, DelayParams, SeizeParams, ReleaseParams,
  AssignmentTarget, Assignment, AssignParams, BranchCase, BranchParams, BlockParams, create, queue,
  delay, seize, release, assign, branch, terminate, BlockDesc, Model,
}
use go_cloud_des.Codegen.Generator.Parsed.{incorrect_format, unknown_reference}
use go_cloud_des.Codegen.Generator.Names.Sound.{not-eq_false}
use go_cloud_des.Codegen.Generator.Sections.Section.{Indexed}
use go_cloud_des.Codegen.Generator.Validate.Rules.{
  Allows, holds, Allows-bind, Allows-weaken, reject_if-Allows, known-Allows, followed-Allows,
}
use go_cloud_des.Codegen.Generator.Validate.{
  is_queue, require_block, require_queue_block, wait_queues, link_create, require_if, link_queue,
  link_delay, link_seize, link_release, validate_assignment_target, validate_targets, link_assign,
  link_cases, link_branch, link_params,
}

-- A pointer to what has the name.
abbrev pub PointsTo : Dict Bytes ℕ → Bytes → Option ℕ → Type 0
PointsTo d name link = (i : ℕ) × (link ≡ some i) × (Dict.get d name ≡ some i)

-- A pointer to what has the name, if the flag is set, and else nil.
abbrev pub PointsIf : Dict Bytes ℕ → Bool → Bytes → Option ℕ → Type 0
PointsIf d true name link = PointsTo d name link
PointsIf d false name link = link ≡ none

abbrev pub IsQueueAt : Model → ℕ → Type 0
IsQueueAt m i = (b : BlockDesc) × (get_elem? m.blocks i ≡ some b) × (is_queue b ≡ true)

-- Pointers to the QUEUE blocks with these names, in order.
abbrev pub WaitsAt : Model → List Bytes → List ℕ → Type 0
WaitsAt m [] [] = Unit {0}
WaitsAt m [] (i ∷ queues) = ⊥
WaitsAt m (name ∷ names) [] = ⊥
WaitsAt m (name ∷ names) (i ∷ queues) =
    (Dict.get m.block_by_name name ≡ some i) × IsQueueAt m i × WaitsAt m names queues

-- A variable of the model, or a field of an entity of it.
abbrev pub IsKnownTarget : Model → AssignmentTarget → Type 0
IsKnownTarget m t =
    ((t.is_entity_field ≡ false) × (Dict.has m.var_by_name t.var_name ≡ true))
    ⊎ ((e : EntityDesc) × (i : ℕ) × (Dict.get m.entity_by_name t.entity_name ≡ some i)
        × (get_elem? m.entities i ≡ some e)
        × (Dict.has e.field_by_name t.field_name ≡ true))

abbrev pub IsLinkedCase : Model → BranchCase → Type 0
IsLinkedCase m c = PointsTo m.block_by_name c.next_name c.next

abbrev pub IsLinked : Model → Bytes → BlockParams → Type 0
IsLinked m name (create p) =
    PointsTo m.entity_by_name p.entity_name p.entity × PointsTo m.block_by_name p.next_name p.next
IsLinked m name (queue p) =
    PointsTo m.block_by_name p.next_name p.next
    × PointsIf m.block_by_name p.has_timeout p.next_timeout_name p.next_timeout
    × PointsIf m.block_by_name p.exit_on_overflow p.next_overflow_name p.next_overflow
    × (p.has_timeout ≡ false → p.next_timeout_name ≡ [])
    × (p.exit_on_overflow ≡ false → p.next_overflow_name ≡ [])
IsLinked m name (delay p) =
    PointsTo m.block_by_name p.next_name p.next × WaitsAt m p.wait_queue_names p.wait_queues
IsLinked m name (seize p) =
    PointsTo m.block_by_name p.next_name p.next
    × WaitsAt m p.wait_queue_names p.wait_queues
    × ((i : ℕ) × (r : ResourceDesc) × (p.resource ≡ some i)
        × (Dict.get m.resource_by_name p.resource_name ≡ some i)
        × (get_elem? m.resources i ≡ some r)
        × (contains name r.seize_names ≡ true))
IsLinked m name (release p) =
    PointsTo m.resource_by_name p.resource_name p.resource
    × PointsTo m.block_by_name p.next_name p.next
IsLinked m name (assign p) =
    PointsTo m.block_by_name p.next_name p.next
    × All (λ (a : Assignment). IsKnownTarget m a.target) p.assignments
IsLinked m name (branch p) =
    All (IsLinkedCase m) p.cases × PointsIf m.block_by_name p.has_else p.else_name p.else_next
IsLinked m name terminate = Unit {0}

-- The pointers that are set only under a flag are nil.
abbrev pub IsUnset : BlockParams → Type 0
IsUnset (queue p) = (p.next_timeout ≡ none) × (p.next_overflow ≡ none)
IsUnset (branch p) = p.else_next ≡ none
IsUnset _ = Unit {0}

-- The text of a block: its parameters without the pointers.
abbrev pub unlinked_cases : List BranchCase → List BranchCase
unlinked_cases [] = []
unlinked_cases (c ∷ cases) = record c { next = none } ∷ unlinked_cases cases

abbrev pub unlinked : BlockParams → BlockParams
unlinked (create p) = create (record p { entity = none; next = none })
unlinked (queue p) = queue (record p { next = none; next_timeout = none; next_overflow = none })
unlinked (delay p) = delay (record p { next = none; wait_queues = [] })
unlinked (seize p) = seize (record p { resource = none; next = none; wait_queues = [] })
unlinked (release p) = release (record p { resource = none; next = none })
unlinked (assign p) = assign (record p { next = none })
unlinked (branch p) = branch (record p { cases = unlinked_cases p.cases; else_next = none })
unlinked terminate = terminate

-- The block is linked, and its text is that of `before`.
abbrev pub LinkedFrom : Model → Bytes → BlockParams → BlockParams → Type 0
LinkedFrom m name before after = IsLinked m name after × (unlinked after ≡ unlinked before)

module _ (m : Model) (blocks_at : Indexed (λ b. b.name) m.blocks m.block_by_name)
    (entities_at : Indexed (λ e. e.name) m.entities m.entity_by_name)
    (resources_at : Indexed (λ r. r.name) m.resources m.resource_by_name) where
  pub require_block-Allows :
      (name : Bytes) → Allows (λ i. Dict.get m.block_by_name name ≡ some i) (require_block m name)
  unfolding require_block
  require_block-Allows name = known-Allows (Dict.get m.block_by_name name)

  require_queue_block-Allows :
      (name : Bytes)
      → Allows
          (λ i. (Dict.get m.block_by_name name ≡ some i) × IsQueueAt m i)
          (require_queue_block m name)
  unfolding require_queue_block
  require_queue_block-Allows name = Allows-bind (require_block-Allows name) λ i at.
      let (b, found, _) = blocks_at.entry name i at in
      Allows-bind (followed-Allows (get_elem? m.blocks i) b found) λ block here.
        Allows-bind (reject_if-Allows (not (is_queue block)) incorrect_format)
          λ _ q. holds (at, (block, here, not-eq_false (is_queue block) q))

  wait_queues-Allows : (names : List Bytes) → Allows (WaitsAt m names) (wait_queues m names)
  unfolding wait_queues
  wait_queues-Allows [] = holds tt
  wait_queues-Allows (name ∷ names) =
      Allows-bind (require_queue_block-Allows name)
        λ i (at, q). Allows-bind (wait_queues-Allows names) λ rest waits. holds (at, q, waits)

  require_if-Allows :
      (flag : Bool) (name : Bytes) (current : Option ℕ)
      → current ≡ none
      → Allows (PointsIf m.block_by_name flag name) (require_if m flag name current)
  unfolding require_if
  require_if-Allows false name current unset = holds unset
  require_if-Allows true name current unset =
      Allows-bind (require_block-Allows name) λ i at. holds (i, refl, at)

  link_create-Allows :
      (name : Bytes) (p : CreateParams) → Allows (LinkedFrom m name (create p)) (link_create m p)
  unfolding link_create
  link_create-Allows name p =
      Allows-bind (known-Allows (Dict.get m.entity_by_name p.entity_name)) λ e e_at.
        Allows-bind (require_block-Allows p.next_name)
          λ i at. holds (((e, refl, e_at), (i, refl, at)), refl)

  link_queue-Allows :
      (name : Bytes) (p : QueueParams)
      → IsUnset (queue p)
      → Allows (LinkedFrom m name (queue p)) (link_queue m p)
  unfolding link_queue
  link_queue-Allows name p (t0, o0) = Allows-bind (require_block-Allows p.next_name) λ i at.
      Allows-bind (reject_if-Allows (p.has_timeout && p.next_timeout_name == []) unknown_reference)
        λ _ _.
          Allows-bind
            (reject_if-Allows (not p.has_timeout && not (p.next_timeout_name == []))
              incorrect_format)
            λ _ t.
              Allows-bind (require_if-Allows p.has_timeout p.next_timeout_name p.next_timeout t0)
                λ timeout t_at.
                  Allows-bind
                    (reject_if-Allows (p.exit_on_overflow && p.next_overflow_name == [])
                      unknown_reference)
                    λ _ _.
                      Allows-bind
                        (reject_if-Allows
                          (not p.exit_on_overflow && not (p.next_overflow_name == []))
                          incorrect_format)
                        λ _ o.
                          Allows-bind
                            (require_if-Allows p.exit_on_overflow p.next_overflow_name
                              p.next_overflow o0)
                            λ overflow o_at. holds (
                              (
                                (i, refl, at),
                                t_at,
                                o_at,
                                (λ h. (eq_iff p.next_timeout_name []).0 (ground (arith, t, h))),
                                (λ h. (eq_iff p.next_overflow_name []).0 (ground (arith, o, h))),
                              ),
                              refl,
                            )

  link_delay-Allows :
      (name : Bytes) (p : DelayParams) → Allows (LinkedFrom m name (delay p)) (link_delay m p)
  unfolding link_delay
  link_delay-Allows name p = Allows-bind (require_block-Allows p.next_name) λ i at.
      Allows-bind (wait_queues-Allows p.wait_queue_names)
        λ queues waits. holds (((i, refl, at), waits), refl)

  link_seize-Allows :
      (name : Bytes) (p : SeizeParams) → Allows (LinkedFrom m name (seize p)) (link_seize m name p)
  unfolding link_seize
  link_seize-Allows name p =
      Allows-bind (known-Allows (Dict.get m.resource_by_name p.resource_name)) λ r r_at.
        let (found, here, _) = resources_at.entry p.resource_name r r_at in
        Allows-bind (followed-Allows (get_elem? m.resources r) found here) λ resource at_r.
          Allows-bind (require_block-Allows p.next_name) λ i at.
            Allows-bind (wait_queues-Allows p.wait_queue_names) λ queues waits.
              Allows-bind
                (reject_if-Allows (not (contains name resource.seize_names)) unknown_reference)
                λ _ listed. holds (
                  (
                    (i, refl, at),
                    waits,
                    (
                      r,
                      resource,
                      refl,
                      r_at,
                      at_r,
                      not-eq_false (contains name resource.seize_names) listed,
                    ),
                  ),
                  refl,
                )

  link_release-Allows :
      (name : Bytes) (p : ReleaseParams) → Allows (LinkedFrom m name (release p)) (link_release m p)
  unfolding link_release
  link_release-Allows name p =
      Allows-bind (known-Allows (Dict.get m.resource_by_name p.resource_name)) λ r r_at.
        Allows-bind (require_block-Allows p.next_name)
          λ i at. holds (((r, refl, r_at), (i, refl, at)), refl)

  target-Allows :
      (t : AssignmentTarget)
      → Allows (λ (_ : Unit {0}). IsKnownTarget m t) (validate_assignment_target m t)
  unfolding validate_assignment_target
  target-Allows t = elim (Bool-cases t.is_entity_field) [
    | inl e ↦ rw e (
        Allows-bind (known-Allows (Dict.get m.entity_by_name t.entity_name)) λ i at.
          let (found, here, _) = entities_at.entry t.entity_name i at in
          Allows-bind (followed-Allows (get_elem? m.entities i) found here) λ entity at_i.
            Allows-weaken
              (reject_if-Allows (not (Dict.has entity.field_by_name t.field_name))
                unknown_reference)
              (λ _ f. inr (entity, i, at, at_i, not-eq_false _ f)))
    | inr e ↦ rw e (
        Allows-weaken (reject_if-Allows (not (Dict.has m.var_by_name t.var_name)) unknown_reference)
          (λ _ f. inl (refl, not-eq_false _ f)))
  ]

  validate_targets-Allows :
      (sets : List Assignment)
      → Allows
          (λ (_ : Unit {0}). All (λ (a : Assignment). IsKnownTarget m a.target) sets)
          (validate_targets m sets)
  unfolding validate_targets
  validate_targets-Allows [] = holds tt
  validate_targets-Allows (a ∷ sets) =
      Allows-bind (target-Allows a.target)
        λ _ known_a. Allows-weaken (validate_targets-Allows sets) (λ _ rest. (known_a, rest))

  link_assign-Allows :
      (name : Bytes) (p : AssignParams) → Allows (LinkedFrom m name (assign p)) (link_assign m p)
  unfolding link_assign
  link_assign-Allows name p = Allows-bind (require_block-Allows p.next_name) λ i at.
      Allows-bind (validate_targets-Allows p.assignments)
        λ _ sets. holds (((i, refl, at), sets), refl)

  link_cases-Allows :
      (cases : List BranchCase)
      → Allows
          (λ r. All (IsLinkedCase m) r × (unlinked_cases r ≡ unlinked_cases cases))
          (link_cases m cases)
  unfolding link_cases
  link_cases-Allows [] = holds (tt, refl)
  link_cases-Allows (c ∷ cases) = Allows-bind (require_block-Allows c.next_name) λ i at.
      Allows-bind (link_cases-Allows cases) λ rest (linked, same).
        holds (((i, refl, at), linked), ap (◌∷◌ (record c { next = none })) same)

  link_branch-Allows :
      (name : Bytes) (p : BranchParams)
      → IsUnset (branch p)
      → Allows (LinkedFrom m name (branch p)) (link_branch m p)
  unfolding link_branch
  link_branch-Allows name p e0 = Allows-bind (link_cases-Allows p.cases) λ cases (linked, same).
      Allows-bind (require_if-Allows p.has_else p.else_name p.else_next e0) λ other_next at.
        holds ((linked, at), ap (λ cs. branch (record p { cases = cs; else_next = none })) same)

  pub link_params-Allows :
      (name : Bytes) (params : BlockParams)
      → IsUnset params
      → Allows (LinkedFrom m name params) (link_params m name params)
  unfolding link_params
  link_params-Allows name (create p) unset = link_create-Allows name p
  link_params-Allows name (queue p) unset = link_queue-Allows name p unset
  link_params-Allows name (delay p) unset = link_delay-Allows name p
  link_params-Allows name (seize p) unset = link_seize-Allows name p
  link_params-Allows name (release p) unset = link_release-Allows name p
  link_params-Allows name (assign p) unset = link_assign-Allows name p
  link_params-Allows name (branch p) unset = link_branch-Allows name p unset
  link_params-Allows name terminate unset = holds (tt, refl)
