-- ===== src/Codegen/Generator/Validate.antt =====
-- codegen/generator/validate.go: ValidateAndLink. Linking sets only pointers, which no test reads before
-- the search for wait queues; so the blocks are linked one by one against the model that was given. After
-- an error the model is not used. No pointer in the lists of a model is nil.
pub mod Reach
pub mod Search
pub mod Reachable
pub mod Rules
pub mod Links
pub mod Blocks
pub mod Sound
use go_cloud_des.Prelude.{
  ℕ, zero, suc, ◌+◌, ◌≡◌, Bool, true, false, not, ◌&&◌, ◌||◌, ◌==◌, nat_eq, Option, none, some,
  List, [], ◌∷◌, ◌++◌, if◌then◌else◌, contains, length, arith,
}
use go_cloud_des.Dict
use go_cloud_des.Dict.{Dict}
use go_cloud_des.Codegen.Slices.{get_elem?}
use go_cloud_des.Codegen.Generator.Text.{Bytes, bytes_eq}
use go_cloud_des.Codegen.Generator.Model.{
  EntityDesc, ResourceDesc, CreateParams, QueueParams, DelayParams, SeizeParams, ReleaseParams,
  AssignmentTarget, Assignment, AssignParams, BranchCase, BranchParams, BlockParams, create, queue,
  delay, seize, release, assign, branch, terminate, BlockDesc, Model,
}
use go_cloud_des.Codegen.Generator.Parsed.{Reason, incorrect_format, unknown_reference}
use go_cloud_des.Codegen.Generator.Validate.Reach.{can_reach}

-- `invalid` is a ModelErr; `crashed` stands for a nil or dangling pointer that is followed.
pub data Checked {ℓ} (A : Type ℓ) : Type ℓ where
  valid : A → Checked A
  invalid : Reason → Checked A
  crashed : Checked A

infixl 1 ◌>>=◌ ◌>>◌
abbrev pub ◌>>=◌ {ℓ κ} : {A : Type ℓ} {B : Type κ} → Checked A → (A → Checked B) → Checked B
valid a >>= f = f a
invalid why >>= f = invalid why
crashed >>= f = crashed

abbrev pub ◌>>◌ {ℓ} : {B : Type ℓ} → Checked (Unit {0}) → Checked B → Checked B
m >> k = m >>= λ _. k

abbrev pub reject_if : Bool → Reason → Checked (Unit {0})
reject_if true why = invalid why
reject_if false why = valid tt

-- A pointer of a map by name, or an unknown reference.
abbrev pub known {ℓ} : {A : Type ℓ} → Option A → Checked A
known none = invalid unknown_reference
known (some a) = valid a

-- What a pointer points to.
abbrev pub followed {ℓ} : {A : Type ℓ} → Option A → Checked A
followed none = crashed
followed (some a) = valid a

abbrev pub is_create : BlockDesc → Bool
is_create block = elim block.params [ create p ↦ true | _ ↦ false ]

abbrev pub is_terminate : BlockDesc → Bool
is_terminate block = elim block.params [ terminate ↦ true | _ ↦ false ]

abbrev pub is_queue : BlockDesc → Bool
is_queue block = elim block.params [ queue p ↦ true | _ ↦ false ]

-- Whether a block passes a test.
unfoldable pub some_block : (BlockDesc → Bool) → List BlockDesc → Bool
some_block test [] = false
some_block test (block ∷ blocks) = test block || some_block test blocks

unfoldable pub validate_required_blocks : Model → Checked (Unit {0})
unfolding some_block
validate_required_blocks model = do
  reject_if (not (some_block is_create model.blocks)) unknown_reference
  reject_if (not (some_block is_terminate model.blocks)) unknown_reference

module _ (model : Model) where
  unfoldable pub require_block : Bytes → Checked ℕ
  require_block name = known (Dict.get model.block_by_name name)

  unfoldable pub require_queue_block : Bytes → Checked ℕ
  unfolding require_block
  require_queue_block name = do
    at ← require_block name
    block ← followed (get_elem? model.blocks at)
    reject_if (not (is_queue block)) incorrect_format
    valid at

  unfoldable pub wait_queues : List Bytes → Checked (List ℕ)
  unfolding require_queue_block
  wait_queues [] = valid []
  wait_queues (name ∷ names) = do
    at ← require_queue_block name
    rest ← wait_queues names
    valid (at ∷ rest)

  unfoldable pub link_create : CreateParams → Checked BlockParams
  unfolding require_block
  link_create params = do
    entity ← known (Dict.get model.entity_by_name params.entity_name)
    next ← require_block params.next_name
    valid (create (record params { entity = some entity; next = some next }))

  -- The pointer of a parameter that is there only if a flag is set, and else stays as it is.
  unfoldable pub require_if : Bool → Bytes → Option ℕ → Checked (Option ℕ)
  unfolding require_block
  require_if false name current = valid current
  require_if true name current = do at ← require_block name; valid (some at)

  unfoldable pub link_queue : QueueParams → Checked BlockParams
  unfolding require_block require_if
  link_queue params = do
    next ← require_block params.next_name
    reject_if (params.has_timeout && params.next_timeout_name == []) unknown_reference
    reject_if (not params.has_timeout && not (params.next_timeout_name == [])) incorrect_format
    next_timeout ← require_if params.has_timeout params.next_timeout_name params.next_timeout
    reject_if (params.exit_on_overflow && params.next_overflow_name == []) unknown_reference
    reject_if (not params.exit_on_overflow && not (params.next_overflow_name == []))
        incorrect_format
    next_overflow ←
        require_if params.exit_on_overflow params.next_overflow_name params.next_overflow
    valid (
        queue (record params {
          next = some next;
          next_timeout = next_timeout;
          next_overflow = next_overflow;
        }))

  unfoldable pub link_delay : DelayParams → Checked BlockParams
  unfolding require_block wait_queues
  link_delay params = do
    next ← require_block params.next_name
    queues ← wait_queues params.wait_queue_names
    valid (delay (record params { next = some next; wait_queues = queues }))

  unfoldable pub link_seize : Bytes → SeizeParams → Checked BlockParams
  unfolding require_block wait_queues
  link_seize block_name params = do
    at ← known (Dict.get model.resource_by_name params.resource_name)
    resource ← followed (get_elem? model.resources at)
    next ← require_block params.next_name
    queues ← wait_queues params.wait_queue_names
    reject_if (not (contains block_name resource.seize_names)) unknown_reference
    valid (seize (record params { resource = some at; next = some next; wait_queues = queues }))

  unfoldable pub link_release : ReleaseParams → Checked BlockParams
  unfolding require_block
  link_release params = do
    at ← known (Dict.get model.resource_by_name params.resource_name)
    next ← require_block params.next_name
    valid (release (record params { resource = some at; next = some next }))

  unfoldable pub validate_assignment_target : AssignmentTarget → Checked (Unit {0})
  validate_assignment_target target =
      if target.is_entity_field
      then (known (Dict.get model.entity_by_name target.entity_name) >>= λ at.
          followed (get_elem? model.entities at) >>= λ entity.
          reject_if (not (Dict.has entity.field_by_name target.field_name)) unknown_reference)
      else reject_if (not (Dict.has model.var_by_name target.var_name)) unknown_reference

  unfoldable pub validate_targets : List Assignment → Checked (Unit {0})
  unfolding validate_assignment_target
  validate_targets [] = valid tt
  validate_targets (a ∷ assignments) = do
    validate_assignment_target a.target
    validate_targets assignments

  unfoldable pub link_assign : AssignParams → Checked BlockParams
  unfolding require_block validate_targets
  link_assign params = do
    next ← require_block params.next_name
    validate_targets params.assignments
    valid (assign (record params { next = some next }))

  unfoldable pub link_cases : List BranchCase → Checked (List BranchCase)
  unfolding require_block
  link_cases [] = valid []
  link_cases (c ∷ cases) = do
    next ← require_block c.next_name
    rest ← link_cases cases
    valid (record c { next = some next } ∷ rest)

  unfoldable pub link_branch : BranchParams → Checked BlockParams
  unfolding link_cases require_if
  link_branch params = do
    cases ← link_cases params.cases
    else_next ← require_if params.has_else params.else_name params.else_next
    valid (branch (record params { cases = cases; else_next = else_next }))

  unfoldable pub link_params : Bytes → BlockParams → Checked BlockParams
  unfolding link_create link_queue link_delay link_seize link_release link_assign link_branch
  link_params name (create params) = link_create params
  link_params name (queue params) = link_queue params
  link_params name (delay params) = link_delay params
  link_params name (seize params) = link_seize name params
  link_params name (release params) = link_release params
  link_params name (assign params) = link_assign params
  link_params name (branch params) = link_branch params
  link_params name terminate = valid terminate

  unfoldable pub link_blocks : List BlockDesc → Checked (List BlockDesc)
  unfolding link_params
  link_blocks [] = valid []
  link_blocks (block ∷ blocks) = do
    params ← link_params block.name block.params
    rest ← link_blocks blocks
    valid (record block { params = params } ∷ rest)

  -- The resource that a SEIZE block names, or none for another block.
  abbrev pub seized_by : BlockDesc → Option Bytes
  seized_by block = elim block.params [ seize p ↦ some p.resource_name | _ ↦ none ]

  abbrev pub is_seize_of : Bytes → Option Bytes → Checked (Unit {0})
  is_seize_of resource_name none = invalid incorrect_format
  is_seize_of resource_name (some named) =
      reject_if (not (named == resource_name)) unknown_reference

  unfoldable pub link_seizes : Bytes → List Bytes → Checked (List ℕ)
  unfolding require_block
  link_seizes resource_name [] = valid []
  link_seizes resource_name (name ∷ names) = do
    at ← require_block name
    block ← followed (get_elem? model.blocks at)
    is_seize_of resource_name (seized_by block)
    rest ← link_seizes resource_name names
    valid (at ∷ rest)

  unfoldable pub link_resources : List ResourceDesc → Checked (List ResourceDesc)
  unfolding link_seizes
  link_resources [] = valid []
  link_resources (r ∷ resources) = do
    seizes ← link_seizes r.name r.seize_names
    rest ← link_resources resources
    valid (record r { seizes = seizes } ∷ rest)

-- canReachWaitTarget's answer.
abbrev pub answer : Option (Bool × List ℕ) → Checked Bool
answer none = crashed
answer (some (reached, visited)) = valid reached

module _ (blocks : List BlockDesc) where
  unfoldable pub reachable_from_all : List ℕ → ℕ → Checked (Unit {0})
  unfolding can_reach
  reachable_from_all [] target = valid tt
  reachable_from_all (queue_at ∷ queues) target = do
    reached ← answer (can_reach blocks queue_at target)
    reject_if (not reached) incorrect_format
    reachable_from_all queues target

  abbrev pub queues_of : BlockParams → List ℕ
  queues_of (delay p) = p.wait_queues
  queues_of (seize p) = p.wait_queues
  queues_of _ = []

  -- The blocks from place `at` on.
  unfoldable pub validate_wait_queues_from : ℕ → List BlockDesc → Checked (Unit {0})
  unfolding reachable_from_all
  validate_wait_queues_from at [] = valid tt
  validate_wait_queues_from at (block ∷ rest) = do
    reachable_from_all (queues_of block.params) at
    validate_wait_queues_from (suc at) rest

unfoldable pub validate_wait_queue_reachability : Model → Checked (Unit {0})
unfolding validate_wait_queues_from
validate_wait_queue_reachability model = validate_wait_queues_from model.blocks 0 model.blocks

unfoldable pub validate_and_link : Model → Checked Model
unfolding validate_required_blocks link_blocks link_resources validate_wait_queue_reachability
validate_and_link model = do
  validate_required_blocks model
  blocks ← link_blocks model model.blocks
  resources ← link_resources model model.resources
  validate_wait_queue_reachability (record model { blocks = blocks; resources = resources })
  valid (record model { blocks = blocks; resources = resources })
