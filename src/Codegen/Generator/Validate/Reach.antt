-- ===== src/Codegen/Generator/Validate/Reach.antt =====
-- canReachWaitTarget of codegen/generator/validate.go: from the next block of a queue through ASSIGN and
-- BRANCH blocks. The map of the visited blocks is shared by the whole search.
use go_cloud_des.Prelude.{
  ℕ, zero, suc, Bool, true, false, ◌==◌, nat_eq, Option, none, some, List, [], ◌∷◌, if◌then◌else◌,
  contains, length,
}
use go_cloud_des.Codegen.Slices.{get_elem?}
use go_cloud_des.Codegen.Generator.Model.{
  BranchCase, BranchParams, BlockParams, queue, assign, branch, BlockDesc,
}

-- An answer with the blocks that are then visited; `none` is a nil pointer, or the end of the fuel.
abbrev pub Answer : Type 0
Answer = Option (Bool × List ℕ)

abbrev pub follow : (ℕ → List ℕ → Answer) → List ℕ → Option ℕ → Answer
follow go visited none = none
follow go visited (some at) = go at visited

-- After one case: the target is reached, or the next case follows.
unfoldable pub next_case : (List ℕ → Answer) → Answer → Answer
next_case rest none = none
next_case rest (some (true, visited)) = some (true, visited)
next_case rest (some (false, visited)) = rest visited

-- The loop over the cases, which ends at the first that reaches the target, and the other branch.
unfoldable pub from_cases : (ℕ → List ℕ → Answer) → BranchParams → List BranchCase → List ℕ → Answer
unfolding next_case
from_cases go params [] visited =
    if params.has_else then follow go visited params.else_next else some (false, visited)
from_cases go params (c ∷ cases) visited =
    next_case (from_cases go params cases) (follow go visited c.next)

unfoldable pub from_params : (ℕ → List ℕ → Answer) → List ℕ → BlockParams → Answer
unfolding from_cases
from_params go visited (assign params) = follow go visited params.next
from_params go visited (branch params) = from_cases go params params.cases visited
from_params go visited _ = some (false, visited)

unfoldable pub from_block : (ℕ → List ℕ → Answer) → List ℕ → Option BlockDesc → Answer
unfolding from_params
from_block go visited none = none
from_block go visited (some block) = from_params go visited block.params

-- canReachWaitTargetFrom. Each call but the last on a way visits a block that was not visited.
unfoldable pub can_reach_from : ℕ → List BlockDesc → ℕ → ℕ → List ℕ → Answer
unfolding from_block get_elem?
can_reach_from zero blocks target current visited = none
can_reach_from (suc fuel) blocks target current visited =
    if current == target
    then some (true, visited)
    else if contains current visited
    then some (false, visited)
    else from_block (can_reach_from fuel blocks target) (current ∷ visited)
        (get_elem? blocks current)

abbrev pub next_of : BlockParams → Option ℕ
next_of (queue params) = params.next
next_of _ = none

-- `queue.Params.(*QueueParams).Next`
abbrev pub queue_next : Option BlockDesc → Option ℕ
queue_next none = none
queue_next (some block) = next_of block.params

unfoldable pub can_reach : List BlockDesc → ℕ → ℕ → Answer
unfolding can_reach_from get_elem?
can_reach blocks queue_at target =
    follow (can_reach_from (suc (length blocks)) blocks target) []
      (queue_next (get_elem? blocks queue_at))
