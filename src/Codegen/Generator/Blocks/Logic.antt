-- ===== src/Codegen/Generator/Blocks/Logic.antt =====
-- parseAssignParams and parseBranchParams of codegen/generator/parse_block.go.
use go_cloud_des.Prelude.{
  ℕ, suc, Bool, true, false, not, ◌&&◌, ◌||◌, ◌==◌, nat_eq, Option, none, some, [], ◌∷◌, ◌++◌,
  if◌then◌else◌, length, take, drop,
}
use go_cloud_des.Codegen.Generator.Text.{Bytes, bytes_eq, index_byte, trim_space}
use go_cloud_des.Codegen.Generator.Parsed.{
  Action, pure, fail, fail_if, ◌>>=◌, ◌>>◌, Round, return, each_line, line, is_text,
  incorrect_format, unknown_block_param,
}
use go_cloud_des.Codegen.Generator.Names.{validate_name}
use go_cloud_des.Codegen.Generator.Model.{
  AssignmentTarget, Assignment, AssignParams, BranchCase, BranchParams,
}
use go_cloud_des.Codegen.Generator.Blocks.Reading.{
  read_required_name, expect_no_extra_after_closing_brace, parse_unique_param, parse_repeated_param,
}

unfoldable pub variable_target : Bytes → Action AssignmentTarget
variable_target target = do
  name ← validate_name target
  pure (record { is_entity_field = false; entity_name = []; field_name = []; var_name = name })

-- A target with a dot at `dot`.
unfoldable pub field_target : Bytes → ℕ → Action AssignmentTarget
unfolding index_byte
field_target target dot = do
  fail_if (dot == 0 || suc dot == length target) incorrect_format
  fail_if (elim (index_byte (drop (suc dot) target) b'.') [ none ↦ false | some i ↦ true ])
      incorrect_format
  entity_name ← validate_name (take dot target)
  field_name ← validate_name (drop (suc dot) target)
  pure (record {
    is_entity_field = true;
    entity_name = entity_name;
    field_name = field_name;
    var_name = [];
  })

unfoldable pub target_of : Bytes → Option ℕ → Action AssignmentTarget
unfolding variable_target field_target
target_of target none = variable_target target
target_of target (some dot) = field_target target dot

unfoldable pub parse_assignment_target : Bytes → Action AssignmentTarget
unfolding target_of
parse_assignment_target text = do
  let target = trim_space text
  fail_if (length target == 0) incorrect_format
  target_of target (index_byte target b'.')

-- An assignment with its first equals sign at `eq`.
unfoldable pub assignment_of : Bytes → Option ℕ → Action Assignment
unfolding parse_assignment_target
assignment_of text none = fail incorrect_format
assignment_of text (some eq) = do
  let expr_raw = trim_space (drop (suc eq) text)
  fail_if (length expr_raw == 0) incorrect_format
  target ← parse_assignment_target (trim_space (take eq text))
  pure (record { target = target; expr = expr_raw })

unfoldable pub parse_assignment : Action Assignment
unfolding assignment_of
parse_assignment = do
  text ← line
  fail_if (length text == 0) incorrect_format
  assignment_of text (index_byte text b'=')

-- The parameters and `hasNext`.
pub record AssignState : Type 0 where
  pub params : AssignParams
  pub has_next : Bool

unfoldable pub assign_end : AssignState → Action (Round AssignState AssignParams)
assign_end st = do
  expect_no_extra_after_closing_brace
  fail_if (not st.has_next) incorrect_format
  pure (return st.params)

unfoldable pub assign_line : AssignState → Bytes → Action (Round AssignState AssignParams)
unfolding assign_end parse_assignment
assign_line st param =
    if is_text param "}"
    then assign_end st
    else if is_text param "set"
    then parse_repeated_param parse_assignment (λ v. record st {
      params = record st.params { assignments = st.params.assignments ++ v ∷ [] };
    })
    else if is_text param "next"
    then parse_unique_param st.has_next read_required_name
        (λ v. record st { params = record st.params { next_name = v }; has_next = true })
    else fail unknown_block_param

unfoldable pub new_assign : AssignState
new_assign = record {
  params = record { assignments = []; next_name = []; next = none };
  has_next = false;
}

unfoldable pub parse_assign_params : Action AssignParams
unfolding assign_line new_assign
parse_assign_params = each_line assign_line new_assign

-- splitColon, with the first colon at `idx`.
unfoldable pub halves : Bytes → Option ℕ → Action (Bytes × Bytes)
unfolding index_byte trim_space
halves text none = fail incorrect_format
halves text (some idx) = do
  let right = trim_space (drop (suc idx) text)
  fail_if (length right == 0) incorrect_format
  fail_if (elim (index_byte right b':') [ none ↦ false | some i ↦ true ]) incorrect_format
  pure (trim_space (take idx text), right)

unfoldable pub split_colon : Bytes → Action (Bytes × Bytes)
unfolding halves
split_colon text = halves text (index_byte text b':')

unfoldable pub parse_branch_case : Action BranchCase
unfolding split_colon
parse_branch_case = do
  text ← line
  parts ← split_colon text
  fail_if (length parts.0 == 0) incorrect_format
  next_name ← validate_name parts.1
  pure (record { condition = parts.0; next_name = next_name; next = none })

unfoldable pub parse_branch_else : Action Bytes
unfolding split_colon
parse_branch_else = do
  text ← line
  parts ← split_colon text
  fail_if (not (length parts.0 == 0)) incorrect_format
  validate_name parts.1

unfoldable pub branch_end : BranchParams → Action (Round BranchParams BranchParams)
branch_end params = do
  expect_no_extra_after_closing_brace
  fail_if (length params.cases == 0 && not params.has_else) incorrect_format
  pure (return params)

unfoldable pub branch_line : BranchParams → Bytes → Action (Round BranchParams BranchParams)
unfolding branch_end parse_branch_case parse_branch_else
branch_line params param =
    if is_text param "}"
    then branch_end params
    else if is_text param "if"
    then parse_repeated_param parse_branch_case
        (λ v. record params { cases = params.cases ++ v ∷ [] })
    else if is_text param "else"
    then parse_unique_param params.has_else parse_branch_else
        (λ v. record params { else_name = v; has_else = true })
    else fail unknown_block_param

unfoldable pub new_branch : BranchParams
new_branch = record { cases = []; has_else = false; else_name = []; else_next = none }

unfoldable pub parse_branch_params : Action BranchParams
unfolding branch_line new_branch
parse_branch_params = each_line branch_line new_branch
