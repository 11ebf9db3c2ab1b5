-- ===== src/Codegen/Generator/Blocks/Reading.antt =====
-- How codegen/generator/parse_block.go reads the value of a parameter.
use go_cloud_des.Prelude.{Bool, true, false, ◌==◌, nat_eq, if◌then◌else◌, length}
use go_cloud_des.Codegen.Generator.Text.{Bytes, bytes_eq}
use go_cloud_des.Codegen.Generator.Parsed.{
  Action, pure, fail, fail_if, ◌>>=◌, ◌>>◌, Round, again, no_more_words, need_word, line, is_text,
  incorrect_format, unknown_blocking_policy,
}
use go_cloud_des.Codegen.Generator.Names.{validate_name}
use go_cloud_des.Codegen.Generator.Model.{
  Expr, BlockingPolicy, policy_error, policy_destroy, QueueDiscipline, discipline_fifo,
}

unfoldable pub read_required_token : Action Bytes
read_required_token = do
  token ← need_word incorrect_format
  no_more_words incorrect_format
  pure token

unfoldable pub read_required_name : Action Bytes
unfolding read_required_token
read_required_name = do token ← read_required_token; validate_name token

unfoldable pub read_required_expr : Action Expr
read_required_expr = do expr ← line; fail_if (length expr == 0) incorrect_format; pure expr

unfoldable pub read_required_bool : Action Bool
unfolding read_required_token
read_required_bool = do
  token ← read_required_token
  if is_text token "true"
      then pure true
      else if is_text token "false"
      then pure false
      else fail incorrect_format

unfoldable pub read_blocking_policy : Action BlockingPolicy
unfolding read_required_token
read_blocking_policy = do
  token ← read_required_token
  if is_text token "error"
      then pure policy_error
      else if is_text token "destroy"
      then pure policy_destroy
      else fail unknown_blocking_policy

unfoldable pub read_queue_discipline : Action QueueDiscipline
unfolding read_required_token
read_queue_discipline = do
  token ← read_required_token
  if is_text token "fifo" then pure discipline_fifo else fail incorrect_format

unfoldable pub expect_no_extra_after_closing_brace : Action (Unit {0})
expect_no_extra_after_closing_brace = no_more_words incorrect_format

-- parseUniqueParam, whose pointers `has` and `field` are set by `next`.
module _ {ℓ κ κ'} {V : Type ℓ} {S : Type κ} {A : Type κ'} where
  unfoldable pub parse_unique_param : Bool → Action V → (V → S) → Action (Round S A)
  parse_unique_param has read next = do
    fail_if has incorrect_format
    value ← read
    pure (again (next value))

  -- A parameter that may stand several times.
  unfoldable pub parse_repeated_param : Action V → (V → S) → Action (Round S A)
  parse_repeated_param read next = do value ← read; pure (again (next value))
