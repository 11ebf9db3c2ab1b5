-- ===== src/Codegen/Generator/Blocks.antt =====
-- codegen/generator/parse_block.go: parseBlock and its dispatch on the type of the block.
pub mod Reading
pub mod Arrivals
pub mod Resources
pub mod Logic
pub mod ReadingSound
pub mod ArrivalsSound
pub mod QueuesSound
pub mod SeizesSound
pub mod ResourcesSound
pub mod LogicSound
pub mod Sound
use go_cloud_des.Prelude.{
  ℕ, zero, suc, ◌+◌, ◌≡◌, Bool, true, false, not, ◌&&◌, ◌||◌, ◌==◌, nat_eq, Option, none, some,
  List, [], ◌∷◌, ◌++◌, if◌then◌else◌, length, take, drop, arith,
}
use go_cloud_des.Strings.{codes}
use go_cloud_des.Codegen.Generator.Text.{Bytes, bytes_eq, index_byte, trim_space}
use go_cloud_des.Codegen.Generator.Parsed.{
  Action, pure, fail, fail_if, ◌>>=◌, ◌>>◌, Round, again, return, each_line, word, or_empty,
  no_more_words, need_word, line, scan_no_empty, is_text, incorrect_format, unexpected_eof,
  unknown_block_param, unknown_block_type, unknown_blocking_policy,
}
use go_cloud_des.Codegen.Generator.Names.{validate_name, expect_opening_brace, expect_closing_brace}
use go_cloud_des.Codegen.Generator.Model.{
  BlockDesc, BlockParams, create, queue, delay, seize, release, assign, branch, terminate,
}
use go_cloud_des.Codegen.Generator.Sections.{need_line}
use go_cloud_des.Codegen.Generator.Blocks.Arrivals.{parse_create_params, parse_queue_params}
use go_cloud_des.Codegen.Generator.Blocks.Resources.{
  parse_delay_params, parse_seize_params, parse_release_params, parse_terminate_params,
}
use go_cloud_des.Codegen.Generator.Blocks.Logic.{parse_assign_params, parse_branch_params}

abbrev wrapped {ℓ} : {A : Type ℓ} → (A → BlockParams) → Action A → Action BlockParams
wrapped wrap parse = do params ← parse; pure (wrap params)

unfoldable pub parse_params : Bytes → Action BlockParams
parse_params type_token =
    if is_text type_token "CREATE"
    then wrapped create parse_create_params
    else if is_text type_token "QUEUE"
    then wrapped queue parse_queue_params
    else if is_text type_token "DELAY"
    then wrapped delay parse_delay_params
    else if is_text type_token "SEIZE"
    then wrapped seize parse_seize_params
    else if is_text type_token "RELEASE"
    then wrapped release parse_release_params
    else if is_text type_token "TERMINATE"
    then wrapped (λ _. terminate) parse_terminate_params
    else if is_text type_token "ASSIGN"
    then wrapped assign parse_assign_params
    else if is_text type_token "BRANCH"
    then wrapped branch parse_branch_params
    else fail unknown_block_type

unfoldable pub parse_block : Action BlockDesc
unfolding parse_params
parse_block = do
  need_line
  type_token ← word
  name_token ← need_word incorrect_format
  name ← validate_name name_token
  expect_opening_brace
  params ← parse_params (or_empty type_token)
  pure (record { name = name; params = params })
