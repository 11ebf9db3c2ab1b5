-- ===== src/Codegen/Generator/Blocks/Resources.antt =====
-- parseDelayParams, parseSeizeParams, parseReleaseParams and parseTerminateParams of
-- codegen/generator/parse_block.go.
use go_cloud_des.Prelude.{Bool, true, false, not, nat_eq, none, [], ◌∷◌, ◌++◌, if◌then◌else◌}
use go_cloud_des.Codegen.Generator.Text.{Bytes, bytes_eq}
use go_cloud_des.Codegen.Generator.Parsed.{
  Action, pure, fail, fail_if, ◌>>◌, Round, return, each_line, is_text, incorrect_format,
  unknown_block_param,
}
use go_cloud_des.Codegen.Generator.Names.{expect_closing_brace}
use go_cloud_des.Codegen.Generator.Model.{DelayParams, SeizeParams, ReleaseParams}
use go_cloud_des.Codegen.Generator.Blocks.Reading.{
  read_required_name, read_required_expr, expect_no_extra_after_closing_brace, parse_unique_param,
  parse_repeated_param,
}

unfoldable pub parse_terminate_params : Action (Unit {0})
parse_terminate_params = expect_closing_brace

pub record DelayState : Type 0 where
  pub params : DelayParams
  pub has_next : Bool
  pub has_duration : Bool
  pub has_capacity : Bool

unfoldable pub delay_end : DelayState → Action (Round DelayState DelayParams)
delay_end st = do
  expect_no_extra_after_closing_brace
  fail_if (not st.has_next) incorrect_format
  fail_if (not st.has_duration) incorrect_format
  pure (return st.params)

unfoldable pub delay_param : DelayState → Bytes → Action (Round DelayState DelayParams)
delay_param st param =
    if is_text param "next"
    then parse_unique_param st.has_next read_required_name
        (λ v. record st { params = record st.params { next_name = v }; has_next = true })
    else if is_text param "duration"
    then parse_unique_param st.has_duration read_required_expr
        (λ v. record st { params = record st.params { duration = v }; has_duration = true })
    else if is_text param "capacity"
    then parse_unique_param st.has_capacity read_required_expr (λ v. record st {
      params = record st.params { capacity = v; has_capacity = true };
      has_capacity = true;
    })
    else if is_text param "wait_queue"
    then parse_repeated_param read_required_name (λ v. record st {
      params = record st.params { wait_queue_names = st.params.wait_queue_names ++ v ∷ [] };
    })
    else fail unknown_block_param

unfoldable pub delay_line : DelayState → Bytes → Action (Round DelayState DelayParams)
unfolding delay_end delay_param
delay_line st param = if is_text param "}" then delay_end st else delay_param st param

unfoldable pub new_delay : DelayState
new_delay = record {
  params = record {
    duration = [];
    capacity = [];
    has_capacity = false;
    wait_queue_names = [];
    wait_queues = [];
    next_name = [];
    next = none;
  };
  has_next = false;
  has_duration = false;
  has_capacity = false;
}

unfoldable pub parse_delay_params : Action DelayParams
unfolding delay_line new_delay
parse_delay_params = each_line delay_line new_delay

pub record SeizeState : Type 0 where
  pub params : SeizeParams
  pub has_resource : Bool
  pub has_next : Bool

unfoldable pub seize_end : SeizeState → Action (Round SeizeState SeizeParams)
seize_end st = do
  expect_no_extra_after_closing_brace
  fail_if (not st.has_resource) incorrect_format
  fail_if (not st.has_next) incorrect_format
  pure (return st.params)

unfoldable pub seize_param : SeizeState → Bytes → Action (Round SeizeState SeizeParams)
seize_param st param =
    if is_text param "resource"
    then parse_unique_param st.has_resource read_required_name
        (λ v. record st { params = record st.params { resource_name = v }; has_resource = true })
    else if is_text param "next"
    then parse_unique_param st.has_next read_required_name
        (λ v. record st { params = record st.params { next_name = v }; has_next = true })
    else if is_text param "wait_queue"
    then parse_repeated_param read_required_name (λ v. record st {
      params = record st.params { wait_queue_names = st.params.wait_queue_names ++ v ∷ [] };
    })
    else fail unknown_block_param

unfoldable pub seize_line : SeizeState → Bytes → Action (Round SeizeState SeizeParams)
unfolding seize_end seize_param
seize_line st param = if is_text param "}" then seize_end st else seize_param st param

unfoldable pub new_seize : SeizeState
new_seize = record {
  params = record {
    resource_name = [];
    resource = none;
    wait_queue_names = [];
    wait_queues = [];
    next_name = [];
    next = none;
  };
  has_resource = false;
  has_next = false;
}

unfoldable pub parse_seize_params : Action SeizeParams
unfolding seize_line new_seize
parse_seize_params = each_line seize_line new_seize

pub record ReleaseState : Type 0 where
  pub params : ReleaseParams
  pub has_resource : Bool
  pub has_next : Bool

unfoldable pub release_end : ReleaseState → Action (Round ReleaseState ReleaseParams)
release_end st = do
  expect_no_extra_after_closing_brace
  fail_if (not st.has_resource) incorrect_format
  fail_if (not st.has_next) incorrect_format
  pure (return st.params)

unfoldable pub release_param : ReleaseState → Bytes → Action (Round ReleaseState ReleaseParams)
release_param st param =
    if is_text param "resource"
    then parse_unique_param st.has_resource read_required_name
        (λ v. record st { params = record st.params { resource_name = v }; has_resource = true })
    else if is_text param "next"
    then parse_unique_param st.has_next read_required_name
        (λ v. record st { params = record st.params { next_name = v }; has_next = true })
    else fail unknown_block_param

unfoldable pub release_line : ReleaseState → Bytes → Action (Round ReleaseState ReleaseParams)
unfolding release_end release_param
release_line st param = if is_text param "}" then release_end st else release_param st param

unfoldable pub new_release : ReleaseState
new_release = record {
  params = record { resource_name = []; resource = none; next_name = []; next = none };
  has_resource = false;
  has_next = false;
}

unfoldable pub parse_release_params : Action ReleaseParams
unfolding release_line new_release
parse_release_params = each_line release_line new_release
