-- ===== src/Codegen/Generator/Blocks/Arrivals.antt =====
-- parseCreateParams and parseQueueParams of codegen/generator/parse_block.go. The flags of a loop stand
-- beside the parameters.
use go_cloud_des.Prelude.{
  Bool, true, false, not, ◌&&◌, ◌==◌, nat_eq, none, [], if◌then◌else◌, length,
}
use go_cloud_des.Strings.{codes}
use go_cloud_des.Codegen.Generator.Text.{Bytes, bytes_eq, trim_space}
use go_cloud_des.Codegen.Generator.Parsed.{
  Action, pure, fail, fail_if, ◌>>=◌, ◌>>◌, Round, again, return, each_line, line, is_text,
  incorrect_format, unknown_block_param,
}
use go_cloud_des.Codegen.Generator.Model.{CreateParams, QueueParams, policy_error, discipline_fifo}
use go_cloud_des.Codegen.Generator.Blocks.Reading.{
  read_required_name, read_required_expr, read_required_bool, read_blocking_policy,
  read_queue_discipline, expect_no_extra_after_closing_brace, parse_unique_param,
}

pub record CreateState : Type 0 where
  pub params : CreateParams
  pub has_entity : Bool
  pub has_interval : Bool
  pub has_next : Bool
  pub has_immediately : Bool
  pub has_batch : Bool
  pub has_blocking_policy : Bool

unfoldable pub create_end : CreateState → Action (Round CreateState CreateParams)
create_end st = do
  expect_no_extra_after_closing_brace
  fail_if (not st.has_entity) incorrect_format
  fail_if (not st.has_interval) incorrect_format
  fail_if (not st.has_next) incorrect_format
  pure (return st.params)

unfoldable pub create_param : CreateState → Bytes → Action (Round CreateState CreateParams)
create_param st param =
    if is_text param "entity"
    then parse_unique_param st.has_entity read_required_name
        (λ v. record st { params = record st.params { entity_name = v }; has_entity = true })
    else if is_text param "interval"
    then parse_unique_param st.has_interval read_required_expr
        (λ v. record st { params = record st.params { interval = v }; has_interval = true })
    else if is_text param "next"
    then parse_unique_param st.has_next read_required_name
        (λ v. record st { params = record st.params { next_name = v }; has_next = true })
    else if is_text param "immediately"
    then parse_unique_param st.has_immediately read_required_bool
        (λ v. record st { params = record st.params { immediately = v }; has_immediately = true })
    else if is_text param "batch"
    then parse_unique_param st.has_batch read_required_expr
        (λ v. record st { params = record st.params { batch = v }; has_batch = true })
    else if is_text param "blocking_policy"
    then parse_unique_param st.has_blocking_policy read_blocking_policy (λ v. record st {
      params = record st.params { blocking_policy = v };
      has_blocking_policy = true;
    })
    else fail unknown_block_param

unfoldable pub create_line : CreateState → Bytes → Action (Round CreateState CreateParams)
unfolding create_end create_param
create_line st param = if is_text param "}" then create_end st else create_param st param

unfoldable pub new_create : CreateState
new_create = record {
  params = record {
    entity_name = [];
    entity = none;
    interval = [];
    immediately = false;
    batch = codes "1";
    blocking_policy = policy_error;
    next_name = [];
    next = none;
  };
  has_entity = false;
  has_interval = false;
  has_next = false;
  has_immediately = false;
  has_batch = false;
  has_blocking_policy = false;
}

unfoldable pub parse_create_params : Action CreateParams
unfolding create_line new_create
parse_create_params = each_line create_line new_create

pub record QueueState : Type 0 where
  pub params : QueueParams
  pub has_next : Bool
  pub has_capacity : Bool
  pub has_discipline : Bool
  pub has_timeout : Bool
  pub has_next_timeout : Bool
  pub has_exit_on_overflow : Bool
  pub has_next_overflow : Bool

unfoldable pub queue_end : QueueState → Action (Round QueueState QueueParams)
queue_end st = do
  expect_no_extra_after_closing_brace
  fail_if (not st.has_next) incorrect_format
  fail_if (not st.has_capacity) incorrect_format
  fail_if (st.params.exit_on_overflow && not st.has_next_overflow) incorrect_format
  fail_if (st.params.exit_on_overflow && st.params.infinite_capacity) incorrect_format
  pure (return st.params)

-- The capacity, of the text behind the word.
unfoldable pub with_capacity : QueueState → Bytes → QueueState
with_capacity st raw =
    if is_text raw "infinity"
    then record st {
      params = record st.params { infinite_capacity = true; capacity = [] };
      has_capacity = true;
    }
    else record st { params = record st.params { capacity = raw }; has_capacity = true }

unfoldable pub queue_capacity : QueueState → Action (Round QueueState QueueParams)
unfolding with_capacity
queue_capacity st = do
  fail_if st.has_capacity incorrect_format
  token ← line
  fail_if (length token == 0) incorrect_format
  pure (again (with_capacity st (trim_space token)))

unfoldable pub queue_param : QueueState → Bytes → Action (Round QueueState QueueParams)
unfolding queue_capacity
queue_param st param =
    if is_text param "next"
    then parse_unique_param st.has_next read_required_name
        (λ v. record st { params = record st.params { next_name = v }; has_next = true })
    else if is_text param "capacity"
    then queue_capacity st
    else if is_text param "discipline"
    then parse_unique_param st.has_discipline read_queue_discipline
        (λ v. record st { params = record st.params { discipline = v }; has_discipline = true })
    else if is_text param "timeout"
    then parse_unique_param st.has_timeout read_required_expr (λ v. record st {
      params = record st.params { timeout = v; has_timeout = true };
      has_timeout = true;
    })
    else if is_text param "next_timeout"
    then parse_unique_param st.has_next_timeout read_required_name (λ v. record st {
      params = record st.params { next_timeout_name = v };
      has_next_timeout = true;
    })
    else if is_text param "exit_on_overflow"
    then parse_unique_param st.has_exit_on_overflow read_required_bool (λ v. record st {
      params = record st.params { exit_on_overflow = v };
      has_exit_on_overflow = true;
    })
    else if is_text param "next_overflow"
    then parse_unique_param st.has_next_overflow read_required_name (λ v. record st {
      params = record st.params { next_overflow_name = v };
      has_next_overflow = true;
    })
    else fail unknown_block_param

unfoldable pub queue_line : QueueState → Bytes → Action (Round QueueState QueueParams)
unfolding queue_end queue_param
queue_line st param = if is_text param "}" then queue_end st else queue_param st param

unfoldable pub new_queue : QueueState
new_queue = record {
  params = record {
    infinite_capacity = false;
    capacity = [];
    discipline = discipline_fifo;
    timeout = [];
    has_timeout = false;
    next_timeout_name = [];
    next_timeout = none;
    exit_on_overflow = false;
    next_overflow_name = [];
    next_overflow = none;
    next_name = [];
    next = none;
  };
  has_next = false;
  has_capacity = false;
  has_discipline = false;
  has_timeout = false;
  has_next_timeout = false;
  has_exit_on_overflow = false;
  has_next_overflow = false;
}

unfoldable pub parse_queue_params : Action QueueParams
unfolding queue_line new_queue
parse_queue_params = each_line queue_line new_queue
