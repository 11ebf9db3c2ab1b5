-- ===== src/Codegen/Generator/Model.antt =====
-- The data of codegen/generator/model.go. A pointer to a block, an entity or a resource is its place in
-- the list that holds it, and `none` is nil, before ValidateAndLink. Fields that only repeat others in a
-- map by name are maps to these places.
use go_cloud_des.Prelude.{ℕ, Bool, Option, List}
use go_cloud_des.Codegen.Generator.Text.{Bytes}
use go_cloud_des.Dict.{Dict}

-- Expr
abbrev pub Expr : Type 0
Expr = Bytes

pub data ValueType : Type 0 where
  value_float64 value_int64 value_uint64 value_bool : ValueType

pub record FieldDesc : Type 0 where
  pub name : Bytes
  pub type : ValueType
  pub default : Bytes

pub record VarDesc : Type 0 where
  pub name : Bytes
  pub type : ValueType
  pub default : Bytes

pub record EntityDesc : Type 0 where
  pub name : Bytes
  pub fields : List FieldDesc
  pub field_by_name : Dict Bytes ℕ

pub record ResourceDesc : Type 0 where
  pub name : Bytes
  pub capacity : Expr
  pub seize_names : List Bytes
  pub seizes : List ℕ

pub data BlockingPolicy : Type 0 where
  policy_error policy_destroy : BlockingPolicy

pub data QueueDiscipline : Type 0 where
  discipline_fifo : QueueDiscipline

pub record CreateParams : Type 0 where
  pub entity_name : Bytes
  pub entity : Option ℕ
  pub interval : Expr
  pub immediately : Bool
  pub batch : Expr
  pub blocking_policy : BlockingPolicy
  pub next_name : Bytes
  pub next : Option ℕ

pub record QueueParams : Type 0 where
  pub infinite_capacity : Bool
  pub capacity : Expr
  pub discipline : QueueDiscipline
  pub timeout : Expr
  pub has_timeout : Bool
  pub next_timeout_name : Bytes
  pub next_timeout : Option ℕ
  pub exit_on_overflow : Bool
  pub next_overflow_name : Bytes
  pub next_overflow : Option ℕ
  pub next_name : Bytes
  pub next : Option ℕ

pub record DelayParams : Type 0 where
  pub duration : Expr
  pub capacity : Expr
  pub has_capacity : Bool
  pub wait_queue_names : List Bytes
  pub wait_queues : List ℕ
  pub next_name : Bytes
  pub next : Option ℕ

pub record SeizeParams : Type 0 where
  pub resource_name : Bytes
  pub resource : Option ℕ
  pub wait_queue_names : List Bytes
  pub wait_queues : List ℕ
  pub next_name : Bytes
  pub next : Option ℕ

pub record ReleaseParams : Type 0 where
  pub resource_name : Bytes
  pub resource : Option ℕ
  pub next_name : Bytes
  pub next : Option ℕ

pub record AssignmentTarget : Type 0 where
  pub is_entity_field : Bool
  pub entity_name : Bytes
  pub field_name : Bytes
  pub var_name : Bytes

pub record Assignment : Type 0 where
  pub target : AssignmentTarget
  pub expr : Expr

pub record AssignParams : Type 0 where
  pub assignments : List Assignment
  pub next_name : Bytes
  pub next : Option ℕ

pub record BranchCase : Type 0 where
  pub condition : Expr
  pub next_name : Bytes
  pub next : Option ℕ

pub record BranchParams : Type 0 where
  pub cases : List BranchCase
  pub has_else : Bool
  pub else_name : Bytes
  pub else_next : Option ℕ

pub data BlockParams : Type 0 where
  create : CreateParams → BlockParams
  queue : QueueParams → BlockParams
  delay : DelayParams → BlockParams
  seize : SeizeParams → BlockParams
  release : ReleaseParams → BlockParams
  assign : AssignParams → BlockParams
  branch : BranchParams → BlockParams
  terminate : BlockParams

pub record BlockDesc : Type 0 where
  pub name : Bytes
  pub params : BlockParams

pub record Model : Type 0 where
  pub hash : Bytes
  pub entities : List EntityDesc
  pub vars : List VarDesc
  pub resources : List ResourceDesc
  pub blocks : List BlockDesc
  pub entity_by_name : Dict Bytes ℕ
  pub var_by_name : Dict Bytes ℕ
  pub resource_by_name : Dict Bytes ℕ
  pub block_by_name : Dict Bytes ℕ
