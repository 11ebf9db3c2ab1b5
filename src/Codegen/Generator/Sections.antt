-- ===== src/Codegen/Generator/Sections.antt =====
-- The sections of a model but the blocks: parseSection of codegen/generator/parser_helper.go,
-- parse_entity.go, parse_var.go and parse_resource.go.
pub mod Section
pub mod Sound
use go_cloud_des.Prelude.{
  ℕ, zero, suc, ◌+◌, ◌≡◌, Bool, true, false, not, ◌==◌, nat_eq, Option, none, some, List, [], ◌∷◌,
  ◌++◌, if◌then◌else◌, length, arith,
}
use go_cloud_des.Strings.{codes}
use go_cloud_des.Dict
use go_cloud_des.Dict.{Dict}
use go_cloud_des.Codegen.Generator.Text.{Bytes, bytes_eq}
use go_cloud_des.Codegen.Generator.Model.{FieldDesc, VarDesc, EntityDesc, ResourceDesc, Model}
use go_cloud_des.Codegen.Generator.Parsed.{
  Action, pure, fail, fail_if, ◌>>=◌, ◌>>◌, Round, again, return, each_line, word, or_empty,
  no_more_words, need_word, scan_no_empty, is_text, incorrect_format, invalid_identifier,
  unexpected_eof, duplicate_name, unknown_block_param,
}
use go_cloud_des.Codegen.Generator.Names.{
  validate_name, expect_opening_brace, expect_closing_brace, register_global_name,
  parse_typed_value_spec,
}

-- `if !scanner.ScanNoEmpty() { return parseErr(...) }`
unfoldable pub need_line : Action (Unit {0})
need_line = do found ← scan_no_empty; fail_if (not found) unexpected_eof

add_field : EntityDesc → FieldDesc → EntityDesc
add_field entity field = record entity {
  fields = entity.fields ++ field ∷ [];
  field_by_name = Dict.put entity.field_by_name field.name (length entity.fields);
}

entity_end : EntityDesc → Action (Round EntityDesc EntityDesc)
entity_end entity = do no_more_words incorrect_format; pure (return entity)

module _ (parses_float : Bytes → Bool) where
  unfoldable pub parse_var : Action VarDesc
  unfolding need_line
  parse_var = do
    need_line
    first_token ← word
    spec ← parse_typed_value_spec parses_float (or_empty first_token)
    pure (record { name = spec.name; type = spec.type; default = spec.default })

  unfoldable pub parse_entity_field : Bytes → Action FieldDesc
  parse_entity_field first_token = do
    spec ← parse_typed_value_spec parses_float first_token
    pure (record { name = spec.name; type = spec.type; default = spec.default })

  next_field : EntityDesc → Bytes → Action (Round EntityDesc EntityDesc)
  unfolding parse_entity_field add_field
  next_field entity w = do
    field ← parse_entity_field w
    fail_if (is_text field.name "id") invalid_identifier
    fail_if (Dict.has entity.field_by_name field.name) duplicate_name
    pure (again (add_field entity field))

  -- A round of the loop of parseEntity.
  unfoldable pub entity_line : EntityDesc → Bytes → Action (Round EntityDesc EntityDesc)
  unfolding entity_end next_field
  entity_line entity w = if is_text w "}" then entity_end entity else next_field entity w

  unfoldable pub parse_entity : Action EntityDesc
  unfolding need_line
  parse_entity = do
    need_line
    name_token ← word
    name ← validate_name (or_empty name_token)
    expect_opening_brace
    each_line entity_line (record { name = name; fields = []; field_by_name = Dict.empty })

-- The resource and `hasCapacity`.
pub record ResourceState : Type 0 where
  pub resource : ResourceDesc
  pub has_capacity : Bool

resource_end : ResourceState → Action (Round ResourceState ResourceDesc)
resource_end st = do
  no_more_words incorrect_format
  fail_if (not st.has_capacity) incorrect_format
  fail_if (length st.resource.seize_names == 0) incorrect_format
  pure (return st.resource)

resource_capacity : ResourceState → Action (Round ResourceState ResourceDesc)
resource_capacity st = do
  fail_if st.has_capacity incorrect_format
  value ← need_word incorrect_format
  no_more_words incorrect_format
  pure (again (record { resource = record st.resource { capacity = value }; has_capacity = true }))

resource_seize : ResourceState → Action (Round ResourceState ResourceDesc)
resource_seize st = do
  value ← need_word incorrect_format
  no_more_words incorrect_format
  name ← validate_name value
  pure (
      again (record st {
        resource = record st.resource { seize_names = st.resource.seize_names ++ name ∷ [] };
      }))

-- A round of the loop of parseResource.
unfoldable pub resource_line : ResourceState → Bytes → Action (Round ResourceState ResourceDesc)
unfolding resource_end resource_capacity resource_seize
resource_line st param =
    if is_text param "}"
    then resource_end st
    else if is_text param "capacity"
    then resource_capacity st
    else if is_text param "seize"
    then resource_seize st
    else fail unknown_block_param

unfoldable pub parse_resource : Action ResourceDesc
unfolding need_line
parse_resource = do
  need_line
  name_token ← word
  name ← validate_name (or_empty name_token)
  expect_opening_brace
  each_line resource_line (record {
    resource = record { name = name; capacity = []; seize_names = []; seizes = [] };
    has_capacity = false;
  })

-- parseSection. Its map by name is one of the model, which `model` builds from it: the names that are
-- declared so far are seen by registerGlobalName.
unfoldable pub parse_section {ℓ} :
    {T : Type ℓ}
    → (Dict Bytes ℕ → Model)
    → Action T
    → (T → Bytes)
    → ℕ
    → List T
    → Dict Bytes ℕ
    → Action (List T × Dict Bytes ℕ)
parse_section model parse get_name zero objects by_name = do
  expect_closing_brace
  pure (objects, by_name)
parse_section model parse get_name (suc count) objects by_name = do
  obj ← parse
  register_global_name (model by_name) (get_name obj)
  parse_section model parse get_name count (objects ++ obj ∷ [])
      (Dict.put by_name (get_name obj) (length objects))
