-- ===== src/Codegen/Generator/Names.antt =====
-- codegen/generator/parser_helper.go: names, types, literals and braces. Whether strconv.ParseFloat reads
-- a text is an argument.
pub mod Sound
use go_cloud_des.Prelude.{
  ℕ, zero, suc, ◌≡◌, Bool, true, false, not, ◌&&◌, ◌||◌, ◌==◌, nat_eq, Option, none, some, List, [],
  ◌∷◌, if◌then◌else◌, leb, contains, arith,
}
use go_cloud_des.Strings.{codes}
use go_cloud_des.Dict
use go_cloud_des.Codegen.Generator.Text.{Bytes, bytes_eq, is_digit, parse_uint, parses_int}
use go_cloud_des.Codegen.Generator.Model.{
  ValueType, value_float64, value_int64, value_uint64, value_bool, Model,
}
use go_cloud_des.Codegen.Generator.Parsed.{
  Action, pure, fail, fail_if, ◌>>=◌, ◌>>◌, word, or_empty, no_more_words, need_word, scan_no_empty,
  is_text, incorrect_format, invalid_identifier, unexpected_eof, duplicate_name, unknown_type,
}

unfoldable pub parse_type : Bytes → Option ValueType
parse_type token =
    if is_text token "float64"
    then some value_float64
    else if is_text token "int64"
    then some value_int64
    else if is_text token "uint64"
    then some value_uint64
    else if is_text token "bool"
    then some value_bool
    else none

unfoldable pub default_value_for_type : ValueType → Bytes
default_value_for_type value_float64 = codes "0.0"
default_value_for_type value_int64 = codes "0"
default_value_for_type value_uint64 = codes "0"
default_value_for_type value_bool = codes "false"

unfoldable pub expect_opening_brace : Action (Unit {0})
expect_opening_brace = do
  open_brace ← word
  fail_if (not (is_text (or_empty open_brace) "{")) incorrect_format
  no_more_words incorrect_format

unfoldable pub expect_closing_brace : Action (Unit {0})
expect_closing_brace = do
  found ← scan_no_empty
  fail_if (not found) unexpected_eof
  close_brace ← word
  fail_if (not (is_text (or_empty close_brace) "}")) incorrect_format
  no_more_words incorrect_format

-- Whether one of the sections has declared a name.
abbrev pub is_declared : Model → Bytes → Bool
is_declared model name =
    Dict.has model.entity_by_name name
    || Dict.has model.var_by_name name
    || Dict.has model.resource_by_name name
    || Dict.has model.block_by_name name

unfoldable pub register_global_name : Model → Bytes → Action (Unit {0})
register_global_name model name = fail_if (is_declared model name) duplicate_name

unfoldable pub is_valid_literal_for_type : (Bytes → Bool) → Bytes → ValueType → Bool
is_valid_literal_for_type parses_float value value_float64 = parses_float value
is_valid_literal_for_type parses_float value value_int64 = parses_int value
is_valid_literal_for_type parses_float value value_uint64 = elim (parse_uint value) [
  | none ↦ false
  | some n ↦ true
]
is_valid_literal_for_type parses_float value value_bool =
    is_text value "true" || is_text value "false"

unfoldable pub is_ident_start : ℕ → Bool
is_ident_start c = (leb b'A' c && leb c b'Z') || (leb b'a' c && leb c b'z') || c == b'_'

unfoldable pub is_ident_part : ℕ → Bool
unfolding is_ident_start
is_ident_part c = is_ident_start c || is_digit c

unfoldable pub all_ident_part : Bytes → Bool
all_ident_part [] = true
all_ident_part (c ∷ cs) = let rest = all_ident_part cs in if is_ident_part c then rest else false

unfoldable pub is_identifier : Bytes → Bool
is_identifier [] = false
is_identifier (c ∷ cs) = is_ident_start c && all_ident_part cs

abbrev keywords : List Bytes
keywords =
    codes "ENTITY"
    ∷ codes "VAR"
    ∷ codes "RESOURCE"
    ∷ codes "BLOCK"
    ∷ codes "CREATE"
    ∷ codes "QUEUE"
    ∷ codes "DELAY"
    ∷ codes "SEIZE"
    ∷ codes "RELEASE"
    ∷ codes "ASSIGN"
    ∷ codes "BRANCH"
    ∷ codes "TERMINATE"
    ∷ codes "set"
    ∷ codes "if"
    ∷ codes "else"
    ∷ codes "next"
    ∷ []

unfoldable pub is_dsl_keyword : Bytes → Bool
is_dsl_keyword name = contains name keywords

unfoldable pub validate_name : Bytes → Action Bytes
unfolding is_identifier is_dsl_keyword
validate_name token = do
  fail_if (not (is_identifier token)) invalid_identifier
  fail_if (is_dsl_keyword token) invalid_identifier
  pure token

-- parseDefaultValue, of its first word.
default_from : (Bytes → Bool) → ValueType → Option Bytes → Action Bytes
unfolding default_value_for_type is_valid_literal_for_type
default_from parses_float t none = pure (default_value_for_type t)
default_from parses_float t (some value) = do
  no_more_words incorrect_format
  fail_if (not (is_valid_literal_for_type parses_float value t)) incorrect_format
  pure value

unfoldable pub parse_default_value : (Bytes → Bool) → ValueType → Action Bytes
unfolding default_from
parse_default_value parses_float t = word >>= default_from parses_float t

pub record TypedValueSpec : Type 0 where
  pub name : Bytes
  pub type : ValueType
  pub default : Bytes

-- parseTypedValueSpec, from the type on.
spec_of : (Bytes → Bool) → Bytes → Option ValueType → Action TypedValueSpec
spec_of parses_float name none = fail unknown_type
spec_of parses_float name (some type) = do
  default ← parse_default_value parses_float type
  pure (record { name = name; type = type; default = default })

unfoldable pub parse_typed_value_spec : (Bytes → Bool) → Bytes → Action TypedValueSpec
unfolding spec_of
parse_typed_value_spec parses_float first_token = do
  name ← validate_name first_token
  type_token ← need_word incorrect_format
  spec_of parses_float name (parse_type type_token)
