-- ===== src/Codegen/Generator/Parser.antt =====
-- codegen/generator/parser.go. `max_cap` is the largest capacity at which the runtime makes a slice of
-- pointers; beyond it, or below 0, it panics.
pub mod Sound
pub mod SoFar
use go_cloud_des.Prelude.{
  ℕ, zero, suc, ◌+◌, ◌-◌, ◌≡◌, Bool, true, false, not, ◌||◌, ◌&&◌, ◌==◌, nat_eq, Option, none, some,
  List, [], ◌∷◌, if◌then◌else◌, leb, ltb, length, arith, ℤ, pos, negsuc, u64_mod, String, ◌&&◌,
}
use go_cloud_des.Strings.{codes}
use go_cloud_des.Dict
use go_cloud_des.Dict.{Dict}
use go_cloud_des.Codegen.Generator.Text.{Bytes, bytes_eq, is_digit, parse_uint}
use go_cloud_des.Codegen.Generator.Scanner.{LineScanner, new_line_scanner}
use go_cloud_des.Codegen.Generator.Model.{EntityDesc, VarDesc, ResourceDesc, BlockDesc, Model}
use go_cloud_des.Codegen.Generator.Parsed.{
  Parsed, panic, Action, pure, fail, fail_if, ◌>>=◌, ◌>>◌, word, or_empty, no_more_words, need_word,
  scan_no_empty, is_text, incorrect_format, unexpected_eof, incorrect_hash, invalid_section_count,
}
use go_cloud_des.Codegen.Generator.Names.{expect_opening_brace}
use go_cloud_des.Codegen.Generator.Sections.{
  need_line, parse_entity, parse_var, parse_resource, parse_section,
}
use go_cloud_des.Codegen.Generator.Blocks.{parse_block}

unfoldable pub is_hex_digit : ℕ → Bool
is_hex_digit c = is_digit c || (leb b'a' c && leb c b'f') || (leb b'A' c && leb c b'F')

unfoldable pub all_hex : Bytes → Bool
all_hex [] = true
all_hex (c ∷ cs) = let rest = all_hex cs in if is_hex_digit c then rest else false

unfoldable pub is_hex : Bytes → Bool
unfolding all_hex is_hex_digit
is_hex [] = false
is_hex (c ∷ cs) = all_hex (c ∷ cs)

unfoldable pub new_model : Model
new_model = record {
  hash = [];
  entities = [];
  vars = [];
  resources = [];
  blocks = [];
  entity_by_name = Dict.empty;
  var_by_name = Dict.empty;
  resource_by_name = Dict.empty;
  block_by_name = Dict.empty;
}

unfoldable pub parse_hash : Model → Action Model
unfolding is_hex
parse_hash model = do
  need_line
  hash ← word
  no_more_words incorrect_hash
  fail_if (not (length (or_empty hash) == 64)) incorrect_hash
  fail_if (not (is_hex (or_empty hash))) incorrect_hash
  pure (record model { hash = or_empty hash })

-- `int(count)` of a uint64.
unfoldable pub int_of_uint64 : ℕ → ℤ
int_of_uint64 n = if ltb n 0x8000000000000000 then pos n else negsuc (u64_mod - 1 - n)

count_of : Option ℕ → Action ℤ
unfolding int_of_uint64
count_of none = fail incorrect_format
count_of (some count) = do expect_opening_brace; pure (int_of_uint64 count)

unfoldable pub parse_section_header : String → Action ℤ
unfolding count_of
parse_section_header expected_name = do
  need_line
  name ← word
  fail_if (not (is_text (or_empty name) expected_name)) incorrect_format
  count_token ← need_word incorrect_format
  count_of (parse_uint count_token)

-- `make([]*T, 0, count)`
unfoldable pub make_slice : ℕ → ℤ → Action (Unit {0})
make_slice max_cap (pos n) s = if leb n max_cap then pure tt s else panic
make_slice max_cap (negsuc n) s = panic

-- `count < least`
unfoldable pub fewer : ℤ → ℕ → Bool
fewer (pos n) least = ltb n least
fewer (negsuc n) least = true

-- How often `for i := 0; i < count; i++` runs.
unfoldable pub rounds_of : ℤ → ℕ
rounds_of (pos n) = n
rounds_of (negsuc n) = 0

pub entity_section : (Bytes → Bool) → Model → ℤ → Action Model
unfolding rounds_of
entity_section parses_float model count = do
  made ←
      parse_section (λ d. record model { entity_by_name = d }) (parse_entity parses_float)
        (λ e. e.name) (rounds_of count) model.entities model.entity_by_name
  pure (record model { entities = made.0; entity_by_name = made.1 })

pub var_section : (Bytes → Bool) → Model → ℤ → Action Model
unfolding rounds_of
var_section parses_float model count = do
  made ←
      parse_section (λ d. record model { var_by_name = d }) (parse_var parses_float) (λ v. v.name)
        (rounds_of count) model.vars model.var_by_name
  pure (record model { vars = made.0; var_by_name = made.1 })

pub resource_section : Model → ℤ → Action Model
unfolding rounds_of
resource_section model count = do
  made ←
      parse_section (λ d. record model { resource_by_name = d }) parse_resource (λ r. r.name)
        (rounds_of count) model.resources model.resource_by_name
  pure (record model { resources = made.0; resource_by_name = made.1 })

pub block_section : Model → ℤ → Action Model
unfolding rounds_of
block_section model count = do
  made ←
      parse_section (λ d. record model { block_by_name = d }) parse_block (λ b. b.name)
        (rounds_of count) model.blocks model.block_by_name
  pure (record model { blocks = made.0; block_by_name = made.1 })

module _ (max_cap : ℕ) (parses_float : Bytes → Bool) where
  -- The sections behind the entities, which have no least count before the blocks.
  unfoldable pub parse_rest : Model → Action Model
  unfolding make_slice var_section resource_section block_section
  parse_rest model = do
    var_count ← parse_section_header "VAR"
    make_slice max_cap var_count
    with_vars ← var_section parses_float model var_count
    resource_count ← parse_section_header "RESOURCE"
    make_slice max_cap resource_count
    with_resources ← resource_section with_vars resource_count
    block_count ← parse_section_header "BLOCK"
    fail_if (fewer block_count 2) invalid_section_count
    make_slice max_cap block_count
    with_blocks ← block_section with_resources block_count
    extra ← scan_no_empty
    fail_if extra incorrect_format
    pure with_blocks

  unfoldable pub parse_model : Action Model
  unfolding entity_section parse_rest
  parse_model = do
    hashed ← parse_hash new_model
    entity_count ← parse_section_header "ENTITY"
    fail_if (fewer entity_count 1) invalid_section_count
    make_slice max_cap entity_count
    with_entities ← entity_section parses_float hashed entity_count
    parse_rest with_entities

  unfoldable pub parse : Bytes → Parsed Model
  unfolding parse_model new_line_scanner
  parse text = parse_model (new_line_scanner text)
