-- ===== src/Codegen/Generator/Tests.antt =====
-- The front end of codegen/generator/ on small models.
use go_cloud_des.Prelude.{
  zero, suc, ◌≡◌, refl, arith, Bool, true, false, [], ◌∷◌, ◌++◌, some, none, List, subst, ap,
}
use go_cloud_des.Dict
use go_cloud_des.Strings.{codes}
use go_cloud_des.Codegen.Slices.{get_elem?}
use go_cloud_des.Codegen.Generator.Text.{
  Bytes, parse_uint, trim_space, trim_by, space_size, space_size_back,
}
use go_cloud_des.Codegen.Generator.Scanner
use go_cloud_des.Codegen.Generator.Scanner.{LineScanner, new_line_scanner, trim_left_spaces}
use go_cloud_des.Codegen.Generator.Model.{
  Model, BlockDesc, queue, branch, terminate, discipline_fifo,
}
use go_cloud_des.Codegen.Generator.Parsed.{
  Parsed, ok, panic, no_more_words, need_word, each_line, line, again,
}
use go_cloud_des.Codegen.Generator.Parsed.Rules.{Ensures, failed, crashed, Bound}
use go_cloud_des.Codegen.Generator.Parser.{
  new_model, parse, parse_hash, parse_section_header, fewer, is_hex,
}
use go_cloud_des.Codegen.Generator.Parser.Sound.{IsModel, parse-Ensures, bound_of}
use go_cloud_des.Codegen.Generator.Validate.{validate_and_link}
use go_cloud_des.Codegen.Generator.Validate.Rules.{Allows}
use go_cloud_des.Codegen.Generator.Validate.Sound.{IsLinkedModel, validate_and_link-Allows}
use go_cloud_des.Codegen.Generator.Validate.Reach.{can_reach}
use go_cloud_des.Codegen.Generator.Validate.Reachable.{IsPassable, Decides, can_reach-Decides}
use go_cloud_des.Codegen.Generator.Generate.{Outcome, model_of, generate, append_hash_line}
use go_cloud_des.Codegen.Generator.Generate.Built.{Built, generate-Built, all-IsUnset}
use go_cloud_des.Codegen.Generator.Generate.Hash.{parse_hash-append_hash_line}
use go_cloud_des.Codegen.Generator.Names.{
  expect_opening_brace, expect_closing_brace, register_global_name, is_ident_part, all_ident_part,
  validate_name,
}
use go_cloud_des.Codegen.Generator.Sections.{entity_line, parse_entity, parse_section}
use go_cloud_des.Codegen.Generator.Blocks.{parse_block}
use go_cloud_des.Codegen.Generator.Blocks.Arrivals.{
  create_line, new_create, parse_create_params, queue_capacity, with_capacity, new_queue,
}
use go_cloud_des.Codegen.Generator.Blocks.Reading.{
  read_required_name, read_required_expr, parse_unique_param, expect_no_extra_after_closing_brace,
}
use go_cloud_des.Codegen.Generator.Blocks.Resources.{parse_terminate_params}
use go_cloud_des.Codegen.Generator.Scanner.Simple.{all_simple}

-- No text is a floating-point number.
abbrev no_floats : Bytes → Bool
no_floats text = false

abbrev hash : Bytes
hash = codes "0123456789abcdef0123456789abcdef0123456789ABCDEF0123456789ABCDEF"

abbrev head : Bytes
head =
    codes
      "ENTITY 1 {\njob {\nprio int64 3\n}\n}\nVAR 0 {\n}\nRESOURCE 1 {\nserver {\ncapacity 1\nseize hold\n}\n}\n"

-- A server with a waiting line, whose block SEIZE waits in the given queue.
abbrev blocks : Bytes → Bytes
blocks waits =
    codes "BLOCK 5 {\nCREATE source {\nentity job\ninterval 1\nnext hold\n}\n"
    ++ codes "QUEUE line {\ncapacity infinity\nnext hold\n}\n"
    ++ codes "SEIZE hold {\nresource server\nwait_queue "
    ++ waits
    ++ codes "\nnext free\n}\nRELEASE free {\nresource server\nnext sink\n}\n"
    ++ codes "TERMINATE sink {\n}\n}\n"

abbrev text : Bytes
text = hash ++ b'\n' ∷ head ++ blocks (codes "line")

abbrev is_model : Outcome → Bool
is_model (model_of m) = true
is_model _ = false

-- `int(count)` of 2^63 is negative.
count_wraps :
    parse 100 no_floats
      (hash ++ b'\n' ∷ codes "ENTITY 1 {\njob {\n}\n}\nVAR 9223372036854775808 {\n}\n")
    ≡ panic
unfolding expect_opening_brace expect_closing_brace register_global_name is_ident_part
    all_ident_part validate_name no_more_words need_word each_line new_model parse_hash
    parse_section_header fewer parse entity_line parse_entity parse_section parse_uint Dict.get
    Dict.empty
count_wraps = refl

parse-Ensures_example :
    Ensures (bound_of text) (IsModel (all_simple text) no_floats) (parse 100 no_floats text)
parse-Ensures_example = parse-Ensures no_floats 100 text

text_simple : all_simple text ≡ true
text_simple = refl

-- A capacity of a vertical tab is an empty expression.
blank_capacity :
    queue_capacity new_queue (record { text = []; line = b'\t' ∷ 11 ∷ []; line_num = 1 })
    ≡ ok
        (again (record new_queue { has_capacity = true }))
        (record { text = []; line = b'\t' ∷ 11 ∷ []; line_num = 1 })
unfolding queue_capacity with_capacity new_queue line Scanner.line trim_left_spaces trim_space
    trim_by space_size space_size_back
blank_capacity = refl

generate-Built_example :
    Built (all_simple text) no_floats (parse 100 no_floats text) (generate 100 no_floats text)
generate-Built_example = generate-Built no_floats 100 text

parse_hash-append_hash_line_example :
    parse_hash new_model (new_line_scanner (append_hash_line hash head))
    ≡ ok (record new_model { hash = hash }) (record { text = head; line = []; line_num = 1 })
unfolding is_hex
parse_hash-append_hash_line_example = parse_hash-append_hash_line hash head refl refl

abbrev parsed_or_empty : Parsed Model → Model
parsed_or_empty (ok m s) = m
parsed_or_empty _ = new_model

Ensures-IsModel :
    (n : Bound) (r : Parsed Model) (m : Model) (s : LineScanner)
    → Ensures n (IsModel n.simple no_floats) r
    → r ≡ ok m s
    → IsModel n.simple no_floats m
Ensures-IsModel n r m s (Ensures.holds {a} i le) at =
    subst (IsModel n.simple no_floats) (ap parsed_or_empty at) i
Ensures-IsModel n r m s failed at = cc
Ensures-IsModel n r m s crashed at = cc

abbrev short : Bytes
short =
    hash
    ++ codes "\nENTITY 1 {\njob {\n}\n}\nVAR 0 {\n}\nRESOURCE 0 {\n}\nBLOCK 2 {\n"
    ++ codes "CREATE in {\nentity job\ninterval 1\nnext out\n}\nTERMINATE out {\n}\n}"

abbrev unlinked : Model
unlinked = parsed_or_empty (parse 100 no_floats short)

short_parsed :
    parse 100 no_floats short ≡ ok unlinked (record { text = []; line = []; line_num = 18 })
unfolding expect_opening_brace expect_closing_brace register_global_name is_ident_part
    all_ident_part validate_name no_more_words need_word each_line new_model parse_hash
    parse_section_header fewer parse entity_line parse_entity parse_section parse_uint Dict.get
    Dict.empty parse_block create_line new_create read_required_name read_required_expr
    parse_unique_param expect_no_extra_after_closing_brace parse_create_params line Dict.put
    parse_terminate_params
short_parsed = refl

short-IsModel : IsModel (all_simple short) no_floats unlinked
short-IsModel =
    Ensures-IsModel (bound_of short) (parse 100 no_floats short) unlinked
      (record { text = []; line = []; line_num = 18 }) (parse-Ensures no_floats 100 short)
      short_parsed

validate_and_link-Allows_example : Allows (IsLinkedModel unlinked) (validate_and_link unlinked)
validate_and_link-Allows_example =
    validate_and_link-Allows unlinked short-IsModel.is_so_far.block_places
      short-IsModel.is_so_far.entity_places short-IsModel.is_so_far.resource_places
      (all-IsUnset (all_simple short) unlinked.blocks short-IsModel.is_so_far.blocks)

-- A queue behind which a BRANCH block leads back to itself, or on to the end.
abbrev loop : List BlockDesc
loop =
    record {
      name = codes "line";
      params = queue (record {
        infinite_capacity = true;
        capacity = [];
        discipline = discipline_fifo;
        timeout = [];
        has_timeout = false;
        next_timeout_name = [];
        next_timeout = none;
        exit_on_overflow = false;
        next_overflow_name = [];
        next_overflow = none;
        next_name = codes "again";
        next = some 1;
      });
    }
    ∷ record {
      name = codes "again";
      params = branch (record {
        cases = record { condition = codes "true"; next_name = codes "again"; next = some 1 } ∷ [];
        has_else = true;
        else_name = codes "end";
        else_next = some 2;
      });
    }
    ∷ record { name = codes "end"; params = terminate }
    ∷ []

loop-IsPassable : IsPassable loop
unfolding get_elem?
loop-IsPassable zero = tt
loop-IsPassable (suc zero) = (omega arith, (omega arith, tt))
loop-IsPassable (suc (suc zero)) = tt
loop-IsPassable (suc (suc (suc i))) = tt

reached : can_reach loop 0 2 ≡ some (true, 1 ∷ [])
unfolding can_reach
reached = refl

not_reached : can_reach loop 0 0 ≡ some (false, 2 ∷ 1 ∷ [])
unfolding can_reach
not_reached = refl

can_reach-Decides_example : Decides loop 2 1 (can_reach loop 0 2)
unfolding get_elem?
can_reach-Decides_example = can_reach-Decides loop 0 2 1 loop-IsPassable refl (omega arith)
