-- ===== src/Codegen/Generator/Parser/Sound.antt =====
-- What Parse of codegen/generator/parser.go returns.
use go_cloud_des.Prelude.{
  ℕ, ◌≡◌, ◌<◌, ◌≤◌, ◌∙◌, inl, inr, refl, arith, Bool, true, false, not, ◌==◌, nat_eq, Option, none,
  some, [], length, Bool-cases, ℤ, pos, negsuc, leb, ap,
}
use go_cloud_des.Dict
use go_cloud_des.Dict.{Dict}
use go_cloud_des.Codegen.Generator.Text.{Bytes, bytes_eq, parse_uint}
use go_cloud_des.Codegen.Generator.Scanner.{new_line_scanner, LineScanner}
use go_cloud_des.Codegen.Generator.Model.{Model}
use go_cloud_des.Codegen.Generator.Parsed.{
  is_text, or_empty, incorrect_format, incorrect_hash, invalid_section_count,
}
use go_cloud_des.Codegen.Generator.Parsed.Rules.{
  Ensures, holds, failed, crashed, Ensures-bind, word-Ensures, need_word-Ensures,
  no_more_words-Ensures, fail_if-Ensures, scan_no_empty-Ensures, Bound, Fits, bound,
}
use go_cloud_des.Codegen.Generator.Names.Sound.{expect_opening_brace-Ensures, not-eq_false}
use go_cloud_des.Codegen.Generator.Sections.Section.{Indexed-empty}
use go_cloud_des.Codegen.Generator.Sections.Sound.{need_line-Ensures}
use go_cloud_des.Codegen.Generator.Blocks.ReadingSound.{Gives, Anything}
use go_cloud_des.Codegen.Generator.Parser.SoFar.{
  IsSoFar, entity_section-Ensures, var_section-Ensures, resource_section-Ensures,
  block_section-Ensures,
}
use go_cloud_des.Codegen.Generator.Parser.{
  is_hex, new_model, parse_hash, count_of, parse_section_header, make_slice, fewer, rounds_of,
  parse_rest, parse_model, parse, String,
}
use go_cloud_des.Codegen.Generator.Scanner.Simple.{all_simple, all_simple-IsSimple}

pub record IsModel (simple : Bool) (parses_float : Bytes → Bool) (m : Model) : Type 0 where
  pub is_so_far : IsSoFar simple parses_float m
  pub some_entity : 0 < length m.entities
  pub two_blocks : 1 < length m.blocks

-- What is left of a text, and whether it is simple.
abbrev pub bound_of : Bytes → Bound
bound_of text = bound (length text) (all_simple text)

count_of-Gives : (count : Option ℕ) → Gives Anything (count_of count)
unfolding count_of
count_of-Gives none n s le = failed
count_of-Gives (some count) n s le =
    Ensures-bind (expect_opening_brace-Ensures n s le) λ _ t _ le_t. holds tt le_t

parse_section_header-Gives : (name : String) → Gives Anything (parse_section_header name)
unfolding parse_section_header
parse_section_header-Gives name n s le = Ensures-bind (need_line-Ensures n s le) λ _ t _ le_t.
    Ensures-bind (word-Ensures n t le_t) λ w u _ le_u.
      Ensures-bind (fail_if-Ensures n u (not (is_text (or_empty w) name)) incorrect_format le_u)
        λ _ v _ le_v.
          Ensures-bind (need_word-Ensures n v incorrect_format le_v)
            λ token x _ le_x. count_of-Gives (parse_uint token) n x le_x

make_slice-Gives : (max_cap : ℕ) (count : ℤ) → Gives Anything (make_slice max_cap count)
unfolding make_slice
make_slice-Gives max_cap (pos k) n s le = elim (Bool-cases (leb k max_cap)) [
  | inl e ↦ rw e (holds tt le)
  | inr e ↦ rw e crashed
]
make_slice-Gives max_cap (negsuc k) n s le = crashed

fewer-false : (count : ℤ) (least : ℕ) → fewer count least ≡ false → least ≤ rounds_of count
unfolding fewer rounds_of
fewer-false (pos k) least h = ground (arith, h)
fewer-false (negsuc k) least h = cc

module _ (parses_float : Bytes → Bool) where
  new_model-IsSoFar :
      (simple : Bool) (hash : Bytes)
      → length hash ≡ 64
      → is_hex hash ≡ true
      → IsSoFar simple parses_float (record new_model { hash = hash })
  unfolding new_model
  new_model-IsSoFar simple hash size hex = record {
    hash_size = size;
    hash_hex = hex;
    entities = tt;
    vars = tt;
    resources = tt;
    blocks = tt;
    entity_places = Indexed-empty (λ e. e.name);
    var_places = Indexed-empty (λ v. v.name);
    resource_places = Indexed-empty (λ r. r.name);
    block_places = Indexed-empty (λ b. b.name);
    apart = λ name. ground (arith, Dict.has-empty ℕ name);
  }

  parse_hash-Ensures :
      (n : Bound) (s : LineScanner)
      → Fits n s
      → Ensures n
          (λ (m : Model). IsSoFar n.simple parses_float m × (m.blocks ≡ []) × (m.entities ≡ []))
          (parse_hash new_model s)
  unfolding parse_hash new_model
  parse_hash-Ensures n s le = Ensures-bind (need_line-Ensures n s le) λ _ t _ le_t.
      Ensures-bind (word-Ensures n t le_t) λ w u _ le_u.
        Ensures-bind (no_more_words-Ensures n u incorrect_hash le_u) λ _ v _ le_v.
          Ensures-bind (fail_if-Ensures n v (not (length (or_empty w) == 64)) incorrect_hash le_v)
            λ _ x size le_x.
              Ensures-bind (fail_if-Ensures n x (not (is_hex (or_empty w))) incorrect_hash le_x)
                λ _ y hex le_y.
                  holds
                    (
                      new_model-IsSoFar n.simple (or_empty w) (ground (arith, size))
                          (not-eq_false (is_hex (or_empty w)) hex),
                      refl,
                      refl,
                    )
                    le_y

  parse_rest-Ensures :
      (max_cap : ℕ) (m : Model) (n : Bound) (s : LineScanner)
      → IsSoFar n.simple parses_float m
      → 0 < length m.entities
      → Fits n s
      → Ensures n (IsModel n.simple parses_float) (parse_rest max_cap parses_float m s)
  unfolding parse_rest
  parse_rest-Ensures max_cap m n s i some_entity le =
      Ensures-bind (parse_section_header-Gives "VAR" n s le) λ vars t _ le_t.
        Ensures-bind (make_slice-Gives max_cap vars n t le_t) λ _ u _ le_u.
          Ensures-bind (var_section-Ensures n parses_float m vars i u le_u) λ m1 v (i1, e1) le_v.
            Ensures-bind (parse_section_header-Gives "RESOURCE" n v le_v) λ resources t2 _ le_t2.
              Ensures-bind (make_slice-Gives max_cap resources n t2 le_t2) λ _ u2 _ le_u2.
                Ensures-bind (resource_section-Ensures n parses_float m1 resources i1 u2 le_u2)
                  λ m2 v2 (i2, e2) le_v2.
                    Ensures-bind (parse_section_header-Gives "BLOCK" n v2 le_v2)
                      λ blocks t3 _ le_t3.
                        Ensures-bind
                          (fail_if-Ensures n t3 (fewer blocks 2) invalid_section_count le_t3)
                          λ _ x enough le_x.
                            Ensures-bind (make_slice-Gives max_cap blocks n x le_x) λ _ u3 _ le_u3.
                              Ensures-bind
                                (block_section-Ensures n parses_float m2 blocks i2 u3 le_u3)
                                λ m3 v3 (i3, e3, size) le_v3.
                                  Ensures-bind (scan_no_empty-Ensures n v3 le_v3) λ extra y _ le_y.
                                    Ensures-bind (fail_if-Ensures n y extra incorrect_format le_y)
                                      λ _ z _ le_z.
                                        holds
                                          (record {
                                            is_so_far = i3;
                                            some_entity =
                                                omega
                                                  (arith, ap length (e3 ∙ e2 ∙ e1), some_entity);
                                            two_blocks =
                                                omega (arith, size, fewer-false blocks 2 enough);
                                          })
                                          le_z

  parse_model-Ensures :
      (max_cap : ℕ) (n : Bound) (s : LineScanner)
      → Fits n s
      → Ensures n (IsModel n.simple parses_float) (parse_model max_cap parses_float s)
  unfolding parse_model
  parse_model-Ensures max_cap n s le =
      Ensures-bind (parse_hash-Ensures n s le) λ m t (i, _, _) le_t.
        Ensures-bind (parse_section_header-Gives "ENTITY" n t le_t) λ count u _ le_u.
          Ensures-bind (fail_if-Ensures n u (fewer count 1) invalid_section_count le_u)
            λ _ v enough le_v. Ensures-bind (make_slice-Gives max_cap count n v le_v) λ _ x _ le_x.
              Ensures-bind (entity_section-Ensures n parses_float m count i x le_x)
                λ m1 y (i1, size) le_y.
                  parse_rest-Ensures max_cap m1 n y i1
                    (omega (arith, size, fewer-false count 1 enough)) le_y

  -- Parse ends, at worst by a panic. A model that it returns is complete: the hash has 64 hexadecimal
  -- digits, there are an entity and two blocks at least, all names are identifiers and no keywords, no
  -- name is declared twice, each map by name has exactly the places of its list, each default value is
  -- of its type, each entity has distinct fields and none called id, each resource is seized somewhere,
  -- and each block has the parameters that its type requires; the capacity of a QUEUE is infinite or a
  -- text that is not empty, if no byte of the model is one of those that begin a white space which
  -- TrimSpace drops and trimLeftSpaces does not.
  pub parse-Ensures :
      (max_cap : ℕ) (text : Bytes)
      → Ensures
          (bound_of text)
          (IsModel (all_simple text) parses_float)
          (parse max_cap parses_float text)
  unfolding parse
  parse-Ensures max_cap text =
      parse_model-Ensures max_cap (bound_of text) (new_line_scanner text)
        (omega arith, (λ q. (all_simple-IsSimple text q, tt)))
