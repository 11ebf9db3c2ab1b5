-- ===== src/Codegen/Generator/Sections/Sound.antt =====
-- What parseVar, parseEntity and parseResource return.
use go_cloud_des.Prelude.{
  ◌≡◌, ◌≢◌, ◌<◌, arith, Bool, false, not, ◌==◌, nat_eq, [], length, All, ne_of_beq, refl,
}
use go_cloud_des.Strings.{codes}
use go_cloud_des.Dict
use go_cloud_des.Codegen.Generator.Text.{Bytes, bytes_eq}
use go_cloud_des.Codegen.Generator.Model.{FieldDesc, VarDesc, EntityDesc, ResourceDesc}
use go_cloud_des.Codegen.Generator.Scanner.{LineScanner}
use go_cloud_des.Codegen.Generator.Parsed.{
  is_text, or_empty, incorrect_format, invalid_identifier, unexpected_eof, duplicate_name,
}
use go_cloud_des.Codegen.Generator.Parsed.Rules.{
  Ensures, holds, failed, Ensures-bind, Ensures-branch, Ensures-weaken, word-Ensures,
  no_more_words-Ensures, need_word-Ensures, fail_if-Ensures, scan_no_empty-Ensures, RoundOf,
  each_line-Ensures, Bound, Fits, bound,
}
use go_cloud_des.Codegen.Generator.Names.Sound.{
  IsName, IsDefault, validate_name-Ensures, expect_opening_brace-Ensures,
  parse_typed_value_spec-Ensures,
}
use go_cloud_des.Codegen.Generator.Sections.{
  need_line, parse_var, parse_entity_field, entity_line, parse_entity, ResourceState, resource_line,
  parse_resource, add_field, next_field, resource_capacity, resource_end, resource_seize,
}
use go_cloud_des.Codegen.Generator.Sections.Section.{
  Indexed, Indexed-empty, Indexed-append, All-append,
}

pub need_line-Ensures :
    (n : Bound) (s : LineScanner) → Fits n s → Ensures n (λ (_ : Unit {0}). Unit {0}) (need_line s)
unfolding need_line
need_line-Ensures n s le = Ensures-bind (scan_no_empty-Ensures n s le) λ found t _ le_t.
    Ensures-weaken (fail_if-Ensures n t (not found) unexpected_eof le_t) (omega arith) refl
      (λ _ _. tt)

abbrev pub field_name : FieldDesc → Bytes
field_name f = f.name

abbrev pub IsResource : ResourceDesc → Type 0
IsResource r = IsName r.name × All IsName r.seize_names × (0 < length r.seize_names)

module _ (parses_float : Bytes → Bool) where
  abbrev pub IsVar : VarDesc → Type 0
  IsVar v = IsName v.name × IsDefault parses_float v.type v.default

  abbrev pub IsField : FieldDesc → Type 0
  IsField f = IsName f.name × IsDefault parses_float f.type f.default × (f.name ≢ codes "id")

  pub record IsEntity (e : EntityDesc) : Type 0 where
    pub is_name : IsName e.name
    pub fields_are : All IsField e.fields
    pub indexed : Indexed field_name e.fields e.field_by_name

  pub parse_var-Ensures :
      (n : Bound) (s : LineScanner) → Fits n s → Ensures n IsVar (parse_var parses_float s)
  unfolding parse_var
  parse_var-Ensures n s le = Ensures-bind (need_line-Ensures n s le) λ _ t _ le_t.
      Ensures-bind (word-Ensures n t le_t) λ w u _ le_u.
        Ensures-bind (parse_typed_value_spec-Ensures parses_float n u (or_empty w) le_u)
          λ spec v ok_v le_v. holds ok_v le_v

  parse_entity_field-Ensures :
      (n : Bound) (s : LineScanner) (w : Bytes)
      → Fits n s
      → Ensures n
          (λ (f : FieldDesc). IsName f.name × IsDefault parses_float f.type f.default)
          (parse_entity_field parses_float w s)
  unfolding parse_entity_field
  parse_entity_field-Ensures n s w le =
      Ensures-bind (parse_typed_value_spec-Ensures parses_float n s w le)
        λ spec t ok_t le_t. holds ok_t le_t

  add_field-IsEntity :
      (e : EntityDesc) (f : FieldDesc)
      → IsEntity e
      → IsField f
      → Dict.has e.field_by_name f.name ≡ false
      → IsEntity (add_field e f)
  unfolding add_field
  add_field-IsEntity e f i is_field new = record {
    is_name = i.is_name;
    fields_are = All-append IsField e.fields f i.fields_are is_field;
    indexed = Indexed-append field_name e.fields e.field_by_name f i.indexed new;
  }

  next_field-Ensures :
      (e : EntityDesc) (w : Bytes) (n : Bound) (s : LineScanner)
      → IsEntity e
      → Fits n s
      → Ensures n (RoundOf IsEntity IsEntity) (next_field parses_float e w s)
  unfolding next_field
  next_field-Ensures e w n s i le =
      Ensures-bind (parse_entity_field-Ensures n s w le) λ f t (is_name, is_default) le_t.
        Ensures-bind (fail_if-Ensures n t (is_text f.name "id") invalid_identifier le_t)
          λ _ u ne le_u.
            Ensures-bind (fail_if-Ensures n u (Dict.has e.field_by_name f.name) duplicate_name le_u)
              λ _ v new le_v.
                holds
                  (add_field-IsEntity e f i (is_name, is_default, ne_of_beq f.name (codes "id") ne)
                    new)
                  le_v

  entity_line-Ensures :
      (e : EntityDesc) (w : Bytes) (n : Bound) (s : LineScanner)
      → IsEntity e
      → Fits n s
      → Ensures n (RoundOf IsEntity IsEntity) (entity_line parses_float e w s)
  unfolding entity_line
  entity_line-Ensures e w n s i le =
      Ensures-branch (is_text w "}") _ _
        (λ _.
          Ensures-bind (no_more_words-Ensures n s incorrect_format le) λ _ t _ le_t. holds i le_t)
        (λ _. next_field-Ensures e w n s i le)

  pub parse_entity-Ensures :
      (n : Bound) (s : LineScanner) → Fits n s → Ensures n IsEntity (parse_entity parses_float s)
  unfolding parse_entity
  parse_entity-Ensures n s le = Ensures-bind (need_line-Ensures n s le) λ _ t _ le_t.
      Ensures-bind (word-Ensures n t le_t) λ w u _ le_u.
        Ensures-bind (validate_name-Ensures n u le_u (or_empty w)) λ name v is_name le_v.
          Ensures-bind (expect_opening_brace-Ensures n v le_v) λ _ x _ le_x.
            each_line-Ensures n.simple IsEntity IsEntity (entity_line parses_float)
              (λ st w k. entity_line-Ensures st w (bound k n.simple)) n.size
              (record { name = name; fields = []; field_by_name = Dict.empty }) x
              (record { is_name = is_name; fields_are = tt; indexed = Indexed-empty field_name })
              le_x

-- What the lines of a resource have given so far.
abbrev IsPartial : ResourceState → Type 0
IsPartial st = IsName st.resource.name × All IsName st.resource.seize_names

module _ (st : ResourceState) (n : Bound) (s : LineScanner) (i : IsPartial st) (le : Fits n s) where
  resource_end-Ensures : Ensures n (RoundOf IsPartial IsResource) (resource_end st s)
  unfolding resource_end
  resource_end-Ensures = Ensures-bind (no_more_words-Ensures n s incorrect_format le) λ _ t _ le_t.
      Ensures-bind (fail_if-Ensures n t (not st.has_capacity) incorrect_format le_t) λ _ u _ le_u.
        Ensures-bind
          (fail_if-Ensures n u (length st.resource.seize_names == 0) incorrect_format le_u)
          λ _ v some_names le_v. holds (i.0, i.1, ground (arith, some_names)) le_v

  resource_capacity-Ensures : Ensures n (RoundOf IsPartial IsResource) (resource_capacity st s)
  unfolding resource_capacity
  resource_capacity-Ensures =
      Ensures-bind (fail_if-Ensures n s st.has_capacity incorrect_format le) λ _ t _ le_t.
        Ensures-bind (need_word-Ensures n t incorrect_format le_t) λ value u _ le_u.
          Ensures-bind (no_more_words-Ensures n u incorrect_format le_u) λ _ v _ le_v. holds i le_v

  resource_seize-Ensures : Ensures n (RoundOf IsPartial IsResource) (resource_seize st s)
  unfolding resource_seize
  resource_seize-Ensures =
      Ensures-bind (need_word-Ensures n s incorrect_format le) λ value t _ le_t.
        Ensures-bind (no_more_words-Ensures n t incorrect_format le_t) λ _ u _ le_u.
          Ensures-bind (validate_name-Ensures n u le_u value) λ name v is_name le_v.
            holds (i.0, All-append IsName st.resource.seize_names name i.1 is_name) le_v

resource_line-Ensures :
    (st : ResourceState) (w : Bytes) (n : Bound) (s : LineScanner)
    → IsPartial st
    → Fits n s
    → Ensures n (RoundOf IsPartial IsResource) (resource_line st w s)
unfolding resource_line
resource_line-Ensures st w n s i le =
    Ensures-branch (is_text w "}") _ _ (λ _. resource_end-Ensures st n s i le)
      λ _.
        Ensures-branch (is_text w "capacity") _ _ (λ _. resource_capacity-Ensures st n s i le)
          λ _.
            Ensures-branch (is_text w "seize") _ _ (λ _. resource_seize-Ensures st n s i le)
              λ _. failed

pub parse_resource-Ensures :
    (n : Bound) (s : LineScanner) → Fits n s → Ensures n IsResource (parse_resource s)
unfolding parse_resource
parse_resource-Ensures n s le = Ensures-bind (need_line-Ensures n s le) λ _ t _ le_t.
    Ensures-bind (word-Ensures n t le_t) λ w u _ le_u.
      Ensures-bind (validate_name-Ensures n u le_u (or_empty w)) λ name v is_name le_v.
        Ensures-bind (expect_opening_brace-Ensures n v le_v) λ _ x _ le_x.
          each_line-Ensures n.simple IsPartial IsResource resource_line
            (λ st w k. resource_line-Ensures st w (bound k n.simple)) n.size
            (record {
              resource = record { name = name; capacity = []; seize_names = []; seizes = [] };
              has_capacity = false;
            })
            x (is_name, tt) le_x
