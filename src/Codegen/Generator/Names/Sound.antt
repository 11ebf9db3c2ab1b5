-- ===== src/Codegen/Generator/Names/Sound.antt =====
-- What the helpers of codegen/generator/parser_helper.go guarantee of the names and values they return.
use go_cloud_des.Prelude.{
  ◌≡◌, ◌⊎◌, inl, inr, refl, Bool, true, false, not, Option, none, some, nat_eq,
}
use go_cloud_des.Codegen.Generator.Text.{Bytes}
use go_cloud_des.Codegen.Generator.Model.{ValueType, Model}
use go_cloud_des.Codegen.Generator.Scanner.{LineScanner}
use go_cloud_des.Codegen.Generator.Parsed.{
  incorrect_format, invalid_identifier, unexpected_eof, duplicate_name, is_text, or_empty,
}
use go_cloud_des.Codegen.Generator.Parsed.Rules.{
  Ensures, holds, failed, Ensures-bind, word-Ensures, no_more_words-Ensures, need_word-Ensures,
  fail_if-Ensures, scan_no_empty-Ensures, Bound, Fits,
}
use go_cloud_des.Codegen.Generator.Names.{
  expect_opening_brace, expect_closing_brace, is_declared, register_global_name, is_identifier,
  is_dsl_keyword, validate_name, default_value_for_type, is_valid_literal_for_type,
  parse_default_value, TypedValueSpec, parse_type, parse_typed_value_spec, default_from, spec_of,
}

-- An identifier that is no keyword.
abbrev pub IsName : Bytes → Type 0
IsName name = (is_identifier name ≡ true) × (is_dsl_keyword name ≡ false)

pub not-eq_false : (b : Bool) → not b ≡ false → b ≡ true
not-eq_false true h = refl
not-eq_false false h = cc

module _ (n : Bound) (s : LineScanner) (le : Fits n s) where
  pub validate_name-Ensures : (token : Bytes) → Ensures n IsName (validate_name token s)
  unfolding validate_name
  validate_name-Ensures token =
      Ensures-bind (fail_if-Ensures n s (not (is_identifier token)) invalid_identifier le)
        λ _ t is_id le'.
          Ensures-bind (fail_if-Ensures n t (is_dsl_keyword token) invalid_identifier le')
            λ _ u free le''. holds (not-eq_false (is_identifier token) is_id, free) le''

  pub register_global_name-Ensures :
      (model : Model) (name : Bytes)
      → Ensures n
          (λ (_ : Unit {0}). is_declared model name ≡ false)
          (register_global_name model name s)
  unfolding register_global_name
  register_global_name-Ensures model name =
      fail_if-Ensures n s (is_declared model name) duplicate_name le

  pub expect_opening_brace-Ensures : Ensures n (λ (_ : Unit {0}). Unit {0}) (expect_opening_brace s)
  unfolding expect_opening_brace
  expect_opening_brace-Ensures = Ensures-bind (word-Ensures n s le) λ w t _ le'.
      Ensures-bind (fail_if-Ensures n t (not (is_text (or_empty w) "{")) incorrect_format le')
        λ _ u _ le''. no_more_words-Ensures n u incorrect_format le''

  pub expect_closing_brace-Ensures : Ensures n (λ (_ : Unit {0}). Unit {0}) (expect_closing_brace s)
  unfolding expect_closing_brace
  expect_closing_brace-Ensures = Ensures-bind (scan_no_empty-Ensures n s le) λ found t _ le'.
      Ensures-bind (fail_if-Ensures n t (not found) unexpected_eof le') λ _ u _ le_u.
        Ensures-bind (word-Ensures n u le_u) λ w v _ le_v.
          Ensures-bind (fail_if-Ensures n v (not (is_text (or_empty w) "}")) incorrect_format le_v)
            λ _ x _ le_x. no_more_words-Ensures n x incorrect_format le_x

-- The default value of a type, or a literal of it.
abbrev pub IsDefault : (Bytes → Bool) → ValueType → Bytes → Type 0
IsDefault parses_float type value =
    (value ≡ default_value_for_type type)
    ⊎ (is_valid_literal_for_type parses_float value type ≡ true)

module _ (parses_float : Bytes → Bool) where
  pub parse_default_value-Ensures :
      (n : Bound) (s : LineScanner) (type : ValueType)
      → Fits n s
      → Ensures n (IsDefault parses_float type) (parse_default_value parses_float type s)
  unfolding parse_default_value
  parse_default_value-Ensures n s type le =
      Ensures-bind (word-Ensures n s le) λ w t _ le'. go w t le'
    where
      go :
          (w : Option Bytes) (t : LineScanner)
          → Fits n t
          → Ensures n (IsDefault parses_float type) (default_from parses_float type w t)
      go none t le' = holds (inl refl) le'
      go (some value) t le' =
          Ensures-bind (no_more_words-Ensures n t incorrect_format le') λ _ u _ le_u.
            Ensures-bind
              (fail_if-Ensures n u (not (is_valid_literal_for_type parses_float value type))
                incorrect_format le_u)
              λ _ v ok_v le_v.
                holds (inr (not-eq_false (is_valid_literal_for_type parses_float value type) ok_v))
                  le_v

  abbrev pub IsSpec : TypedValueSpec → Type 0
  IsSpec spec = IsName spec.name × IsDefault parses_float spec.type spec.default

  pub parse_typed_value_spec-Ensures :
      (n : Bound) (s : LineScanner) (first : Bytes)
      → Fits n s
      → Ensures n IsSpec (parse_typed_value_spec parses_float first s)
  unfolding parse_typed_value_spec
  parse_typed_value_spec-Ensures n s first le =
      Ensures-bind (validate_name-Ensures n s le first) λ name t is_name le_t.
        Ensures-bind (need_word-Ensures n t incorrect_format le_t)
          λ type_token u _ le_u. go name (parse_type type_token) u is_name le_u
    where
      go :
          (name : Bytes) (type : Option ValueType) (u : LineScanner)
          → IsName name
          → Fits n u
          → Ensures n IsSpec (spec_of parses_float name type u)
      go name none u is_name le_u = failed
      go name (some type) u is_name le_u =
          Ensures-bind (parse_default_value-Ensures n u type le_u)
            λ default v ok_v le_v. holds (is_name, ok_v) le_v
