-- ===== src/Codegen/Generator/Blocks/ReadingSound.antt =====
-- What the readers of codegen/generator/parse_block.go return.
use go_cloud_des.Prelude.{◌<◌, arith, Bool, ◌==◌, nat_eq, length}
use go_cloud_des.Codegen.Generator.Text.{bytes_eq}
use go_cloud_des.Codegen.Generator.Scanner
use go_cloud_des.Codegen.Generator.Scanner.{LineScanner}
use go_cloud_des.Codegen.Generator.Parsed.{Action, is_text, incorrect_format}
use go_cloud_des.Codegen.Generator.Parsed.Rules.{
  Ensures, holds, failed, Ensures-bind, Ensures-branch, no_more_words-Ensures, need_word-Ensures,
  fail_if-Ensures, RoundOf, Bound, Fits,
}
use go_cloud_des.Codegen.Generator.Names.Sound.{IsName, validate_name-Ensures}
use go_cloud_des.Codegen.Generator.Blocks.Reading.{
  read_required_token, read_required_name, read_required_expr, read_required_bool,
  read_blocking_policy, read_queue_discipline, expect_no_extra_after_closing_brace,
  parse_unique_param, parse_repeated_param,
}
use go_cloud_des.Codegen.Generator.Parsed.{line}
use go_cloud_des.Codegen.Generator.Model.{Expr}

-- An action that returns a value with `P`, wherever the scanner stands.
abbrev pub Gives {ℓ κ} : {A : Type ℓ} → (A → Type κ) → Action A → Type (ℓ ⊔ κ)
Gives P m = (n : Bound) (s : LineScanner) → Fits n s → Ensures n P (m s)

abbrev pub Anything {ℓ} : {A : Type ℓ} → A → Type 0
Anything a = Unit {0}

abbrev pub IsExpr : Expr → Type 0
IsExpr e = 0 < length e

read_required_token-Gives : Gives Anything read_required_token
unfolding read_required_token
read_required_token-Gives n s le =
    Ensures-bind (need_word-Ensures n s incorrect_format le) λ token t _ le_t.
      Ensures-bind (no_more_words-Ensures n t incorrect_format le_t) λ _ u _ le_u. holds tt le_u

pub read_required_name-Gives : Gives IsName read_required_name
unfolding read_required_name
read_required_name-Gives n s le =
    Ensures-bind (read_required_token-Gives n s le)
      λ token t _ le_t. validate_name-Ensures n t le_t token

pub read_required_expr-Gives : Gives IsExpr read_required_expr
unfolding read_required_expr line
read_required_expr-Gives n s le =
    Ensures-bind (fail_if-Ensures n s (length (Scanner.line s) == 0) incorrect_format le)
      λ _ t some_text le_t. holds (ground (arith, some_text)) le_t

pub read_required_bool-Gives : Gives Anything read_required_bool
unfolding read_required_bool
read_required_bool-Gives n s le = Ensures-bind (read_required_token-Gives n s le) λ token t _ le_t.
    Ensures-branch (is_text token "true") _ _ (λ _. holds tt le_t)
      λ _. Ensures-branch (is_text token "false") _ _ (λ _. holds tt le_t) λ _. failed

pub read_blocking_policy-Gives : Gives Anything read_blocking_policy
unfolding read_blocking_policy
read_blocking_policy-Gives n s le =
    Ensures-bind (read_required_token-Gives n s le) λ token t _ le_t.
      Ensures-branch (is_text token "error") _ _ (λ _. holds tt le_t)
        λ _. Ensures-branch (is_text token "destroy") _ _ (λ _. holds tt le_t) λ _. failed

pub read_queue_discipline-Gives : Gives Anything read_queue_discipline
unfolding read_queue_discipline
read_queue_discipline-Gives n s le =
    Ensures-bind (read_required_token-Gives n s le)
      λ token t _ le_t. Ensures-branch (is_text token "fifo") _ _ (λ _. holds tt le_t) λ _. failed

pub closing-Gives : Gives Anything expect_no_extra_after_closing_brace
unfolding expect_no_extra_after_closing_brace
closing-Gives n s le = no_more_words-Ensures n s incorrect_format le

module _ {ℓ κ κ' ℓ'} {V : Type ℓ} {S : Type κ} {A : Type κ'} (P : V → Type ℓ') (I : S → Type ℓ')
    (Q : A → Type ℓ') (read : Action V) (gives : Gives P read) (next : V → S)
    (keeps : (v : V) → P v → I (next v)) where
  pub parse_unique_param-Gives :
      (has : Bool) → Gives (RoundOf I Q) (parse_unique_param has read next)
  unfolding parse_unique_param
  parse_unique_param-Gives has n s le =
      Ensures-bind (fail_if-Ensures n s has incorrect_format le)
        λ _ t _ le_t. Ensures-bind (gives n t le_t) λ v u p le_u. holds (keeps v p) le_u

  pub parse_repeated_param-Gives : Gives (RoundOf I Q) (parse_repeated_param read next)
  unfolding parse_repeated_param
  parse_repeated_param-Gives n s le =
      Ensures-bind (gives n s le) λ v u p le_u. holds (keeps v p) le_u
