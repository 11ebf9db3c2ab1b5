-- ===== src/Codegen/Generator/Blocks/LogicSound.antt =====
-- ASSIGN and BRANCH blocks have what they need.
use go_cloud_des.Prelude.{
  ℕ, suc, ◌≡◌, ◌<◌, ◌⊎◌, inl, inr, refl, arith, true, false, not, ◌&&◌, ◌||◌, ◌==◌, nat_eq, Option,
  none, some, [], ◌∷◌, ◌++◌, length, take, drop, All,
}
use go_cloud_des.Codegen.Generator.Text.{Bytes, bytes_eq, index_byte, trim_space}
use go_cloud_des.Codegen.Generator.Scanner.{LineScanner}
use go_cloud_des.Codegen.Generator.Parsed.{is_text, incorrect_format}
use go_cloud_des.Codegen.Generator.Parsed.Rules.{
  Ensures, holds, failed, Ensures-bind, Ensures-branch, fail_if-Ensures, RoundOf, each_line-Ensures,
  Bound, Fits, bound,
}
use go_cloud_des.Codegen.Generator.Names.Sound.{IsName, validate_name-Ensures, not-eq_false}
use go_cloud_des.Codegen.Generator.Sections.Section.{All-append}
use go_cloud_des.Codegen.Generator.Parsed.{line}
use go_cloud_des.Codegen.Generator.Scanner
use go_cloud_des.Codegen.Generator.Model.{
  AssignmentTarget, Assignment, AssignParams, BranchCase, BranchParams,
}
use go_cloud_des.Codegen.Generator.Blocks.Reading.{read_required_name}
use go_cloud_des.Codegen.Generator.Blocks.ReadingSound.{
  Gives, Anything, IsExpr, read_required_name-Gives, closing-Gives, parse_unique_param-Gives,
  parse_repeated_param-Gives,
}
use go_cloud_des.Codegen.Generator.Blocks.Logic.{
  target_of, parse_assignment_target, assignment_of, parse_assignment, AssignState, assign_end,
  assign_line, new_assign, parse_assign_params, halves, split_colon, parse_branch_case,
  parse_branch_else, branch_end, branch_line, new_branch, parse_branch_params,
}

-- A variable, or a field of an entity.
abbrev pub IsTarget : AssignmentTarget → Type 0
IsTarget t =
    ((t.is_entity_field ≡ true) × IsName t.entity_name × IsName t.field_name)
    ⊎ ((t.is_entity_field ≡ false) × IsName t.var_name)

abbrev pub IsAssignment : Assignment → Type 0
IsAssignment a = IsTarget a.target × IsExpr a.expr

abbrev pub IsAssign : AssignParams → Type 0
IsAssign p = IsName p.next_name × All IsAssignment p.assignments

abbrev pub IsCase : BranchCase → Type 0
IsCase c = IsExpr c.condition × IsName c.next_name

abbrev pub IsBranch : BranchParams → Type 0
IsBranch p =
    All IsCase p.cases
    × (p.has_else ≡ true → IsName p.else_name)
    × ((0 < length p.cases) ⊎ (p.has_else ≡ true))
    × (p.else_next ≡ none)

target_of-Gives : (target : Bytes) (dot : Option ℕ) → Gives IsTarget (target_of target dot)
unfolding target_of
target_of-Gives target none n s le =
    Ensures-bind (validate_name-Ensures n s le target) λ name t p le_t. holds (inr (refl, p)) le_t
target_of-Gives target (some dot) n s le =
    Ensures-bind (fail_if-Ensures n s (dot == 0 || suc dot == length target) incorrect_format le)
      λ _ t _ le_t.
        Ensures-bind
          (fail_if-Ensures n t
            (elim (index_byte (drop (suc dot) target) b'.') [ none ↦ false | some i ↦ true ])
            incorrect_format le_t)
          λ _ u _ le_u.
            Ensures-bind (validate_name-Ensures n u le_u (take dot target)) λ entity v p le_v.
              Ensures-bind (validate_name-Ensures n v le_v (drop (suc dot) target))
                λ field x q le_x. holds (inl (refl, p, q)) le_x

parse_assignment_target-Gives : (text : Bytes) → Gives IsTarget (parse_assignment_target text)
unfolding parse_assignment_target
parse_assignment_target-Gives text n s le =
    Ensures-bind (fail_if-Ensures n s (length (trim_space text) == 0) incorrect_format le)
      λ _ t _ le_t. target_of-Gives (trim_space text) (index_byte (trim_space text) b'.') n t le_t

assignment_of-Gives : (text : Bytes) (eq : Option ℕ) → Gives IsAssignment (assignment_of text eq)
unfolding assignment_of
assignment_of-Gives text none n s le = failed
assignment_of-Gives text (some eq) n s le =
    Ensures-bind
      (fail_if-Ensures n s (length (trim_space (drop (suc eq) text)) == 0) incorrect_format le)
      λ _ t some_text le_t.
        Ensures-bind (parse_assignment_target-Gives (trim_space (take eq text)) n t le_t)
          λ target u p le_u. holds (p, ground (arith, some_text)) le_u

parse_assignment-Gives : Gives IsAssignment parse_assignment
unfolding parse_assignment line
parse_assignment-Gives n s le =
    Ensures-bind (fail_if-Ensures n s (length (Scanner.line s) == 0) incorrect_format le)
      λ _ t _ le_t. assignment_of-Gives (Scanner.line s) (index_byte (Scanner.line s) b'=') n t le_t

abbrev AssignSoFar : AssignState → Type 0
AssignSoFar st =
    (st.has_next ≡ true → IsName st.params.next_name) × All IsAssignment st.params.assignments

assign_end-Gives :
    (st : AssignState) → AssignSoFar st → Gives (RoundOf AssignSoFar IsAssign) (assign_end st)
unfolding assign_end
assign_end-Gives st (next, sets) n s le = Ensures-bind (closing-Gives n s le) λ _ t _ le_t.
    Ensures-bind (fail_if-Ensures n t (not st.has_next) incorrect_format le_t)
      λ _ u h le_u. holds (next (not-eq_false st.has_next h), sets) le_u

assign_line-Ensures :
    (st : AssignState) (w : Bytes) (n : Bound) (s : LineScanner)
    → AssignSoFar st
    → Fits n s
    → Ensures n (RoundOf AssignSoFar IsAssign) (assign_line st w s)
unfolding assign_line
assign_line-Ensures st w n s (next, sets) le =
    Ensures-branch (is_text w "}") _ _ (λ _. assign_end-Gives st (next, sets) n s le)
      λ _.
        Ensures-branch (is_text w "set") _ _
          (λ _.
            parse_repeated_param-Gives IsAssignment AssignSoFar IsAssign parse_assignment
              parse_assignment-Gives
              (λ v. record st {
                params = record st.params { assignments = st.params.assignments ++ v ∷ [] };
              })
              (λ v p. (next, All-append IsAssignment st.params.assignments v sets p)) n s le)
          λ _.
            Ensures-branch (is_text w "next") _ _
              (λ _.
                parse_unique_param-Gives IsName AssignSoFar IsAssign read_required_name
                  read_required_name-Gives
                  (λ v. record st { params = record st.params { next_name = v }; has_next = true })
                  (λ v p. ((λ _. p), sets)) st.has_next n s le)
              λ _. failed

pub parse_assign_params-Gives : Gives IsAssign parse_assign_params
unfolding parse_assign_params
parse_assign_params-Gives n s le =
    each_line-Ensures n.simple AssignSoFar IsAssign assign_line
      (λ st w k. assign_line-Ensures st w (bound k n.simple)) n.size new_assign s ((λ h. cc), tt) le

split_colon-Gives : (text : Bytes) → Gives Anything (split_colon text)
unfolding split_colon
split_colon-Gives text n s le = go (index_byte text b':')
  where
    go : (idx : Option ℕ) → Ensures n Anything (halves text idx s)
    go none = failed
    go (some idx) =
        Ensures-bind
          (fail_if-Ensures n s (length (trim_space (drop (suc idx) text)) == 0) incorrect_format le)
          λ _ t _ le_t.
            Ensures-bind
              (fail_if-Ensures n t
                (elim (index_byte (trim_space (drop (suc idx) text)) b':') [
                  | none ↦ false
                  | some i ↦ true
                ])
                incorrect_format le_t)
              λ _ u _ le_u. holds tt le_u

parse_branch_case-Gives : Gives IsCase parse_branch_case
unfolding parse_branch_case line
parse_branch_case-Gives n s le =
    Ensures-bind (split_colon-Gives (Scanner.line s) n s le) λ parts t _ le_t.
      Ensures-bind (fail_if-Ensures n t (length parts.0 == 0) incorrect_format le_t)
        λ _ u some_text le_u.
          Ensures-bind (validate_name-Ensures n u le_u parts.1)
            λ name v p le_v. holds (ground (arith, some_text), p) le_v

parse_branch_else-Gives : Gives IsName parse_branch_else
unfolding parse_branch_else line
parse_branch_else-Gives n s le =
    Ensures-bind (split_colon-Gives (Scanner.line s) n s le) λ parts t _ le_t.
      Ensures-bind (fail_if-Ensures n t (not (length parts.0 == 0)) incorrect_format le_t)
        λ _ u _ le_u. validate_name-Ensures n u le_u parts.1

abbrev BranchSoFar : BranchParams → Type 0
BranchSoFar p = All IsCase p.cases × (p.has_else ≡ true → IsName p.else_name) × (p.else_next ≡ none)

branch_end-Gives :
    (p : BranchParams) → BranchSoFar p → Gives (RoundOf BranchSoFar IsBranch) (branch_end p)
unfolding branch_end
branch_end-Gives p (cases, other_name, e0) n s le =
    Ensures-bind (closing-Gives n s le) λ _ t _ le_t.
      Ensures-bind
        (fail_if-Ensures n t (length p.cases == 0 && not p.has_else) incorrect_format le_t)
        λ _ u h le_u. holds (cases, other_name, ground (arith, h), e0) le_u

branch_line-Ensures :
    (st : BranchParams) (w : Bytes) (n : Bound) (s : LineScanner)
    → BranchSoFar st
    → Fits n s
    → Ensures n (RoundOf BranchSoFar IsBranch) (branch_line st w s)
unfolding branch_line
branch_line-Ensures st w n s (cases, other_name, e0) le =
    Ensures-branch (is_text w "}") _ _ (λ _. branch_end-Gives st (cases, other_name, e0) n s le)
      λ _.
        Ensures-branch (is_text w "if") _ _
          (λ _.
            parse_repeated_param-Gives IsCase BranchSoFar IsBranch parse_branch_case
              parse_branch_case-Gives (λ v. record st { cases = st.cases ++ v ∷ [] })
              (λ v p. (All-append IsCase st.cases v cases p, other_name, e0)) n s le)
          λ _.
            Ensures-branch (is_text w "else") _ _
              (λ _.
                parse_unique_param-Gives IsName BranchSoFar IsBranch parse_branch_else
                  parse_branch_else-Gives (λ v. record st { else_name = v; has_else = true })
                  (λ v p. (cases, (λ _. p), e0)) st.has_else n s le)
              λ _. failed

pub parse_branch_params-Gives : Gives IsBranch parse_branch_params
unfolding parse_branch_params
parse_branch_params-Gives n s le =
    each_line-Ensures n.simple BranchSoFar IsBranch branch_line
      (λ st w k. branch_line-Ensures st w (bound k n.simple)) n.size new_branch s
      (tt, (λ h. cc), refl) le
