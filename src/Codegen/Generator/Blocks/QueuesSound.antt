-- ===== src/Codegen/Generator/Blocks/QueuesSound.antt =====
-- What parseQueueParams of codegen/generator/parse_block.go returns.
use go_cloud_des.Prelude.{
  ◌≡◌, ◌⊎◌, inl, inr, refl, arith, true, false, not, ◌&&◌, ◌==◌, nat_eq, [], length, Bool-cases,
  none, Bool,
}
use go_cloud_des.Codegen.Generator.Text.{Bytes, bytes_eq, trim_space}
use go_cloud_des.Codegen.Generator.Scanner
use go_cloud_des.Codegen.Generator.Parsed.{line}
use go_cloud_des.Codegen.Generator.Scanner.{LineScanner}
use go_cloud_des.Codegen.Generator.Parsed.{is_text, incorrect_format}
use go_cloud_des.Codegen.Generator.Parsed.Rules.{
  Ensures, holds, failed, Ensures-bind, Ensures-branch, fail_if-Ensures, RoundOf, each_line-Ensures,
  Bound, Fits, bound,
}
use go_cloud_des.Codegen.Generator.Names.Sound.{IsName, not-eq_false}
use go_cloud_des.Codegen.Generator.Model.{QueueParams}
use go_cloud_des.Codegen.Generator.Blocks.Reading.{
  read_required_name, read_required_expr, read_required_bool, read_queue_discipline,
}
use go_cloud_des.Codegen.Generator.Blocks.ReadingSound.{
  Anything, IsExpr, read_required_name-Gives, read_required_expr-Gives, read_required_bool-Gives,
  read_queue_discipline-Gives, closing-Gives, parse_unique_param-Gives,
}
use go_cloud_des.Codegen.Generator.Blocks.Arrivals.{
  QueueState, queue_end, with_capacity, queue_capacity, queue_param, queue_line, new_queue,
  parse_queue_params,
}
use go_cloud_des.Codegen.Generator.Scanner.Simple.{trim_space-trim_left}

-- No name, or a name.
abbrev pub IsNameOrNone : Bytes → Type 0
IsNameOrNone name = (name ≡ []) ⊎ IsName name

-- The parameters that a QUEUE must have; the capacity is known not to be empty in a simple text.
pub record IsQueue (simple : Bool) (p : QueueParams) : Type 0 where
  pub next : IsName p.next_name
  pub timeout : p.has_timeout ≡ true → IsExpr p.timeout
  pub next_timeout : IsNameOrNone p.next_timeout_name
  pub next_overflow : IsNameOrNone p.next_overflow_name
  pub overflow : p.exit_on_overflow ≡ true → IsName p.next_overflow_name
  pub finite : p.exit_on_overflow ≡ true → p.infinite_capacity ≡ false
  pub capacity : simple ≡ true → (p.infinite_capacity ≡ true) ⊎ IsExpr p.capacity
  pub unset : (p.next_timeout ≡ none) × (p.next_overflow ≡ none)

abbrev QueueSoFar : Bool → QueueState → Type 0
QueueSoFar simple st =
    (st.has_next ≡ true → IsName st.params.next_name)
    × (st.params.has_timeout ≡ true → IsExpr st.params.timeout)
    × IsNameOrNone st.params.next_timeout_name
    × IsNameOrNone st.params.next_overflow_name
    × (st.has_next_overflow ≡ true → IsName st.params.next_overflow_name)
    × (st.params.next_timeout ≡ none)
    × (st.params.next_overflow ≡ none)
    × (simple ≡ true
        → st.has_capacity ≡ true
        → (st.params.infinite_capacity ≡ true) ⊎ IsExpr st.params.capacity)

queue_end-Ensures :
    (st : QueueState) (n : Bound) (s : LineScanner)
    → QueueSoFar n.simple st
    → Fits n s
    → Ensures n (RoundOf (QueueSoFar n.simple) (IsQueue n.simple)) (queue_end st s)
unfolding queue_end
queue_end-Ensures st n s (next, timeout, to, over, named, t0, o0, room) le =
    Ensures-bind (closing-Gives n s le) λ _ t _ le_t.
      Ensures-bind (fail_if-Ensures n t (not st.has_next) incorrect_format le_t) λ _ u h le_u.
        Ensures-bind (fail_if-Ensures n u (not st.has_capacity) incorrect_format le_u) λ _ v c le_v.
          Ensures-bind
            (fail_if-Ensures n v (st.params.exit_on_overflow && not st.has_next_overflow)
              incorrect_format le_v)
            λ _ x o le_x.
              Ensures-bind
                (fail_if-Ensures n x (st.params.exit_on_overflow && st.params.infinite_capacity)
                  incorrect_format le_x)
                λ _ y f le_y.
                  holds
                    (record {
                      next = next (not-eq_false st.has_next h);
                      timeout = timeout;
                      next_timeout = to;
                      next_overflow = over;
                      overflow = λ exits. named (ground (arith, o, exits));
                      finite = λ exits. ground (arith, f, exits);
                      unset = (t0, o0);
                      capacity = λ q. room q (not-eq_false st.has_capacity c);
                    })
                    le_y

with_capacity-SoFar :
    (simple : Bool) (st : QueueState) (raw : Bytes)
    → (simple ≡ true → IsExpr raw)
    → QueueSoFar simple st
    → QueueSoFar simple (with_capacity st raw)
unfolding with_capacity
with_capacity-SoFar simple st raw some_text (next, timeout, to, over, named, t0, o0, room) =
    elim (Bool-cases (is_text raw "infinity")) [
      | inl e ↦ rw e (next, timeout, to, over, named, t0, o0, (λ q h. inl refl))
      | inr e ↦ rw e (next, timeout, to, over, named, t0, o0, (λ q h. inr (some_text q)))
    ]

module _ (st : QueueState) (n : Bound) (s : LineScanner) where
  queue_capacity-Ensures :
      QueueSoFar n.simple st
      → Fits n s
      → Ensures n (RoundOf (QueueSoFar n.simple) (IsQueue n.simple)) (queue_capacity st s)
  unfolding queue_capacity line
  queue_capacity-Ensures i le =
      Ensures-bind (fail_if-Ensures n s st.has_capacity incorrect_format le) λ _ t _ le_t.
        Ensures-bind (fail_if-Ensures n t (length (Scanner.line t) == 0) incorrect_format le_t)
          λ _ u some_text le_u.
            holds
              (with_capacity-SoFar n.simple st (trim_space (Scanner.line t))
                (λ q.
                  unfold Scanner.line in
                  trim_space-trim_left t.line (le_t.1 q).1 (ground (arith, some_text)))
                i)
              le_u

  queue_param-Ensures :
      (w : Bytes)
      → QueueSoFar n.simple st
      → Fits n s
      → Ensures n (RoundOf (QueueSoFar n.simple) (IsQueue n.simple)) (queue_param st w s)
  unfolding queue_param
  queue_param-Ensures w (next, timeout, to, over, named, t0, o0, room) le =
      Ensures-branch (is_text w "next") _ _
        (λ _.
          parse_unique_param-Gives IsName (QueueSoFar n.simple) (IsQueue n.simple)
            read_required_name read_required_name-Gives
            (λ v. record st { params = record st.params { next_name = v }; has_next = true })
            (λ v p. ((λ _. p), timeout, to, over, named, t0, o0, room)) st.has_next n s le)
        λ _.
          Ensures-branch (is_text w "capacity") _ _
            (λ _. queue_capacity-Ensures (next, timeout, to, over, named, t0, o0, room) le)
            λ _.
              Ensures-branch (is_text w "discipline") _ _
                (λ _.
                  parse_unique_param-Gives Anything (QueueSoFar n.simple) (IsQueue n.simple)
                    read_queue_discipline read_queue_discipline-Gives
                    (λ v. record st {
                      params = record st.params { discipline = v };
                      has_discipline = true;
                    })
                    (λ v p. (next, timeout, to, over, named, t0, o0, room)) st.has_discipline n s
                    le)
                λ _.
                  Ensures-branch (is_text w "timeout") _ _
                    (λ _.
                      parse_unique_param-Gives IsExpr (QueueSoFar n.simple) (IsQueue n.simple)
                        read_required_expr read_required_expr-Gives
                        (λ v. record st {
                          params = record st.params { timeout = v; has_timeout = true };
                          has_timeout = true;
                        })
                        (λ v p. (next, (λ _. p), to, over, named, t0, o0, room)) st.has_timeout n s
                        le)
                    λ _.
                      Ensures-branch (is_text w "next_timeout") _ _
                        (λ _.
                          parse_unique_param-Gives IsName (QueueSoFar n.simple) (IsQueue n.simple)
                            read_required_name read_required_name-Gives
                            (λ v. record st {
                              params = record st.params { next_timeout_name = v };
                              has_next_timeout = true;
                            })
                            (λ v p. (next, timeout, inr p, over, named, t0, o0, room))
                            st.has_next_timeout n s le)
                        λ _.
                          Ensures-branch (is_text w "exit_on_overflow") _ _
                            (λ _.
                              parse_unique_param-Gives Anything (QueueSoFar n.simple)
                                (IsQueue n.simple) read_required_bool read_required_bool-Gives
                                (λ v. record st {
                                  params = record st.params { exit_on_overflow = v };
                                  has_exit_on_overflow = true;
                                })
                                (λ v p. (next, timeout, to, over, named, t0, o0, room))
                                st.has_exit_on_overflow n s le)
                            λ _.
                              Ensures-branch (is_text w "next_overflow") _ _
                                (λ _.
                                  parse_unique_param-Gives IsName (QueueSoFar n.simple)
                                    (IsQueue n.simple) read_required_name read_required_name-Gives
                                    (λ v. record st {
                                      params = record st.params { next_overflow_name = v };
                                      has_next_overflow = true;
                                    })
                                    (λ v p. (next, timeout, to, inr p, (λ _. p), t0, o0, room))
                                    st.has_next_overflow n s le)
                                λ _. failed

queue_line-Ensures :
    (st : QueueState) (w : Bytes) (n : Bound) (s : LineScanner)
    → QueueSoFar n.simple st
    → Fits n s
    → Ensures n (RoundOf (QueueSoFar n.simple) (IsQueue n.simple)) (queue_line st w s)
unfolding queue_line
queue_line-Ensures st w n s i le =
    Ensures-branch (is_text w "}") _ _ (λ _. queue_end-Ensures st n s i le)
      (λ _. queue_param-Ensures st n s w i le)

pub parse_queue_params-Ensures :
    (n : Bound) (s : LineScanner) → Fits n s → Ensures n (IsQueue n.simple) (parse_queue_params s)
unfolding parse_queue_params
parse_queue_params-Ensures n s le =
    each_line-Ensures n.simple (QueueSoFar n.simple) (IsQueue n.simple) queue_line
      (λ st w k. queue_line-Ensures st w (bound k n.simple)) n.size new_queue s
      ((λ h. cc), (λ h. cc), inl refl, inl refl, (λ h. cc), refl, refl, (λ q h. cc)) le
