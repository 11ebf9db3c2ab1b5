-- ===== src/Codegen/Generator/Blocks/ResourcesSound.antt =====
-- DELAY, SEIZE and RELEASE blocks have what they need.
use go_cloud_des.Prelude.{◌≡◌, true, not, nat_eq, [], ◌∷◌, ◌++◌, All}
use go_cloud_des.Codegen.Generator.Text.{Bytes, bytes_eq}
use go_cloud_des.Codegen.Generator.Scanner.{LineScanner}
use go_cloud_des.Codegen.Generator.Parsed.{is_text, incorrect_format}
use go_cloud_des.Codegen.Generator.Parsed.Rules.{
  Ensures, holds, failed, Ensures-bind, Ensures-branch, fail_if-Ensures, RoundOf, each_line-Ensures,
  Bound, Fits, bound,
}
use go_cloud_des.Codegen.Generator.Names.Sound.{IsName, expect_closing_brace-Ensures, not-eq_false}
use go_cloud_des.Codegen.Generator.Sections.Section.{All-append}
use go_cloud_des.Codegen.Generator.Model.{DelayParams}
use go_cloud_des.Codegen.Generator.Blocks.Reading.{read_required_name, read_required_expr}
use go_cloud_des.Codegen.Generator.Blocks.ReadingSound.{
  Gives, Anything, IsExpr, read_required_name-Gives, read_required_expr-Gives, closing-Gives,
  parse_unique_param-Gives, parse_repeated_param-Gives,
}
use go_cloud_des.Codegen.Generator.Blocks.Resources.{
  DelayState, delay_end, delay_param, delay_line, new_delay, parse_delay_params,
  parse_terminate_params,
}

pub parse_terminate_params-Gives : Gives Anything parse_terminate_params
unfolding parse_terminate_params
parse_terminate_params-Gives n s le = expect_closing_brace-Ensures n s le

abbrev pub IsDelay : DelayParams → Type 0
IsDelay p =
    IsName p.next_name
    × IsExpr p.duration
    × All IsName p.wait_queue_names
    × (p.has_capacity ≡ true → IsExpr p.capacity)

abbrev DelaySoFar : DelayState → Type 0
DelaySoFar st =
    (st.has_next ≡ true → IsName st.params.next_name)
    × (st.has_duration ≡ true → IsExpr st.params.duration)
    × All IsName st.params.wait_queue_names
    × (st.params.has_capacity ≡ true → IsExpr st.params.capacity)

delay_end-Gives :
    (st : DelayState) → DelaySoFar st → Gives (RoundOf DelaySoFar IsDelay) (delay_end st)
unfolding delay_end
delay_end-Gives st (next, duration, queues, capacity) n s le =
    Ensures-bind (closing-Gives n s le) λ _ t _ le_t.
      Ensures-bind (fail_if-Ensures n t (not st.has_next) incorrect_format le_t) λ _ u h le_u.
        Ensures-bind (fail_if-Ensures n u (not st.has_duration) incorrect_format le_u) λ _ v d le_v.
          holds
            (
              next (not-eq_false st.has_next h),
              duration (not-eq_false st.has_duration d),
              queues,
              capacity,
            )
            le_v

module _ (st : DelayState) (n : Bound) (s : LineScanner) where
  delay_param-Ensures :
      (w : Bytes)
      → DelaySoFar st
      → Fits n s
      → Ensures n (RoundOf DelaySoFar IsDelay) (delay_param st w s)
  unfolding delay_param
  delay_param-Ensures w (next, duration, queues, capacity) le =
      Ensures-branch (is_text w "next") _ _
        (λ _.
          parse_unique_param-Gives IsName DelaySoFar IsDelay read_required_name
            read_required_name-Gives
            (λ v. record st { params = record st.params { next_name = v }; has_next = true })
            (λ v p. ((λ _. p), duration, queues, capacity)) st.has_next n s le)
        λ _.
          Ensures-branch (is_text w "duration") _ _
            (λ _.
              parse_unique_param-Gives IsExpr DelaySoFar IsDelay read_required_expr
                read_required_expr-Gives
                (λ v. record st { params = record st.params { duration = v }; has_duration = true })
                (λ v p. (next, (λ _. p), queues, capacity)) st.has_duration n s le)
            λ _.
              Ensures-branch (is_text w "capacity") _ _
                (λ _.
                  parse_unique_param-Gives IsExpr DelaySoFar IsDelay read_required_expr
                    read_required_expr-Gives
                    (λ v. record st {
                      params = record st.params { capacity = v; has_capacity = true };
                      has_capacity = true;
                    })
                    (λ v p. (next, duration, queues, (λ _. p))) st.has_capacity n s le)
                λ _.
                  Ensures-branch (is_text w "wait_queue") _ _
                    (λ _.
                      parse_repeated_param-Gives IsName DelaySoFar IsDelay read_required_name
                        read_required_name-Gives
                        (λ v. record st {
                          params = record st.params {
                            wait_queue_names = st.params.wait_queue_names ++ v ∷ [];
                          };
                        })
                        (λ v p. (
                          next,
                          duration,
                          All-append IsName st.params.wait_queue_names v queues p,
                          capacity,
                        ))
                        n s le)
                    λ _. failed

delay_line-Ensures :
    (st : DelayState) (w : Bytes) (n : Bound) (s : LineScanner)
    → DelaySoFar st
    → Fits n s
    → Ensures n (RoundOf DelaySoFar IsDelay) (delay_line st w s)
unfolding delay_line
delay_line-Ensures st w n s i le =
    Ensures-branch (is_text w "}") _ _ (λ _. delay_end-Gives st i n s le)
      (λ _. delay_param-Ensures st n s w i le)

pub parse_delay_params-Gives : Gives IsDelay parse_delay_params
unfolding parse_delay_params
parse_delay_params-Gives n s le =
    each_line-Ensures n.simple DelaySoFar IsDelay delay_line
      (λ st w k. delay_line-Ensures st w (bound k n.simple)) n.size new_delay s
      ((λ h. cc), (λ h. cc), tt, (λ h. cc)) le
