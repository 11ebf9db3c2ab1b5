-- ===== src/Codegen/Generator/Blocks/ArrivalsSound.antt =====
-- CREATE and QUEUE blocks have what they need.
use go_cloud_des.Prelude.{◌≡◌, arith, true, not, nat_eq}
use go_cloud_des.Codegen.Generator.Text.{Bytes, bytes_eq}
use go_cloud_des.Codegen.Generator.Scanner.{LineScanner}
use go_cloud_des.Codegen.Generator.Parsed.{is_text, incorrect_format}
use go_cloud_des.Codegen.Generator.Parsed.Rules.{
  Ensures, holds, failed, Ensures-bind, Ensures-branch, fail_if-Ensures, RoundOf, each_line-Ensures,
  Bound, Fits, bound,
}
use go_cloud_des.Codegen.Generator.Names.Sound.{IsName, not-eq_false}
use go_cloud_des.Codegen.Generator.Model.{CreateParams}
use go_cloud_des.Codegen.Generator.Blocks.Reading.{
  read_required_name, read_required_expr, read_required_bool, read_blocking_policy,
}
use go_cloud_des.Codegen.Generator.Blocks.ReadingSound.{
  Gives, Anything, IsExpr, read_required_name-Gives, read_required_expr-Gives,
  read_required_bool-Gives, read_blocking_policy-Gives, closing-Gives, parse_unique_param-Gives,
}
use go_cloud_des.Codegen.Generator.Blocks.Arrivals.{
  CreateState, create_end, create_param, create_line, new_create, parse_create_params,
}

abbrev pub IsCreate : CreateParams → Type 0
IsCreate p = IsName p.entity_name × IsExpr p.interval × IsName p.next_name × IsExpr p.batch

abbrev CreateSoFar : CreateState → Type 0
CreateSoFar st =
    (st.has_entity ≡ true → IsName st.params.entity_name)
    × (st.has_interval ≡ true → IsExpr st.params.interval)
    × (st.has_next ≡ true → IsName st.params.next_name)
    × IsExpr st.params.batch

create_end-Gives :
    (st : CreateState) → CreateSoFar st → Gives (RoundOf CreateSoFar IsCreate) (create_end st)
unfolding create_end
create_end-Gives st (entity, interval, next, batch) n s le =
    Ensures-bind (closing-Gives n s le) λ _ t _ le_t.
      Ensures-bind (fail_if-Ensures n t (not st.has_entity) incorrect_format le_t) λ _ u e le_u.
        Ensures-bind (fail_if-Ensures n u (not st.has_interval) incorrect_format le_u) λ _ v i le_v.
          Ensures-bind (fail_if-Ensures n v (not st.has_next) incorrect_format le_v) λ _ x h le_x.
            holds
              (
                entity (not-eq_false st.has_entity e),
                interval (not-eq_false st.has_interval i),
                next (not-eq_false st.has_next h),
                batch,
              )
              le_x

module _ (st : CreateState) (n : Bound) (s : LineScanner) where
  create_param-Ensures :
      (w : Bytes)
      → CreateSoFar st
      → Fits n s
      → Ensures n (RoundOf CreateSoFar IsCreate) (create_param st w s)
  unfolding create_param
  create_param-Ensures w (entity, interval, next, batch) le =
      Ensures-branch (is_text w "entity") _ _
        (λ _.
          parse_unique_param-Gives IsName CreateSoFar IsCreate read_required_name
            read_required_name-Gives
            (λ v. record st { params = record st.params { entity_name = v }; has_entity = true })
            (λ v p. ((λ _. p), interval, next, batch)) st.has_entity n s le)
        λ _.
          Ensures-branch (is_text w "interval") _ _
            (λ _.
              parse_unique_param-Gives IsExpr CreateSoFar IsCreate read_required_expr
                read_required_expr-Gives
                (λ v. record st { params = record st.params { interval = v }; has_interval = true })
                (λ v p. (entity, (λ _. p), next, batch)) st.has_interval n s le)
            λ _.
              Ensures-branch (is_text w "next") _ _
                (λ _.
                  parse_unique_param-Gives IsName CreateSoFar IsCreate read_required_name
                    read_required_name-Gives
                    (λ v. record st {
                      params = record st.params { next_name = v };
                      has_next = true;
                    })
                    (λ v p. (entity, interval, (λ _. p), batch)) st.has_next n s le)
                λ _.
                  Ensures-branch (is_text w "immediately") _ _
                    (λ _.
                      parse_unique_param-Gives Anything CreateSoFar IsCreate read_required_bool
                        read_required_bool-Gives
                        (λ v. record st {
                          params = record st.params { immediately = v };
                          has_immediately = true;
                        })
                        (λ v p. (entity, interval, next, batch)) st.has_immediately n s le)
                    λ _.
                      Ensures-branch (is_text w "batch") _ _
                        (λ _.
                          parse_unique_param-Gives IsExpr CreateSoFar IsCreate read_required_expr
                            read_required_expr-Gives
                            (λ v. record st {
                              params = record st.params { batch = v };
                              has_batch = true;
                            })
                            (λ v p. (entity, interval, next, p)) st.has_batch n s le)
                        λ _.
                          Ensures-branch (is_text w "blocking_policy") _ _
                            (λ _.
                              parse_unique_param-Gives Anything CreateSoFar IsCreate
                                read_blocking_policy read_blocking_policy-Gives
                                (λ v. record st {
                                  params = record st.params { blocking_policy = v };
                                  has_blocking_policy = true;
                                })
                                (λ v p. (entity, interval, next, batch)) st.has_blocking_policy n s
                                le)
                            λ _. failed

create_line-Ensures :
    (st : CreateState) (w : Bytes) (n : Bound) (s : LineScanner)
    → CreateSoFar st
    → Fits n s
    → Ensures n (RoundOf CreateSoFar IsCreate) (create_line st w s)
unfolding create_line
create_line-Ensures st w n s i le =
    Ensures-branch (is_text w "}") _ _ (λ _. create_end-Gives st i n s le)
      (λ _. create_param-Ensures st n s w i le)

pub parse_create_params-Gives : Gives IsCreate parse_create_params
unfolding parse_create_params
parse_create_params-Gives n s le =
    each_line-Ensures n.simple CreateSoFar IsCreate create_line
      (λ st w k. create_line-Ensures st w (bound k n.simple)) n.size new_create s
      ((λ h. cc), (λ h. cc), (λ h. cc), omega arith) le
