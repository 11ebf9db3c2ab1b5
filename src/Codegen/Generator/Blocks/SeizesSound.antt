-- ===== src/Codegen/Generator/Blocks/SeizesSound.antt =====
-- What parseSeizeParams and parseReleaseParams of codegen/generator/parse_block.go return.
use go_cloud_des.Prelude.{◌≡◌, true, not, nat_eq, [], ◌∷◌, ◌++◌, All}
use go_cloud_des.Codegen.Generator.Text.{Bytes, bytes_eq}
use go_cloud_des.Codegen.Generator.Scanner.{LineScanner}
use go_cloud_des.Codegen.Generator.Parsed.{is_text, incorrect_format}
use go_cloud_des.Codegen.Generator.Parsed.Rules.{
  Ensures, holds, failed, Ensures-bind, Ensures-branch, fail_if-Ensures, RoundOf, each_line-Ensures,
  Bound, Fits, bound,
}
use go_cloud_des.Codegen.Generator.Names.Sound.{IsName, not-eq_false}
use go_cloud_des.Codegen.Generator.Sections.Section.{All-append}
use go_cloud_des.Codegen.Generator.Model.{SeizeParams, ReleaseParams}
use go_cloud_des.Codegen.Generator.Blocks.Reading.{read_required_name}
use go_cloud_des.Codegen.Generator.Blocks.ReadingSound.{
  Gives, read_required_name-Gives, closing-Gives, parse_unique_param-Gives,
  parse_repeated_param-Gives,
}
use go_cloud_des.Codegen.Generator.Blocks.Resources.{
  SeizeState, seize_end, seize_param, seize_line, new_seize, parse_seize_params, ReleaseState,
  release_end, release_param, release_line, new_release, parse_release_params,
}

abbrev pub IsSeize : SeizeParams → Type 0
IsSeize p = IsName p.resource_name × IsName p.next_name × All IsName p.wait_queue_names

abbrev SeizeSoFar : SeizeState → Type 0
SeizeSoFar st =
    (st.has_resource ≡ true → IsName st.params.resource_name)
    × (st.has_next ≡ true → IsName st.params.next_name)
    × All IsName st.params.wait_queue_names

seize_end-Gives :
    (st : SeizeState) → SeizeSoFar st → Gives (RoundOf SeizeSoFar IsSeize) (seize_end st)
unfolding seize_end
seize_end-Gives st (resource, next, queues) n s le =
    Ensures-bind (closing-Gives n s le) λ _ t _ le_t.
      Ensures-bind (fail_if-Ensures n t (not st.has_resource) incorrect_format le_t) λ _ u h le_u.
        Ensures-bind (fail_if-Ensures n u (not st.has_next) incorrect_format le_u) λ _ v d le_v.
          holds
            (resource (not-eq_false st.has_resource h), next (not-eq_false st.has_next d), queues)
            le_v

module _ (st : SeizeState) (n : Bound) (s : LineScanner) where
  seize_param-Ensures :
      (w : Bytes)
      → SeizeSoFar st
      → Fits n s
      → Ensures n (RoundOf SeizeSoFar IsSeize) (seize_param st w s)
  unfolding seize_param
  seize_param-Ensures w (resource, next, queues) le =
      Ensures-branch (is_text w "resource") _ _
        (λ _.
          parse_unique_param-Gives IsName SeizeSoFar IsSeize read_required_name
            read_required_name-Gives
            (λ v. record st {
              params = record st.params { resource_name = v };
              has_resource = true;
            })
            (λ v p. ((λ _. p), next, queues)) st.has_resource n s le)
        λ _.
          Ensures-branch (is_text w "next") _ _
            (λ _.
              parse_unique_param-Gives IsName SeizeSoFar IsSeize read_required_name
                read_required_name-Gives
                (λ v. record st { params = record st.params { next_name = v }; has_next = true })
                (λ v p. (resource, (λ _. p), queues)) st.has_next n s le)
            λ _.
              Ensures-branch (is_text w "wait_queue") _ _
                (λ _.
                  parse_repeated_param-Gives IsName SeizeSoFar IsSeize read_required_name
                    read_required_name-Gives
                    (λ v. record st {
                      params = record st.params {
                        wait_queue_names = st.params.wait_queue_names ++ v ∷ [];
                      };
                    })
                    (λ v p.
                      (resource, next, All-append IsName st.params.wait_queue_names v queues p))
                    n s le)
                λ _. failed

seize_line-Ensures :
    (st : SeizeState) (w : Bytes) (n : Bound) (s : LineScanner)
    → SeizeSoFar st
    → Fits n s
    → Ensures n (RoundOf SeizeSoFar IsSeize) (seize_line st w s)
unfolding seize_line
seize_line-Ensures st w n s i le =
    Ensures-branch (is_text w "}") _ _ (λ _. seize_end-Gives st i n s le)
      (λ _. seize_param-Ensures st n s w i le)

pub parse_seize_params-Gives : Gives IsSeize parse_seize_params
unfolding parse_seize_params
parse_seize_params-Gives n s le =
    each_line-Ensures n.simple SeizeSoFar IsSeize seize_line
      (λ st w k. seize_line-Ensures st w (bound k n.simple)) n.size new_seize s
      ((λ h. cc), (λ h. cc), tt) le

abbrev pub IsRelease : ReleaseParams → Type 0
IsRelease p = IsName p.resource_name × IsName p.next_name

abbrev ReleaseSoFar : ReleaseState → Type 0
ReleaseSoFar st =
    (st.has_resource ≡ true → IsName st.params.resource_name)
    × (st.has_next ≡ true → IsName st.params.next_name)

release_end-Gives :
    (st : ReleaseState) → ReleaseSoFar st → Gives (RoundOf ReleaseSoFar IsRelease) (release_end st)
unfolding release_end
release_end-Gives st (resource, next) n s le = Ensures-bind (closing-Gives n s le) λ _ t _ le_t.
    Ensures-bind (fail_if-Ensures n t (not st.has_resource) incorrect_format le_t) λ _ u h le_u.
      Ensures-bind (fail_if-Ensures n u (not st.has_next) incorrect_format le_u) λ _ v d le_v.
        holds (resource (not-eq_false st.has_resource h), next (not-eq_false st.has_next d)) le_v

module _ (st : ReleaseState) (n : Bound) (s : LineScanner) where
  release_param-Ensures :
      (w : Bytes)
      → ReleaseSoFar st
      → Fits n s
      → Ensures n (RoundOf ReleaseSoFar IsRelease) (release_param st w s)
  unfolding release_param
  release_param-Ensures w (resource, next) le =
      Ensures-branch (is_text w "resource") _ _
        (λ _.
          parse_unique_param-Gives IsName ReleaseSoFar IsRelease read_required_name
            read_required_name-Gives
            (λ v. record st {
              params = record st.params { resource_name = v };
              has_resource = true;
            })
            (λ v p. ((λ _. p), next)) st.has_resource n s le)
        λ _.
          Ensures-branch (is_text w "next") _ _
            (λ _.
              parse_unique_param-Gives IsName ReleaseSoFar IsRelease read_required_name
                read_required_name-Gives
                (λ v. record st { params = record st.params { next_name = v }; has_next = true })
                (λ v p. (resource, (λ _. p))) st.has_next n s le)
            λ _. failed

release_line-Ensures :
    (st : ReleaseState) (w : Bytes) (n : Bound) (s : LineScanner)
    → ReleaseSoFar st
    → Fits n s
    → Ensures n (RoundOf ReleaseSoFar IsRelease) (release_line st w s)
unfolding release_line
release_line-Ensures st w n s i le =
    Ensures-branch (is_text w "}") _ _ (λ _. release_end-Gives st i n s le)
      (λ _. release_param-Ensures st n s w i le)

pub parse_release_params-Gives : Gives IsRelease parse_release_params
unfolding parse_release_params
parse_release_params-Gives n s le =
    each_line-Ensures n.simple ReleaseSoFar IsRelease release_line
      (λ st w k. release_line-Ensures st w (bound k n.simple)) n.size new_release s
      ((λ h. cc), (λ h. cc)) le
