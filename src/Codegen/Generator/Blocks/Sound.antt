-- ===== src/Codegen/Generator/Blocks/Sound.antt =====
-- parseBlock of codegen/generator/parse_block.go returns a complete block.
use go_cloud_des.Prelude.{nat_eq, Bool}
use go_cloud_des.Codegen.Generator.Text.{Bytes, bytes_eq}
use go_cloud_des.Codegen.Generator.Parsed.{Action, is_text, or_empty, incorrect_format}
use go_cloud_des.Codegen.Generator.Parsed.Rules.{
  holds, failed, Ensures-bind, Ensures-branch, word-Ensures, need_word-Ensures, Bound, Fits,
  Ensures,
}
use go_cloud_des.Codegen.Generator.Names.Sound.{
  IsName, validate_name-Ensures, expect_opening_brace-Ensures,
}
use go_cloud_des.Codegen.Generator.Model.{
  BlockDesc, BlockParams, create, queue, delay, seize, release, assign, branch, terminate,
}
use go_cloud_des.Codegen.Generator.Sections.Sound.{need_line-Ensures}
use go_cloud_des.Codegen.Generator.Blocks.{parse_params, parse_block, wrapped}
use go_cloud_des.Codegen.Generator.Blocks.ArrivalsSound.{IsCreate, parse_create_params-Gives}
use go_cloud_des.Codegen.Generator.Blocks.QueuesSound.{IsQueue, parse_queue_params-Ensures}
use go_cloud_des.Codegen.Generator.Blocks.ResourcesSound.{
  IsDelay, parse_delay_params-Gives, parse_terminate_params-Gives,
}
use go_cloud_des.Codegen.Generator.Blocks.SeizesSound.{
  IsSeize, IsRelease, parse_seize_params-Gives, parse_release_params-Gives,
}
use go_cloud_des.Codegen.Generator.Blocks.LogicSound.{
  IsAssign, IsBranch, parse_assign_params-Gives, parse_branch_params-Gives,
}
use go_cloud_des.Codegen.Generator.Scanner.{LineScanner}

-- The parameters that a block of each type must have.
abbrev pub IsComplete : Bool → BlockParams → Type 0
IsComplete simple (create p) = IsCreate p
IsComplete simple (queue p) = IsQueue simple p
IsComplete simple (delay p) = IsDelay p
IsComplete simple (seize p) = IsSeize p
IsComplete simple (release p) = IsRelease p
IsComplete simple (assign p) = IsAssign p
IsComplete simple (branch p) = IsBranch p
IsComplete simple terminate = Unit {0}

abbrev pub IsBlock : Bool → BlockDesc → Type 0
IsBlock simple b = IsName b.name × IsComplete simple b.params

wrapped-Ensures {ℓ} :
    {A : Type ℓ} (n : Bound) (P : A → Type 0) (wrap : A → BlockParams) (parse : Action A)
    → ((a : A) → P a → IsComplete n.simple (wrap a))
    → ((s : LineScanner) → Fits n s → Ensures n P (parse s))
    → (s : LineScanner) → Fits n s
    → Ensures n (IsComplete n.simple) (wrapped wrap parse s)
wrapped-Ensures n P wrap parse k gives s le =
    Ensures-bind (gives s le) λ a t p le_t. holds (k a p) le_t

parse_params-Ensures :
    (w : Bytes) (n : Bound) (s : LineScanner)
    → Fits n s
    → Ensures n (IsComplete n.simple) (parse_params w s)
unfolding parse_params
parse_params-Ensures w n s le =
    Ensures-branch (is_text w "CREATE") _ _
      (λ _. wrapped-Ensures n IsCreate create _ (λ p h. h) (parse_create_params-Gives n) s le)
      λ _.
        Ensures-branch (is_text w "QUEUE") _ _
          (λ _.
            wrapped-Ensures n (IsQueue n.simple) queue _ (λ p h. h) (parse_queue_params-Ensures n) s
              le)
          λ _.
            Ensures-branch (is_text w "DELAY") _ _
              (λ _. wrapped-Ensures n IsDelay delay _ (λ p h. h) (parse_delay_params-Gives n) s le)
              λ _.
                Ensures-branch (is_text w "SEIZE") _ _
                  (λ _.
                    wrapped-Ensures n IsSeize seize _ (λ p h. h) (parse_seize_params-Gives n) s le)
                  λ _.
                    Ensures-branch (is_text w "RELEASE") _ _
                      (λ _.
                        wrapped-Ensures n IsRelease release _ (λ p h. h)
                          (parse_release_params-Gives n) s le)
                      λ _.
                        Ensures-branch (is_text w "TERMINATE") _ _
                          (λ _.
                            wrapped-Ensures n (λ (_ : Unit {0}). Unit {0}) (λ _. terminate) _
                              (λ p h. h) (parse_terminate_params-Gives n) s le)
                          λ _.
                            Ensures-branch (is_text w "ASSIGN") _ _
                              (λ _.
                                wrapped-Ensures n IsAssign assign _ (λ p h. h)
                                  (parse_assign_params-Gives n) s le)
                              λ _.
                                Ensures-branch (is_text w "BRANCH") _ _
                                  (λ _.
                                    wrapped-Ensures n IsBranch branch _ (λ p h. h)
                                      (parse_branch_params-Gives n) s le)
                                  λ _. failed

pub parse_block-Ensures :
    (n : Bound) (s : LineScanner) → Fits n s → Ensures n (IsBlock n.simple) (parse_block s)
unfolding parse_block
parse_block-Ensures n s le = Ensures-bind (need_line-Ensures n s le) λ _ t _ le_t.
    Ensures-bind (word-Ensures n t le_t) λ w u _ le_u.
      Ensures-bind (need_word-Ensures n u incorrect_format le_u) λ name_token v _ le_v.
        Ensures-bind (validate_name-Ensures n v le_v name_token) λ name x is_name le_x.
          Ensures-bind (expect_opening_brace-Ensures n x le_x) λ _ y _ le_y.
            Ensures-bind (parse_params-Ensures (or_empty w) n y le_y)
              λ params z complete le_z. holds (is_name, complete) le_z
