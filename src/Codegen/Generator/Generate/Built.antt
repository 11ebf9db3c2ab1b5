-- ===== src/Codegen/Generator/Generate/Built.antt =====
-- What Generate of codegen/generator/generator.go hands to the emitter.
use go_cloud_des.Prelude.{ℕ, ◌≡◌, refl, Bool, List, [], ◌∷◌, All}
use go_cloud_des.Codegen.Generator.Text.{Bytes}
use go_cloud_des.Codegen.Generator.Scanner.{LineScanner}
use go_cloud_des.Codegen.Generator.Model.{
  Model, BlockParams, create, queue, delay, seize, release, assign, branch, terminate, BlockDesc,
}
use go_cloud_des.Codegen.Generator.Parsed.{Reason, Parsed, ok, err, panic}
use go_cloud_des.Codegen.Generator.Parsed.Rules.{Ensures, failed, crashed, Bound}
use go_cloud_des.Codegen.Generator.Parser.{parse}
use go_cloud_des.Codegen.Generator.Parser.Sound.{IsModel, parse-Ensures, bound_of}
use go_cloud_des.Codegen.Generator.Validate.{Checked, invalid, validate_and_link}
use go_cloud_des.Codegen.Generator.Validate.Rules.{Allows, holds, rejected}
use go_cloud_des.Codegen.Generator.Validate.Sound.{IsLinkedModel, validate_and_link-Allows}
use go_cloud_des.Codegen.Generator.Generate.{
  Outcome, model_of, parse_error, model_error, panicked, linked, parsed, generate,
}
use go_cloud_des.Codegen.Generator.Validate.Links.{IsUnset}
use go_cloud_des.Codegen.Generator.Blocks.Sound.{IsComplete, IsBlock}
use go_cloud_des.Codegen.Generator.Scanner.Simple.{all_simple}

-- An outcome of Generate with a result of Parse: a complete model, linked, an error of the one or the
-- other step, or a panic of the parser.
pub data Built (simple : Bool) (parses_float : Bytes → Bool) (r : Parsed Model)
    : Outcome → Type 0 where
  complete :
      {m l : Model} {s : LineScanner}
      → r ≡ ok m s
      → IsModel simple parses_float m
      → IsLinkedModel m l
      → Built simple parses_float r (model_of l)
  parse_refused :
      {line : ℕ} {why : Reason}
      → r ≡ err line why
      → Built simple parses_float r (parse_error line why)
  model_refused :
      {m : Model} {s : LineScanner} {why : Reason}
      → r ≡ ok m s
      → validate_and_link m ≡ invalid why
      → Built simple parses_float r (model_error why)
  parse_panicked : r ≡ panic → Built simple parses_float r panicked

IsComplete-IsUnset : (simple : Bool) (p : BlockParams) → IsComplete simple p → IsUnset p
IsComplete-IsUnset simple (create p) c = tt
IsComplete-IsUnset simple (queue p) c = c.unset
IsComplete-IsUnset simple (delay p) c = tt
IsComplete-IsUnset simple (seize p) c = tt
IsComplete-IsUnset simple (release p) c = tt
IsComplete-IsUnset simple (assign p) c = tt
IsComplete-IsUnset simple (branch p) c = c.3
IsComplete-IsUnset simple terminate c = tt

-- What Parse returns has no pointer yet.
pub all-IsUnset :
    (simple : Bool) (blocks : List BlockDesc)
    → All (IsBlock simple) blocks
    → All (λ (b : BlockDesc). IsUnset b.params) blocks
all-IsUnset simple [] all = tt
all-IsUnset simple (b ∷ blocks) (first, all) =
    (IsComplete-IsUnset simple b.params first.1, all-IsUnset simple blocks all)

module _ (parses_float : Bytes → Bool) where
  linked-Built :
      (simple : Bool) (m : Model) (s : LineScanner) (c : Checked Model)
      → IsModel simple parses_float m
      → validate_and_link m ≡ c
      → Allows (IsLinkedModel m) c
      → Built simple parses_float (ok m s) (linked c)
  unfolding linked
  linked-Built simple m s c i e (holds {a} l) = complete refl i l
  linked-Built simple m s c i e rejected = model_refused refl e

  parsed-Built :
      (n : Bound) (r : Parsed Model)
      → Ensures n (IsModel n.simple parses_float) r
      → Built n.simple parses_float r (parsed r)
  unfolding parsed
  parsed-Built n r (Ensures.holds {a} {s} i le) =
      linked-Built n.simple a s (validate_and_link a) i refl (
        validate_and_link-Allows a i.is_so_far.block_places i.is_so_far.entity_places
          i.is_so_far.resource_places (all-IsUnset n.simple a.blocks i.is_so_far.blocks))
  parsed-Built n r failed = parse_refused refl
  parsed-Built n r crashed = parse_panicked refl

  -- Generate ends, for every text and every limit of the runtime. It hands to the emitter only a model that
  -- Parse made complete and ValidateAndLink then linked without following a nil pointer, and returns
  -- otherwise the error of Parse or of ValidateAndLink; only Parse may panic.
  pub generate-Built :
      (max_cap : ℕ) (text : Bytes)
      → Built
          (all_simple text)
          parses_float
          (parse max_cap parses_float text)
          (generate max_cap parses_float text)
  unfolding generate
  generate-Built max_cap text =
      parsed-Built (bound_of text) (parse max_cap parses_float text)
        (parse-Ensures parses_float max_cap text)
