-- ===== src/Codegen/Generator/Generate.antt =====
-- codegen/generator/generator.go as far as the model that is emitted. The emitter is not called, and the
-- SHA-256 of HashDSL is an argument.
pub mod Hash
pub mod Built
use go_cloud_des.Prelude.{
  ℕ, Bool, true, false, not, ◌||◌, ◌==◌, nat_eq, List, [], ◌∷◌, ◌++◌, if◌then◌else◌, length,
}
use go_cloud_des.Codegen.Generator.Text.{Bytes}
use go_cloud_des.Codegen.Generator.Model.{Model}
use go_cloud_des.Codegen.Generator.Parsed.{Reason, Parsed, ok, err, panic, unfinished}
use go_cloud_des.Codegen.Generator.Parser.{is_hex, parse}
use go_cloud_des.Codegen.Generator.Validate.{Checked, valid, invalid, crashed, validate_and_link}

-- A model, or an error of Parse with its line, of ValidateAndLink, or of the hash.
pub data Outcome : Type 0 where
  model_of : Model → Outcome
  parse_error : ℕ → Reason → Outcome
  model_error : Reason → Outcome
  bad_hash : Outcome
  panicked : Outcome

unfoldable pub linked : Checked Model → Outcome
linked (valid model) = model_of model
linked (invalid why) = model_error why
linked crashed = panicked

unfoldable pub parsed : Parsed Model → Outcome
unfolding linked
parsed (ok model s) = linked (validate_and_link model)
parsed (err line why) = parse_error line why
parsed panic = panicked
parsed unfinished = panicked

unfoldable pub append_hash_line : Bytes → Bytes → Bytes
append_hash_line hash text = hash ++ b'\n' ∷ text

module _ (max_cap : ℕ) (parses_float : Bytes → Bool) where
  -- Generate, up to the call of emit.
  unfoldable pub generate : Bytes → Outcome
  unfolding parsed
  generate text = parsed (parse max_cap parses_float text)

  unfoldable pub generate_with_hash : Bytes → Bytes → Outcome
  unfolding generate append_hash_line
  generate_with_hash hash text =
      if not (length hash == 64)
      then bad_hash
      else if not (is_hex hash)
      then bad_hash
      else generate (append_hash_line hash text)

  unfoldable pub generate_auto_hash : (Bytes → Bytes) → Bytes → Outcome
  unfolding generate_with_hash
  generate_auto_hash hash_dsl text = generate_with_hash (hash_dsl text) text
