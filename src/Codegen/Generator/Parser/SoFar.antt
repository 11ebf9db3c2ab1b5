-- ===== src/Codegen/Generator/Parser/SoFar.antt =====
-- What the sections of codegen/generator/parser.go add to a model.
use go_cloud_des.Prelude.{
  ℕ, ◌+◌, ◌≡◌, ◌≤◌, inl, inr, refl, sym, arith, Bool, true, false, ◌==◌, nat_eq, eq_iff, length,
  All, Bool-cases, ℤ,
}
use go_cloud_des.Dict
use go_cloud_des.Dict.{Dict}
use go_cloud_des.Codegen.Slices.{one}
use go_cloud_des.Codegen.Generator.Text.{Bytes, bytes_eq}
use go_cloud_des.Codegen.Generator.Model.{Model}
use go_cloud_des.Codegen.Generator.Parsed.Rules.{holds, Ensures-bind, Bound, Fits, Ensures}
use go_cloud_des.Codegen.Generator.Sections.{parse_entity, parse_var, parse_resource}
use go_cloud_des.Codegen.Generator.Sections.Section.{Indexed, parse_section-Ensures}
use go_cloud_des.Codegen.Generator.Sections.Sound.{
  IsEntity, IsVar, IsResource, parse_entity-Ensures, parse_var-Ensures, parse_resource-Ensures,
}
use go_cloud_des.Codegen.Generator.Blocks.{parse_block}
use go_cloud_des.Codegen.Generator.Blocks.Sound.{IsBlock, parse_block-Ensures}
use go_cloud_des.Codegen.Generator.Parser.{
  is_hex, rounds_of, entity_section, var_section, resource_section, block_section,
}
use go_cloud_des.Codegen.Generator.Scanner.{LineScanner}

-- No name is declared in two sections.
abbrev pub Apart : Model → Type 0
Apart m =
    (name : Bytes)
    → one (Dict.has m.entity_by_name name)
        + one (Dict.has m.var_by_name name)
        + one (Dict.has m.resource_by_name name)
        + one (Dict.has m.block_by_name name)
      ≤ 1

-- What holds of the model from the hash on.
pub record IsSoFar (simple : Bool) (parses_float : Bytes → Bool) (m : Model) : Type 0 where
  pub hash_size : length m.hash ≡ 64
  pub hash_hex : is_hex m.hash ≡ true
  pub entities : All (IsEntity parses_float) m.entities
  pub vars : All (IsVar parses_float) m.vars
  pub resources : All IsResource m.resources
  pub blocks : All (IsBlock simple) m.blocks
  pub entity_places : Indexed (λ e. e.name) m.entities m.entity_by_name
  pub var_places : Indexed (λ v. v.name) m.vars m.var_by_name
  pub resource_places : Indexed (λ r. r.name) m.resources m.resource_by_name
  pub block_places : Indexed (λ b. b.name) m.blocks m.block_by_name
  pub apart : Apart m

-- A name that no section has may be added to one of them.
with_name :
    (a b c : Bytes → Bool) (d : Dict Bytes ℕ) (name : Bytes) (i : ℕ)
    → ((k : Bytes) → one (a k) + one (b k) + one (c k) + one (Dict.has d k) ≤ 1)
    → a name ≡ false
    → b name ≡ false
    → c name ≡ false
    → (k : Bytes) → one (a k) + one (b k) + one (c k) + one (Dict.has (Dict.put d name i) k) ≤ 1
with_name a b c d name i apart ha hb hc k = elim (Bool-cases (name == k)) [
  | inl e ↦ let q : k ≡ name = sym ((eq_iff name k).0 e) in rw q (ground (arith, ha, hb, hc))
  | inr e ↦ rw (Dict.has-put d name k i, e) (apart k)
]

module _ (n : Bound) (parses_float : Bytes → Bool) (m : Model) (count : ℤ)
    (i : IsSoFar n.simple parses_float m) where
  pub entity_section-Ensures :
      (s : LineScanner)
      → Fits n s
      → Ensures n
          (λ (r : Model).
            IsSoFar n.simple parses_float r
            × (length r.entities ≡ length m.entities + rounds_of count))
          (entity_section parses_float m count s)
  unfolding entity_section
  entity_section-Ensures s le =
      Ensures-bind
        (parse_section-Ensures (λ d. record m { entity_by_name = d }) (parse_entity parses_float)
          (λ e. e.name) (IsEntity parses_float) (λ d. Apart (record m { entity_by_name = d })) n
          (parse_entity-Ensures parses_float n)
          (λ d name at apart new k. omega (
            arith,
            with_name (Dict.has m.var_by_name) (Dict.has m.resource_by_name)
                (Dict.has m.block_by_name) d name at (λ key. omega (arith, apart key))
                (ground (arith, new)) (ground (arith, new)) (ground (arith, new)) k,
          ))
          (λ d name new. ground (arith, new)) (rounds_of count)
          (length m.entities + rounds_of count) m.entities m.entity_by_name s i.entities
          i.entity_places i.apart refl le)
        λ made t sec le_t.
          holds
            (
              record {
                hash_size = i.hash_size;
                hash_hex = i.hash_hex;
                entities = sec.all;
                vars = i.vars;
                resources = i.resources;
                blocks = i.blocks;
                entity_places = sec.indexed;
                var_places = i.var_places;
                resource_places = i.resource_places;
                block_places = i.block_places;
                apart = sec.names;
              },
              sec.size,
            )
            le_t

  pub var_section-Ensures :
      (s : LineScanner)
      → Fits n s
      → Ensures n
          (λ (r : Model). IsSoFar n.simple parses_float r × (r.entities ≡ m.entities))
          (var_section parses_float m count s)
  unfolding var_section
  var_section-Ensures s le =
      Ensures-bind
        (parse_section-Ensures (λ d. record m { var_by_name = d }) (parse_var parses_float)
          (λ x. x.name) (IsVar parses_float) (λ d. Apart (record m { var_by_name = d })) n
          (parse_var-Ensures parses_float n)
          (λ d name at apart new k. omega (
            arith,
            with_name (Dict.has m.entity_by_name) (Dict.has m.resource_by_name)
                (Dict.has m.block_by_name) d name at (λ key. omega (arith, apart key))
                (ground (arith, new)) (ground (arith, new)) (ground (arith, new)) k,
          ))
          (λ d name new. ground (arith, new)) (rounds_of count) (length m.vars + rounds_of count)
          m.vars m.var_by_name s i.vars i.var_places i.apart refl le)
        λ made t sec le_t.
          holds
            (
              record {
                hash_size = i.hash_size;
                hash_hex = i.hash_hex;
                entities = i.entities;
                vars = sec.all;
                resources = i.resources;
                blocks = i.blocks;
                entity_places = i.entity_places;
                var_places = sec.indexed;
                resource_places = i.resource_places;
                block_places = i.block_places;
                apart = sec.names;
              },
              refl,
            )
            le_t

  pub resource_section-Ensures :
      (s : LineScanner)
      → Fits n s
      → Ensures n
          (λ (r : Model). IsSoFar n.simple parses_float r × (r.entities ≡ m.entities))
          (resource_section m count s)
  unfolding resource_section
  resource_section-Ensures s le =
      Ensures-bind
        (parse_section-Ensures (λ d. record m { resource_by_name = d }) parse_resource (λ x. x.name)
          IsResource (λ d. Apart (record m { resource_by_name = d })) n (parse_resource-Ensures n)
          (λ d name at apart new k. omega (
            arith,
            with_name (Dict.has m.entity_by_name) (Dict.has m.var_by_name)
                (Dict.has m.block_by_name) d name at (λ key. omega (arith, apart key))
                (ground (arith, new)) (ground (arith, new)) (ground (arith, new)) k,
          ))
          (λ d name new. ground (arith, new)) (rounds_of count)
          (length m.resources + rounds_of count) m.resources m.resource_by_name s i.resources
          i.resource_places i.apart refl le)
        λ made t sec le_t.
          holds
            (
              record {
                hash_size = i.hash_size;
                hash_hex = i.hash_hex;
                entities = i.entities;
                vars = i.vars;
                resources = sec.all;
                blocks = i.blocks;
                entity_places = i.entity_places;
                var_places = i.var_places;
                resource_places = sec.indexed;
                block_places = i.block_places;
                apart = sec.names;
              },
              refl,
            )
            le_t

  pub block_section-Ensures :
      (s : LineScanner)
      → Fits n s
      → Ensures n
          (λ (r : Model).
            IsSoFar n.simple parses_float r
            × (r.entities ≡ m.entities)
            × (length r.blocks ≡ length m.blocks + rounds_of count))
          (block_section m count s)
  unfolding block_section
  block_section-Ensures s le =
      Ensures-bind
        (parse_section-Ensures (λ d. record m { block_by_name = d }) parse_block (λ x. x.name)
          (IsBlock n.simple) (λ d. Apart (record m { block_by_name = d })) n (parse_block-Ensures n)
          (λ d name at apart new k. omega (
            arith,
            with_name (Dict.has m.entity_by_name) (Dict.has m.var_by_name)
                (Dict.has m.resource_by_name) d name at (λ key. omega (arith, apart key))
                (ground (arith, new)) (ground (arith, new)) (ground (arith, new)) k,
          ))
          (λ d name new. ground (arith, new)) (rounds_of count) (length m.blocks + rounds_of count)
          m.blocks m.block_by_name s i.blocks i.block_places i.apart refl le)
        λ made t sec le_t.
          holds
            (
              record {
                hash_size = i.hash_size;
                hash_hex = i.hash_hex;
                entities = i.entities;
                vars = i.vars;
                resources = i.resources;
                blocks = sec.all;
                entity_places = i.entity_places;
                var_places = i.var_places;
                resource_places = i.resource_places;
                block_places = sec.indexed;
                apart = sec.names;
              },
              refl,
              sec.size,
            )
            le_t
