-- ===== src/Codegen/Generator/Validate/Blocks.antt =====
-- The blocks and resources that ValidateAndLink of codegen/generator/validate.go has linked.
use go_cloud_des.Prelude.{
  ℕ, zero, suc, ◌≡◌, ◌<◌, inl, inr, refl, ap, not, ◌==◌, nat_eq, eq_iff, Option, none, some, List,
  [], ◌∷◌, length, All, Bool-cases, Option-cases, subst,
}
use go_cloud_des.Dict
use go_cloud_des.Dict.{Dict}
use go_cloud_des.Codegen.Slices.{get_elem?}
use go_cloud_des.Codegen.Generator.Text.{Bytes, bytes_eq}
use go_cloud_des.Codegen.Generator.Model.{
  ResourceDesc, BranchCase, BranchParams, BlockParams, create, queue, delay, seize, release, assign,
  branch, terminate, BlockDesc, Model,
}
use go_cloud_des.Codegen.Generator.Parsed.{unknown_reference}
use go_cloud_des.Codegen.Generator.Names.Sound.{not-eq_false}
use go_cloud_des.Codegen.Generator.Sections.Section.{Indexed, get-lt}
use go_cloud_des.Codegen.Generator.Validate.{
  link_blocks, seized_by, is_seize_of, link_seizes, link_resources,
}
use go_cloud_des.Codegen.Generator.Validate.Search.{LinksIn}
use go_cloud_des.Codegen.Generator.Validate.Reachable.{passes_to, case_links, IsPassable}
use go_cloud_des.Codegen.Generator.Validate.Rules.{
  Allows, holds, rejected, Allows-bind, Allows-weaken, reject_if-Allows, followed-Allows,
}
use go_cloud_des.Codegen.Generator.Validate.Links.{
  PointsTo, PointsIf, IsLinkedCase, IsLinked, LinkedFrom, link_params-Allows, require_block-Allows,
  IsUnset,
}

-- The blocks after linking: each has its name and text, and is linked.
abbrev pub LinkedAs : Model → List BlockDesc → List BlockDesc → Type 0
LinkedAs m [] [] = Unit {0}
LinkedAs m [] (b ∷ bs) = ⊥
LinkedAs m (a ∷ before) [] = ⊥
LinkedAs m (a ∷ before) (b ∷ bs) =
    (b.name ≡ a.name) × LinkedFrom m b.name a.params b.params × LinkedAs m before bs

pub LinkedAs-length :
    (m : Model) (before bs : List BlockDesc) → LinkedAs m before bs → length bs ≡ length before
LinkedAs-length m [] [] l = refl
LinkedAs-length m [] (b ∷ bs) l = absurd l
LinkedAs-length m (a ∷ before) [] l = absurd l
LinkedAs-length m (a ∷ before) (b ∷ bs) l = ap suc (LinkedAs-length m before bs l.2)

pub LinkedAs-get :
    (m : Model) (before bs : List BlockDesc) (i : ℕ) (b : BlockDesc)
    → LinkedAs m before bs
    → get_elem? bs i ≡ some b
    → IsLinked m b.name b.params
unfolding get_elem?
LinkedAs-get m before [] i b l h = cc
LinkedAs-get m [] (c ∷ bs) i b l h = absurd l
LinkedAs-get m (a ∷ before) (c ∷ bs) zero b l h =
    let q : c ≡ b = cc in subst (λ x. IsLinked m x.name x.params) q l.1.0
LinkedAs-get m (a ∷ before) (c ∷ bs) (suc i) b l h = LinkedAs-get m before bs i b l.2 h

-- Pointers to the SEIZE blocks with these names, each of this resource.
abbrev pub SeizesAt : Model → Bytes → List Bytes → List ℕ → Type 0
SeizesAt m resource [] [] = Unit {0}
SeizesAt m resource [] (i ∷ seizes) = ⊥
SeizesAt m resource (name ∷ names) [] = ⊥
SeizesAt m resource (name ∷ names) (i ∷ seizes) =
    (Dict.get m.block_by_name name ≡ some i)
    × ((b : BlockDesc) × (get_elem? m.blocks i ≡ some b) × (seized_by m b ≡ some resource))
    × SeizesAt m resource names seizes

abbrev pub SeizedAs : Model → List ResourceDesc → List ResourceDesc → Type 0
SeizedAs m [] [] = Unit {0}
SeizedAs m [] (r ∷ rs) = ⊥
SeizedAs m (a ∷ before) [] = ⊥
SeizedAs m (a ∷ before) (r ∷ rs) =
    (record r { seizes = [] } ≡ record a { seizes = [] })
    × SeizesAt m r.name r.seize_names r.seizes
    × SeizedAs m before rs

module _ (m : Model) (blocks_at : Indexed (λ b. b.name) m.blocks m.block_by_name)
    (entities_at : Indexed (λ e. e.name) m.entities m.entity_by_name)
    (resources_at : Indexed (λ r. r.name) m.resources m.resource_by_name) where
  pub link_blocks-Allows :
      (blocks : List BlockDesc)
      → All (λ (b : BlockDesc). IsUnset b.params) blocks
      → Allows (LinkedAs m blocks) (link_blocks m blocks)
  unfolding link_blocks
  link_blocks-Allows [] unset = holds tt
  link_blocks-Allows (block ∷ blocks) (first, unset) =
      Allows-bind
        (link_params-Allows m blocks_at entities_at resources_at block.name block.params first)
        λ params linked.
          Allows-bind (link_blocks-Allows blocks unset) λ rest others. holds (refl, linked, others)

  is_seize_of-Allows :
      (resource : Bytes) (named : Option Bytes)
      → Allows (λ (_ : Unit {0}). named ≡ some resource) (is_seize_of m resource named)
  is_seize_of-Allows resource none = rejected
  is_seize_of-Allows resource (some named) =
      Allows-weaken (reject_if-Allows (not (named == resource)) unknown_reference)
        (λ _ h. ap some ((eq_iff named resource).0 (not-eq_false (named == resource) h)))

  link_seizes-Allows :
      (resource : Bytes) (names : List Bytes)
      → Allows (SeizesAt m resource names) (link_seizes m resource names)
  unfolding link_seizes
  link_seizes-Allows resource [] = holds tt
  link_seizes-Allows resource (name ∷ names) =
      Allows-bind (require_block-Allows m blocks_at entities_at resources_at name) λ i at.
        let (found, here, _) = blocks_at.entry name i at in
        Allows-bind (followed-Allows (get_elem? m.blocks i) found here) λ block at_i.
          Allows-bind (is_seize_of-Allows resource (seized_by m block)) λ _ of_resource.
            Allows-bind (link_seizes-Allows resource names)
              λ rest seizes. holds (at, (block, at_i, of_resource), seizes)

  pub link_resources-Allows :
      (resources : List ResourceDesc) → Allows (SeizedAs m resources) (link_resources m resources)
  unfolding link_resources
  link_resources-Allows [] = holds tt
  link_resources-Allows (r ∷ resources) =
      Allows-bind (link_seizes-Allows r.name r.seize_names) λ seizes at.
        Allows-bind (link_resources-Allows resources) λ rest others. holds (refl, at, others)

  -- A pointer to a name of the model is in range.
  pub points-lt :
      (name : Bytes) (i : ℕ) → Dict.get m.block_by_name name ≡ some i → i < length m.blocks
  points-lt name i at =
      let (b, here, _) = blocks_at.entry name i at in get-lt (λ b. b.name) m.blocks i b here

  PointsTo-LinksIn :
      (name : Bytes) (link : Option ℕ) (links : List (Option ℕ))
      → PointsTo m.block_by_name name link
      → LinksIn (length m.blocks) links
      → LinksIn (length m.blocks) (link ∷ links)
  PointsTo-LinksIn name none links (i, e, at) rest = cc
  PointsTo-LinksIn name (some k) links (i, e, at) rest =
      (subst (λ j. j < length m.blocks) (cc) (points-lt name i at), rest)

  case_links-LinksIn :
      (cases : List BranchCase) (p : BranchParams)
      → All (IsLinkedCase m) cases
      → PointsIf m.block_by_name p.has_else p.else_name p.else_next
      → LinksIn (length m.blocks) (case_links cases p.has_else p.else_next)
  case_links-LinksIn [] p linked at = elim (Bool-cases p.has_else) [
    | inl e ↦ rw e (PointsTo-LinksIn p.else_name p.else_next [] (rw e at at) tt)
    | inr e ↦ rw e tt
  ]
  case_links-LinksIn (c ∷ cases) p (first, linked) at =
      PointsTo-LinksIn c.next_name c.next _ first (case_links-LinksIn cases p linked at)

  IsLinked-LinksIn :
      (name : Bytes) (params : BlockParams)
      → IsLinked m name params
      → LinksIn (length m.blocks) (passes_to params)
  IsLinked-LinksIn name (assign p) (next, sets) = PointsTo-LinksIn p.next_name p.next [] next tt
  IsLinked-LinksIn name (branch p) (linked, at) = case_links-LinksIn p.cases p linked at
  IsLinked-LinksIn name (create p) l = tt
  IsLinked-LinksIn name (queue p) l = tt
  IsLinked-LinksIn name (delay p) l = tt
  IsLinked-LinksIn name (seize p) l = tt
  IsLinked-LinksIn name (release p) l = tt
  IsLinked-LinksIn name terminate l = tt

  pub linked-IsPassable : (bs : List BlockDesc) → LinkedAs m m.blocks bs → IsPassable bs
  linked-IsPassable bs l i = elim (Option-cases (get_elem? bs i)) [
    | inl e ↦ rw e tt
    | inr (b, e) ↦
        rw (e, LinkedAs-length m m.blocks bs l)
          (IsLinked-LinksIn b.name b.params (LinkedAs-get m m.blocks bs i b l e))
  ]
