-- ===== src/Codegen/Generator/Sections/Section.antt =====
-- parseSection of codegen/generator/parser_helper.go, whatever it parses: the objects and their places by
-- name agree, and no name is declared twice.
use go_cloud_des.Prelude.{
  ℕ, zero, suc, ◌+◌, ◌≡◌, ◌<◌, ◌⊎◌, ◌∙◌, inl, inr, refl, sym, ap, arith, true, false, ◌==◌, nat_eq,
  eq_iff, ne_of_beq, some, List, [], ◌∷◌, ◌++◌, length, length-append, Bool-cases, All,
}
use go_cloud_des.Dict
use go_cloud_des.Dict.{Dict}
use go_cloud_des.Codegen.Slices.{get_elem?, get-append, get-append_last}
use go_cloud_des.Codegen.Generator.Text.{Bytes, bytes_eq}
use go_cloud_des.Codegen.Generator.Model.{Model}
use go_cloud_des.Codegen.Generator.Scanner.{LineScanner}
use go_cloud_des.Codegen.Generator.Parsed.{Action}
use go_cloud_des.Codegen.Generator.Parsed.Rules.{Ensures, holds, Ensures-bind, Bound, Fits}
use go_cloud_des.Codegen.Generator.Names.{is_declared}
use go_cloud_des.Codegen.Generator.Names.Sound.{
  expect_closing_brace-Ensures, register_global_name-Ensures,
}
use go_cloud_des.Codegen.Generator.Sections.{parse_section}

module _ {ℓ} {T : Type ℓ} (get_name : T → Bytes) where
  -- A map by name has the place of each object, and nothing else.
  pub record Indexed (objects : List T) (by_name : Dict Bytes ℕ) : Type ℓ where
    pub place :
        (i : ℕ) (x : T) → get_elem? objects i ≡ some x → Dict.get by_name (get_name x) ≡ some i
    pub entry :
        (name : Bytes) (i : ℕ)
        → Dict.get by_name name ≡ some i
        → (x : T) × (get_elem? objects i ≡ some x) × (get_name x ≡ name)

  pub Indexed-empty : Indexed [] Dict.empty
  unfolding get_elem?
  Indexed-empty = record {
    place = λ i x h. cc;
    entry = λ name i h. cc (Dict.get-empty {V = ℕ} name);
  }

  pub get-lt :
      (objects : List T) (i : ℕ) (x : T) → get_elem? objects i ≡ some x → i < length objects
  unfolding get_elem?
  get-lt [] i x h = cc
  get-lt (y ∷ objects) zero x h = omega arith
  get-lt (y ∷ objects) (suc i) x h = omega (arith, get-lt objects i x h)

  -- An index is in range, or the last.
  get-append_cases :
      (objects : List T) (obj : T) (i : ℕ) (x : T)
      → get_elem? (objects ++ obj ∷ []) i ≡ some x
      → (get_elem? objects i ≡ some x) ⊎ ((i ≡ length objects) × (x ≡ obj))
  unfolding get_elem?
  get-append_cases [] obj zero x h = inr (refl, cc)
  get-append_cases [] obj (suc i) x h = cc
  get-append_cases (y ∷ objects) obj zero x h = inl h
  get-append_cases (y ∷ objects) obj (suc i) x h = elim (get-append_cases objects obj i x h) [
    | inl e ↦ inl e
    | inr (e, q) ↦ inr (ap suc e, q)
  ]

  pub Indexed-append :
      (objects : List T) (by_name : Dict Bytes ℕ) (obj : T)
      → Indexed objects by_name
      → Dict.has by_name (get_name obj) ≡ false
      → Indexed (objects ++ obj ∷ []) (Dict.put by_name (get_name obj) (length objects))
  Indexed-append objects by_name obj h new = record {
    place = λ i x at. elim (get-append_cases objects obj i x at) [
      | inl e ↦
          Dict.get-put_ne by_name (get_name obj) (get_name x) (length objects)
            (λ q. ground (arith, new, h.place i x e, ap (Dict.get by_name) q))
          ∙ h.place i x e
      | inr (e, q) ↦ rw (e, q) (Dict.get-put_self by_name (get_name obj) (length objects))
    ];
    entry = λ name i at. elim (Bool-cases (get_name obj == name)) [
      | inl e ↦ (
        obj,
        rw (last name i e at) (get-append_last objects obj),
        (eq_iff (get_name obj) name).0 e,
      )
      | inr e ↦
          let (x, found, named) = h.entry name i (
            sym (
              Dict.get-put_ne by_name (get_name obj) name (length objects)
                (ne_of_beq (get_name obj) name e))
            ∙ at) in
          (x, get-append objects obj i (get-lt objects i x found) ∙ found, named)
    ];
  }
    where
      last :
          (name : Bytes) (i : ℕ)
          → (get_name obj == name) ≡ true
          → Dict.get (Dict.put by_name (get_name obj) (length objects)) name ≡ some i
          → i ≡ length objects
      last name i e at =
          ground (arith, Dict.get-put by_name (get_name obj) name (length objects), e, at)

pub All-append {ℓ κ} :
    {T : Type ℓ} (P : T → Type κ) (xs : List T) (x : T) → All P xs → P x → All P (xs ++ x ∷ [])
All-append P [] x all p = (p, tt)
All-append P (y ∷ xs) x (q, all) p = (q, All-append P xs x all p)

-- What a section leaves: objects with `P`, their places by name, and an invariant of the map.
pub record SectionOf {ℓ} {T : Type ℓ} (get_name : T → Bytes) (P : T → Type 0)
    (I : Dict Bytes ℕ → Type 0) (count : ℕ) (r : List T × Dict Bytes ℕ) : Type ℓ where
  pub all : All P r.0
  pub indexed : Indexed get_name r.0 r.1
  pub names : I r.1
  pub size : length r.0 ≡ count

module _ {ℓ} {T : Type ℓ} (model : Dict Bytes ℕ → Model) (parse : Action T) (get_name : T → Bytes)
    (P : T → Type 0) (I : Dict Bytes ℕ → Type 0) (n : Bound)
    (parses : (s : LineScanner) → Fits n s → Ensures n P (parse s))
    (declares : (d : Dict Bytes ℕ) (name : Bytes) (i : ℕ)
      → I d
      → is_declared (model d) name ≡ false
      → I (Dict.put d name i))
    (seen : (d : Dict Bytes ℕ) (name : Bytes)
      → is_declared (model d) name ≡ false
      → Dict.has d name ≡ false) where
  pub parse_section-Ensures :
      (count total : ℕ) (objects : List T) (by_name : Dict Bytes ℕ) (s : LineScanner)
      → All P objects
      → Indexed get_name objects by_name
      → I by_name
      → length objects + count ≡ total
      → Fits n s
      → Ensures n
          (SectionOf get_name P I total)
          (parse_section model parse get_name count objects by_name s)
  unfolding parse_section
  parse_section-Ensures zero total objects by_name s all indexed names size le =
      Ensures-bind (expect_closing_brace-Ensures n s le) λ _ t _ le_t.
        holds (record { all = all; indexed = indexed; names = names; size = omega (arith, size) })
          le_t
  parse_section-Ensures (suc count) total objects by_name s all indexed names size le =
      Ensures-bind (parses s le) λ obj t p le_t.
        Ensures-bind (register_global_name-Ensures n t le_t (model by_name) (get_name obj))
          λ _ u new le_u.
            parse_section-Ensures count total (objects ++ obj ∷ [])
              (Dict.put by_name (get_name obj) (length objects)) u (All-append P objects obj all p)
              (Indexed-append get_name objects by_name obj indexed
                (seen by_name (get_name obj) new))
              (declares by_name (get_name obj) (length objects) names new)
              (omega (arith, size, length-append objects (obj ∷ []))) le_u
