-- ===== src/Codegen/Pool/Handles.antt =====
-- The handles of codegen/container/pool.go that are in use.
use go_cloud_des.Prelude.{
  ℕ, suc, ◌+◌, ◌≡◌, ◌≢◌, ◌<◌, ◌∙◌, inl, inr, refl, sym, ap, arith, not, ◌==◌, nat_eq, eq_iff,
  ne_of_beq, ltb, some, List, [], ◌∷◌, ◌++◌, length, take, keep, u32_mod, Bool-cases, length-append,
}
use go_cloud_des.Codegen.Slices.{
  get_elem?, set_elem, occurs, one, length-set_elem, get-set_self, get-set_ne, occurs-append,
  occurs-take, get-append,
}
use go_cloud_des.Codegen.Pool.{Pool, new_pool, alloc, free, get, put}

-- How often a handle is in a list.
abbrev pub copies : ℕ → List ℕ → ℕ
copies i xs = occurs (λ j. j == i) xs

abbrev pub without : ℕ → List ℕ → List ℕ
without idx xs = keep (λ j. not (j == idx)) xs

copies-without_self : (idx : ℕ) (xs : List ℕ) → copies idx (without idx xs) ≡ 0
unfolding occurs
copies-without_self idx [] = refl
copies-without_self idx (x ∷ xs) = elim (Bool-cases (x == idx)) [
  | inl e ↦ rw e (copies-without_self idx xs)
  | inr e ↦ rw e (rw (e, occurs) (copies-without_self idx xs))
]

copies-without_ne : (idx i : ℕ) (xs : List ℕ) → idx ≢ i → copies i (without idx xs) ≡ copies i xs
unfolding occurs
copies-without_ne idx i [] ne = refl
copies-without_ne idx i (x ∷ xs) ne = elim (Bool-cases (x == idx)) [
  | inl e ↦ rw e (ground (arith, copies-without_ne idx i xs ne, (eq_iff x idx).0 e, ne))
  | inr e ↦ rw e (ground (arith, copies-without_ne idx i xs ne))
]

-- What a client does: it frees and writes only handles that it holds, and there are fewer than 2^32
-- entities when it allocates. `live` are the handles it holds.
pub data Reaches {ℓ} {A : Type ℓ} (blank : A) : Pool A → List ℕ → Type ℓ where
  starts : (cap : ℕ) → Reaches blank (new_pool cap) []
  allocates :
      (p q : Pool A) (live : List ℕ) (idx : ℕ)
      → Reaches blank p live
      → length p.entities < u32_mod
      → alloc blank p ≡ some (q, idx)
      → Reaches blank q (idx ∷ live)
  frees :
      (p q : Pool A) (live : List ℕ) (idx : ℕ)
      → Reaches blank p live
      → 0 < copies idx live
      → free blank p idx ≡ some q
      → Reaches blank q (without idx live)
  writes :
      (p q : Pool A) (live : List ℕ) (idx : ℕ) (e : A)
      → Reaches blank p live
      → 0 < copies idx live
      → put p idx e ≡ some q
      → Reaches blank q live

-- Each entity is in use or free, under one handle, and what is free is blank.
pub record Kept {ℓ} {A : Type ℓ} (blank : A) (p : Pool A) (live : List ℕ) : Type ℓ where
  pub counted : (i : ℕ) → copies i live + copies i p.free_list ≡ one (ltb i (length p.entities))
  pub clean : (i : ℕ) → 0 < copies i p.free_list → get p i ≡ some blank

module _ {ℓ} {A : Type ℓ} (blank : A) where
  pub new_pool-Kept : (cap : ℕ) → Kept blank (new_pool cap) []
  unfolding new_pool occurs
  new_pool-Kept cap = record { counted = λ i. ground arith; clean = λ i h. absurd (omega arith) }

  -- A handle that is free or in use is in range.
  pub in_range :
      (p : Pool A) (live : List ℕ) (i : ℕ)
      → Kept blank p live
      → 0 < copies i live + copies i p.free_list
      → i < length p.entities
  in_range p live i kept h = ground (arith, kept.counted i, h)

  pub not_free :
      (p : Pool A) (live : List ℕ) (i : ℕ)
      → Kept blank p live
      → 0 < copies i live
      → copies i p.free_list ≡ 0
  not_free p live i kept h = ground (arith, kept.counted i, h)

  pub new_entity-Kept :
      (p : Pool A) (live : List ℕ)
      → Kept blank p live
      → Kept blank (record p { entities = p.entities ++ blank ∷ [] }) (length p.entities ∷ live)
  unfolding occurs get
  new_entity-Kept p live kept = record {
    counted = λ i. ground (arith, kept.counted i, length-append p.entities (blank ∷ []));
    clean = λ i h.
        get-append p.entities blank i (in_range p live i kept (omega (arith, h))) ∙ kept.clean i h;
  }

  pub reused-Kept :
      (p : Pool A) (live : List ℕ) (n idx : ℕ)
      → length p.free_list ≡ suc n
      → get_elem? p.free_list n ≡ some idx
      → Kept blank p live
      → Kept blank (record p { free_list = take n p.free_list }) (idx ∷ live)
  unfolding occurs get
  reused-Kept p live n idx size at kept =
      let split : (i : ℕ) → copies i p.free_list ≡ copies i (take n p.free_list) + one (idx == i) =
        λ i. occurs-take (λ j. j == i) n p.free_list idx size at in
      record {
        counted = λ i. ground (arith, kept.counted i, split i);
        clean = λ i h. kept.clean i (omega (arith, split i, h));
      }

  freed_count :
      (p : Pool A) (live : List ℕ) (idx : ℕ)
      → Kept blank p live
      → 0 < copies idx live
      → (i : ℕ)
      → copies i (without idx live) + copies i (p.free_list ++ idx ∷ [])
        ≡ one (ltb i (length (set_elem p.entities idx blank)))
  freed_count p live idx kept held i =
      let size = length-set_elem p.entities idx blank in
      let more = occurs-append (λ j. j == i) p.free_list idx in
      elim (Bool-cases (idx == i)) [
        | inl e ↦
            let q : i ≡ idx = sym ((eq_iff idx i).0 e) in
            let none_free = not_free p live idx kept held in
            let here = in_range p live idx kept (omega (arith, held)) in
            let gone : copies i (without idx live) ≡ 0 = rw q (copies-without_self idx live) in
            let added : copies i (p.free_list ++ idx ∷ []) ≡ 1 =
              rw (more, e) (rw q (omega (arith, none_free))) in
            ground (arith, gone, added, size, q, here)
        | inr e ↦
            ground (
              arith,
              copies-without_ne idx i live (ne_of_beq idx i e),
              more,
              e,
              size,
              kept.counted i,
            )
      ]

  pub freed-Kept :
      (p : Pool A) (live : List ℕ) (idx : ℕ)
      → Kept blank p live
      → 0 < copies idx live
      → Kept blank
          (record { entities = set_elem p.entities idx blank; free_list = p.free_list ++ idx ∷ [] })
          (without idx live)
  unfolding get
  freed-Kept p live idx kept held =
      let here = in_range p live idx kept (omega (arith, held)) in
      let more : (i : ℕ)
          → copies i (p.free_list ++ idx ∷ []) ≡ copies i p.free_list + one (idx == i) =
        λ i. occurs-append (λ j. j == i) p.free_list idx in
      record {
        counted = freed_count p live idx kept held;
        clean = λ i h. elim (Bool-cases (idx == i)) [
          | inl e ↦
              let q : i ≡ idx = sym ((eq_iff idx i).0 e) in
              rw q (get-set_self p.entities idx blank here)
          | inr e ↦
              get-set_ne p.entities idx i blank (λ q. ne_of_beq idx i e (sym q))
              ∙ kept.clean i (ground (arith, more i, e, h))
        ];
      }

  pub put-Kept :
      (p : Pool A) (live : List ℕ) (idx : ℕ) (e : A)
      → Kept blank p live
      → 0 < copies idx live
      → Kept blank (record p { entities = set_elem p.entities idx e }) live
  unfolding get
  put-Kept p live idx e kept held = record {
    counted = λ i.
        omega (arith, kept.counted i, ap (λ n. one (ltb i n)) (length-set_elem p.entities idx e));
    clean = λ i h.
        let other_one : i ≢ idx =
          λ q. ground (arith, not_free p live idx kept held, ap (λ j. copies j p.free_list) q, h) in
        get-set_ne p.entities idx i e other_one ∙ kept.clean i h;
  }
