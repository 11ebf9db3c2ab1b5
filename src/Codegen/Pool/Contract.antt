-- ===== src/Codegen/Pool/Contract.antt =====
-- Alloc, Free and writes of codegen/container/pool.go, whatever a client did before.
use go_cloud_des.Prelude.{
  ℕ, suc, ◌-◌, ◌%◌, ◌≡◌, ◌≢◌, ◌<◌, inl, inr, refl, subst, arith, true, ◌==◌, nat_eq, ltb, Option,
  some, List, [], ◌∷◌, ◌++◌, length, take, u32_mod, Bool-cases,
}
use go_cloud_des.Codegen.Slices.{
  set_elem, get_elem?-found, get-set_self, get-set_ne, occurs-take, get-append, get-append_last,
}
use go_cloud_des.Codegen.Pool.{Pool, reuse, alloc, free, get, put}
use go_cloud_des.Codegen.Pool.Handles.{
  copies, without, Reaches, Kept, new_pool-Kept, new_entity-Kept, reused-Kept, freed-Kept, put-Kept,
  in_range, starts, allocates, frees, writes,
}

-- A handle that nobody holds, of a blank entity; the entities that were there are as before.
pub record Allocated {ℓ} {A : Type ℓ} (blank : A) (p : Pool A) (live : List ℕ)
    (o : Option (Pool A × ℕ)) : Type ℓ where
  pub pool : Pool A
  pub idx : ℕ
  pub result : o ≡ some (pool, idx)
  pub unheld : copies idx live ≡ 0
  pub new : get pool idx ≡ some blank
  pub others : (i : ℕ) → i < length p.entities → get pool i ≡ get p i
  pub kept : Kept blank pool (idx ∷ live)

-- The entities but that of `idx` are as before.
pub record Freed {ℓ} {A : Type ℓ} (blank : A) (p : Pool A) (live : List ℕ) (idx : ℕ)
    (o : Option (Pool A)) : Type ℓ where
  pub pool : Pool A
  pub result : o ≡ some pool
  pub others : (i : ℕ) → i ≢ idx → get pool i ≡ get p i
  pub kept : Kept blank pool (without idx live)

pub record Put {ℓ} {A : Type ℓ} (blank : A) (p : Pool A) (live : List ℕ) (idx : ℕ) (e : A)
    (o : Option (Pool A)) : Type ℓ where
  pub pool : Pool A
  pub result : o ≡ some pool
  pub written : get pool idx ≡ some e
  pub others : (i : ℕ) → i ≢ idx → get pool i ≡ get p i
  pub kept : Kept blank pool live

module _ {ℓ} {A : Type ℓ} (blank : A) where
  Kept-Allocated :
      (p : Pool A) (live : List ℕ)
      → Kept blank p live
      → length p.entities < u32_mod
      → Allocated blank p live (alloc blank p)
  unfolding alloc reuse get
  Kept-Allocated p live kept small = elim (Bool-cases (length p.free_list == 0)) [
    | inl e ↦
        let word : length p.entities % u32_mod ≡ length p.entities = omega arith in
        record {
          pool = record p { entities = p.entities ++ blank ∷ [] };
          idx = length p.entities;
          result = rw (e, word) refl;
          unheld = ground (arith, kept.counted (length p.entities));
          new = get-append_last p.entities blank;
          others = λ i h. get-append p.entities blank i h;
          kept = new_entity-Kept blank p live kept;
        }
    | inr e ↦
        let n = length p.free_list - 1 in
        let size : length p.free_list ≡ suc n = ground (arith, e) in
        let (idx, at) = get_elem?-found p.free_list n (omega (arith, size)) in
        let now_kept = reused-Kept blank p live n idx size at kept in
        let is_free : 0 < copies idx p.free_list =
          ground (arith, occurs-take (λ j. j == idx) n p.free_list idx size at) in
        record {
          pool = record p { free_list = take n p.free_list };
          idx = idx;
          result = rw e (rw (at, reuse) refl);
          unheld = ground (arith, kept.counted idx, is_free);
          new = kept.clean idx is_free;
          others = λ i h. refl;
          kept = now_kept;
        }
  ]

  Kept-Freed :
      (p : Pool A) (live : List ℕ) (idx : ℕ)
      → Kept blank p live
      → 0 < copies idx live
      → Freed blank p live idx (free blank p idx)
  unfolding free get
  Kept-Freed p live idx kept held =
      let here : ltb idx (length p.entities) ≡ true =
        ground (arith, in_range blank p live idx kept (omega (arith, held))) in
      record {
        pool = record {
          entities = set_elem p.entities idx blank;
          free_list = p.free_list ++ idx ∷ [];
        };
        result = rw here refl;
        others = λ i ne. get-set_ne p.entities idx i blank ne;
        kept = freed-Kept blank p live idx kept held;
      }

  Kept-Put :
      (p : Pool A) (live : List ℕ) (idx : ℕ) (e : A)
      → Kept blank p live
      → 0 < copies idx live
      → Put blank p live idx e (put p idx e)
  unfolding put get
  Kept-Put p live idx e kept held =
      let within = in_range blank p live idx kept (omega (arith, held)) in
      let here : ltb idx (length p.entities) ≡ true = ground (arith, within) in
      record {
        pool = record p { entities = set_elem p.entities idx e };
        result = rw here refl;
        written = get-set_self p.entities idx e within;
        others = λ i ne. get-set_ne p.entities idx i e ne;
        kept = put-Kept blank p live idx e kept held;
      }

  Reaches-Kept : (p : Pool A) (live : List ℕ) → Reaches blank p live → Kept blank p live
  Reaches-Kept p live (starts capacity) = new_pool-Kept blank capacity
  Reaches-Kept new_p new_live (allocates p q live idx before small h) =
      let a = Kept-Allocated p live (Reaches-Kept p live before) small in
      let returned : Pool A × ℕ = (a.pool, a.idx) in
      let expected : Pool A × ℕ = (q, idx) in
      let same : returned ≡ expected = cc in subst (λ r. Kept blank r.0 (r.1 ∷ live)) same a.kept
  Reaches-Kept new_p new_live (frees p q live idx before held h) =
      let a = Kept-Freed p live idx (Reaches-Kept p live before) held in
      let same : a.pool ≡ q = cc in subst (λ r. Kept blank r (without idx live)) same a.kept
  Reaches-Kept new_p new_live (writes p q live idx e before held h) =
      let a = Kept-Put p live idx e (Reaches-Kept p live before) held in
      let same : a.pool ≡ q = cc in subst (λ r. Kept blank r live) same a.kept

  -- Whatever was allocated, freed and written, with fewer than 2^32 entities: Alloc returns a handle that
  -- nobody holds, of a blank entity; the other entities are as they were, and each handle in range is
  -- held or free, and not twice.
  pub alloc-Allocated :
      (p : Pool A) (live : List ℕ)
      → Reaches blank p live
      → length p.entities < u32_mod
      → Allocated blank p live (alloc blank p)
  alloc-Allocated p live before small = Kept-Allocated p live (Reaches-Kept p live before) small

  -- Whatever was allocated, freed and written: Free of a handle that is held returns, the entities but
  -- its own are as they were, and each handle in range but this one is held as before or free, and not
  -- twice.
  pub free-Freed :
      (p : Pool A) (live : List ℕ) (idx : ℕ)
      → Reaches blank p live
      → 0 < copies idx live
      → Freed blank p live idx (free blank p idx)
  free-Freed p live idx before held = Kept-Freed p live idx (Reaches-Kept p live before) held
