-- ===== src/Codegen/Pool.antt =====
-- codegen/container/pool.go: entities under handles, with a list of the handles that are free. The zero
-- value of the type of the entities is an argument. `none` is a panic of an index out of range. A
-- pointer that Get returns is used before the pool is called again: get reads, and put writes, through
-- it.
pub mod Handles
pub mod Contract
use go_cloud_des.Prelude.{
  ℕ, ◌+◌, ◌-◌, ◌%◌, ◌==◌, nat_eq, ltb, if◌then◌else◌, Option, none, some, List, [], ◌∷◌, ◌++◌,
  length, take, u32_mod,
}
use go_cloud_des.Codegen.Slices.{get_elem?, set_elem}

pub record Pool {ℓ} (A : Type ℓ) : Type ℓ where
  pub entities : List A
  pub free_list : List ℕ

module _ {ℓ} {A : Type ℓ} where
  unfoldable pub new_pool : ℕ → Pool A
  new_pool cap = record { entities = []; free_list = [] }

  -- The last handle of the free list, and the list without it.
  unfoldable pub reuse : Pool A → Option (Pool A × ℕ)
  unfolding get_elem?
  reuse p =
      let last = length p.free_list - 1 in
      elim (get_elem? p.free_list last) [
        | none ↦ none
        | some idx ↦ some (record p { free_list = take last p.free_list }, idx)
      ]

  unfoldable pub alloc : A → Pool A → Option (Pool A × ℕ)
  unfolding reuse
  alloc blank p =
      if length p.free_list == 0
      then some (record p { entities = p.entities ++ blank ∷ [] }, length p.entities % u32_mod)
      else reuse p

  unfoldable pub free : A → Pool A → ℕ → Option (Pool A)
  unfolding set_elem
  free blank p idx =
      if ltb idx (length p.entities)
      then some
          (record { entities = set_elem p.entities idx blank; free_list = p.free_list ++ idx ∷ [] })
      else none

  unfoldable pub get : Pool A → ℕ → Option A
  unfolding get_elem?
  get p idx = get_elem? p.entities idx

  unfoldable pub put : Pool A → ℕ → A → Option (Pool A)
  unfolding set_elem
  put p idx e =
      if ltb idx (length p.entities)
      then some (record p { entities = set_elem p.entities idx e })
      else none
