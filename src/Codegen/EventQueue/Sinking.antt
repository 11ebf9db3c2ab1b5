-- ===== src/Codegen/EventQueue/Sinking.antt =====
-- siftDown of codegen/container/binary.go ends, and restores the heap.
use go_cloud_des.Prelude.{
  ℕ, zero, suc, ◌+◌, ◌*◌, ◌≡◌, ◌≢◌, ◌≤◌, ◌<◌, ◌⊎◌, inl, inr, refl, sym, ap, arith, true, Option,
  some, List, ◌==◌, nat_eq, eq_iff, ne_of_beq, ltb, length, Bool-cases,
}
use go_cloud_des.Codegen.Slices.{get_elem?, get_elem?-found}
use go_cloud_des.Codegen.EventQueue.{Event, both, sift_down, min_index, children, from}
use go_cloud_des.Codegen.EventQueue.Order.{Sinks, Sinks-swap, Sinks-rest}
use go_cloud_des.Codegen.EventQueue.Array.{time_of, time_at, swap-Exchange}
use go_cloud_des.Codegen.EventQueue.Sifting.{Sifted, ends, goes_on}

-- The least of `m0` and the `k` indices from `c` on, as far as they are in range.
record Least (xs : List Event) (c k m0 : ℕ) (o : Option ℕ) : Type 0 where
  m : ℕ
  result : o ≡ some m
  within : m < length xs
  choice : (m ≡ m0) ⊎ ((time_at xs m < time_at xs m0) × (c ≤ m) × (m < c + k))
  least : (j : ℕ) → c ≤ j → j < c + k → j < length xs → time_at xs m ≤ time_at xs j

min_index-round :
    (xs : List Event) (c k m0 : ℕ) (a b : Event)
    → ((m1 : ℕ) → m1 < length xs → Least xs (suc c) k m1 (min_index xs (from (suc c) k) m1))
    → c < length xs
    → m0 < length xs
    → get_elem? xs c ≡ some a
    → get_elem? xs m0 ≡ some b
    → Least xs c (suc k) m0 (min_index xs (from c (suc k)) m0)
unfolding min_index
min_index-round xs c k m0 a b next within start at_c at_m0 =
    let e : ltb c (length xs) ≡ true = ground (arith, within) in
    let ta : time_at xs c ≡ a.time = ap time_of at_c in
    let tb : time_at xs m0 ≡ b.time = ap time_of at_m0 in
    elim (Bool-cases (ltb a.time b.time)) [
      | inl less ↦
          let lt : a.time < b.time = ground (arith, less) in
          let r = next c within in
          rw (e, at_c, at_m0, min_index)
            (rw (less, both)
              (record {
                m = r.m;
                result = r.result;
                within = r.within;
                choice = inr (ground (arith, r.choice, ta, tb, lt));
                least = λ j lo hi range. grind (arith, r.choice, r.least j, ta, tb, lt);
              }))
      | inr not_less ↦
          let ge : b.time ≤ a.time = ground (arith, not_less) in
          let r = next m0 start in
          rw (e, at_c, at_m0, min_index)
            (rw (not_less, both)
              (record {
                m = r.m;
                result = r.result;
                within = r.within;
                choice = elim r.choice [
                  | inl same ↦ inl same
                  | inr (lt, lo, hi) ↦ inr (lt, omega (arith, lo), omega (arith, hi))
                ];
                least = λ j lo hi range. grind (arith, r.choice, r.least j, ta, tb, ge);
              }))
    ]

min_index-Least :
    (xs : List Event) (k c m0 : ℕ) → m0 < length xs → Least xs c k m0 (min_index xs (from c k) m0)
unfolding min_index
min_index-Least xs zero c m0 start = record {
  m = m0;
  result = refl;
  within = start;
  choice = inl refl;
  least = λ j lo hi range. absurd (omega arith);
}
min_index-Least xs (suc k) c m0 start = elim (Bool-cases (ltb c (length xs))) [
  | inr over ↦ rw over (record {
    m = m0;
    result = refl;
    within = start;
    choice = inl refl;
    least = λ j lo hi range. absurd (ground (arith, over));
  })
  | inl here ↦
      let (a, at_c) = get_elem?-found xs c (ground (arith, here)) in
      let (b, at_m0) = get_elem?-found xs m0 start in
      min_index-round xs c k m0 a b (min_index-Least xs k (suc c)) (ground (arith, here)) start at_c
        at_m0
]

-- One round of siftDown, with `m` as the index of the least of the node and its children.
sift_down-round :
    (fuel : ℕ) (xs : List Event) (idx : ℕ)
    → ((m : ℕ) (ys : List Event)
        → idx < m
        → m < length xs
        → length ys ≡ length xs
        → Sinks (length ys) (time_at ys) m
        → Sifted ys (sift_down fuel ys m))
    → 4 * idx + 1 < length xs
    → Least xs (4 * idx + 1) 4 idx (min_index xs (children idx) idx)
    → Sinks (length xs) (time_at xs) idx
    → Sifted xs (sift_down (suc fuel) xs idx)
unfolding sift_down
sift_down-round fuel xs idx next inside l s =
    let e : ltb (4 * idx + 1) (length xs) ≡ true = ground (arith, inside) in
    elim (Bool-cases (l.m == idx)) [
      | inl stays ↦
          let same : l.m ≡ idx = (eq_iff l.m idx).0 stays in
          rw (e, l.result, stays)
            (ends xs (
              Sinks-rest (length xs) (time_at xs) idx
                (λ c some_c range child.
                  rw same at (l.least c (omega (arith, child)) (omega (arith, child)) range))
                s))
      | inr moves ↦
          let ne : l.m ≢ idx = ne_of_beq l.m idx moves in
          let (less, lo, hi) = chosen ne l.choice in
          let x = swap-Exchange xs idx l.m (omega (arith, inside)) l.within (λ q. ne (sym q)) in
          let s' =
            Sinks-swap (length xs) (time_at xs) (time_at x.nodes) idx l.m (omega (arith, lo))
              l.within (omega (arith, lo, hi)) less
              (λ c some_c range child.
                l.least c (omega (arith, child)) (omega (arith, child)) range)
              x.times s in
          rw (e, l.result, moves, x.result)
            (goes_on xs idx l.m x (sift_down fuel x.nodes l.m)
              (next l.m x.nodes (omega (arith, lo)) l.within x.size (rw x.size s')))
    ]
  where
    chosen : {A : Type 0} {m i : ℕ} → m ≢ i → (m ≡ i) ⊎ A → A
    chosen ne (inl same) = absurd (ne same)
    chosen ne (inr a) = a

pub sift_down-Sifted :
    (fuel : ℕ) (xs : List Event) (idx : ℕ)
    → length xs ≤ idx + fuel
    → idx < length xs
    → Sinks (length xs) (time_at xs) idx
    → Sifted xs (sift_down fuel xs idx)
unfolding sift_down
sift_down-Sifted zero xs idx enough within s = absurd (omega (arith, enough, within))
sift_down-Sifted (suc fuel) xs idx enough within s =
    elim (Bool-cases (ltb (4 * idx + 1) (length xs))) [
      | inr leaf ↦ rw leaf (
          ends xs (
            Sinks-rest (length xs) (time_at xs) idx
              (λ c some_c range child. absurd (ground (arith, leaf, child))) s))
      | inl inner ↦
          sift_down-round fuel xs idx
            (λ m ys after_idx range size s'.
              sift_down-Sifted fuel ys m (omega (arith, size)) (omega (arith, size)) s')
            (ground (arith, inner)) (min_index-Least xs 4 (4 * idx + 1) idx within) s
    ]
