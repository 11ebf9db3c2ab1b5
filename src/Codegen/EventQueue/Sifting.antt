-- ===== src/Codegen/EventQueue/Sifting.antt =====
-- siftUp and siftDown of codegen/container/binary.go end, and restore the heap.
use go_cloud_des.Prelude.{
  ℕ, zero, suc, ◌≡◌, ◌≤◌, ◌<◌, ◌∙◌, inl, inr, refl, ap, arith, Bool, true, Option, some, List,
  nat_eq, ltb, leb, length, Bool-cases,
}
use go_cloud_des.Codegen.Slices.{get_elem?, occurs, get_elem?-found}
use go_cloud_des.Codegen.EventQueue.{Event, both, sift_up}
use go_cloud_des.Codegen.EventQueue.Order.{
  parent, IsHeap, Rises, Rises-swap, Rises-root, Rises-rest, parent-lt,
}
use go_cloud_des.Codegen.EventQueue.Array.{time_of, time_at, Exchange, swap-Exchange}

abbrev pub HeapOf : List Event → Type 0
HeapOf xs = IsHeap (length xs) (time_at xs)

-- A loop returns a heap of the same events.
pub record Sifted (xs : List Event) (o : Option (List Event)) : Type 0 where
  pub nodes : List Event
  pub result : o ≡ some nodes
  pub size : length nodes ≡ length xs
  pub heap : HeapOf nodes
  pub same : (p : Event → Bool) → occurs p nodes ≡ occurs p xs

pub ends : (xs : List Event) → HeapOf xs → Sifted xs (some xs)
ends xs heap = record { nodes = xs; result = refl; size = refl; heap = heap; same = λ p. refl }

pub goes_on :
    (xs : List Event) (i j : ℕ) (x : Exchange xs i j) (o : Option (List Event))
    → Sifted x.nodes o
    → Sifted xs o
goes_on xs i j x o s = record {
  nodes = s.nodes;
  result = s.result;
  size = s.size ∙ x.size;
  heap = s.heap;
  same = λ p. s.same p ∙ x.same p;
}

-- One round of siftUp on the events `a` at `idx` and `b` at its parent.
sift_up-round :
    (fuel : ℕ) (xs : List Event) (idx : ℕ) (a b : Event)
    → ((ys : List Event)
        → length ys ≡ length xs
        → Rises (length ys) (time_at ys) (parent idx)
        → Sifted ys (sift_up fuel ys (parent idx)))
    → 0 < idx
    → idx < length xs
    → get_elem? xs idx ≡ some a
    → get_elem? xs (parent idx) ≡ some b
    → Rises (length xs) (time_at xs) idx
    → Sifted xs (sift_up (suc fuel) xs idx)
unfolding sift_up
sift_up-round fuel xs idx a b next some_idx within at_idx at_parent r =
    let up = parent-lt idx some_idx in
    let e : ltb 0 idx ≡ true = ground (arith, some_idx) in
    let ta : time_at xs idx ≡ a.time = ap time_of at_idx in
    let tb : time_at xs (parent idx) ≡ b.time = ap time_of at_parent in
    elim (Bool-cases (leb b.time a.time)) [
      | inl done ↦
          let le : b.time ≤ a.time = ground (arith, done) in
          rw (e, at_idx, at_parent, sift_up)
            (rw (done, both)
              (ends xs (Rises-rest (length xs) (time_at xs) idx (omega (arith, ta, tb, le)) r)))
      | inr less ↦
          let lt : a.time < b.time = ground (arith, less) in
          let x =
            swap-Exchange xs idx (parent idx) within (omega (arith, up)) (omega (arith, up)) in
          let r' =
            Rises-swap (length xs) (time_at xs) (time_at x.nodes) idx some_idx
              (omega (arith, ta, tb, lt)) x.times within r in
          rw (e, at_idx, at_parent, sift_up)
            (rw (less, x.result, both)
              (goes_on xs idx (parent idx) x (sift_up fuel x.nodes (parent idx))
                (next x.nodes x.size (rw x.size r'))))
    ]

pub sift_up-Sifted :
    (fuel : ℕ) (xs : List Event) (idx : ℕ)
    → idx ≤ fuel
    → idx < length xs
    → Rises (length xs) (time_at xs) idx
    → Sifted xs (sift_up fuel xs idx)
unfolding sift_up
sift_up-Sifted zero xs idx enough within r =
    let root : idx ≡ 0 = omega (arith, enough) in
    rw root (ends xs (Rises-root (length xs) (time_at xs) (rw root at r)))
sift_up-Sifted (suc fuel) xs zero enough within r = ends xs (Rises-root (length xs) (time_at xs) r)
sift_up-Sifted (suc fuel) xs (suc idx) enough within r =
    let up = parent-lt (suc idx) (omega arith) in
    let (a, at_idx) = get_elem?-found xs (suc idx) within in
    let (b, at_parent) = get_elem?-found xs (parent (suc idx)) (omega (arith, up)) in
    sift_up-round fuel xs (suc idx) a b
      (λ ys size r'.
        sift_up-Sifted fuel ys (parent (suc idx)) (omega (arith, up)) (omega (arith, up, size)) r')
      (omega arith) within at_idx at_parent r
