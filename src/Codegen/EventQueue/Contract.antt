-- ===== src/Codegen/EventQueue/Contract.antt =====
-- Push and Pop of codegen/container/binary.go: the event that is popped is a first one.
use go_cloud_des.Prelude.{
  ℕ, zero, suc, ◌+◌, ◌-◌, ◌≡◌, ◌≤◌, ◌<◌, ◌∙◌, inl, inr, refl, ap, arith, Bool, false, Option, some,
  List, [], ◌∷◌, ◌++◌, ◌==◌, nat_eq, eq_iff, ne_of_beq, if◌then◌else◌, ltb, length, take,
  Bool-cases, length-append, length-take,
}
use go_cloud_des.Codegen.Slices.{
  get_elem?, set_elem, occurs, one, get_elem?-found, length-set_elem, get-set_self, get-set_ne,
  occurs-set_elem, occurs-append, get-take, occurs-take,
}
use go_cloud_des.Codegen.EventQueue.{Event, EventQueue, both, sift_down, push, pop, pop_nodes}
use go_cloud_des.Codegen.EventQueue.Order.{
  parent, Rises, Sinks, Rises-append, Sinks-pop, parent-lt, IsHeap-root,
}
use go_cloud_des.Codegen.EventQueue.Array.{time_of, time_at}
use go_cloud_des.Codegen.EventQueue.Sifting.{HeapOf, Sifted, sift_up-Sifted}
use go_cloud_des.Codegen.EventQueue.Sinking.{sift_down-Sifted}

-- A call returns a heap with the events of `xs` and one more, or one less.
pub record Pushed (q : EventQueue) (e : Event) (o : Option EventQueue) : Type 0 where
  pub queue : EventQueue
  pub result : o ≡ some queue
  pub heap : HeapOf queue.nodes
  pub same : (p : Event → Bool) → occurs p queue.nodes ≡ occurs p q.nodes + one (p e)

pub record Popped (q : EventQueue) (o : Option (EventQueue × Event)) : Type 0 where
  pub queue : EventQueue
  pub event : Event
  pub result : o ≡ some (queue, event)
  pub heap : HeapOf queue.nodes
  pub same : (p : Event → Bool) → occurs p q.nodes ≡ occurs p queue.nodes + one (p event)
  pub first : occurs (λ x. ltb x.time event.time) q.nodes ≡ 0

time_at-append :
    (xs : List Event) (e : Event) (i : ℕ) → i < length xs → time_at (xs ++ e ∷ []) i ≡ time_at xs i
unfolding get_elem?
time_at-append [] e i h = absurd (omega arith)
time_at-append (x ∷ xs) e zero h = refl
time_at-append (x ∷ xs) e (suc i) h = time_at-append xs e i (omega arith)

appended-Rises :
    (xs : List Event) (e : Event)
    → HeapOf xs
    → Rises (suc (length xs)) (time_at (xs ++ e ∷ [])) (length xs)
appended-Rises xs e heap = Rises-append (length xs) (time_at (xs ++ e ∷ [])) (λ i h hn.
    rw (time_at-append xs e i hn, time_at-append xs e (parent i) (omega (arith, parent-lt i h)))
      (heap i h hn))

-- Push on a heap returns: a heap of the same events and the new one.
pub push-Pushed : (q : EventQueue) (e : Event) → HeapOf q.nodes → Pushed q e (push q e)
unfolding push
push-Pushed q e heap =
    let xs = q.nodes ++ e ∷ [] in
    let n : length xs ≡ suc (length q.nodes) = omega (arith, length-append q.nodes (e ∷ [])) in
    let last : length xs - 1 ≡ length q.nodes = omega (arith, n) in
    let s =
      sift_up-Sifted (length xs - 1) xs (length xs - 1) (omega arith) (omega (arith, n))
        (rw (last, n) (appended-Rises q.nodes e heap)) in
    record {
      queue = record { nodes = s.nodes };
      result = rw s.result refl;
      heap = s.heap;
      same = λ p. s.same p ∙ occurs-append p q.nodes e;
    }

none_before :
    (t : ℕ) (xs : List Event)
    → ((i : ℕ) → i < length xs → t ≤ time_at xs i)
    → occurs (λ x. ltb x.time t) xs ≡ 0
unfolding occurs get_elem?
none_before t [] least = refl
none_before t (x ∷ xs) least =
    let rest = none_before t xs (λ i h. least (suc i) (omega arith)) in
    let head : t ≤ x.time = least 0 (omega arith) in ground (arith, rest, head)

-- What is left when the last event has taken the first place.
module _ (xs : List Event) (n : ℕ) (first last : Event) (size : length xs ≡ suc n)
    (at_first : get_elem? xs 0 ≡ some first) (at_last : get_elem? xs n ≡ some last) where
  abbrev left : List Event
  left = take n (set_elem xs 0 last)

  length-left : length left ≡ n
  length-left = omega (arith, length-take n (set_elem xs 0 last), length-set_elem xs 0 last, size)

  left-times : (k : ℕ) → 0 < k → k < n → time_at left k ≡ time_at xs k
  left-times k some_k h = ap time_of (
      get-take n (set_elem xs 0 last) k h ∙ get-set_ne xs 0 k last (λ q. ground (arith, q, some_k)))

  left-Sinks : HeapOf xs → Sinks n (time_at left) 0
  left-Sinks heap = Sinks-pop n (time_at xs) (time_at left) left-times (rw size at heap)

  last_moved : get_elem? (set_elem xs 0 last) n ≡ some last
  last_moved = elim (Bool-cases (n == 0)) [
    | inl e ↦
        let z : n ≡ 0 = (eq_iff n 0).0 e in rw z (get-set_self xs 0 last (omega (arith, size)))
    | inr e ↦ get-set_ne xs 0 n last (ne_of_beq n 0 e) ∙ at_last
  ]

  occurs-left : (p : Event → Bool) → occurs p xs ≡ occurs p left + one (p first)
  occurs-left p = omega (
    arith,
    occurs-take p n (set_elem xs 0 last) last (length-set_elem xs 0 last ∙ size) last_moved,
    occurs-set_elem p xs 0 first last at_first,
  )

  sunk :
      HeapOf xs
      → Sifted left (if ltb 0 (length left) then sift_down (length left) left 0 else some left)
  sunk heap = elim (Bool-cases (ltb 0 (length left))) [
    | inl e ↦ rw e (
        sift_down-Sifted (length left) left 0 (omega arith) (ground (arith, e))
          (rw length-left (left-Sinks heap)))
    | inr e ↦ rw e (record {
      nodes = left;
      result = refl;
      size = refl;
      heap = λ i h hn. absurd (ground (arith, e, hn));
      same = λ p. refl;
    })
  ]

  first-least : HeapOf xs → occurs (λ x. ltb x.time first.time) xs ≡ 0
  first-least heap = none_before first.time xs (λ i h.
      omega
        (arith, ap time_of at_first, IsHeap-root i (length xs) (time_at xs) heap i h (omega arith)))

-- What Pop returns, of the first event, the last one and the run of siftDown.
popped :
    (q : EventQueue) (n : ℕ) (first last : Event) (size : length q.nodes ≡ suc n)
    → get_elem? q.nodes 0 ≡ some first
    → get_elem? q.nodes n ≡ some last
    → (nodes : List Event)
    → (let left = take n (set_elem q.nodes 0 last) in
        if ltb 0 (length left) then sift_down (length left) left 0 else some left)
      ≡ some nodes
    → pop q ≡ some (record { nodes = nodes }, first)
unfolding pop pop_nodes
popped q n first last size at_first at_last nodes sinks =
    let last_place : suc n - 1 ≡ n = omega arith in
    let nonempty : (suc n == 0) ≡ false = ground arith in
    rw (size, at_first) (rw (last_place, at_last, both) (rw (sinks, nonempty) refl))

-- Pop on a heap that is not empty returns an event before which no other is due, and a heap of the
-- events but this one.
pub pop-Popped : (q : EventQueue) → 0 < length q.nodes → HeapOf q.nodes → Popped q (pop q)
pop-Popped q some_nodes heap =
    let xs = q.nodes in
    let n = length xs - 1 in
    let size : length xs ≡ suc n = omega (arith, some_nodes) in
    let (first, at_first) = get_elem?-found xs 0 some_nodes in
    let (last, at_last) = get_elem?-found xs n (omega (arith, some_nodes)) in
    let s = sunk xs n first last size at_first at_last heap in
    record {
      queue = record { nodes = s.nodes };
      event = first;
      result = popped q n first last size at_first at_last s.nodes s.result;
      heap = s.heap;
      same = λ p. omega (arith, occurs-left xs n first last size at_first at_last p, s.same p);
      first = first-least xs n first last size at_first at_last heap;
    }
