-- ===== src/Codegen/EventQueue/Draining.antt =====
-- A queue of codegen/container/binary.go that is filled and then emptied.
use go_cloud_des.Prelude.{
  ℕ, zero, suc, ◌+◌, ◌≡◌, ◌≤◌, nat_eq, refl, arith, Bool, true, Option, none, some, List, [], ◌∷◌,
  ltb, length, All,
}
use go_cloud_des.Codegen.Slices.{occurs}
use go_cloud_des.Codegen.EventQueue.{Event, EventQueue, new_event_queue, len, push, pop}
use go_cloud_des.Codegen.EventQueue.Sifting.{HeapOf}
use go_cloud_des.Codegen.EventQueue.Contract.{push-Pushed, pop-Popped}

abbrev pub Sorted : List Event → Type 0
Sorted [] = Unit
Sorted (e ∷ es) = All (λ x. e.time ≤ x.time) es × Sorted es

abbrev after : Event → Option (List Event) → Option (List Event)
after e none = none
after e (some es) = some (e ∷ es)

-- The events of so many calls of Pop.
unfoldable pops : ℕ → EventQueue → Option (List Event)
pops zero q = some []
pops (suc n) q = elim (pop q) [ none ↦ none | some (q', e) ↦ after e (pops n q') ]

unfoldable pushes : List Event → EventQueue → Option EventQueue
pushes [] q = some q
pushes (e ∷ es) q = elim (push q e) [ none ↦ none | some q' ↦ pushes es q' ]

-- Push of each event on a new queue, and Pop until the queue is empty.
unfoldable pub drained : ℕ → List Event → Option (List Event)
unfolding pushes pops new_event_queue len
drained capacity es = elim (pushes es (new_event_queue capacity)) [
  | none ↦ none
  | some q ↦ pops (len q) q
]

-- The events of `xs` in the order of their times.
pub record SortedEvents (xs : List Event) (o : Option (List Event)) : Type 0 where
  pub events : List Event
  pub result : o ≡ some events
  pub sorted : Sorted events
  pub same : (p : Event → Bool) → occurs p events ≡ occurs p xs

record Filled (q : EventQueue) (es : List Event) (o : Option EventQueue) : Type 0 where
  queue : EventQueue
  result : o ≡ some queue
  heap : HeapOf queue.nodes
  same : (p : Event → Bool) → occurs p queue.nodes ≡ occurs p q.nodes + occurs p es

occurs_all : (xs : List Event) → occurs (λ x. true) xs ≡ length xs
unfolding occurs
occurs_all [] = refl
occurs_all (x ∷ xs) = omega (arith, occurs_all xs)

occurs-le : (p : Event → Bool) (xs : List Event) → occurs p xs ≤ length xs
unfolding occurs
occurs-le p [] = omega arith
occurs-le p (x ∷ xs) = ground (arith, occurs-le p xs)

none_earlier :
    (t : ℕ) (xs : List Event) → occurs (λ x. ltb x.time t) xs ≡ 0 → All (λ x. t ≤ x.time) xs
unfolding occurs
none_earlier t [] h = tt
none_earlier t (x ∷ xs) h = (ground (arith, h), none_earlier t xs (ground (arith, h)))

pushes-Filled : (es : List Event) (q : EventQueue) → HeapOf q.nodes → Filled q es (pushes es q)
unfolding pushes occurs
pushes-Filled [] q heap = record { queue = q; result = refl; heap = heap; same = λ p. omega arith }
pushes-Filled (e ∷ es) q heap =
    let a = push-Pushed q e heap in
    let rest = pushes-Filled es a.queue a.heap in
    record {
      queue = rest.queue;
      result = rw (a.result, pushes) rest.result;
      heap = rest.heap;
      same = λ p. ground (arith, rest.same p, a.same p);
    }

pops-SortedEvents :
    (n : ℕ) (q : EventQueue) → length q.nodes ≡ n → HeapOf q.nodes → SortedEvents q.nodes (pops n q)
unfolding pops occurs
pops-SortedEvents zero q size heap = record {
  events = [];
  result = refl;
  sorted = tt;
  same = λ p. omega (arith, occurs-le p q.nodes, size);
}
pops-SortedEvents (suc n) q size heap =
    let a = pop-Popped q (omega (arith, size)) heap in
    let left : length a.queue.nodes ≡ n =
      omega (arith, size, a.same (λ x. true), occurs_all q.nodes, occurs_all a.queue.nodes) in
    let rest = pops-SortedEvents n a.queue left a.heap in
    let earlier : Event → Bool = λ x. ltb x.time a.event.time in
    record {
      events = a.event ∷ rest.events;
      result = rw (a.result, pops) (rw rest.result refl);
      sorted = (
        none_earlier a.event.time rest.events
            (omega (arith, rest.same earlier, a.same earlier, a.first)),
        rest.sorted,
      );
      same = λ p. ground (arith, rest.same p, a.same p);
    }

-- Events that are pushed on a new queue and popped until it is empty come out in the order of their
-- times: the same events, and none is lost or doubled.
pub drained-SortedEvents : (capacity : ℕ) (es : List Event) → SortedEvents es (drained capacity es)
unfolding drained new_event_queue len occurs
drained-SortedEvents capacity es =
    let a = pushes-Filled es (new_event_queue capacity) (λ i h hn. absurd (omega arith)) in
    let b = pops-SortedEvents (length a.queue.nodes) a.queue refl a.heap in
    record {
      events = b.events;
      result = rw (a.result, drained) b.result;
      sorted = b.sorted;
      same = λ p. omega (arith, b.same p, a.same p);
    }
