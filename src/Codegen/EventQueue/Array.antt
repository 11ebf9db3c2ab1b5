-- ===== src/Codegen/EventQueue/Array.antt =====
-- The reads and writes of the heap in codegen/container/binary.go, and what they keep.
use go_cloud_des.Prelude.{
  ℕ, ◌≡◌, ◌≢◌, ◌<◌, ◌∙◌, refl, sym, ap, arith, Bool, Option, none, some, List, nat_eq, length,
}
use go_cloud_des.Codegen.Slices.{
  get_elem?, set_elem, occurs, get_elem?-found, length-set_elem, get-set_self, get-set_ne,
  occurs-set_elem,
}
use go_cloud_des.Codegen.EventQueue.{Event, swap}
use go_cloud_des.Codegen.EventQueue.Order.{Swapped}

abbrev pub time_of : Option Event → ℕ
time_of none = 0
time_of (some e) = e.time

abbrev pub time_at : List Event → ℕ → ℕ
time_at xs i = time_of (get_elem? xs i)

-- The result of an exchange of two places.
pub record Exchange (xs : List Event) (i j : ℕ) : Type 0 where
  pub nodes : List Event
  pub result : swap xs i j ≡ some nodes
  pub size : length nodes ≡ length xs
  pub times : Swapped (time_at xs) (time_at nodes) i j
  pub same : (p : Event → Bool) → occurs p nodes ≡ occurs p xs

pub swap-Exchange :
    (xs : List Event) (i j : ℕ) → i < length xs → j < length xs → i ≢ j → Exchange xs i j
unfolding swap
swap-Exchange xs i j hi hj ne =
    let (a, at_i) = get_elem?-found xs i hi in
    let (b, at_j) = get_elem?-found xs j hj in
    let ys = set_elem xs i b in
    let size = length-set_elem xs i b in
    let at_j' : get_elem? ys j ≡ some b = get-set_ne xs i j b (λ q. ne (sym q)) ∙ at_j in
    record {
      nodes = set_elem ys j a;
      result = rw (at_i, at_j, swap) refl;
      size = length-set_elem ys j a ∙ size;
      times = record {
        first = ap time_of (get-set_ne ys j i a ne ∙ get-set_self xs i b hi ∙ sym at_j);
        second = ap time_of (get-set_self ys j a (omega (arith, size)) ∙ sym at_i);
        others = λ k ki kj. ap time_of (get-set_ne ys j k a kj ∙ get-set_ne xs i k b ki);
      };
      same = λ p. omega (arith, occurs-set_elem p xs i a b at_i, occurs-set_elem p ys j b a at_j');
    }
