-- ===== src/Codegen/EventQueue/Order.antt =====
-- The order of the times in the heap of codegen/container/binary.go, as facts about a function from
-- indices to times.
use go_cloud_des.Prelude.{ℕ, zero, suc, ◌-◌, ◌/◌, ◌≡◌, ◌≢◌, ◌≤◌, ◌<◌, arith}

abbrev pub parent : ℕ → ℕ
parent i = (i - 1) / 4

-- No time is below that of the parent, for `n` nodes.
abbrev pub IsHeap : ℕ → (ℕ → ℕ) → Type 0
IsHeap n f = (i : ℕ) → 0 < i → i < n → f (parent i) ≤ f i

-- The heap order but at `idx` and its parent; the parent of `idx` is not above the children of `idx`.
pub record Rises (n : ℕ) (f : ℕ → ℕ) (idx : ℕ) : Type 0 where
  pub order : (i : ℕ) → 0 < i → i < n → i ≢ idx → f (parent i) ≤ f i
  pub below : (i : ℕ) → 0 < i → i < n → 0 < idx → parent i ≡ idx → f (parent idx) ≤ f i

-- The heap order but at `idx` and its children.
pub record Sinks (n : ℕ) (f : ℕ → ℕ) (idx : ℕ) : Type 0 where
  pub order : (i : ℕ) → 0 < i → i < n → parent i ≢ idx → f (parent i) ≤ f i
  pub below : (i : ℕ) → 0 < i → i < n → 0 < idx → parent i ≡ idx → f (parent idx) ≤ f i

-- `g` is `f` with two places exchanged.
pub record Swapped (f g : ℕ → ℕ) (a b : ℕ) : Type 0 where
  pub first : g a ≡ f b
  pub second : g b ≡ f a
  pub others : (k : ℕ) → k ≢ a → k ≢ b → g k ≡ f k

pub parent-lt : (i : ℕ) → 0 < i → parent i < i
parent-lt i h = omega arith

pub Rises-swap :
    (n : ℕ) (f g : ℕ → ℕ) (idx : ℕ)
    → 0 < idx
    → f idx < f (parent idx)
    → Swapped f g idx (parent idx)
    → idx < n
    → Rises n f idx
    → Rises n g (parent idx)
Rises-swap n f g idx some_idx less s within r = record {
  order = λ i h hn ne. grind (
    arith,
    s.first,
    s.second,
    s.others i,
    s.others (parent i),
    r.order i h hn,
    r.below i h hn some_idx,
  );
  below = λ i h hn some_parent is. grind (
    arith,
    s.first,
    s.second,
    s.others i,
    s.others (parent (parent idx)),
    r.order i h hn,
    r.order (parent idx),
  );
}

pub Rises-root : (n : ℕ) (f : ℕ → ℕ) → Rises n f 0 → IsHeap n f
Rises-root n f r i h hn = r.order i h hn (omega arith)

pub Rises-rest : (n : ℕ) (f : ℕ → ℕ) (idx : ℕ) → f (parent idx) ≤ f idx → Rises n f idx → IsHeap n f
Rises-rest n f idx done r i h hn = grind (arith, r.order i h hn, done)

pub Sinks-swap :
    (n : ℕ) (f g : ℕ → ℕ) (idx m : ℕ)
    → 0 < m
    → m < n
    → parent m ≡ idx
    → f m < f idx
    → ((c : ℕ) → 0 < c → c < n → parent c ≡ idx → f m ≤ f c)
    → Swapped f g idx m
    → Sinks n f idx
    → Sinks n g m
Sinks-swap n f g idx m some_m within child less least s r = record {
  order = λ i h hn ne. grind (
    arith,
    child,
    less,
    s.first,
    s.second,
    s.others i,
    s.others (parent i),
    r.order i h hn,
    least i h hn,
    r.below m some_m within,
  );
  below = λ i h hn some_m' is.
      grind (arith, child, less, s.first, s.second, s.others i, r.order i h hn);
}

pub Sinks-rest :
    (n : ℕ) (f : ℕ → ℕ) (idx : ℕ)
    → ((c : ℕ) → 0 < c → c < n → parent c ≡ idx → f idx ≤ f c)
    → Sinks n f idx
    → IsHeap n f
Sinks-rest n f idx least r i h hn = grind (arith, r.order i h hn, least i h hn)

pub Rises-append : (n : ℕ) (f : ℕ → ℕ) → IsHeap n f → Rises (suc n) f n
Rises-append n f heap = record {
  order = λ i h hn ne. heap i h (omega arith);
  below = λ i h hn some_n is. absurd (omega arith);
}

pub Sinks-pop :
    (n : ℕ) (f g : ℕ → ℕ) → ((k : ℕ) → 0 < k → k < n → g k ≡ f k) → IsHeap (suc n) f → Sinks n g 0
Sinks-pop n f g same heap = record {
  order = λ i h hn ne.
      rw (same i h hn, same (parent i) (omega arith) (omega arith)) (heap i h (omega arith));
  below = λ i h hn none is. absurd (omega arith);
}

-- The first time is the least.
pub IsHeap-root : (fuel n : ℕ) (f : ℕ → ℕ) → IsHeap n f → (i : ℕ) → i < n → i ≤ fuel → f 0 ≤ f i
IsHeap-root zero n f heap i hn small = grind (arith)
IsHeap-root (suc fuel) n f heap zero hn small = omega arith
IsHeap-root (suc fuel) n f heap (suc i) hn small = omega (
  arith,
  heap (suc i) (omega arith) hn,
  IsHeap-root fuel n f heap (parent (suc i)) (omega arith) (omega arith),
)
