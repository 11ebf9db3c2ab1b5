-- ===== src/Codegen/Generator/Validate/Search.antt =====
-- What a search through blocks leaves behind: a way to the target, or a set of visited blocks that is
-- closed under their successors.
use go_cloud_des.Prelude.{
  ℕ, zero, suc, ◌≡◌, ◌≢◌, ◌<◌, ◌≤◌, inl, inr, refl, sym, ap, arith, Bool, true, false, ◌||◌, ◌==◌,
  nat_eq, eq_iff, ne_of_beq, Option, none, some, List, [], ◌∷◌, if◌then◌else◌, contains, Bool-cases,
  subst, beq_refl,
}
use go_cloud_des.Codegen.Generator.Validate.Reach.{Answer}

abbrev pub has_link : ℕ → List (Option ℕ) → Bool
has_link j [] = false
has_link j (none ∷ links) = has_link j links
has_link j (some i ∷ links) = i == j || has_link j links

-- Every pointer is set, to one of `n` places.
abbrev pub LinksIn : ℕ → List (Option ℕ) → Type 0
LinksIn n [] = Unit {0}
LinksIn n (none ∷ links) = ⊥
LinksIn n (some i ∷ links) = (i < n) × LinksIn n links

-- The places below `n` that are not visited.
unfoldable pub unseen : ℕ → List ℕ → ℕ
unseen zero visited = 0
unseen (suc k) visited =
    let rest = unseen k visited in if contains k visited then rest else suc rest

unseen-keep : (k i : ℕ) (visited : List ℕ) → k ≤ i → unseen k (i ∷ visited) ≡ unseen k visited
unfolding unseen
unseen-keep zero i visited h = refl
unseen-keep (suc k) i visited h = ground (arith, unseen-keep k i visited (omega arith), eq_iff i k)

pub unseen_bound : (n : ℕ) (visited : List ℕ) → unseen n visited ≤ n
unfolding unseen
unseen_bound zero visited = omega arith
unseen_bound (suc n) visited = ground (arith, unseen_bound n visited)

pub unseen-cons :
    (n i : ℕ) (visited : List ℕ)
    → i < n
    → contains i visited ≡ false
    → suc (unseen n (i ∷ visited)) ≡ unseen n visited
unfolding unseen
unseen-cons zero i visited h new = absurd (omega arith)
unseen-cons (suc n) i visited h new = elim (Bool-cases (i == n)) [
  | inl e ↦
      let q : n ≡ i = sym ((eq_iff i n).0 e) in
      ground (
        arith,
        e,
        unseen-keep n i visited (omega (arith, q)),
        new,
        q,
        ap (λ k. contains k visited) q,
      )
  | inr e ↦
      let less : i < n = ground (arith, e, h) in ground (arith, e, unseen-cons n i visited less new)
]

pub unseen-le :
    (n : ℕ) (u v : List ℕ)
    → ((x : ℕ) → contains x u ≡ true → contains x v ≡ true)
    → unseen n v ≤ unseen n u
unfolding unseen
unseen-le zero u v sub = omega arith
unseen-le (suc n) u v sub = ground (arith, unseen-le n u v sub, sub n)

module _ (succ : ℕ → List (Option ℕ)) where
  -- A way along successors.
  pub data Leads : ℕ → ℕ → Type 0 where
    here : {i : ℕ} → Leads i i
    step : (i j k : ℕ) → has_link j (succ i) ≡ true → Leads j k → Leads i k

  pub record Closed (target : ℕ) (starts : List (Option ℕ)) (visited v : List ℕ) : Type 0 where
    pub kept : (x : ℕ) → contains x visited ≡ true → contains x v ≡ true
    pub starts_in : (x : ℕ) → has_link x starts ≡ true → contains x v ≡ true
    pub ends :
        (x y : ℕ)
        → contains x v ≡ true
        → contains x visited ≡ false
        → has_link y (succ x) ≡ true
        → contains y v ≡ true
    pub missed : (x : ℕ) → contains x v ≡ true → contains x visited ≡ false → x ≢ target

  pub data Explores (target : ℕ) (starts : List (Option ℕ)) (visited : List ℕ)
      : Answer → Type 0 where
    found :
        {v : List ℕ} (j : ℕ)
        → has_link j starts ≡ true
        → Leads j target
        → Explores target starts visited (some (true, v))
    closed :
        {v : List ℕ}
        → Closed target starts visited v
        → Explores target starts visited (some (false, v))

  pub Closed-none : (target : ℕ) (visited : List ℕ) → Closed target [] visited visited
  Closed-none target visited = record {
    kept = λ x h. h;
    starts_in = λ x h. cc;
    ends = λ x y h g. cc;
    missed = λ x h g. cc;
  }

  pub Closed-visited :
      (target current : ℕ) (visited : List ℕ)
      → contains current visited ≡ true
      → Closed target (some current ∷ []) visited visited
  Closed-visited target current visited old = record {
    kept = λ x h. h;
    starts_in = λ x h. ground (arith, eq_iff current x, h, old, ap (λ k. contains k visited));
    ends = λ x y h g. cc;
    missed = λ x h g. cc;
  }

  -- The block itself, and then what its successors have left.
  pub Closed-node :
      (target current : ℕ) (visited v : List ℕ)
      → (current == target) ≡ false
      → Closed target (succ current) (current ∷ visited) v
      → Closed target (some current ∷ []) visited v
  Closed-node target current visited v away c = record {
    kept = λ x h. c.kept x (ground (arith, h));
    starts_in = λ x h. c.kept x (ground (arith, h));
    ends = λ x y h g l. elim (Bool-cases (current == x)) [
      | inl e ↦
          let q : x ≡ current = sym ((eq_iff current x).0 e) in
          c.starts_in y (subst (λ k. has_link y (succ k) ≡ true) q l)
      | inr e ↦ c.ends x y h (ground (arith, e, g)) l
    ];
    missed = λ x h g. elim (Bool-cases (current == x)) [
      | inl e ↦
          let q : current ≡ x = (eq_iff current x).0 e in
          subst (λ k. k ≢ target) q (ne_of_beq current target away)
      | inr e ↦ c.missed x h (ground (arith, e, g))
    ];
  }

  pub Closed-cons :
      (target i : ℕ) (links : List (Option ℕ)) (visited v w : List ℕ)
      → Closed target (some i ∷ []) visited v
      → Closed target links v w
      → Closed target (some i ∷ links) visited w
  Closed-cons target i links visited v w c d = record {
    kept = λ x h. d.kept x (c.kept x h);
    starts_in = λ x h. ground (arith, h, d.starts_in x, c.starts_in x, d.kept x);
    ends = λ x y h g l. elim (Bool-cases (contains x v)) [
      | inl e ↦ d.kept y (c.ends x y e g l)
      | inr e ↦ d.ends x y h e l
    ];
    missed = λ x h g. elim (Bool-cases (contains x v)) [
      | inl e ↦ c.missed x e g
      | inr e ↦ d.missed x h e
    ];
  }

  -- From a closed set that misses the target, nothing leads to it.
  pub Closed-no_way :
      (target i : ℕ) (v : List ℕ) → Closed target (some i ∷ []) [] v → Leads i target → ⊥
  Closed-no_way target i v c way = go way (c.starts_in i (ground (arith, beq_refl i)))
    where
      go : {k : ℕ} → Leads k target → contains k v ≡ true → ⊥
      go here h = c.missed target h refl refl
      go (step from j to l rest) h = go rest (c.ends from j h refl l)
