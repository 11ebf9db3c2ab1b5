-- ===== src/Codegen/Slices.antt =====
-- Go's slices as codegen/container/ uses them: reads, writes, and what they hold.
use go_cloud_des.Prelude.{
  ℕ, zero, suc, ◌+◌, ◌≡◌, ◌≢◌, ◌<◌, refl, ap, arith, Bool, Option, none, some, List, [], ◌∷◌, ◌++◌,
  nat_eq, if◌then◌else◌, length, take,
}

abbrev pub one : Bool → ℕ
one b = if b then 1 else 0

module _ {ℓ} {A : Type ℓ} where
  -- `xs[i]`
  unfoldable pub get_elem? : List A → ℕ → Option A
  get_elem? [] i = none
  get_elem? (e ∷ es) zero = some e
  get_elem? (e ∷ es) (suc i) = get_elem? es i

  -- `xs[i] = e`, at an index that is in range.
  unfoldable pub set_elem : List A → ℕ → A → List A
  set_elem [] i e = []
  set_elem (x ∷ xs) zero e = e ∷ xs
  set_elem (x ∷ xs) (suc i) e = x ∷ set_elem xs i e

  -- How many members pass a test; two lists with the same counts hold the same members.
  unfoldable pub occurs : (A → Bool) → List A → ℕ
  occurs p [] = 0
  occurs p (x ∷ xs) = let rest = occurs p xs in if p x then suc rest else rest

  pub get_elem?-found : (xs : List A) (i : ℕ) → i < length xs → (e : A) × (get_elem? xs i ≡ some e)
  unfolding get_elem?
  get_elem?-found [] i h = absurd (omega arith)
  get_elem?-found (x ∷ xs) zero h = (x, refl)
  get_elem?-found (x ∷ xs) (suc i) h = get_elem?-found xs i (omega arith)

  pub length-set_elem : (xs : List A) (i : ℕ) (e : A) → length (set_elem xs i e) ≡ length xs
  unfolding set_elem
  length-set_elem [] i e = refl
  length-set_elem (x ∷ xs) zero e = refl
  length-set_elem (x ∷ xs) (suc i) e = omega (arith, length-set_elem xs i e)

  pub get-set_self :
      (xs : List A) (i : ℕ) (e : A) → i < length xs → get_elem? (set_elem xs i e) i ≡ some e
  unfolding get_elem? set_elem
  get-set_self [] i e h = absurd (omega arith)
  get-set_self (x ∷ xs) zero e h = refl
  get-set_self (x ∷ xs) (suc i) e h = get-set_self xs i e (omega arith)

  pub get-set_ne :
      (xs : List A) (i j : ℕ) (e : A) → j ≢ i → get_elem? (set_elem xs i e) j ≡ get_elem? xs j
  unfolding get_elem? set_elem
  get-set_ne [] i j e ne = refl
  get-set_ne (x ∷ xs) zero zero e ne = absurd (ne refl)
  get-set_ne (x ∷ xs) zero (suc j) e ne = refl
  get-set_ne (x ∷ xs) (suc i) zero e ne = refl
  get-set_ne (x ∷ xs) (suc i) (suc j) e ne = get-set_ne xs i j e (λ q. ne (ap suc q))

  pub occurs-set_elem :
      (p : A → Bool) (xs : List A) (i : ℕ) (old e : A)
      → get_elem? xs i ≡ some old
      → occurs p (set_elem xs i e) + one (p old) ≡ occurs p xs + one (p e)
  unfolding get_elem? set_elem occurs
  occurs-set_elem p [] i old e h = absurd (cc)
  occurs-set_elem p (x ∷ xs) zero old e h = let q : x ≡ old = cc in rw q (ground arith)
  occurs-set_elem p (x ∷ xs) (suc i) old e h = ground (arith, occurs-set_elem p xs i old e h)

  pub occurs-append :
      (p : A → Bool) (xs : List A) (e : A) → occurs p (xs ++ e ∷ []) ≡ occurs p xs + one (p e)
  unfolding occurs
  occurs-append p [] e = ground arith
  occurs-append p (x ∷ xs) e = ground (arith, occurs-append p xs e)

  pub get-take : (n : ℕ) (xs : List A) (i : ℕ) → i < n → get_elem? (take n xs) i ≡ get_elem? xs i
  unfolding get_elem?
  get-take zero xs i h = absurd (omega arith)
  get-take (suc n) [] i h = refl
  get-take (suc n) (x ∷ xs) zero h = refl
  get-take (suc n) (x ∷ xs) (suc i) h = get-take n xs i (omega arith)

  -- The last member, and those before it.
  pub occurs-take :
      (p : A → Bool) (n : ℕ) (xs : List A) (e : A)
      → length xs ≡ suc n
      → get_elem? xs n ≡ some e
      → occurs p xs ≡ occurs p (take n xs) + one (p e)
  unfolding get_elem? occurs
  occurs-take p n [] e h at = absurd (omega arith)
  occurs-take p zero (x ∷ []) e h at = let q : x ≡ e = cc in rw q (ground arith)
  occurs-take p zero (x ∷ y ∷ xs) e h at = absurd (omega arith)
  occurs-take p (suc n) (x ∷ xs) e h at = ground (arith, occurs-take p n xs e (omega arith) at)

  pub get-append :
      (xs : List A) (e : A) (i : ℕ) → i < length xs → get_elem? (xs ++ e ∷ []) i ≡ get_elem? xs i
  unfolding get_elem?
  get-append [] e i h = absurd (omega arith)
  get-append (x ∷ xs) e zero h = refl
  get-append (x ∷ xs) e (suc i) h = get-append xs e i (omega arith)

  pub get-append_last : (xs : List A) (e : A) → get_elem? (xs ++ e ∷ []) (length xs) ≡ some e
  unfolding get_elem?
  get-append_last [] e = refl
  get-append_last (x ∷ xs) e = get-append_last xs e
