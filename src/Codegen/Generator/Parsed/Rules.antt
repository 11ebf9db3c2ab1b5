-- ===== src/Codegen/Generator/Parsed/Rules.antt =====
-- Postconditions on the parsers, step by step.
use go_cloud_des.Prelude.{
  ℕ, zero, suc, ◌-◌, ◌≡◌, ◌<◌, ◌≤◌, inl, inr, refl, arith, Bool, true, false, nat_eq, Option, none,
  some, List, [], ◌∷◌, if◌then◌else◌, length, drop, Option-cases,
}
use go_cloud_des.Codegen.Generator.Text.{Bytes, bytes_eq, index_byte, trim_space}
use go_cloud_des.Codegen.Generator.Scanner.{LineScanner, trim_left_spaces, scan_text, scan}
use go_cloud_des.Codegen.Generator.Parsed.{
  Reason, Parsed, ok, err, panic, bind, Action, fail_if, scan_lines, scan_no_empty, word, or_empty,
  no_more_words, need_word, Round, again, return, rounds, each_line, scan, no_more, unless_blank,
  word_of, needed, one_round, after_round,
}
use go_cloud_des.Codegen.Generator.Scanner.Simple.{
  IsSimple, Simple, IsSimple-trim_left, IsSimple-split_word, scan_text-Simple,
}

-- What is known of a scanner: the most bytes of the text that are left, and whether the text and the
-- line are simple.
pub record Bound : Type 0 where
  pub size : ℕ
  pub simple : Bool

abbrev pub bound : ℕ → Bool → Bound
bound size simple = record { size = size; simple = simple }

abbrev pub Fits : Bound → LineScanner → Type 0
Fits n s = (length s.text ≤ n.size) × (n.simple ≡ true → Simple s)

-- The run does not end for want of fuel, and a value that it returns has `P`, with a scanner that fits.
pub data Ensures {ℓ κ} {A : Type ℓ} (n : Bound) (P : A → Type κ) : Parsed A → Type (ℓ ⊔ κ) where
  holds : {a : A} {s : LineScanner} → P a → Fits n s → Ensures n P (ok a s)
  failed : {l : ℕ} {why : Reason} → Ensures n P (err l why)
  crashed : Ensures n P panic

module _ {ℓ κ} {A : Type ℓ} {P : A → Type κ} where
  pub Ensures-bind {ℓ' κ'} :
      {B : Type ℓ'} {Q : B → Type κ'} {n m : Bound} {r : Parsed A} {f : A → LineScanner → Parsed B}
      → Ensures n P r
      → ((a : A) (s : LineScanner) → P a → Fits n s → Ensures m Q (f a s))
      → Ensures m Q (bind r f)
  Ensures-bind (holds {a} {s} h le) k = k a s h le
  Ensures-bind failed k = failed
  Ensures-bind crashed k = crashed

  pub Ensures-weaken {κ'} :
      {Q : A → Type κ'} {n m : Bound} {r : Parsed A}
      → Ensures n P r
      → n.size ≤ m.size
      → n.simple ≡ m.simple
      → ((a : A) → P a → Q a)
      → Ensures m Q r
  Ensures-weaken (holds {a} h (le, simple)) l same k =
      holds (k a h) (omega arith, rw same at simple)
  Ensures-weaken failed l same k = failed
  Ensures-weaken crashed l same k = crashed

-- A test between two actions.
pub Ensures-branch {ℓ κ} :
    {A : Type ℓ} {P : A → Type κ} (b : Bool) (x y : Action A) {n : Bound} {s : LineScanner}
    → (b ≡ true → Ensures n P (x s))
    → (b ≡ false → Ensures n P (y s))
    → Ensures n P ((if b then x else y) s)
Ensures-branch true x y hx hy = hx refl
Ensures-branch false x y hx hy = hy refl

length-drop {ℓ} : {A : Type ℓ} (n : ℕ) (xs : List A) → length (drop n xs) ≡ length xs - n
length-drop zero xs = omega arith
length-drop (suc n) [] = omega arith
length-drop (suc n) (x ∷ xs) = omega (arith, length-drop n xs)

-- A line takes a byte at least.
scan_text-lt :
    (s s' : LineScanner) (text : Bytes) → scan_text s text ≡ some s' → length s'.text < length text
unfolding scan_text
scan_text-lt s s' [] h = cc
scan_text-lt s s' (c ∷ cs) h = elim (Option-cases (index_byte (c ∷ cs) b'\n')) [
  | inl e ↦ ground (arith, e)
  | inr (idx, e) ↦ ground (arith, e, length-drop idx cs)
]

-- A line that is not blank, with less of the text left, or the end.
data Scans (n : ℕ) (simple : Bool) : Parsed Bool → Type 0 where
  hit :
      {s : LineScanner}
      → length s.text < n
      → (simple ≡ true → Simple s)
      → Scans n simple (ok true s)
  miss :
      {s : LineScanner}
      → length s.text ≤ n
      → (simple ≡ true → Simple s)
      → Scans n simple (ok false s)

Scans-weaken :
    {n m : ℕ} {simple : Bool} {r : Parsed Bool} → Scans n simple r → n ≤ m → Scans m simple r
Scans-weaken (hit h k) le = hit (omega arith) k
Scans-weaken (miss h k) le = miss (omega arith) k

unless_blank-Scans :
    (next : Action Bool) (s : LineScanner) (trimmed : Bytes) (n : ℕ) (simple : Bool)
    → length s.text < n
    → (simple ≡ true → Simple s)
    → Scans n simple (next s)
    → Scans n simple (unless_blank next s trimmed)
unfolding unless_blank
unless_blank-Scans next s [] n simple le k rest = rest
unless_blank-Scans next s (c ∷ cs) n simple le k rest = hit le k

scan_lines-Scans :
    (fuel : ℕ) (s : LineScanner) (simple : Bool)
    → length s.text < fuel
    → (simple ≡ true → Simple s)
    → Scans (length s.text) simple (scan_lines fuel s)
unfolding scan_lines scan
scan_lines-Scans zero s simple h k = absurd (omega arith)
scan_lines-Scans (suc fuel) s simple h k = elim (Option-cases (scan_text s s.text)) [
  | inl e ↦ rw e (miss (omega arith) (λ q. ((k q).0, tt)))
  | inr (s', e) ↦
      let less = scan_text-lt s s' s.text e in
      let k' : simple ≡ true → Simple s' = λ q. scan_text-Simple s s' s.text e (k q).0 in
      let rest = scan_lines-Scans fuel s' simple (omega (arith, less)) k' in
      rw e (
        unless_blank-Scans (scan_lines fuel) s' (trim_space s'.line) (length s.text) simple less k'
          (Scans-weaken rest (omega (arith, less))))
]

scan_no_empty-Scans :
    (s : LineScanner) (simple : Bool)
    → (simple ≡ true → Simple s)
    → Scans (length s.text) simple (scan_no_empty s)
unfolding scan_no_empty
scan_no_empty-Scans s simple k = scan_lines-Scans (suc (length s.text)) s simple (omega arith) k

pub scan_no_empty-Ensures :
    (n : Bound) (s : LineScanner) → Fits n s → Ensures n (λ (_ : Bool). Unit {0}) (scan_no_empty s)
scan_no_empty-Ensures n s (le, k) = go (scan_no_empty s) (scan_no_empty-Scans s n.simple k)
  where
    go : (r : Parsed Bool) → Scans (length s.text) n.simple r → Ensures n (λ (_ : Bool). Unit {0}) r
    go r (hit h k') = holds tt (omega arith, k')
    go r (miss h k') = holds tt (omega arith, k')

pub word-Ensures :
    (n : Bound) (s : LineScanner) → Fits n s → Ensures n (λ (_ : Option Bytes). Unit {0}) (word s)
unfolding word
word-Ensures n s (le, k) = go (trim_left_spaces s.line) (λ q. IsSimple-trim_left s.line (k q).1)
  where
    go :
        (cs : Bytes)
        → (n.simple ≡ true → IsSimple cs)
        → Ensures n (λ (_ : Option Bytes). Unit {0}) (word_of s cs)
    go [] simple = holds tt (le, (λ q. ((k q).0, tt)))
    go (c ∷ cs) simple = holds tt (le, (λ q. ((k q).0, IsSimple-split_word (c ∷ cs) (simple q))))

pub no_more_words-Ensures :
    (n : Bound) (s : LineScanner) (why : Reason)
    → Fits n s
    → Ensures n (λ (_ : Unit {0}). Unit {0}) (no_more_words why s)
unfolding no_more_words
no_more_words-Ensures n s why le = Ensures-bind (word-Ensures n s le) λ w t _ le'. go w t le'
  where
    go :
        (w : Option Bytes) (t : LineScanner)
        → Fits n t
        → Ensures n (λ (_ : Unit {0}). Unit {0}) (no_more why w t)
    go none t le' = holds tt le'
    go (some w) t le' = failed

pub need_word-Ensures :
    (n : Bound) (s : LineScanner) (why : Reason)
    → Fits n s
    → Ensures n (λ (_ : Bytes). Unit {0}) (need_word why s)
unfolding need_word
need_word-Ensures n s why le = Ensures-bind (word-Ensures n s le) λ w t _ le'. go w t le'
  where
    go :
        (w : Option Bytes) (t : LineScanner)
        → Fits n t
        → Ensures n (λ (_ : Bytes). Unit {0}) (needed why w t)
    go none t le' = failed
    go (some w) t le' = holds tt le'

pub fail_if-Ensures :
    (n : Bound) (s : LineScanner) (b : Bool) (why : Reason)
    → Fits n s
    → Ensures n (λ (_ : Unit {0}). b ≡ false) (fail_if b why s)
fail_if-Ensures n s true why le = failed
fail_if-Ensures n s false why le = holds refl le

-- What a round leaves: the invariant of the loop, or what it is to return.
abbrev pub RoundOf {ℓ κ ℓ'} :
    {S : Type ℓ} {A : Type κ} → (S → Type ℓ') → (A → Type ℓ') → Round S A → Type ℓ'
RoundOf I Q (again st) = I st
RoundOf I Q (return a) = Q a

module _ {ℓ κ ℓ'} {S : Type ℓ} {A : Type κ} (simple : Bool) (I : S → Type ℓ') (Q : A → Type ℓ')
    (body : S → Bytes → Action (Round S A))
    (keeps : (st : S) (w : Bytes) (n : ℕ) (s : LineScanner)
      → I st
      → Fits (bound n simple) s
      → Ensures (bound n simple) (RoundOf I Q) (body st w s)) where
  one_round-Ensures :
      (next : S → Action A) (n m : ℕ)
      → ((st : S) (s : LineScanner)
          → I st
          → Fits (bound n simple) s
          → Ensures (bound m simple) Q (next st s))
      → n ≤ m
      → (st : S) (s : LineScanner) → I st
      → Fits (bound n simple) s
      → Ensures (bound m simple) Q (one_round body next st true s)
  unfolding one_round after_round
  one_round-Ensures next n m then_next nm st s i le =
      Ensures-bind (word-Ensures (bound n simple) s le) λ param t _ le'.
        Ensures-bind (keeps st (or_empty param) n t i le') λ r u ok_r le''. go r u ok_r le''
    where
      go :
          (r : Round S A) (u : LineScanner)
          → RoundOf I Q r
          → Fits (bound n simple) u
          → Ensures (bound m simple) Q (after_round next r u)
      go (again st') u i' le'' = then_next st' u i' le''
      go (return a) u q (le'', k) = holds q (omega (arith, le'', nm), k)

  rounds-Ensures :
      (fuel : ℕ) (st : S) (s : LineScanner)
      → I st
      → length s.text < fuel
      → (simple ≡ true → Simple s)
      → Ensures (bound (length s.text) simple) Q (rounds body fuel st s)
  unfolding rounds
  rounds-Ensures zero st s i le k = absurd (omega arith)
  rounds-Ensures (suc fuel) st s i le k =
      go (rounds-Ensures fuel) (scan_no_empty s) (scan_no_empty-Scans s simple k)
    where
      go :
          ((st' : S) (t : LineScanner)
            → I st'
            → length t.text < fuel
            → (simple ≡ true → Simple t)
            → Ensures (bound (length t.text) simple) Q (rounds body fuel st' t))
          → (r : Parsed Bool) → Scans (length s.text) simple r
          → Ensures (bound (length s.text) simple) Q (bind r (one_round body (rounds body fuel) st))
      go ih r (hit {s = t} h k') =
          one_round-Ensures (rounds body fuel) (length t.text) (length s.text)
            (λ st' u i' (le', k'').
              Ensures-weaken (ih st' u i' (omega (arith, le, h, le')) k'') (omega (arith, le', h))
                refl (λ a q. q))
            (omega (arith, h)) st t i (omega arith, k')
      go ih r (miss h k') = failed

  pub each_line-Ensures :
      (n : ℕ) (st : S) (s : LineScanner)
      → I st
      → Fits (bound n simple) s
      → Ensures (bound n simple) Q (each_line body st s)
  unfolding each_line
  each_line-Ensures n st s i (le, k) =
      Ensures-weaken (rounds-Ensures (suc (length s.text)) st s i (omega arith) k) le refl
        (λ a q. q)
