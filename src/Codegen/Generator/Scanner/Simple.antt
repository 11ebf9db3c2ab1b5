-- ===== src/Codegen/Generator/Scanner/Simple.antt =====
-- Texts of codegen/generator/ in which bytes.TrimSpace and trimLeftSpaces take the same for white space,
-- and the scanner on them.
use go_cloud_des.Prelude.{
  ℕ, zero, suc, ◌≡◌, ◌∙◌, refl, sym, ap, arith, Bool, true, false, not, ◌&&◌, ◌||◌, ◌==◌, nat_eq,
  Option, none, some, [], ◌∷◌, ◌++◌, All, Bool-cases, take, drop, length, ◌<◌, if◌then◌else◌, inl,
  inr, ◌≢◌,
}
use mathlib.Core.List.{reverse, reverse-cons, reverse-reverse}
use go_cloud_des.Codegen.Generator.Text.{
  Bytes, trim_by, space_size, space_size_back, trim_space, index_byte,
}
use go_cloud_des.Codegen.Generator.Scanner.{
  LineScanner, is_space, trim_left_spaces, cut_return, take_line, scan_text, split_word,
}

-- No vertical tab or form feed, and no first byte of a white space of several bytes.
abbrev pub is_simple : ℕ → Bool
is_simple c = not (c == 11 || c == 12 || c == 0xc2 || c == 0xe1 || c == 0xe2 || c == 0xe3)

abbrev pub all_simple : Bytes → Bool
all_simple [] = true
all_simple (c ∷ cs) = is_simple c && all_simple cs

abbrev pub IsSimple : Bytes → Type 0
IsSimple cs = All (λ c. is_simple c ≡ true) cs

pub all_simple-IsSimple : (cs : Bytes) → all_simple cs ≡ true → IsSimple cs
all_simple-IsSimple [] h = tt
all_simple-IsSimple (c ∷ cs) h = (ground (arith, h), all_simple-IsSimple cs (ground (arith, h)))

pub IsSimple-trim_left : (cs : Bytes) → IsSimple cs → IsSimple (trim_left_spaces cs)
unfolding trim_left_spaces
IsSimple-trim_left [] all = tt
IsSimple-trim_left (c ∷ cs) (p, all) = elim (Bool-cases (is_space c)) [
  | inl e ↦ rw e (IsSimple-trim_left cs all)
  | inr e ↦ rw e (p, all)
]

pub IsSimple-split_word : (cs : Bytes) → IsSimple cs → IsSimple (split_word cs).1
unfolding split_word
IsSimple-split_word [] all = tt
IsSimple-split_word (c ∷ cs) (p, all) = elim (Bool-cases (c == b' ' || c == b'\t')) [
  | inl e ↦ rw e (p, all)
  | inr e ↦ rw e (IsSimple-split_word cs all)
]

IsSimple-take : (n : ℕ) (cs : Bytes) → IsSimple cs → IsSimple (take n cs)
IsSimple-take zero cs all = tt
IsSimple-take (suc n) [] all = tt
IsSimple-take (suc n) (c ∷ cs) (p, all) = (p, IsSimple-take n cs all)

IsSimple-drop : (n : ℕ) (cs : Bytes) → IsSimple cs → IsSimple (drop n cs)
IsSimple-drop zero cs all = all
IsSimple-drop (suc n) [] all = tt
IsSimple-drop (suc n) (c ∷ cs) (p, all) = IsSimple-drop n cs all

IsSimple-cut_return : (cs : Bytes) → IsSimple cs → IsSimple (cut_return cs)
unfolding cut_return
IsSimple-cut_return [] all = tt
IsSimple-cut_return (c ∷ []) all = elim (Bool-cases (c == b'\r')) [
  | inl e ↦ rw e tt
  | inr e ↦ rw e all
]
IsSimple-cut_return (c ∷ d ∷ cs) (p, all) = (p, IsSimple-cut_return (d ∷ cs) all)

-- The text and the line of the scanner.
abbrev pub Simple : LineScanner → Type 0
Simple s = IsSimple s.text × IsSimple s.line

take_line-Simple :
    (s : LineScanner) (text : Bytes) (at : Option ℕ) → IsSimple text → Simple (take_line s text at)
unfolding take_line
take_line-Simple s text none all = (tt, all)
take_line-Simple s text (some idx) all = (
  IsSimple-drop (suc idx) text all,
  IsSimple-cut_return (take idx text) (IsSimple-take idx text all),
)

pub scan_text-Simple :
    (s s' : LineScanner) (text : Bytes) → scan_text s text ≡ some s' → IsSimple text → Simple s'
unfolding scan_text
scan_text-Simple s s' [] h all = cc
scan_text-Simple s s' (c ∷ cs) h all =
    let e : take_line s (c ∷ cs) (index_byte (c ∷ cs) b'\n') ≡ s' = cc in
    rw e at (take_line-Simple s (c ∷ cs) (index_byte (c ∷ cs) b'\n') all)

no_space : (c : ℕ) (cs : Bytes) → is_simple c ≡ true → is_space c ≡ false → space_size (c ∷ cs) ≡ 0
unfolding space_size
no_space c [] p e = ground (arith, p, e)
no_space c (d ∷ []) p e = ground (arith, p, e)
no_space c (d ∷ f ∷ cs) p e = ground (arith, p, e)

-- A white space at the end is one byte.
size_back :
    (c : ℕ) (cs : Bytes)
    → IsSimple (c ∷ cs)
    → space_size_back (c ∷ cs) ≡ (if is_space c then 1 else 0)
unfolding space_size_back
size_back c [] (p, all) = ground (arith, p)
size_back c (d ∷ []) (p, (q, all)) = ground (arith, p, q)
size_back c (d ∷ f ∷ cs) (p, (q, (r, all))) = ground (arith, p, q, r)

All-snoc : (xs : Bytes) (c : ℕ) → IsSimple xs → is_simple c ≡ true → IsSimple (xs ++ c ∷ [])
All-snoc [] c all p = (p, tt)
All-snoc (d ∷ xs) c (q, all) p = (q, All-snoc xs c all p)

All-reverse : (xs : Bytes) → IsSimple xs → IsSimple (reverse xs)
All-reverse [] all = tt
All-reverse (c ∷ xs) (p, all) =
    rw (reverse-cons c xs) (All-snoc (reverse xs) c (All-reverse xs all) p)

trim_step :
    (size : Bytes → ℕ) (c : ℕ) (cs : Bytes) → size (c ∷ cs) ≡ 0 → trim_by size 0 (c ∷ cs) ≡ c ∷ cs
unfolding trim_by
trim_step size c cs h = rw (trim_by, h) refl

trim_skip :
    (size : Bytes → ℕ) (c : ℕ) (cs : Bytes)
    → size (c ∷ cs) ≡ 1
    → trim_by size 0 (c ∷ cs) ≡ trim_by size 0 cs
unfolding trim_by
trim_skip size c cs h = rw (trim_by, h) refl

-- What ends on a byte that is no white space is not trimmed away.
trim_back :
    (xs : Bytes) (c : ℕ)
    → IsSimple (xs ++ c ∷ [])
    → is_space c ≡ false
    → trim_by space_size_back 0 (xs ++ c ∷ []) ≢ []
trim_back [] c all e = λ h. cc (trim_step space_size_back c [] (size_back c [] all ∙ (rw e refl)))
trim_back (d ∷ xs) c (q, all) e = elim (Bool-cases (is_space d)) [
  | inl s ↦ λ h.
      trim_back xs c all e (
        sym (trim_skip space_size_back d (xs ++ c ∷ []) (size_back d _ (q, all) ∙ (rw s refl))) ∙ h)
  | inr s ↦
      λ h. cc (trim_step space_size_back d (xs ++ c ∷ []) (size_back d _ (q, all) ∙ (rw s refl)))
]

trim_first :
    (c : ℕ) (cs : Bytes) → IsSimple (c ∷ cs) → is_space c ≡ false → trim_space (c ∷ cs) ≢ []
unfolding trim_space
trim_first c cs (p, all) e h =
    let front = trim_step space_size c cs (no_space c cs p e) in
    let back = trim_by space_size_back 0 (reverse (trim_by space_size 0 (c ∷ cs))) in
    let gone : back ≡ [] = sym (reverse-reverse back) ∙ ap reverse h in
    trim_back (reverse cs) c (All-snoc (reverse cs) c (All-reverse cs all) p) e
      (ap (trim_by space_size_back 0) (sym (reverse-cons c cs) ∙ ap reverse (sym front)) ∙ gone)

starts_unspaced :
    (cs : Bytes) (d : ℕ) (ds : Bytes) → trim_left_spaces cs ≡ d ∷ ds → is_space d ≡ false
unfolding trim_left_spaces
starts_unspaced [] d ds h = cc
starts_unspaced (c ∷ cs) d ds h = elim (Bool-cases (is_space c)) [
  | inl e ↦ starts_unspaced cs d ds (rw e at h)
  | inr e ↦ let k : c ∷ cs ≡ d ∷ ds = rw e at h in let q : c ≡ d = cc in rw q at e
]

nonempty : (cs : Bytes) → cs ≢ [] → 0 < length cs
nonempty [] h = absurd (h refl)
nonempty (c ∷ cs) h = omega arith

-- TrimSpace leaves something of a line of which trimLeftSpaces does.
pub trim_space-trim_left :
    (line : Bytes)
    → IsSimple line
    → 0 < length (trim_left_spaces line)
    → 0 < length (trim_space (trim_left_spaces line))
trim_space-trim_left line all some_text =
    go (trim_left_spaces line) refl (IsSimple-trim_left line all) some_text
  where
    go :
        (cs : Bytes)
        → trim_left_spaces line ≡ cs
        → IsSimple cs
        → 0 < length cs
        → 0 < length (trim_space cs)
    go [] q simple h = absurd (omega arith)
    go (d ∷ ds) q simple h =
        nonempty (trim_space (d ∷ ds)) (trim_first d ds simple (starts_unspaced line d ds q))
