-- ===== src/Codegen/Generator/Text/Trim.antt =====
-- `bytes.TrimSpace` on bytes that are no white space.
use go_cloud_des.Prelude.{ℕ, ◌≡◌, ◌<◌, ◌∙◌, refl, sym, ap, arith, [], ◌∷◌, ◌++◌, All}
use mathlib.Core.List.{reverse, reverse-cons, reverse-reverse}
use go_cloud_des.Codegen.Generator.Text.{Bytes, trim_by, space_size, space_size_back, trim_space}

-- A byte of ASCII that is printed.
abbrev pub IsPlain : ℕ → Type 0
IsPlain c = (32 < c) × (c < 128)

plain_size : (c : ℕ) (cs : Bytes) → IsPlain c → space_size (c ∷ cs) ≡ 0
unfolding space_size
plain_size c [] p = ground (arith, p)
plain_size c (d ∷ []) p = ground (arith, p)
plain_size c (d ∷ e ∷ cs) p = ground (arith, p)

plain_size_back : (c : ℕ) (cs : Bytes) → IsPlain c → space_size_back (c ∷ cs) ≡ 0
unfolding space_size_back
plain_size_back c [] p = ground (arith, p)
plain_size_back c (d ∷ []) p = ground (arith, p)
plain_size_back c (d ∷ e ∷ cs) p = ground (arith, p)

trim_by-plain :
    (size : Bytes → ℕ) (c : ℕ) (cs : Bytes) → size (c ∷ cs) ≡ 0 → trim_by size 0 (c ∷ cs) ≡ c ∷ cs
unfolding trim_by
trim_by-plain size c cs h = rw (trim_by, h) refl

trim_back :
    (xs : Bytes) (c : ℕ)
    → All IsPlain xs
    → IsPlain c
    → trim_by space_size_back 0 (xs ++ c ∷ []) ≡ xs ++ c ∷ []
trim_back [] c all p = trim_by-plain space_size_back c [] (plain_size_back c [] p)
trim_back (d ∷ xs) c (q, all) p =
    trim_by-plain space_size_back d (xs ++ c ∷ []) (plain_size_back d (xs ++ c ∷ []) q)

All-snoc : (xs : Bytes) (c : ℕ) → All IsPlain xs → IsPlain c → All IsPlain (xs ++ c ∷ [])
All-snoc [] c all p = (p, tt)
All-snoc (d ∷ xs) c (q, all) p = (q, All-snoc xs c all p)

All-reverse : (xs : Bytes) → All IsPlain xs → All IsPlain (reverse xs)
All-reverse [] all = tt
All-reverse (c ∷ xs) (p, all) =
    rw (reverse-cons c xs) (All-snoc (reverse xs) c (All-reverse xs all) p)

pub trim_space-plain :
    (c : ℕ) (cs : Bytes) → IsPlain c → All IsPlain cs → trim_space (c ∷ cs) ≡ c ∷ cs
unfolding trim_space
trim_space-plain c cs p all =
    ap (λ xs. reverse (trim_by space_size_back 0 (reverse xs)))
      (trim_by-plain space_size c cs (plain_size c cs p))
    ∙ ap reverse (
        ap (trim_by space_size_back 0) (reverse-cons c cs)
        ∙ trim_back (reverse cs) c (All-reverse cs all) p
        ∙ sym (reverse-cons c cs))
    ∙ reverse-reverse (c ∷ cs)
