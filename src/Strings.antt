-- ===== src/Strings.antt =====
-- What the program uses of Go's `strings` package, on texts as sequences of code points.
use Prim.Native.Char.{code}
use Prim.Native.String.{String, [], ◌∷◌}
use go_cloud_des.Prelude.{
  ℕ, Bool, ◌&&◌, ◌||◌, leb, ◌==◌, nat_eq, string_eq, if◌then◌else◌, List, true, ◌-◌, false,
}

-- `unicode.IsSpace`.
unfoldable pub is_space : ℕ → Bool
is_space c =
    (leb 9 c && leb c 13)
    || c == 32
    || c == 0x85
    || c == 0xa0
    || c == 0x1680
    || (leb 0x2000 c && leb c 0x200a)
    || c == 0x2028
    || c == 0x2029
    || c == 0x202f
    || c == 0x205f
    || c == 0x3000

unfoldable pub trim_left : String → String
unfolding is_space
trim_left [] = []
trim_left (c ∷ s) = let rest = trim_left s in if is_space (code c) then rest else c ∷ s

unfoldable pub trim_right : String → String
unfolding is_space
trim_right [] = []
trim_right (c ∷ s) =
    let rest = trim_right s in if rest == "" && is_space (code c) then [] else c ∷ rest

-- `strings.TrimSpace`.
unfoldable pub trim_space : String → String
unfolding trim_left trim_right
trim_space s = trim_right (trim_left s)

-- The code points of a text.
abbrev pub codes : String → List ℕ
codes [] = List.[]
codes (c ∷ s) = List.◌∷◌ (code c) (codes s)

-- `strings.ToUpper` as code points. A letter beyond ASCII whose capital is an ASCII letter is
-- written out; the others are left, which no comparison with an ASCII text can see.
unfoldable pub to_upper : String → List ℕ
to_upper [] = List.[]
to_upper (c ∷ s) = List.◌∷◌ (upper (code c)) (to_upper s)
  where
    upper : ℕ → ℕ
    upper n =
        if leb b'a' n && leb n b'z'
        then n - 32
        else if n == 0x131
        then b'I'
        else if n == 0x17f
        then b'S'
        else n

unfoldable pub same_codes : List ℕ → List ℕ → Bool
same_codes List.[] List.[] = true
same_codes (List.◌∷◌ a as') (List.◌∷◌ b bs) = a == b && same_codes as' bs
same_codes _ _ = false
