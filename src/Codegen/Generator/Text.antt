-- ===== src/Codegen/Generator/Text.antt =====
-- Go's byte slices, and what codegen/generator/ uses of the packages bytes and strconv.
pub mod Trim
use go_cloud_des.Prelude.{
  ℕ, zero, suc, ◌+◌, ◌-◌, ◌*◌, ◌≡◌, ◌↔◌, ◌<◌, ◌≤◌, refl, ap, arith, Bool, true, false, ◌&&◌, ◌||◌,
  Option, none, some, List, [], ◌∷◌, ◌++◌, Eq, ◌==◌, nat_eq, if◌then◌else◌, leb, ltb, length, take,
  drop, u64_mod,
}
use mathlib.Core.List.{reverse}
use go_cloud_des.Strings.{codes}

abbrev pub Bytes : Type 0
Bytes = List ℕ

abbrev pub bytes_beq : Bytes → Bytes → Bool
bytes_beq [] [] = true
bytes_beq (a ∷ xs) (b ∷ ys) = a == b && bytes_beq xs ys
bytes_beq _ _ = false

pub bytes_beq_iff : (xs ys : Bytes) → (bytes_beq xs ys ≡ true) ↔ (xs ≡ ys)
bytes_beq_iff [] [] = (λ _. refl, λ _. refl)
bytes_beq_iff [] (y ∷ ys) = (λ h. cc, λ h. cc)
bytes_beq_iff (x ∷ xs) [] = (λ h. cc, λ h. cc)
bytes_beq_iff (x ∷ xs) (y ∷ ys) = ground (arith, bytes_beq_iff xs ys)

instance abbrev pub bytes_eq : Eq Bytes
bytes_eq = record { beq = bytes_beq; beq_iff = bytes_beq_iff }

-- `bytes.IndexByte`, and none for -1.
unfoldable pub index_byte : Bytes → ℕ → Option ℕ
index_byte [] b = none
index_byte (c ∷ cs) b =
    let rest = index_byte cs b in
    if c == b then some 0 else elim rest [ none ↦ none | some i ↦ some (suc i) ]

abbrev ascii_space : ℕ → Bool
ascii_space a = (leb 9 a && leb a 13) || a == 32

abbrev two_byte_space : ℕ → ℕ → Bool
two_byte_space a b = a == 0xc2 && (b == 0x85 || b == 0xa0)

abbrev three_byte_space : ℕ → ℕ → ℕ → Bool
three_byte_space a b c =
    (a == 0xe1 && b == 0x9a && c == 0x80)
    || (a == 0xe2
        && b == 0x80
        && ((leb 0x80 c && leb c 0x8a) || c == 0xa8 || c == 0xa9 || c == 0xaf))
    || (a == 0xe2 && b == 0x81 && c == 0x9f)
    || (a == 0xe3 && b == 0x80 && c == 0x80)

-- How many bytes the white space takes that a text begins with: `unicode.IsSpace` on UTF-8.
unfoldable pub space_size : Bytes → ℕ
space_size [] = 0
space_size (a ∷ []) = if ascii_space a then 1 else 0
space_size (a ∷ b ∷ []) = if ascii_space a then 1 else if two_byte_space a b then 2 else 0
space_size (a ∷ b ∷ c ∷ _) =
    if ascii_space a
    then 1
    else if two_byte_space a b
    then 2
    else if three_byte_space a b c
    then 3
    else 0

-- The same at the end of a text, which is given backwards.
unfoldable pub space_size_back : Bytes → ℕ
space_size_back [] = 0
space_size_back (a ∷ []) = if ascii_space a then 1 else 0
space_size_back (a ∷ b ∷ []) = if ascii_space a then 1 else if two_byte_space b a then 2 else 0
space_size_back (a ∷ b ∷ c ∷ _) =
    if ascii_space a
    then 1
    else if two_byte_space b a
    then 2
    else if three_byte_space c b a
    then 3
    else 0

-- Drops white space, `skip` bytes of which are still to go.
unfoldable pub trim_by : (Bytes → ℕ) → ℕ → Bytes → Bytes
trim_by size skip [] = []
trim_by size (suc skip) (c ∷ cs) = trim_by size skip cs
trim_by size zero (c ∷ cs) = elim (size (c ∷ cs)) [
  | zero ↦ c ∷ cs
  | suc skip ↦ trim_by size skip cs
]

-- `bytes.TrimSpace` and `strings.TrimSpace`.
unfoldable pub trim_space : Bytes → Bytes
unfolding trim_by space_size space_size_back
trim_space cs = reverse (trim_by space_size_back 0 (reverse (trim_by space_size 0 cs)))

abbrev pub is_digit : ℕ → Bool
is_digit c = leb b'0' c && leb c b'9'

-- The number that a text of decimal digits denotes.
unfoldable pub decimal : ℕ → Bytes → Option ℕ
decimal acc [] = some acc
decimal acc (c ∷ cs) =
    let rest = decimal (acc * 10 + (c - b'0')) cs in if is_digit c then rest else none

abbrev below : ℕ → Option ℕ → Option ℕ
below limit none = none
below limit (some n) = if ltb n limit then some n else none

-- `strconv.ParseUint(s, 10, 64)`, and none for an error.
unfoldable pub parse_uint : Bytes → Option ℕ
unfolding decimal
parse_uint [] = none
parse_uint cs = below u64_mod (decimal 0 cs)

abbrev is_some {ℓ} : {A : Type ℓ} → Option A → Bool
is_some none = false
is_some (some a) = true

-- Whether `strconv.ParseInt(s, 10, 64)` returns no error.
unfoldable pub parses_int : Bytes → Bool
unfolding decimal
parses_int [] = false
parses_int (c ∷ []) = is_some (decimal 0 (c ∷ []))
parses_int (c ∷ d ∷ cs) =
    let digits = d ∷ cs in
    if c == b'-'
    then is_some (below (0x8000000000000000 + 1) (decimal 0 digits))
    else if c == b'+'
    then is_some (below 0x8000000000000000 (decimal 0 digits))
    else is_some (below 0x8000000000000000 (decimal 0 (c ∷ digits)))

digits_test : parse_uint (codes "120") ≡ some 120
unfolding parse_uint
digits_test = refl

signs_test : parses_int (codes "-7") ≡ true
unfolding parses_int
signs_test = refl

trim_test : trim_space (codes "\t ab c \r\n") ≡ codes "ab c"
unfolding trim_space
trim_test = refl

nbsp_test : trim_space (0xc2 ∷ 0xa0 ∷ 97 ∷ 0xe2 ∷ 0x80 ∷ 0x8a ∷ []) ≡ 97 ∷ []
unfolding trim_space
nbsp_test = refl
