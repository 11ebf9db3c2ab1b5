-- ===== src/Prelude/Words.antt =====
-- Machine words: a value is a plain number below the modulus, and an operation wraps.
use Prim.Native.Nat.{ℕ, ◌+◌, ◌%◌}

abbrev pub u64_mod : ℕ
u64_mod = 18446744073709551616

abbrev pub u32_mod : ℕ
u32_mod = 4294967296

-- uint64 and uint32 addition.
abbrev pub add64 : ℕ → ℕ → ℕ
add64 a b = (a + b) % u64_mod

abbrev pub add32 : ℕ → ℕ → ℕ
add32 a b = (a + b) % u32_mod

-- Go's `int`: `negsuc n` is -(n + 1).
pub data ℤ : Type 0 where
  pos : ℕ → ℤ
  negsuc : ℕ → ℤ
