-- ===== src/Prelude/Words.antt =====
-- Unsigned machine words: a value is a number below the modulus, and arithmetic wraps.
use Prim.Native.Nat.{ℕ, ◌+◌, ◌-◌, ◌%◌, ◌≤◌, ◌<◌}
use mathlib.Core.Path.{◌≡◌}
use native.Mathlib.Omega.{arith}

abbrev pub u32_mod : ℕ
u32_mod = 4294967296

abbrev pub u64_mod : ℕ
u64_mod = 18446744073709551616

abbrev pub add32 : ℕ → ℕ → ℕ
add32 a b = (a + b) % u32_mod

abbrev pub sub32 : ℕ → ℕ → ℕ
sub32 a b = (a + u32_mod - b) % u32_mod

abbrev pub add64 : ℕ → ℕ → ℕ
add64 a b = (a + b) % u64_mod

-- Adding what was taken away restores the word, also where the subtraction wrapped.
pub add32-sub32 : (a b : ℕ) → a < u32_mod → b < u32_mod → add32 (sub32 a b) b ≡ a
add32-sub32 a b h k = omega arith

pub sub32-add32 : (a b : ℕ) → a < u32_mod → b < u32_mod → sub32 (add32 a b) b ≡ a
sub32-add32 a b h k = omega arith

pub sub32_exact : (a b : ℕ) → a < u32_mod → b ≤ a → sub32 a b ≡ a - b
sub32_exact a b h k = omega arith

-- A subtraction that wraps gives more than there was.
pub sub32_wraps : (a b : ℕ) → a < b → b < u32_mod → a < sub32 a b
sub32_wraps a b h k = omega arith
