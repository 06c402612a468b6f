-- ===== src/Prelude/Words.antt =====
-- Unsigned machine words: arithmetic modulo a power of two.
use Prim.Native.Nat.{ℕ, ◌+◌, ◌-◌, ◌%◌, ◌^◌}
use mathlib.Core.Path.{◌≡◌}
use native.Mathlib.Omega.{arith}

-- uint64_t and size_t
abbrev pub add64 : ℕ → ℕ → ℕ
add64 a b = (a + b) % 2 ^ 64

abbrev pub sub64 : ℕ → ℕ → ℕ
sub64 a b = (a + 2 ^ 64 - b % 2 ^ 64) % 2 ^ 64

pub sub64-add64 : (a b : ℕ) → sub64 (add64 a b) b ≡ a % 2 ^ 64
sub64-add64 a b = omega arith
