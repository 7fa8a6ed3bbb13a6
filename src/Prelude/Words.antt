-- ===== src/Prelude/Words.antt =====
-- Arithmetic of `u64` (and of `usize` on 64-bit targets) in a release build, where it wraps.
use Prim.Native.Nat.{ℕ, ◌+◌, ◌-◌, ◌*◌, ◌%◌, ◌^◌, ◌≤◌, ◌<◌}
use mathlib.Core.Path.{◌≡◌}
use native.Mathlib.Omega.{arith}

abbrev pub u64_mod : ℕ
u64_mod = 2 ^ 64

abbrev pub add64 : ℕ → ℕ → ℕ
add64 a b = (a + b) % u64_mod

abbrev pub sub64 : ℕ → ℕ → ℕ
sub64 a b = (a + u64_mod - b) % u64_mod

abbrev pub mul64 : ℕ → ℕ → ℕ
mul64 a b = (a * b) % u64_mod

pub sub64-eq-sub : (a b : ℕ) → b ≤ a → a < u64_mod → sub64 a b ≡ a - b
sub64-eq-sub a b h k = omega arith
