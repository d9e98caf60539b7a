-- ===== src/Base/Ints.antt =====
-- The C++ types `int` and `size_t`.
use Prim.Native.Nat.{ℕ, ◌+◌, ◌-◌, ◌^◌, ◌%◌, ◌<◌}
use mathlib.Core.Path.{◌≡◌, refl}
use native.Mathlib.Omega.{arith}
use asyncflow.Base.Tests.{if◌then◌else◌, ltb, lt→ltb}

-- `negsuc n` is -(n + 1).
pub data ℤ : Type 0 where
  pos : ℕ → ℤ
  negsuc : ℕ → ℤ

-- The conversion of an `int` to `size_t`, of 64 bits.
abbrev pub to_size_t : ℤ → ℕ
to_size_t (pos n) = n % 2 ^ 64
to_size_t (negsuc n) = 2 ^ 64 - (n % 2 ^ 64 + 1)

-- The conversion of a `size_t` to `int`, of 32 bits.
abbrev pub to_int : ℕ → ℤ
to_int n = if ltb (n % 2 ^ 32) (2 ^ 31) then pos (n % 2 ^ 32) else negsuc (2 ^ 32 - n % 2 ^ 32 - 1)

pub to_size_t-pos : (n : ℕ) → n < 2 ^ 64 → to_size_t (pos n) ≡ n
to_size_t-pos n l = omega (arith, l)

pub to_int_small : (n : ℕ) → n < 2 ^ 31 → to_int n ≡ pos n
to_int_small n l = let m : n % 2 ^ 32 ≡ n = omega (arith, l) in rw (m, lt→ltb n (2 ^ 31) l) refl
