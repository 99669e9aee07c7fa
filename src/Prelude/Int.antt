-- ===== src/Prelude/Int.antt =====
-- Signed integers over the native numbers, for exit codes and for the numbers of the configuration.
use Prim.Native.Nat.{ℕ, ◌+◌, ◌-◌, ◌*◌, ◌%◌, ◌^◌, ◌<◌}
use mathlib.Core.Bool.{Bool, true, false}
use mathlib.Core.Path.{◌≡◌, refl}
use native.Mathlib.Omega.{arith}
use kickd.Prelude.Tests.{nat_eq, ◌==◌, ltb, lt→ltb, if◌then◌else◌}

-- `negsuc n` is -(n + 1).
pub data ℤ : Type 0 where
  pos : ℕ → ℤ
  negsuc : ℕ → ℤ

abbrev pub is_zero : ℤ → Bool
is_zero (pos n) = n == 0
is_zero (negsuc n) = false

abbrev pub is_negative : ℤ → Bool
is_negative (pos n) = false
is_negative (negsuc n) = true

abbrev pub less : ℤ → ℤ → Bool
less (pos m) (pos n) = ltb m n
less (pos m) (negsuc n) = false
less (negsuc m) (pos n) = true
less (negsuc m) (negsuc n) = ltb n m

-- max of two integers.
abbrev pub larger : ℤ → ℤ → ℤ
larger a b = if less a b then b else a

-- An amount that is not negative.
abbrev pub amount : ℤ → ℕ
amount (pos n) = n
amount (negsuc n) = 0

-- min of two integers.
abbrev pub smaller : ℤ → ℤ → ℤ
smaller a b = if less a b then a else b

-- The 64-bit integer with the bits of `n`, in two's complement.
unfoldable pub int64 : ℕ → ℤ
int64 n = let m = n % 2 ^ 64 in if ltb m (2 ^ 63) then pos m else negsuc (2 ^ 64 - 1 - m)

-- 2 * x of a 64-bit integer.
unfoldable pub double : ℤ → ℤ
double (pos n) = int64 (2 * n)
double (negsuc n) = int64 (2 ^ 64 - (2 * n + 2) % 2 ^ 64)

pub double-pos : (n : ℕ) → n < 2 ^ 62 → double (pos n) ≡ pos (2 * n)
unfolding double int64
double-pos n h =
    let small : 2 * n < 2 ^ 63 = omega (arith, h) in
    let same : 2 * n % 2 ^ 64 ≡ 2 * n = omega (arith, small) in
    rw same (rw (lt→ltb (2 * n) (2 ^ 63) small) refl)
