-- ===== src/Base/Int.antt =====
-- Signed integers, and the conversions of Go's `int32(x)` and `uint32(x)`.
use Prim.Native.Nat.{ℕ, ◌+◌, ◌-◌, ◌%◌, ◌^◌, ◌<◌}
use mathlib.Core.Path.{◌≡◌}
use mathlib.Core.Logic.{◌↔◌}
use mathlib.Core.Bool.{Bool, true, false}
use native.Mathlib.Omega.{arith}
use scaleway_cloud_controlle.Base.Tests.{ltb, leb, nat_eq, if◌then◌else◌}

-- `negsuc n` is -(n + 1).
pub data ℤ : Type 0 where
  pos : ℕ → ℤ
  negsuc : ℕ → ℤ

abbrev pub int_eq : ℤ → ℤ → Bool
int_eq (pos a) (pos b) = nat_eq a b
int_eq (negsuc a) (negsuc b) = nat_eq a b
int_eq _ _ = false

pub int_eq_iff : (a b : ℤ) → (int_eq a b ≡ true) ↔ (a ≡ b)
int_eq_iff (pos a) (pos b) = ground arith
int_eq_iff (negsuc a) (negsuc b) = ground arith
int_eq_iff (pos a) (negsuc b) = ground arith
int_eq_iff (negsuc a) (pos b) = ground arith

-- The bit pattern of a 64-bit value in 32 bits, and the signed number that it stands for.
unfoldable pub low32 : ℤ → ℕ
low32 (pos n) = n % 2 ^ 32
low32 (negsuc n) = (2 ^ 32 - 1) - n % 2 ^ 32

unfoldable pub of_bits32 : ℕ → ℤ
of_bits32 m = if ltb m (2 ^ 31) then pos m else negsuc (2 ^ 32 - 1 - m)

-- `int32(x)`
unfoldable pub to_int32 : ℤ → ℤ
unfolding low32 of_bits32
to_int32 z = of_bits32 (low32 z)

-- `uint32(x)`
unfoldable pub to_uint32 : ℤ → ℕ
unfolding low32
to_uint32 z = low32 z

abbrev pub IsInt32 : ℤ → Type 0
IsInt32 (pos n) = n < 2 ^ 31
IsInt32 (negsuc n) = n < 2 ^ 31

pub to_int32-IsInt32 : (z : ℤ) → IsInt32 (to_int32 z)
unfolding to_int32
to_int32-IsInt32 (pos n) = ground arith
to_int32-IsInt32 (negsuc n) = ground arith

-- In range, the conversion changes nothing.
pub to_int32_of_IsInt32 : (z : ℤ) → IsInt32 z → to_int32 z ≡ z
unfolding to_int32
to_int32_of_IsInt32 (pos n) h = ground arith
to_int32_of_IsInt32 (negsuc n) h = ground arith

-- Whether `int(a - b) < 0` of two 32-bit values, whose difference wraps around.
abbrev pub diff32_negative : ℕ → Bool
diff32_negative d = leb (2 ^ 31) d

unfoldable pub int32_before : ℤ → ℤ → Bool
unfolding low32
int32_before a b = diff32_negative ((low32 a + (2 ^ 32 - low32 b)) % 2 ^ 32)
