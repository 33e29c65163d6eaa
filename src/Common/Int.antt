-- ===== src/Common/Int.antt =====
-- The signed integers of include/Define.h, as the patterns of bits that a machine with two's
-- complement keeps of them.
use subiaoserver.Common.Tests.{ltb, if◌then◌else◌}
use subiaoserver.Common.Words.{UInt, uint8, uint16, uint32, uint64, sizeof}
use Prim.Native.Nat.{ℕ, ◌+◌, ◌-◌, ◌^◌, ◌<◌}
use mathlib.Core.Path.{◌≡◌}
use native.Mathlib.Omega.{arith}

-- `negsuc n` is -(n + 1).
pub data ℤ : Type 0 where
  pos : ℕ → ℤ
  negsuc : ℕ → ℤ

pub data SInt : Type 0 where
  int8 int16 int32 int64 : SInt

-- The unsigned type of the same size.
abbrev pub unsigned : SInt → UInt
unsigned int8 = uint8
unsigned int16 = uint16
unsigned int32 = uint32
unsigned int64 = uint64

-- The number of patterns, and how many of them are not negative.
abbrev pub modulus : SInt → ℕ
modulus t = 256 ^ sizeof (unsigned t)

abbrev pub half : SInt → ℕ
half int8 = 2 ^ 7
half int16 = 2 ^ 15
half int32 = 2 ^ 31
half int64 = 2 ^ 63

unfoldable pub to_bits : SInt → ℤ → ℕ
to_bits t (pos n) = n
to_bits t (negsuc n) = modulus t - (n + 1)

unfoldable pub of_bits : SInt → ℕ → ℤ
of_bits t v = if ltb v (half t) then pos v else negsuc (modulus t - v - 1)

-- The integers of a type: from `-half` up to, and without, `half`.
abbrev pub IsInt : SInt → ℤ → Type 0
IsInt t (pos n) = n < half t
IsInt t (negsuc n) = n < half t

pub of_bits-to_bits : (t : SInt) (z : ℤ) → IsInt t z → of_bits t (to_bits t z) ≡ z
unfolding of_bits to_bits
of_bits-to_bits int8 z h = ground arith
of_bits-to_bits int16 z h = ground arith
of_bits-to_bits int32 z h = ground arith
of_bits-to_bits int64 z h = ground arith

pub to_bits-lt : (t : SInt) (z : ℤ) → IsInt t z → to_bits t z < modulus t
unfolding to_bits
to_bits-lt int8 z h = ground arith
to_bits-lt int16 z h = ground arith
to_bits-lt int32 z h = ground arith
to_bits-lt int64 z h = ground arith

pub to_bits-of_bits : (t : SInt) (v : ℕ) → v < modulus t → to_bits t (of_bits t v) ≡ v
unfolding of_bits to_bits
to_bits-of_bits int8 v h = ground arith
to_bits-of_bits int16 v h = ground arith
to_bits-of_bits int32 v h = ground arith
to_bits-of_bits int64 v h = ground arith

pub of_bits-IsInt : (t : SInt) (v : ℕ) → v < modulus t → IsInt t (of_bits t v)
unfolding of_bits
of_bits-IsInt int8 v h = ground arith
of_bits-IsInt int16 v h = ground arith
of_bits-IsInt int32 v h = ground arith
of_bits-IsInt int64 v h = ground arith
