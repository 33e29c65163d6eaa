-- ===== src/Endian/Laws.antt =====
-- Swapping the byte order of the integers that the program puts on the wire.
use subiaoserver.Common.{ℕ, ◌≡◌, arith, reverse}
use subiaoserver.Common.Words.{UInt, uint8, uint16, uint32, uint64, sizeof, InRange, le_bytes}
use subiaoserver.Endian.{swap_endian, apply}

pub swap_endian-InRange : (t : UInt) (v : ℕ) → InRange t (swap_endian t v)
unfolding swap_endian
swap_endian-InRange uint8 v = omega arith
swap_endian-InRange uint16 v = omega arith
swap_endian-InRange uint32 v = omega arith
swap_endian-InRange uint64 v = omega arith

-- Swapping twice gives back every value of the type.
pub swap_endian-swap_endian : (t : UInt) (v : ℕ) → InRange t v → swap_endian t (swap_endian t v) ≡ v
unfolding swap_endian
swap_endian-swap_endian uint8 v h = omega arith
swap_endian-swap_endian uint16 v h = omega arith
swap_endian-swap_endian uint32 v h = omega arith
swap_endian-swap_endian uint64 v h = omega arith

-- The loop of swap_endian and the recursion of ByteConverter::convert swap alike.
pub swap_endian-apply : (t : UInt) (v : ℕ) → swap_endian t v ≡ apply t v
unfolding swap_endian apply
swap_endian-apply uint8 v = omega arith
swap_endian-apply uint16 v = omega arith
swap_endian-apply uint32 v = omega arith
swap_endian-apply uint64 v = omega arith

-- A swapped value lies in memory with its highest byte first.
pub le_bytes-swap_endian :
    (t : UInt) (v : ℕ) → le_bytes (sizeof t) (swap_endian t v) ≡ reverse (le_bytes (sizeof t) v)
unfolding swap_endian
le_bytes-swap_endian uint8 v = ground arith
le_bytes-swap_endian uint16 v = ground arith
le_bytes-swap_endian uint32 v = ground arith
le_bytes-swap_endian uint64 v = ground arith
