-- ===== src/ByteBuffer/Numbers.antt =====
-- `operator<<` and `operator>>` of Packets/ByteBuffer.h for signed integers and floating-point
-- numbers, `myisfinite` of include/Common.h, and `appendPackXYZ`. A floating-point number is its
-- pattern of bits (IEEE 754, single and double).
pub mod RoundTrip
use Prim.Native.Nat.{bit_and, bit_or}
use subiaoserver.Common.{
  ℕ, ◌+◌, ◌*◌, ◌/◌, ◌%◌, ◌^◌, Bool, ltb, ◌==◌, not, ◌&&◌, if◌then◌else◌, Exec, ◌>>=◌, pure,
}
use subiaoserver.Common.Words.{uint32, uint64}
use subiaoserver.Common.Int.{ℤ, SInt, int32, unsigned, to_bits, of_bits}
use subiaoserver.ByteBuffer.{ByteBuffer, write, read}
use subiaoserver.ByteBuffer.Containers.{Operators}

unfoldable pub write_int : SInt → ℤ → Exec ByteBuffer (Unit {0})
unfolding write to_bits
write_int t value = write (unsigned t) (to_bits t value)

unfoldable pub read_int : SInt → Exec ByteBuffer ℤ
unfolding read of_bits
read_int t = do v ← read (unsigned t); pure (of_bits t v)

abbrev pub of_int : SInt → Operators ℤ
of_int t = record { put = write_int t; get = read_int t }

-- The exponent and the fraction of a `float`.
abbrev exponent : ℕ → ℕ
exponent f = f / 2 ^ 23 % 2 ^ 8

abbrev fraction : ℕ → ℕ
fraction f = f % 2 ^ 23

abbrev pub isfinite : ℕ → Bool
isfinite f = not (exponent f == 255)

abbrev isnan : ℕ → Bool
isnan f = exponent f == 255 && not (fraction f == 0)

unfoldable pub myisfinite : ℕ → Bool
myisfinite f = isfinite f && not (isnan f)

-- Whether the `float` that a `double` is converted to is finite: without its sign it is below the
-- middle between the greatest `float` and 2 ^ 128.
abbrev pub float_limit : ℕ
float_limit = 0x47ef_ffff_f000_0000

abbrev pub narrows : ℕ → Bool
narrows d = ltb (d % 2 ^ 63) float_limit

unfoldable pub write_float : ℕ → Exec ByteBuffer (Unit {0})
unfolding write
write_float value = write uint32 value

unfoldable pub write_double : ℕ → Exec ByteBuffer (Unit {0})
unfolding write
write_double value = write uint64 value

unfoldable pub read_float : Exec ByteBuffer ℕ
unfolding read myisfinite
read_float = do value ← read uint32; pure (if myisfinite value then value else 0)

-- `myisfinite` takes a `float`.
unfoldable pub read_double : Exec ByteBuffer ℕ
unfolding read
read_double = do value ← read uint64; pure (if narrows value then value else 0)

-- The arguments are the three quotients `(int)(x / 0.25f)`.
unfoldable pub append_pack_xyz : ℤ → ℤ → ℤ → Exec ByteBuffer (Unit {0})
unfolding write to_bits
append_pack_xyz x y z =
    let packed_x = bit_or 0 (bit_and (to_bits int32 x) 0x7ff) in
    let packed_y = bit_or packed_x (bit_and (to_bits int32 y) 0x7ff * 2 ^ 11 % 2 ^ 32) in
    write uint32 (bit_or packed_y (bit_and (to_bits int32 z) 0x3ff * 2 ^ 22 % 2 ^ 32))
