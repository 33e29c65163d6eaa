-- ===== src/ByteBuffer/PackedGuid.antt =====
-- `appendPackGUID` and `readPackGUID` of Packets/ByteBuffer.h: a byte that marks which of the eight
-- bytes of a number are not zero, and those bytes.
pub mod Packing
pub mod RoundTrip
use Prim.Native.Nat.{bit_and, bit_or}
use subiaoserver.Common.{
  ℕ, zero, suc, ◌+◌, ◌*◌, ◌/◌, ◌%◌, ◌^◌, true, false, List, [], ◌∷◌, ◌++◌, ltb, ◌==◌, if◌then◌else◌,
  length, done, throws, undefined, diverges, Exec, ◌>>=◌, ◌>>◌, pure, position_exception,
}
use subiaoserver.Common.Words.{uint8}
use subiaoserver.ByteBuffer.{ByteBuffer, size, size_add, append, read}

-- `for (uint8 i = 0; guid != 0; ++i)`. The array `packGUID` is its first byte, here `mark`, and
-- those behind it; it has room for 9.
unfoldable pub pack_loop : ℕ → ℕ → ℕ → ℕ → List ℕ → Exec ByteBuffer (List ℕ)
pack_loop zero i guid mark packed b = diverges
pack_loop (suc fuel) i guid mark packed b = elim (guid == 0) [
  | true ↦ done (mark ∷ packed) b
  | false ↦ elim (bit_and guid 0xff == 0) [
    | true ↦ pack_loop fuel ((i + 1) % 256) (guid / 2 ^ 8) mark packed b
    | false ↦ elim (ltb (length packed + 1) 9) [
      | false ↦ undefined
      | true ↦
          pack_loop fuel ((i + 1) % 256) (guid / 2 ^ 8) (bit_or mark (2 ^ i % 256))
            (packed ++ (bit_and guid 0xff % 256) ∷ []) b
    ]
  ]
]

unfoldable pub append_pack_guid : ℕ → Exec ByteBuffer (Unit {0})
unfolding pack_loop append
append_pack_guid guid = do packed ← pack_loop 9 0 guid 0 []; append packed

-- `if (rpos() + 1 > size()) throw …`
unfoldable pub require_one : Exec ByteBuffer (Unit {0})
require_one b =
    if ltb (size b) (size_add b.rpos 1)
    then throws (position_exception false b.rpos 1 (size b)) b
    else done tt b

-- `for (int i = 0; i < 8; ++i)`, with the rounds left.
unfoldable pub unpack_loop : ℕ → ℕ → ℕ → ℕ → Exec ByteBuffer ℕ
unfolding require_one read
unpack_loop zero i guidmark guid b = done guid b
unpack_loop (suc rounds) i guidmark guid b = elim (bit_and guidmark (2 ^ i) == 0) [
  | true ↦ unpack_loop rounds (i + 1) guidmark guid b
  | false ↦
      (do
        require_one
        bit ← read uint8
        unpack_loop rounds (i + 1) guidmark (bit_or guid (bit * 2 ^ (i * 8) % 2 ^ 64)))
        b
]

unfoldable pub read_pack_guid : Exec ByteBuffer ℕ
unfolding require_one unpack_loop read
read_pack_guid = do require_one; guidmark ← read uint8; unpack_loop 8 0 guidmark 0
