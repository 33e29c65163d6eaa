-- ===== src/ByteBuffer/Checksum.antt =====
-- `addCheckSum` and `getfirstdecodechecsum` of Packets/ByteBuffer.h. Their loops count with a
-- `uint8` up to a `size_t`.
pub mod Sum
use subiaoserver.Common.{
  ℕ, zero, suc, ◌+◌, ◌%◌, Bool, true, false, List, [], ◌∷◌, Option, none, some, ltb, ◌==◌,
  if◌then◌else◌, get_or, done, diverges, Exec, ◌>>=◌,
}
use subiaoserver.ByteBuffer.{ByteBuffer, size, contents}

-- `for (; i < len; i++) ret += buf[i];`, or `none` while the fuel does not bring it to its end.
unfoldable pub checksum_loop : ℕ → ℕ → ℕ → List ℕ → ℕ → Option ℕ
checksum_loop zero i len buf ret = none
checksum_loop (suc fuel) i len buf ret = elim (ltb i len) [
  | false ↦ some ret
  | true ↦ checksum_loop fuel ((i + 1) % 256) len buf ((ret + get_or buf i 0) % 256)
]

-- 256 rounds are enough where the loop ends at all.
abbrev pub checksum_fuel : ℕ
checksum_fuel = 256

unfoldable pub checksum_from : ℕ → Exec ByteBuffer ℕ
unfolding contents
checksum_from start = do
  buf ← contents
  (λ b. elim (checksum_loop checksum_fuel start (size b) buf 0) [
    | none ↦ diverges
    | some ret ↦ done ret b
  ])

-- The start `m` that the argument chooses is not used: the loop begins at 2.
unfoldable pub add_check_sum : Bool → Exec ByteBuffer ℕ
unfolding checksum_from
add_check_sum firstpacket = do
  ret ← checksum_from 2
  (λ b. done ret (record b { storage = ret ∷ b.storage }))

pub getfirstdecodechecsum : Bool → Exec ByteBuffer ℕ
unfolding checksum_from
getfirstdecodechecsum firstpacket = checksum_from (if firstpacket then 2 else 0)
