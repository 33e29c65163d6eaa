-- ===== src/ByteBuffer/Checksum/Sum.antt =====
-- What the checksum loops return, and for which sizes they end.
use subiaoserver.Common.{
  ℕ, zero, suc, ◌+◌, ◌%◌, ◌≤◌, ◌<◌, ◌≡◌, refl, ap, ◌∙◌, arith, Bool, List, [], ◌∷◌, none, some, ltb,
  length, drop, drop_all, get_or, done, diverges, inl, inr, Bool-cases,
}
use subiaoserver.ByteBuffer.{ByteBuffer, size, contents}
use subiaoserver.ByteBuffer.Checksum.{checksum_loop, checksum_fuel, checksum_from, add_check_sum}

-- The sum of some bytes in a `uint8`.
abbrev pub byte_sum : List ℕ → ℕ
byte_sum [] = 0
byte_sum (x ∷ xs) = (x + byte_sum xs) % 256

pub byte_sum-lt : (xs : List ℕ) → byte_sum xs < 256
byte_sum-lt [] = omega arith
byte_sum-lt (x ∷ xs) = omega arith

drop-get_or : (xs : List ℕ) (i : ℕ) → i < length xs → drop i xs ≡ get_or xs i 0 ∷ drop (suc i) xs
drop-get_or [] i h = absurd (omega arith)
drop-get_or (x ∷ xs) zero h = refl
drop-get_or (x ∷ xs) (suc i) h = drop-get_or xs i (omega arith)

checksum_loop_lem :
    (fuel i : ℕ) (buf : List ℕ) (ret : ℕ)
    → length buf < 256
    → i ≤ length buf
    → ret < 256
    → length buf < fuel + i
    → checksum_loop fuel i (length buf) buf ret ≡ some ((ret + byte_sum (drop i buf)) % 256)
unfolding checksum_loop
checksum_loop_lem zero i buf ret small hi hr hf = absurd (omega arith)
checksum_loop_lem (suc fuel) i buf ret small hi hr hf = elim (Bool-cases (ltb i (length buf))) [
  | inl more ↦
      let next : (i + 1) % 256 ≡ suc i = ground arith in
      rw (more, checksum_loop)
        (rw (next, drop-get_or buf i (ground arith))
          (checksum_loop_lem fuel (suc i) buf _ small (ground arith) (omega arith) (omega arith)
            ∙ ap some (omega arith)))
  | inr end ↦ rw (end, checksum_loop) (rw (drop_all i buf (ground arith)) (ap some (omega arith)))
]

checksum_loop_large :
    (fuel i len : ℕ) (buf : List ℕ) (ret : ℕ)
    → 256 ≤ len
    → i < 256
    → checksum_loop fuel i len buf ret ≡ none
unfolding checksum_loop
checksum_loop_large zero i len buf ret h hi = refl
checksum_loop_large (suc fuel) i len buf ret h hi =
    ground (arith, checksum_loop_large fuel ((i + 1) % 256) len buf ((ret + get_or buf i 0) % 256))

-- A storage of 2 to 255 bytes gets in front the sum of its bytes from the third on, which is also
-- what is returned; the argument has no influence.
pub add_check_sum_lem :
    (firstpacket : Bool) (b : ByteBuffer)
    → 2 ≤ size b
    → size b < 256
    → let sum = byte_sum (drop 2 b.storage) in
      add_check_sum firstpacket b ≡ done sum (record b { storage = sum ∷ b.storage })
unfolding add_check_sum checksum_from contents
add_check_sum_lem first b lo hi =
    ground (arith, checksum_loop_lem checksum_fuel 2 b.storage 0, byte_sum-lt (drop 2 b.storage))

-- From 256 bytes on the counter wraps before it reaches the size, and the loop never ends.
pub add_check_sum-diverges :
    (firstpacket : Bool) (b : ByteBuffer) → 256 ≤ size b → add_check_sum firstpacket b ≡ diverges
unfolding add_check_sum checksum_from contents
add_check_sum-diverges first b h =
    ground (arith, checksum_loop_large checksum_fuel 2 (size b) b.storage 0)
