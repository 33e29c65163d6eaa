-- ===== src/ByteBuffer/PackedGuid/RoundTrip.antt =====
-- A packed number is read back.
use Prim.Native.Nat.{bit_or}
use subiaoserver.Common.{
  ℕ, zero, suc, ◌+◌, ◌*◌, ◌/◌, ◌%◌, ◌^◌, ◌≤◌, ◌<◌, ◌≡◌, refl, ◌∙◌, arith, List, [], ◌∷◌, ◌++◌,
  append-nil, ◌==◌, length, length-append, done, ◌>>=◌, ◌>>◌, inl, inr, Bool-cases, drop-append,
}
use subiaoserver.Common.Words.{uint8, le_value}
use subiaoserver.Common.Bits.{bit_or-shifted, bit_and-power, halves, halves-add_one}
use subiaoserver.ByteBuffer.{ByteBuffer, size, append, read, advance}
use subiaoserver.ByteBuffer.Access.{
  Unread, push, append-push, read-Unread, advance-Unread, advance-add,
}
use subiaoserver.ByteBuffer.Streams.{after_reading}
use subiaoserver.ByteBuffer.PackedGuid.{
  pack_loop, append_pack_guid, require_one, unpack_loop, read_pack_guid,
}
use subiaoserver.ByteBuffer.PackedGuid.Packing.{marks, nonzero, packed, power-le, pack_loop_lem}
use native.Mathlib.Numerals.{towards_suc}
use native.Mathlib.Nat.{pow-suc, one-le-pow}

require_one-Unread :
    (b : ByteBuffer) (c : ℕ) (rest : List ℕ) → Unread b (c ∷ rest) → require_one b ≡ done tt b
unfolding require_one
require_one-Unread b c rest u = ground arith

-- The bytes of the number that have been read, and the one that is read now.
gathered :
    (i acc d : ℕ)
    → i < 8
    → d < 256
    → acc < 2 ^ (i * 8)
    → bit_or acc (d * 2 ^ (i * 8) % 2 ^ 64) ≡ acc + d * 2 ^ (i * 8)
gathered i acc d hi hd small =
    let p = 2 ^ (i * 8) in
    let p_le : p ≤ 2 ^ 56 = power-le (i * 8) 56 (omega arith) in
    let small_byte : d * p ≤ 255 * 2 ^ 56 = grind arith in
    let fits : d * p % 2 ^ 64 ≡ d * p = omega arith in rw fits (bit_or-shifted (i * 8) acc d small)

zero_times : (g p : ℕ) → g < 1 → g * p ≡ 0
zero_times g p h = let e : g ≡ 0 = omega arith in rw e (omega arith)

unpack-end : (i mark acc : ℕ) (b : ByteBuffer) → unpack_loop 0 i mark acc b ≡ done acc b
unfolding unpack_loop
unpack-end i mark acc b = refl

module _ (rounds i mark acc : ℕ) (b : ByteBuffer) where
  unpack-skip :
      halves i mark % 2 ≡ 0
      → unpack_loop (suc rounds) i mark acc b ≡ unpack_loop rounds (i + 1) mark acc b
  unfolding unpack_loop
  unpack-skip e =
      let none : halves i mark % 2 * 2 ^ i ≡ 0 = rw e (omega arith) in
      ground (arith, bit_and-power i mark, none)

  unpack-mark :
      (d : ℕ) (rest : List ℕ)
      → halves i mark % 2 ≡ 1
      → i < 8
      → d < 256
      → acc < 2 ^ (i * 8)
      → Unread b (d ∷ rest)
      → unpack_loop (suc rounds) i mark acc b
        ≡ unpack_loop rounds (i + 1) mark (acc + d * 2 ^ (i * 8)) (advance 1 b)
  unfolding unpack_loop
  unpack-mark d rest e hi hd small u =
      let one : halves i mark % 2 * 2 ^ i ≡ 2 ^ i = rw e (omega arith) in
      ground (
        arith,
        bit_and-power i mark,
        one,
        one-le-pow i 2 (omega arith),
        require_one-Unread b d rest u,
        read-Unread b (d ∷ []) rest u uint8 refl,
        gathered i acc d hi hd small,
      )

octet : (i : ℕ) → 2 ^ ((i + 1) * 8) ≡ 2 ^ (i * 8) * 256
octet i = let e : (i + 1) * 8 ≡ i * 8 + 8 = omega arith in rw e (simp towards_suc (omega arith))

places :
    (i d acc g : ℕ)
    → acc + d * 2 ^ (i * 8) + g * 2 ^ ((i + 1) * 8) ≡ acc + (d + 256 * g) * 2 ^ (i * 8)
places i d acc g = rw (octet i) (omega arith)

-- What is left of the marks and of the number, after `i` of the eight bytes.
unpack_loop_lem :
    (n i g mark acc : ℕ) (b : ByteBuffer) (rest : List ℕ)
    → g < 256 ^ n
    → halves i mark ≡ marks n g
    → acc < 2 ^ (i * 8)
    → i + n ≤ 8
    → Unread b (nonzero n g ++ rest)
    → unpack_loop n i mark acc b
      ≡ done (acc + g * 2 ^ (i * 8)) (after_reading (length (nonzero n g)) b)
unpack_loop_lem zero i g mark acc b rest hg hm ha hi u =
    unpack-end i mark acc b ∙ ground (arith, zero_times g (2 ^ (i * 8)))
unpack_loop_lem (suc n) i g mark acc b rest hg hm ha hi u = elim (Bool-cases (g % 256 == 0)) [
  | inl skipped ↦
      let even = rw skipped at hm in
      unpack-skip n i mark acc b (omega (arith, even))
      ∙ unpack_loop_lem n (i + 1) (g / 256) mark acc b rest (omega (arith, pow-suc 256 n))
          (omega (arith, halves-add_one i mark, even)) (omega (arith, octet i)) (omega arith)
          (rw skipped at u)
      ∙ rw skipped (ground (arith, places i 0 acc (g / 256)))
  | inr kept ↦
      let odd = rw kept at hm in
      let d = g % 256 in
      let u' : Unread b ((d ∷ []) ++ (nonzero n (g / 256) ++ rest)) = rw kept at u in
      let p : 2 ^ (i * 8) * d ≤ 255 * 2 ^ (i * 8) = grind arith in
      unpack-mark n i mark acc b d (nonzero n (g / 256) ++ rest) (omega (arith, odd)) (omega arith)
        (omega arith) ha u'
      ∙ unpack_loop_lem n (i + 1) (g / 256) mark (acc + d * 2 ^ (i * 8)) (advance 1 b) rest
          (omega (arith, pow-suc 256 n)) (omega (arith, halves-add_one i mark, odd))
          (omega (arith, octet i, p)) (omega arith)
          (advance-Unread b (d ∷ []) (nonzero n (g / 256) ++ rest) u')
      ∙ rw kept (
          ground (
            arith,
            places i d acc (g / 256),
            advance-add b (d ∷ []) (nonzero n (g / 256) ++ rest) u',
          ))
]

length-nonzero : (n g : ℕ) → length (nonzero n g) ≤ n
length-nonzero zero g = omega arith
length-nonzero (suc n) g = ground (arith, length-nonzero n (g / 256))

-- Both directions, for a number of `n` bytes.
module _ (n g : ℕ) (b : ByteBuffer) (small : g < 256 ^ n) (few : n ≤ 8) where
  packing :
      b.wpos ≡ size b
      → size b + 9 < 2 ^ 64
      → (do bs ← pack_loop (suc n) 0 g 0 []; append bs) b
        ≡ done tt (push (marks n g ∷ nonzero n g) b)
  packing e fits =
      let m : 0 + marks n g * 2 ^ 0 ≡ marks n g = omega arith in
      rw (pack_loop_lem n 0 g 0 [] b small (omega arith) (omega arith) (omega arith), m)
        (append-push (marks n g ∷ nonzero n g) b (λ c. absurd (cc c)) e
          (omega (arith, length-nonzero n g)))

  unpacking :
      (rest : List ℕ)
      → Unread b ((marks n g ∷ nonzero n g) ++ rest)
      → (do require_one; mark ← read uint8; unpack_loop n 0 mark 0) b
        ≡ done g (after_reading (length (marks n g ∷ nonzero n g)) b)
  unpacking rest u =
      let first = advance-Unread b (marks n g ∷ []) (nonzero n g ++ rest) u in
      let moved = advance-add b (marks n g ∷ []) (nonzero n g ++ rest) u in
      let b1 = advance 1 b in
      let one : le_value (marks n g ∷ []) ≡ marks n g = omega arith in
      rw
        (
          require_one-Unread b (marks n g) (nonzero n g ++ rest) u,
          read-Unread b (marks n g ∷ []) (nonzero n g ++ rest) u uint8 refl,
          one,
        )
        (unpack_loop_lem n 0 g (marks n g) 0 b1 rest small refl (omega arith) (omega arith) first
          ∙ ground (arith, moved))

-- Every 64-bit number that is packed behind a storage that has been read, and that stays below 2 ^
-- 64 bytes, is read back, with both cursors at the end, and takes at most 9 bytes.
pub read_pack_guid-append_pack_guid :
    (g : ℕ) (b : ByteBuffer)
    → g < 256 ^ 8
    → b.wpos ≡ size b
    → b.rpos ≡ size b
    → size b + 9 < 2 ^ 64
    → ((do append_pack_guid g; read_pack_guid) b
        ≡ done g (after_reading (length (packed g)) (push (packed g) b)))
      × (length (packed g) ≤ 9)
unfolding append_pack_guid read_pack_guid packed
read_pack_guid-append_pack_guid g b h e r fits =
    let bs = marks 8 g ∷ nonzero 8 g in
    let count = length-nonzero 8 g in
    (
      rw (packing 8 g b h (omega arith) e fits) (
          unpacking 8 g (push bs b) h (omega arith) [] (record {
            addressable = omega (arith, length-append b.storage bs, count);
            within = rw append-nil (omega (arith, length-append b.storage bs));
            rest = rw append-nil (drop-append b.storage bs b.rpos r);
          })),
      omega (arith, count),
    )
