-- ===== src/ByteBuffer/Escape/RoundTrip.antt =====
-- What `jt808encode` and `jt808decode` do to a buffer, and that one undoes the other.
use subiaoserver.Common.{
  ℕ, ◌+◌, ◌-◌, ◌^◌, ◌≤◌, ◌<◌, ◌≡◌, ◌≢◌, ◌∙◌, refl, arith, Bool, true, false, List, [], ◌∷◌, ◌++◌,
  append-nil, if◌then◌else◌, length, drop, take_all, length-append, All, and_then, done, throws,
  ◌>>◌, position_exception,
}
use subiaoserver.ByteBuffer.{ByteBuffer, size, vector_resize}
use subiaoserver.ByteBuffer.Checksum.Sum.{byte_sum, add_check_sum_lem}
use subiaoserver.ByteBuffer.Escape.{
  push_back, wrap_escbuffer, jt808encode, take_escbuffer, jt808decode,
}
use native.Mathlib.Nat.{zero-add}
use subiaoserver.ByteBuffer.Escape.Spec.{
  escape, unescape, escape-ne-sign, unescape_whole, unescape_frame, length-escape,
}
use subiaoserver.ByteBuffer.Escape.Loops.{start, encode_loop_lem, decoded, decode_loop_lem}

-- A packet with its checksum in front.
abbrev pub checked : List ℕ → List ℕ
checked bs = byte_sum (drop 2 bs) ∷ bs

-- The bytes on the wire for a packet whose bytes are `bs`: the checksum and the packet, escaped,
-- between two sync bytes.
abbrev pub frame : List ℕ → List ℕ
frame bs = 0x7e ∷ (escape (checked bs) ++ 0x7e ∷ [])

vector_resize_same : (n : ℕ) (xs : List ℕ) → n ≡ length xs → vector_resize n xs ≡ xs
vector_resize_same n xs e =
    let none_left : n - length xs ≡ 0 = omega arith in
    rw (none_left, append-nil) (take_all n xs (omega arith))

wrap_escbuffer_lem :
    (b : ByteBuffer) (ys : List ℕ)
    → b.escbuffer ≡ ys
    → wrap_escbuffer (length ys) b
      ≡ record b { storage = 0x7e ∷ (ys ++ 0x7e ∷ []); wpos = length ys + 2; escbuffer = [] }
wrap_escbuffer_lem b ys e =
    let framed : List ℕ = 0x7e ∷ (ys ++ 0x7e ∷ []) in
    let all : length ys + 2 ≡ length framed = omega (arith, length-append ys (0x7e ∷ [])) in
    rw (e, vector_resize_same (length ys) ys refl, vector_resize_same (length ys + 2) framed all)
      (ground (arith, all))

-- Encoding a packet of 2 to 255 bytes, with an empty escape buffer, leaves its frame as the
-- storage, with the write cursor at the end, and returns the number of bytes between the sync
-- bytes; between them is no sync byte.
pub jt808encode-frame :
    (b : ByteBuffer)
    → b.escbuffer ≡ []
    → 2 ≤ size b
    → size b < 256
    → (jt808encode b
        ≡ done (length (escape (checked b.storage))) (record b {
          storage = frame b.storage;
          wpos = length (escape (checked b.storage)) + 2;
        }))
      × All (λ c. c ≢ 0x7e) (escape (checked b.storage))
unfolding jt808encode
jt808encode-frame b e lo hi =
    let b' = record b { storage = checked b.storage } in
    let ys = escape (checked b.storage) in
    let loop = encode_loop_lem b'.storage b' 0 0 (start b' (omega arith)) in
    let filled : (push_back ys b').escbuffer ≡ ys = rw e in
    (
      rw (add_check_sum_lem true b lo hi)
          (rw (loop, zero-add, wrap_escbuffer_lem (push_back ys b') ys filled) (ground arith)),
      escape-ne-sign _,
    )

take_escbuffer_lem :
    (b : ByteBuffer) (ys : List ℕ)
    → b.escbuffer ≡ ys
    → take_escbuffer (length ys) b ≡ record b { storage = ys; wpos = length ys; escbuffer = [] }
take_escbuffer_lem b ys e = rw (e, vector_resize_same (length ys) ys refl)

-- Decoding ends on every storage below 2 ^ 64 - 1 bytes, if the escape buffer is empty. It leaves
-- the bytes that `unescape` gives as the storage, with the write cursor at the end, and returns
-- their number. It throws only where the last byte is an escape byte, and then the storage is as it
-- was and the escape buffer holds the decoded bytes.
pub jt808decode-unescape :
    (b : ByteBuffer)
    → b.escbuffer ≡ []
    → size b + 1 < 2 ^ 64
    → let (ys, whole) = unescape b.storage in
      jt808decode b ≡ (
        if whole
        then done (length ys) (record b { storage = ys; wpos = length ys })
        else throws (position_exception false (size b) 1 (size b)) (record b { escbuffer = ys }))
unfolding jt808decode
jt808decode-unescape b e h =
    rw (decode_loop_lem (size b + 1) b.storage b 0 0 (start b h) (omega arith))
      (finish (unescape b.storage))
  where
    finish :
        (r : List ℕ × Bool)
        → and_then (decoded r 0 b) (λ j s. done j (take_escbuffer j s)) ≡ (
            if r.1
            then done (length r.0) (record b { storage = r.0; wpos = length r.0 })
            else throws
                (position_exception false (size b) 1 (size b))
                (record b { escbuffer = r.0 }))
    finish (ys, true) = rw (zero-add, take_escbuffer_lem (push_back ys b) ys (rw e)) (ground arith)
    finish (ys, false) = ground arith

-- A storage below 2 ^ 64 - 1 bytes that ends in a sync byte is decoded without an exception, if the
-- escape buffer is empty.
pub jt808decode_terminated :
    (b : ByteBuffer) (xs : List ℕ)
    → b.escbuffer ≡ []
    → size b + 1 < 2 ^ 64
    → b.storage ≡ xs ++ 0x7e ∷ []
    → let ys = (unescape b.storage).0 in
      jt808decode b ≡ done (length ys) (record b { storage = ys; wpos = length ys })
jt808decode_terminated b xs e h ends =
    let whole : (unescape b.storage).1 ≡ true = rw ends (unescape_whole xs 0x7e (omega arith)) in
    jt808decode-unescape b e h ∙ rw whole

-- Decoding the frame that `jt808encode` made of a packet of 2 to 255 bytes, with an empty escape
-- buffer, gives the packet back behind a sync byte and its checksum and before a sync byte, without
-- an exception, with the write cursor at its end.
pub jt808decode-jt808encode :
    (b : ByteBuffer)
    → b.escbuffer ≡ []
    → 2 ≤ size b
    → size b < 256
    → (do jt808encode; jt808decode) b
      ≡ done
          (size b + 3)
          (record b { storage = 0x7e ∷ (checked b.storage ++ 0x7e ∷ []); wpos = size b + 3 })
jt808decode-jt808encode b e lo hi =
    let bs = checked b.storage in
    let sent = record b { storage = frame b.storage; wpos = length (escape bs) + 2 } in
    let small : size sent + 1 < 2 ^ 64 =
      omega (arith, length-append (escape bs) (0x7e ∷ []), length-escape bs) in
    rw ((jt808encode-frame b e lo hi).0) (
      jt808decode-unescape sent e small
      ∙ rw (unescape_frame bs) (ground (arith, length-append b.storage (0x7e ∷ []))))
