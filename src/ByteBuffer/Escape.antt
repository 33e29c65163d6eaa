-- ===== src/ByteBuffer/Escape.antt =====
-- `jt808encode` and `jt808decode` of Packets/ByteBuffer.h.
pub mod Spec
pub mod Loops
pub mod RoundTrip
use subiaoserver.Common.{
  ℕ, zero, suc, ◌+◌, true, false, List, [], ◌∷◌, ◌++◌, ltb, ◌==◌, if◌then◌else◌, length, done,
  diverges, Exec, ◌>>=◌, ◌>>◌, pure,
}
use subiaoserver.Common.Words.{uint8}
use subiaoserver.ByteBuffer.{ByteBuffer, size, read_at, vector_resize}
use subiaoserver.ByteBuffer.Checksum.{add_check_sum}

abbrev pub protocol_sign : ℕ
protocol_sign = 0x7e

abbrev pub protocol_escape : ℕ
protocol_escape = 0x7d

abbrev pub protocol_escape_sign : ℕ
protocol_escape_sign = 0x02

abbrev pub protocol_escape_escape : ℕ
protocol_escape_escape = 0x01

-- What the loop of `jt808encode` puts into `_Escbuffer` for one byte.
abbrev pub escaped : ℕ → List ℕ
escaped c =
    if c == protocol_sign
    then protocol_escape ∷ protocol_escape_sign ∷ []
    else if c == protocol_escape
    then protocol_escape ∷ protocol_escape_escape ∷ []
    else c ∷ []

-- `_Escbuffer.push_back` of each of `bytes`.
abbrev pub push_back : List ℕ → ByteBuffer → ByteBuffer
push_back bytes b = record b { escbuffer = b.escbuffer ++ bytes }

-- The loop, with the rounds left; it returns `j`.
unfoldable pub encode_loop : ℕ → ℕ → ℕ → Exec ByteBuffer ℕ
encode_loop zero i j = pure j
encode_loop (suc rounds) i j = do
  c ← read_at uint8 i
  (λ b. encode_loop rounds (i + 1) (j + length (escaped c)) (push_back (escaped c) b))

-- After the loop: the sync bytes go round `_Escbuffer`, which becomes the storage.
abbrev pub wrap_escbuffer : ℕ → ByteBuffer → ByteBuffer
wrap_escbuffer j b =
    let resized = vector_resize j b.escbuffer in
    let framed = vector_resize (j + 2) ((protocol_sign ∷ resized) ++ protocol_sign ∷ []) in
    record b { storage = framed; wpos = length framed; escbuffer = [] }

unfoldable pub jt808encode : Exec ByteBuffer ℕ
jt808encode = do
  add_check_sum true
  (λ b. (do j ← encode_loop (size b) 0 0; (λ s. done j (wrap_escbuffer j s))) b)

abbrev pub unescaped : ℕ → ℕ → ℕ × ℕ
unescaped c d =
    if d == protocol_escape_sign
    then (protocol_sign, 2)
    else if d == protocol_escape_escape
    then (protocol_escape, 2)
    else (c, 1)

-- The byte that one round of `jt808decode` keeps, and how far it moves `i`. The second byte is
-- read only behind an escape byte, and its read throws at the end of the storage.
unfoldable pub decode_at : ℕ → Exec ByteBuffer (ℕ × ℕ)
unfolding read_at
decode_at i = do
  c ← read_at uint8 i
  if c == protocol_escape then (do d ← read_at uint8 (i + 1); pure (unescaped c d)) else pure (c, 1)

unfoldable pub decode_loop : ℕ → ℕ → ℕ → ℕ → Exec ByteBuffer ℕ
decode_loop zero i len j b = diverges
decode_loop (suc fuel) i len j b = elim (ltb i len) [
  | false ↦ done j b
  | true ↦
      (do
        (c, step) ← decode_at i
        (λ s. decode_loop fuel (i + step) len (j + 1) (push_back (c ∷ []) s)))
        b
]

abbrev pub take_escbuffer : ℕ → ByteBuffer → ByteBuffer
take_escbuffer j b =
    let resized = vector_resize j b.escbuffer in
    record b { storage = resized; wpos = length resized; escbuffer = [] }

-- Each round moves `i` on, so `len + 1` rounds are enough.
unfoldable pub jt808decode : Exec ByteBuffer ℕ
jt808decode b = (do j ← decode_loop (size b + 1) 0 (size b) 0; (λ s. done j (take_escbuffer j s))) b
