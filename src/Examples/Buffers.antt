-- ===== src/Examples/Buffers.antt =====
-- The theorems on Packets/ByteBuffer.h and on byte orders, at concrete inputs.
use subiaoserver.Common.{
  ℕ, ◌≡◌, refl, arith, true, false, List, [], ◌∷◌, length, done, throws, position_exception,
  diverges, replicate, ◌>>◌, ◌≢◌, All,
}
use subiaoserver.Common.Words.{uint8, uint16, le_bytes}
use subiaoserver.ByteBuffer.{ByteBuffer}
use subiaoserver.ByteBuffer.{read_string, write_string}
use subiaoserver.Common.{ltb}
use subiaoserver.Common.Words.{InRange}
use subiaoserver.ByteBuffer.Containers.{of_uint}
use subiaoserver.ByteBuffer.Containers.RoundTrip.{of_uint-IsSerial}
use subiaoserver.ByteBuffer.Maps.{put_map, get_map}
use subiaoserver.ByteBuffer.Maps.RoundTrip.{get_map-put_map}
use subiaoserver.ByteBuffer.Strings.{read_string-write_string}
use subiaoserver.ByteBuffer.Containers.{of_string, put_vector, get_vector}
use subiaoserver.ByteBuffer.Containers.RoundTrip.{
  string_encoding, IsText, of_string-IsSerial, get_vector-put_vector,
}
use subiaoserver.ByteBuffer.Streams.{write_all, read_all, read_all-write_all}
use subiaoserver.ByteBuffer.Checksum.{add_check_sum}
use subiaoserver.ByteBuffer.Checksum.Sum.{add_check_sum_lem, add_check_sum-diverges}
use subiaoserver.ByteBuffer.Escape.{jt808encode, jt808decode}
use subiaoserver.ByteBuffer.Escape.Spec.{escape, unescape}
use subiaoserver.ByteBuffer.Escape.RoundTrip.{
  jt808encode-frame, jt808decode-unescape, jt808decode-jt808encode,
}

-- A buffer that holds `bs`, with the read cursor in front and the write cursor behind.
abbrev pub holding : List ℕ → ByteBuffer
holding bs = record { rpos = 0; wpos = length bs; storage = bs; escbuffer = [] }

abbrev packet : ByteBuffer
packet = holding (1 ∷ 0x7e ∷ 0x7d ∷ 5 ∷ [])

abbrev sent : ByteBuffer
sent = holding (0x7e ∷ 0x82 ∷ 1 ∷ 0x7d ∷ 2 ∷ 0x7d ∷ 1 ∷ 5 ∷ 0x7e ∷ [])

abbrev decoded : ByteBuffer
decoded = holding (0x7e ∷ 0x82 ∷ 1 ∷ 0x7e ∷ 0x7d ∷ 5 ∷ 0x7e ∷ [])

jt808decode-jt808encode_example : (do jt808encode; jt808decode) packet ≡ done 7 decoded
jt808decode-jt808encode_example = jt808decode-jt808encode packet refl (omega arith) (omega arith)

jt808encode-frame_example :
    (jt808encode packet ≡ done 7 sent)
    × All (λ c. c ≢ 0x7e) (escape (0x82 ∷ 1 ∷ 0x7e ∷ 0x7d ∷ 5 ∷ []))
unfolding escape
jt808encode-frame_example = jt808encode-frame packet refl (omega arith) (omega arith)

jt808decode-unescape_example :
    jt808decode (holding (1 ∷ 0x7d ∷ []))
    ≡ throws
        (position_exception false 2 1 2)
        (record (holding (1 ∷ 0x7d ∷ [])) { escbuffer = 1 ∷ [] })
unfolding unescape
jt808decode-unescape_example = jt808decode-unescape (holding (1 ∷ 0x7d ∷ [])) refl (omega arith)

add_check_sum_lem_example :
    add_check_sum true packet
    ≡ done 0x82 (record packet { storage = 0x82 ∷ 1 ∷ 0x7e ∷ 0x7d ∷ 5 ∷ [] })
add_check_sum_lem_example = add_check_sum_lem true packet (omega arith) (omega arith)

add_check_sum-diverges_example : add_check_sum false (holding (replicate 300 7)) ≡ diverges
add_check_sum-diverges_example =
    add_check_sum-diverges false (holding (replicate 300 7)) (omega arith)

read_all-write_all_example :
    (do write_all ((uint16, 0x1234) ∷ (uint8, 7) ∷ []); read_all (uint16 ∷ uint8 ∷ [])) (holding [])
    ≡ done (0x1234 ∷ 7 ∷ []) (record (holding (0x34 ∷ 0x12 ∷ 7 ∷ [])) { rpos = 3 })
read_all-write_all_example =
    read_all-write_all ((uint16, 0x1234) ∷ (uint8, 7) ∷ []) (holding [])
      (omega arith, (omega arith, tt)) refl refl (omega arith)

read_string-write_string_example :
    (do write_string (b'h' ∷ b'i' ∷ []); read_string) (holding [])
    ≡ done (b'h' ∷ b'i' ∷ []) (record (holding (b'h' ∷ b'i' ∷ 0 ∷ [])) { rpos = 3 })
read_string-write_string_example =
    read_string-write_string (b'h' ∷ b'i' ∷ []) (holding [])
      ((λ e. absurd (cc e)), ((λ e. absurd (cc e)), tt)) refl refl (omega arith)

abbrev two_strings : List (List ℕ)
two_strings = (b'a' ∷ []) ∷ (b'b' ∷ b'c' ∷ []) ∷ []

get_vector-put_vector_example :
    (do put_vector of_string two_strings; get_vector of_string) (holding [])
    ≡ done two_strings
        (record (holding (2 ∷ 0 ∷ 0 ∷ 0 ∷ b'a' ∷ 0 ∷ b'b' ∷ b'c' ∷ 0 ∷ [])) { rpos = 9 })
get_vector-put_vector_example =
    get_vector-put_vector of_string string_encoding IsText of_string-IsSerial two_strings
      (holding [])
      (
        omega arith,
        (((λ e. absurd (cc e)), tt), (((λ e. absurd (cc e)), ((λ e. absurd (cc e)), tt)), tt)),
      )
      refl refl (omega arith)

abbrev lengths : List (ℕ × List ℕ)
lengths = (3, b'a' ∷ []) ∷ (9, []) ∷ []

get_map-put_map_example :
    (do put_map (of_uint uint8) of_string lengths; get_map (of_uint uint8) of_string ltb)
      (holding [])
    ≡ done lengths (record (holding (2 ∷ 0 ∷ 0 ∷ 0 ∷ 3 ∷ b'a' ∷ 0 ∷ 9 ∷ 0 ∷ [])) { rpos = 9 })
get_map-put_map_example =
    get_map-put_map ltb (of_uint uint8) (le_bytes 1) (InRange uint8) of_string string_encoding
      IsText (of_uint-IsSerial uint8) of_string-IsSerial lengths (holding []) (omega arith)
      ((omega arith, ((λ e. absurd (cc e)), tt)), ((omega arith, tt), tt))
      (((refl, refl), tt), (tt, tt)) refl refl (omega arith)
