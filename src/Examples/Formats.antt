-- ===== src/Examples/Formats.antt =====
-- The theorems on numbers, packed values and printed bytes, at concrete inputs.
use subiaoserver.Common.{
  ℕ, List, ◌+◌, ◌*◌, ◌≡◌, ◌≤◌, refl, arith, true, [], ◌∷◌, ◌++◌, length, done, throws, ◌>>◌,
  ByteBufferException,
}
use subiaoserver.Common.Words.{uint32, le_bytes}
use subiaoserver.Common.Int.{ℤ, negsuc, int16, IsInt, to_bits}
use subiaoserver.Common.Text.{codes, decimal, number_from}
use subiaoserver.ByteBuffer.{read, advance}
use subiaoserver.ByteBuffer.Access.{push}
use subiaoserver.ByteBuffer.Streams.{after_reading}
use subiaoserver.ByteBuffer.Operators.Feed.{past}
use subiaoserver.ByteBuffer.Numbers.{write_int, read_int, write_double, read_double}
use subiaoserver.ByteBuffer.Numbers.RoundTrip.{
  read_int-write_int, read_int-IsInt, read_double-write_double,
}
use subiaoserver.ByteBuffer.PackedGuid.{append_pack_guid, read_pack_guid}
use subiaoserver.ByteBuffer.PackedGuid.Packing.{packed}
use subiaoserver.ByteBuffer.PackedGuid.RoundTrip.{read_pack_guid-append_pack_guid}
use subiaoserver.ByteBuffer.PackedTime.{Tm, append_packed_time, read_packed_time, pack_time}
use subiaoserver.ByteBuffer.PackedTime.RoundTrip.{read_packed_time-append_packed_time}
use subiaoserver.Common.Keeps.{Ends}
use subiaoserver.ByteBuffer.Bytes.{HoldsBytes}
use subiaoserver.ByteBuffer.Bytes.Operations.{
  Operation, writes, writes_string, encodes, decodes, clears_header, reads, perform_all,
  perform_all-HoldsBytes,
}
use subiaoserver.ByteBuffer.Printing.{hexlike, message, print_raw_data}
use subiaoserver.ByteBuffer.Printing.Hex.{grid, hex_values, pairs, hexlike-grid}
use subiaoserver.ByteBuffer.Printing.Messages.{message-read}
use subiaoserver.Examples.Buffers.{holding}

read_int-write_int_example :
    (do write_int int16 (negsuc 1); read_int int16) (holding [])
    ≡ done (negsuc 1) (record (holding (0xfe ∷ 0xff ∷ [])) { rpos = 2 })
unfolding to_bits
read_int-write_int_example =
    read_int-write_int int16 (negsuc 1) (holding []) (omega arith) refl refl (omega arith)

read_int-IsInt_example :
    (z : ℤ) × (read_int int16 (holding (0xfe ∷ 0xff ∷ 9 ∷ []))
      ≡ done z (advance 2 (holding (0xfe ∷ 0xff ∷ 9 ∷ []))))
    × IsInt int16 z
    × (le_bytes 2 (to_bits int16 z) ≡ 0xfe ∷ 0xff ∷ [])
read_int-IsInt_example =
    read_int-IsInt int16 (holding (0xfe ∷ 0xff ∷ 9 ∷ [])) (0xfe ∷ 0xff ∷ []) (9 ∷ [])
      (record { addressable = omega arith; within = refl; rest = refl }) refl
      (omega arith, (omega arith, tt))

-- The greatest `double`, which is finite, is lost.
read_double-write_double_example :
    (do write_double 0x7fef_ffff_ffff_ffff; read_double) (holding [])
    ≡ done 0 (past 8 (push (le_bytes 8 0x7fef_ffff_ffff_ffff) (holding [])))
read_double-write_double_example =
    read_double-write_double 0x7fef_ffff_ffff_ffff (holding []) (omega arith) refl refl
      (omega arith)

read_pack_guid-append_pack_guid_example :
    ((do append_pack_guid 0x1200_0034; read_pack_guid) (holding [])
      ≡ done 0x1200_0034
          (after_reading (length (packed 0x1200_0034)) (push (packed 0x1200_0034) (holding []))))
    × (length (packed 0x1200_0034) ≤ 9)
read_pack_guid-append_pack_guid_example =
    read_pack_guid-append_pack_guid 0x1200_0034 (holding []) (omega arith) refl refl (omega arith)

-- 2026-11-26, 12:34:56, a Thursday.
abbrev moment : Tm
moment = record {
  tm_sec = 56;
  tm_min = 34;
  tm_hour = 12;
  tm_mday = 26;
  tm_mon = 10;
  tm_year = 126;
  tm_wday = 4;
}

-- A clock that counts minutes of the day.
abbrev minutes : Tm → ℕ
minutes t = t.tm_hour * 60 + t.tm_min

read_packed_time-append_packed_time_example :
    (do append_packed_time (λ _. moment) 5; read_packed_time minutes) (holding [])
    ≡ done 754 (after_reading 4 (push (le_bytes 4 (pack_time moment)) (holding [])))
read_packed_time-append_packed_time_example =
    read_packed_time-append_packed_time minutes (λ _. moment) 5 (holding [])
      (record {
        min = omega arith;
        hour = omega arith;
        mday_from = omega arith;
        mday = omega arith;
        mon = omega arith;
        year_from = omega arith;
        year = omega arith;
        wday = omega arith;
      })
      refl refl (omega arith)

hexlike-grid_example :
    (hexlike true (holding (0x7e ∷ 0x0a ∷ []))
      ≡ done (grid 0 (0x7e ∷ 0x0a ∷ []) ++ codes "  \n") (holding (0x7e ∷ 0x0a ∷ [])))
    × (pairs (hex_values (grid 0 (0x7e ∷ 0x0a ∷ []) ++ codes "  \n")) ≡ 0x7e ∷ 0x0a ∷ [])
hexlike-grid_example =
    hexlike-grid (holding (0x7e ∷ 0x0a ∷ [])) (omega arith, (omega arith, tt)) (omega arith)

message-read_example :
    (e : ByteBufferException) × (read uint32 (holding (1 ∷ 2 ∷ []))
      ≡ throws e (holding (1 ∷ 2 ∷ [])))
    × (message e
        ≡ codes "Attempted to get value with size: "
          ++ (decimal 2
              ++ (codes " in ByteBuffer (pos: "
                  ++ (decimal 0 ++ (codes " size: " ++ (decimal 4 ++ codes ")"))))))
    × (number_from 0 (decimal 2) ≡ 2)
    × (number_from 0 (decimal 0) ≡ 0)
message-read_example =
    message-read uint32 (holding (1 ∷ 2 ∷ [])) (1 ∷ 2 ∷ [])
      (record { addressable = omega arith; within = refl; rest = refl }) (omega arith) (omega arith)

-- The lines that are printed for 18 bytes.
hexlike_lines :
    hexlike true (
      holding
        (1 ∷ 2 ∷ 3 ∷ 4 ∷ 5 ∷ 6 ∷ 7 ∷ 8 ∷ 9 ∷ 10 ∷ 11 ∷ 12 ∷ 13 ∷ 14 ∷ 15 ∷ 16 ∷ 17 ∷ 255 ∷ []))
    ≡ done (codes "01 02 03 04 05 06 07 08 | 09 0A 0B 0C 0D 0E 0F 10 \n11 FF   \n") (
        holding
          (1 ∷ 2 ∷ 3 ∷ 4 ∷ 5 ∷ 6 ∷ 7 ∷ 8 ∷ 9 ∷ 10 ∷ 11 ∷ 12 ∷ 13 ∷ 14 ∷ 15 ∷ 16 ∷ 17 ∷ 255 ∷ []))
unfolding hexlike
hexlike_lines = refl

-- A packet is written, framed and decoded, and its header is read.
abbrev calls : List Operation
calls =
    writes uint32 0x7e7d_0001
    ∷ writes_string (0x41 ∷ 0x42 ∷ [])
    ∷ encodes
    ∷ decodes
    ∷ reads uint32
    ∷ clears_header
    ∷ []

perform_all-HoldsBytes_example : Ends HoldsBytes (perform_all calls (holding []))
perform_all-HoldsBytes_example =
    perform_all-HoldsBytes calls (holding [])
      (tt, ((omega arith, (omega arith, tt)), (tt, (tt, (tt, (tt, tt)))))) (tt, tt)

raw_data_line : print_raw_data (0x7e ∷ 0x0a ∷ []) ≡ codes "7e a \n"
unfolding print_raw_data
raw_data_line = refl
