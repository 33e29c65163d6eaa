-- ===== src/Connection/Packets.antt =====
-- The functions of src/Connection.cpp that build a packet and hand it to `packetwrite`.
pub mod Frames
use Prim.Native.Nat.{bit_or}
use subiaoserver.Common.{
  ℕ, zero, suc, ◌+◌, ◌*◌, ◌/◌, ◌%◌, List, [], ◌∷◌, ◌++◌, Outcome, done, throws, undefined, diverges,
  Exec, ◌>>=◌, ◌>>◌, pure, ◌==◌, if◌then◌else◌, replicate,
}
use subiaoserver.Common.Words.{UInt, uint8, uint16, uint32}
use subiaoserver.Endian.{swap_endian}
use subiaoserver.ByteBuffer.{ByteBuffer}
use subiaoserver.ByteBuffer.Streams.{Values, write_all}
use subiaoserver.ByteBuffer.Escape.{jt808encode}
use subiaoserver.WorldPacket.{WorldPacket, world_packet}
use subiaoserver.Connection.{Connection, MediaInfo, set_settings}
use subiaoserver.Connection.Globals.{Settings, CameraSettings, DsmSettings, AdasSettings}
use subiaoserver.Connection.Outbox.{packetwrite}

-- `packet << … << …; packet.jt808encode(); packetwrite(packet);`
unfoldable pub send : ℕ → Values → Exec Connection (Unit {0})
send opcode vs c = elim ((do write_all vs; jt808encode) (world_packet opcode).buffer) [
  | done _ b ↦ packetwrite (record { buffer = b; opcode = opcode }) c
  | throws e _ ↦ throws e c
  | undefined ↦ undefined
  | diverges ↦ diverges
]

-- `packet << sequencemsgcnt << manufactureID << s_terminalcodeID << packet.GetOpcode()`.
unfoldable pub header : ℕ → Connection → Values
header opcode c =
    (uint16, c.settings.sequencemsgcnt)
    ∷ (uint16, c.settings.manufacture_id)
    ∷ (uint8, c.header.s_terminalcode_id)
    ∷ (uint8, opcode)
    ∷ []

unfoldable pub sendcheckpacket : Exec Connection (Unit {0})
sendcheckpacket c = send 0x2f (header 0x2f c) c

unfoldable pub sendrestorepacket : Exec Connection (Unit {0})
sendrestorepacket c = send 0x30 (header 0x30 c) c

unfoldable pub sendreadconfigpacket : Exec Connection (Unit {0})
sendreadconfigpacket c = send 0x32 (header 0x32 c) c

unfoldable pub sendactiveconfigpacket : Exec Connection (Unit {0})
sendactiveconfigpacket c = send 0x33 (header 0x33 c) c

unfoldable pub sendactivequerypacket : Exec Connection (Unit {0})
sendactivequerypacket c = send 0x34 (header 0x34 c) c

unfoldable pub sendadasconfigpacket : Exec Connection (Unit {0})
sendadasconfigpacket c = send 0x35 (header 0x35 c) c

-- Its opcode is that of `sendadasconfigpacket`; the comment above it in the source says 0x37.
unfoldable pub sendchecksensorstatuspacket : Exec Connection (Unit {0})
sendchecksensorstatuspacket c = send 0x35 (header 0x35 c) c

unfoldable pub sendmultimediaack : Exec Connection (Unit {0})
sendmultimediaack c = send 0x51 (header 0x51 c) c

unfoldable pub sendphotenowpacket : Exec Connection (Unit {0})
sendphotenowpacket c = send 0x52 (header 0x52 c) c

-- What `localtime` says of the time of the call, after the year 2000: `year` is `tm_year - 100`
-- and `mon` counts from 0.
pub record LocalTime : Type 0 where
  pub year : ℕ
  pub mon : ℕ
  pub mday : ℕ
  pub hour : ℕ
  pub min : ℕ
  pub sec : ℕ

-- `(unsigned char)(((x / 10) << 4) | (x % 10))`
unfoldable pub bcd : ℕ → ℕ
bcd x = bit_or (x / 10 * 16) (x % 10) % 256

unfoldable pub utc_bcd_time : LocalTime → List ℕ
utc_bcd_time t = bcd t.year ∷ bcd (1 + t.mon) ∷ bcd t.mday ∷ bcd t.hour ∷ bcd t.min ∷ bcd t.sec ∷ []

abbrev each_uint8 : List ℕ → Values
each_uint8 [] = []
each_uint8 (b ∷ bs) = (uint8, b) ∷ each_uint8 bs

unfoldable pub realtime_values : LocalTime → ℕ → Connection → Values
realtime_values t opcode c =
    header opcode c
    ++ ((uint8, 0x40)
        ∷ (uint8, 0)
        ∷ (uint32, swap_endian uint32 0x12345678)
        ∷ (uint16, 0)
        ∷ (uint16, swap_endian uint16 0x100)
        ∷ (uint32, swap_endian uint32 0x23232323)
        ∷ (uint32, swap_endian uint32 0x56125612)
        ∷ (each_uint8 (utc_bcd_time t) ++ (uint16, swap_endian uint16 0x10) ∷ []))

-- The global counter is swapped in place first.
unfoldable pub sendrealtimepacket : LocalTime → Exec Connection (Unit {0})
sendrealtimepacket t c =
    let swapped = swap_endian uint16 c.settings.sequencemsgcnt in
    let c' = set_settings c (record (c.settings) { sequencemsgcnt = swapped }) in
    send 0x31 (realtime_values t 0x31 c') c'

-- `sendcurrentmultimediarequest`: the file that is being fetched.
unfoldable pub sendcurrentmultimediarequest : Exec Connection (Unit {0})
sendcurrentmultimediarequest c =
    send 0x50
      (header 0x50 c
        ++ ((uint8, c.t_mediainfodescription.mediatype)
            ∷ (uint32, swap_endian uint32 c.t_mediainfodescription.multimedia_id)
            ∷ []))
      c
