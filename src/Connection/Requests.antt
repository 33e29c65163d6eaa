-- ===== src/Connection/Requests.antt =====
-- The functions of src/Connection.cpp that send a packet, but for the acknowledgement of a piece.
use subiaoserver.Common.{ℕ, ◌≤◌, ◌<◌, ◌≡◌, refl, ◌∙◌, arith, [], ◌∷◌, ◌++◌, length, Exec}
use subiaoserver.Common.Words.{uint8, uint16, uint32}
use subiaoserver.Endian.{swap_endian}
use subiaoserver.ByteBuffer.Streams.{Values, bytes_of}
use subiaoserver.Connection.{Connection, set_settings}
use subiaoserver.Connection.Outbox.{packetwrite}
use subiaoserver.Connection.Packets.Frames.{framed, send-framed}
use subiaoserver.Connection.Packets.{
  LocalTime, utc_bcd_time, send, header, realtime_values, sendcheckpacket, sendrestorepacket,
  sendreadconfigpacket, sendactiveconfigpacket, sendactivequerypacket, sendadasconfigpacket,
  sendchecksensorstatuspacket, sendmultimediaack, sendphotenowpacket, sendrealtimepacket,
  sendcurrentmultimediarequest,
}
use subiaoserver.Connection.Config.{
  adas_values, dsm_values, send_adasactivesetconfigpacket, send_dsmactivesetconfigpacket,
}

pub data Request : Type 0 where
  check restore read_config active_config active_query adas_config sensor_status : Request
  multimedia_ack photo_now current_media set_adas set_dsm : Request
  realtime : LocalTime → Request

unfoldable pub perform : Request → Exec Connection (Unit {0})
perform check = sendcheckpacket
perform restore = sendrestorepacket
perform read_config = sendreadconfigpacket
perform active_config = sendactiveconfigpacket
perform active_query = sendactivequerypacket
perform adas_config = sendadasconfigpacket
perform sensor_status = sendchecksensorstatuspacket
perform multimedia_ack = sendmultimediaack
perform photo_now = sendphotenowpacket
perform current_media = sendcurrentmultimediarequest
perform set_adas = send_adasactivesetconfigpacket
perform set_dsm = send_dsmactivesetconfigpacket
perform (realtime t) = sendrealtimepacket t

-- The opcode of each request, and what stands behind its header.
abbrev pub opcode_of : Request → ℕ
opcode_of check = 0x2f
opcode_of restore = 0x30
opcode_of read_config = 0x32
opcode_of active_config = 0x33
opcode_of active_query = 0x34
opcode_of adas_config = 0x35
opcode_of sensor_status = 0x35
opcode_of multimedia_ack = 0x51
opcode_of photo_now = 0x52
opcode_of current_media = 0x50
opcode_of set_adas = 0x35
opcode_of set_dsm = 0x35
opcode_of (realtime t) = 0x31

-- The connection as it is when the packet is built: only the heartbeat swaps the counter first.
abbrev pub prepared : Request → Connection → Connection
prepared (realtime t) c =
    set_settings c
      (record (c.settings) { sequencemsgcnt = swap_endian uint16 c.settings.sequencemsgcnt })
prepared _ c = c

-- What the packet holds before it is framed.
unfoldable pub message : Request → Connection → Values
message current_media c =
    header 0x50 c
    ++ ((uint8, c.t_mediainfodescription.mediatype)
        ∷ (uint32, swap_endian uint32 c.t_mediainfodescription.multimedia_id)
        ∷ [])
message set_adas c = header 0x35 c ++ adas_values c.settings
message set_dsm c = header 0x35 c ++ dsm_values c.settings
message (realtime t) c = realtime_values t 0x31 c
message r c = header (opcode_of r) c

pub message-fits :
    (r : Request) (c : Connection)
    → (2 ≤ length (bytes_of (message r c))) × (length (bytes_of (message r c)) < 256)
unfolding message header realtime_values utc_bcd_time
message-fits check c = omega arith
message-fits _ c = omega arith

perform-send :
    (r : Request) (c : Connection)
    → perform r c ≡ send (opcode_of r) (message r (prepared r c)) (prepared r c)
unfolding perform message sendcheckpacket sendrestorepacket sendreadconfigpacket
    sendactiveconfigpacket sendactivequerypacket sendadasconfigpacket sendchecksensorstatuspacket
    sendmultimediaack sendphotenowpacket sendrealtimepacket sendcurrentmultimediarequest
    send_adasactivesetconfigpacket send_dsmactivesetconfigpacket
perform-send check c = refl
perform-send _ c = refl

-- Every function that sends a packet, but for the acknowledgement of a piece, hands `packetwrite`
-- one packet, the frame of its message under its opcode, and does not throw; only the heartbeat
-- changes the connection before that.
pub perform-framed :
    (r : Request) (c : Connection)
    → perform r c
      ≡ packetwrite (framed (opcode_of r) (bytes_of (message r (prepared r c)))) (prepared r c)
perform-framed r c =
    let (lo, hi) = message-fits r (prepared r c) in
    perform-send r c ∙ send-framed (opcode_of r) (message r (prepared r c)) (prepared r c) lo hi

pub sendrealtimepacket-framed :
    (t : LocalTime) (c : Connection)
    → sendrealtimepacket t c
      ≡ packetwrite
          (framed 0x31 (bytes_of (message (realtime t) (prepared (realtime t) c))))
          (prepared (realtime t) c)
unfolding perform
sendrealtimepacket-framed t c = perform-framed (realtime t) c

pub sendcurrentmultimediarequest-framed :
    (c : Connection)
    → sendcurrentmultimediarequest c
      ≡ packetwrite (framed 0x50 (bytes_of (message current_media c))) c
unfolding perform
sendcurrentmultimediarequest-framed c = perform-framed current_media c
