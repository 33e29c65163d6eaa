-- ===== src/Connection/Receive/Status.antt =====
-- `processInput` on a status report.
use subiaoserver.Common.{ℕ, ◌≡◌, ◌⊎◌, arith, List, ◌++◌, length, inl, inr, ◌==◌, if◌then◌else◌}
use subiaoserver.ByteBuffer.Access.{Unread}
use subiaoserver.ByteBuffer.Streams.{Values, bytes_of}
use subiaoserver.ByteBuffer.Operators.Feed.{past}
use subiaoserver.WorldPacket.{WorldPacket}
use subiaoserver.Connection.{Connection, put_buffer}
use subiaoserver.Connection.Outbox.{packetwrite}
use subiaoserver.Connection.Packets.{header}
use subiaoserver.Connection.Packets.Frames.{framed, send-framed, packetwrite_cases}
use subiaoserver.Connection.Reads.{read_locals-feed}
use subiaoserver.Connection.Config.{
  adas_id, dms_id, adas_values, dsm_values, sendactivesetconfigpacket,
  send_adasactivesetconfigpacket, send_dsmactivesetconfigpacket,
}
use subiaoserver.Connection.Media.{Library}
use subiaoserver.Connection.Receive.{process_input, handlestatusreport, status_ops}

-- The settings for the kind of sensor that sent the last packet.
abbrev pub settings_for : Connection → Values
settings_for c =
    if c.header.s_terminalcode_id == adas_id then adas_values c.settings else dsm_values c.settings

settings_packet : Connection → WorldPacket
settings_packet c = framed 0x35 (bytes_of (header 0x35 c ++ settings_for c))

sendactivesetconfigpacket-framed :
    (c : Connection)
    → (c.header.s_terminalcode_id ≡ adas_id) ⊎ (c.header.s_terminalcode_id ≡ dms_id)
    → sendactivesetconfigpacket c ≡ packetwrite (settings_packet c) c
unfolding sendactivesetconfigpacket send_adasactivesetconfigpacket send_dsmactivesetconfigpacket
    settings_packet header
sendactivesetconfigpacket-framed c (inl a) =
    let p = framed 0x35 (bytes_of (header 0x35 c ++ adas_values c.settings)) in
    let sent =
      send-framed 0x35 (header 0x35 c ++ adas_values c.settings) c (omega arith) (omega arith) in
    elim (packetwrite_cases p c) [
      | inl posted ↦ ground (arith, a, sent, posted)
      | inr not_posted ↦ ground (arith, a, sent, not_posted)
    ]
sendactivesetconfigpacket-framed c (inr d) = ground (
  arith,
  d,
  send-framed 0x35 (header 0x35 c ++ dsm_values c.settings) c (omega arith) (omega arith),
)

handlestatusreport-framed :
    (c : Connection) (bs rest : List ℕ)
    → (c.header.s_terminalcode_id ≡ adas_id) ⊎ (c.header.s_terminalcode_id ≡ dms_id)
    → length bs ≡ 5
    → Unread c.readpacket.buffer (bs ++ rest)
    → handlestatusreport c
      ≡ packetwrite (settings_packet c) (put_buffer c (past 5 c.readpacket.buffer))
unfolding handlestatusreport settings_packet header
handlestatusreport-framed c bs rest kind five u =
    rw (read_locals-feed tt status_ops c bs rest u five)
      (sendactivesetconfigpacket-framed (put_buffer c (past 5 c.readpacket.buffer)) kind)

-- A status report of either kind of sensor, opcode 0x38 with 5 unread bytes, makes the dispatch
-- read these bytes and hand `packetwrite` one packet, the frame of the settings for that kind under
-- the opcode 0x35.
pub process_input-status :
    (lib : Library) (c : Connection) (bs rest : List ℕ)
    → c.header.s_opcode ≡ 0x38
    → (c.header.s_terminalcode_id ≡ adas_id) ⊎ (c.header.s_terminalcode_id ≡ dms_id)
    → length bs ≡ 5
    → Unread c.readpacket.buffer (bs ++ rest)
    → process_input lib c
      ≡ packetwrite
          (framed 0x35 (bytes_of (header 0x35 c ++ settings_for c)))
          (put_buffer c (past 5 c.readpacket.buffer))
unfolding process_input settings_packet
process_input-status lib c bs rest op kind five u =
    ground (arith, op, handlestatusreport-framed c bs rest kind five u)
