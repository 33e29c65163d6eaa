-- ===== src/Examples/Connections.antt =====
-- The theorems on src/Connection.cpp, at concrete inputs.
use subiaoserver.Common.{ℕ, ◌≡◌, refl, arith, true, List, [], ◌∷◌, ◌++◌, length, done, none, some}
use subiaoserver.Endian.{swap_endian}
use subiaoserver.ByteBuffer.Streams.{bytes_of, AllInRange}
use subiaoserver.WorldPacket.{WorldPacket, world_packet}
use subiaoserver.Connection.{Connection, put_buffer}
use subiaoserver.Connection.Globals.{
  Settings, initial_settings, default_camera, default_dsm, default_adas,
}
use subiaoserver.Connection.Outbox.{packetwrite}
use subiaoserver.Connection.Outbox.Line.{
  Line, Event, submits, runs, completes, fails, IsOrdered, handle_all, IsFilled, is_live,
}
use subiaoserver.Connection.Outbox.Moves.{Succeeds}
use subiaoserver.Connection.Outbox.Closed.{IsClosed}
use subiaoserver.Connection.Outbox.Failure.{handle_all-IsClosed}
use subiaoserver.Common.{◌⊎◌, inl}
use subiaoserver.Connection.Outbox.Order.{handle_all-IsOrdered}
use subiaoserver.Connection.Packets.{header}
use subiaoserver.Connection.Packets.Frames.{framed}
use subiaoserver.Connection.Config.{adas_values, dsm_values, handleactivesetconfigpacket}
use subiaoserver.Connection.Config.RoundTrip.{handle_adas_values, handle_dsm_values}
use subiaoserver.Connection.Requests.{message, perform, check, perform-framed}
use subiaoserver.Connection.Media.{Library}
use subiaoserver.Connection.Receive.{Indeterminate, connection}

abbrev pub memory : Indeterminate
memory = record {
  header = record {
    s_jt808sync = 0;
    s_checksum = 0;
    s_sequencemsgcnt = 0;
    s_manufacture_id = 0;
    s_terminalcode_id = 0x64;
    s_opcode = 0;
  };
  attachment = record {
    m_mediatype = 0;
    m_multimedia_id = 0;
    m_totalpacket_no = 0;
    m_currentpacket_no = 0;
  };
  t_mediainfodescription = record { mediatype = 0; multimedia_id = 0 };
  total_bytes_read = 0;
  buf_size = 0;
}

abbrev pub settings : Settings
settings = record {
  manufacture_id = 0x3412;
  sequencemsgcnt = 0;
  reschar = 0;
  camera = default_camera;
  dsm = default_dsm;
  adas = default_adas;
}

abbrev pub new : Connection
new = record {
  is_open = true;
  registered = true;
  total_bytes_read = 0;
  buf = [];
  buf_size = 131072;
  header = memory.header;
  readpacket = world_packet 0;
  outbox = [];
  m_mediainfodescription = [];
  t_mediainfodescription = memory.t_mediainfodescription;
  mediarequestcnt = 0;
  attachment = memory.attachment;
  m_file = none;
  settings = settings;
  host = record {
    posted = [];
    writing = [];
    reading = [];
    heartbeat_timer = [];
    mediadelay_timer = [];
    files = [];
  };
}

connection-new :
    record (connection memory initial_settings) { registered = true; buf_size = 131072 } ≡ new
unfolding connection initial_settings
connection-new = refl

perform-framed_example :
    perform check new ≡ packetwrite (framed 0x2f (0 ∷ 0 ∷ 0x12 ∷ 0x34 ∷ 0x64 ∷ 0x2f ∷ [])) new
unfolding message header
perform-framed_example = perform-framed check new

-- A packet with the bytes `bs`.
abbrev pub packet_of : List ℕ → WorldPacket
packet_of bs = record {
  buffer = record { rpos = 0; wpos = length bs; storage = bs; escbuffer = [] };
  opcode = 0;
}

abbrev pub idle : Line
idle = record { connection = new; wire = []; submitted = [] }

abbrev pub events : List Event
events =
    submits (packet_of (1 ∷ []))
    ∷ submits (packet_of (2 ∷ []))
    ∷ runs
    ∷ completes
    ∷ runs
    ∷ submits (packet_of (3 ∷ []))
    ∷ completes
    ∷ []

handle_all-IsOrdered_example : Succeeds (handle_all events idle)
unfolding IsFilled is_live
handle_all-IsOrdered_example =
    handle_all-IsOrdered events idle
      (
        (λ e. absurd (cc e)),
        ((λ e. absurd (cc e)), (tt, (tt, (tt, ((λ e. absurd (cc e)), (tt, tt)))))),
      )
      (refl, (refl, (refl, (refl, (refl, (refl, (refl, tt)))))))
      (record { is_open = refl; writes_front = refl; filled = tt; ordered = refl })

-- The second write fails while a third packet is posted.
abbrev failing : List Event
failing =
    submits (packet_of (1 ∷ []))
    ∷ submits (packet_of (2 ∷ []))
    ∷ runs
    ∷ runs
    ∷ completes
    ∷ submits (packet_of (3 ∷ []))
    ∷ fails
    ∷ runs
    ∷ []

handle_all-IsClosed_example :
    (l : Line) × (handle_all failing idle ≡ done tt l)
    × (IsOrdered l ⊎ IsClosed l)
    × ((rest : List (List ℕ)) × (l.wire ++ rest ≡ l.submitted))
unfolding IsFilled
handle_all-IsClosed_example =
    handle_all-IsClosed failing idle
      (
        (λ e. absurd (cc e)),
        ((λ e. absurd (cc e)), (tt, (tt, (tt, ((λ e. absurd (cc e)), (tt, (tt, tt))))))),
      )
      (inl (record { is_open = refl; writes_front = refl; filled = tt; ordered = refl }))

-- A connection whose packet holds `bs`, from a sensor of kind `id`.
abbrev pub reading : ℕ → List ℕ → Connection
reading id bs = record new {
  header = record (new.header) { s_terminalcode_id = id };
  readpacket = packet_of bs;
}

pub adas_values-AllInRange : AllInRange (adas_values settings)
unfolding swap_endian
adas_values-AllInRange = ground arith

dsm_values-AllInRange : AllInRange (dsm_values settings)
unfolding swap_endian
dsm_values-AllInRange = ground arith

handle_adas_values_example :
    handleactivesetconfigpacket (reading 0x64 (bytes_of (adas_values settings)))
    ≡ done tt (
        put_buffer
          (reading 0x64 (bytes_of (adas_values settings)))
          (record (reading 0x64 (bytes_of (adas_values settings))).readpacket.buffer { rpos = 50 }))
handle_adas_values_example =
    handle_adas_values (reading 0x64 (bytes_of (adas_values settings))) settings [] refl
      adas_values-AllInRange (omega arith) (omega arith)
      (record { addressable = omega arith; within = refl; rest = refl })

handle_dsm_values_example :
    handleactivesetconfigpacket (reading 0x65 (bytes_of (dsm_values settings)))
    ≡ done tt (
        put_buffer
          (reading 0x65 (bytes_of (dsm_values settings)))
          (record (reading 0x65 (bytes_of (dsm_values settings))).readpacket.buffer { rpos = 43 }))
handle_dsm_values_example =
    handle_dsm_values (reading 0x65 (bytes_of (dsm_values settings))) settings [] refl
      dsm_values-AllInRange (omega arith) (omega arith) (omega arith) (omega arith)
      (record { addressable = omega arith; within = refl; rest = refl })

abbrev pub library : Library
library = record { stamp = b'2' ∷ b'0' ∷ []; opened = some 7 }
