-- ===== src/Connection/Receive.antt =====
-- The incoming side of src/Connection.cpp: `Start`, `readmedia`, `processInput`, the heartbeat and
-- the handlers that only read.
pub mod Message
pub mod Reassembly
pub mod Heartbeat
pub mod Status
pub mod Dispatch
pub mod Bounds
use subiaoserver.Common.{
  ℕ, zero, suc, ◌+◌, ◌-◌, ◌*◌, ◌%◌, ◌^◌, Bool, true, false, List, [], ◌∷◌, ◌++◌, none, ◌==◌, ◌||◌,
  if◌then◌else◌, length, take, get_or, Outcome, done, throws, undefined, diverges, Exec, ◌>>=◌,
  ◌>>◌, pure, modify,
}
use subiaoserver.Common.Words.{UInt, uint8, uint16, uint32}
use subiaoserver.ByteBuffer.{ByteBuffer, size_add, memcpy, clear}
use subiaoserver.ByteBuffer.Escape.{jt808decode}
use subiaoserver.ByteBuffer.Operators.{Op, into}
use subiaoserver.WorldPacket.{world_packet}
use subiaoserver.Connection.{
  Connection, Header, Host, MediaInfo, Attachment, expires_from_now, async_wait, heartbeat_call,
  on_readpacket, put_buffer, set_host, manager_stop,
}
use subiaoserver.Connection.Globals.{Settings}
use subiaoserver.Connection.Reads.{read_into, read_locals}
use subiaoserver.Connection.Packets.{LocalTime, sendrealtimepacket}
use subiaoserver.Connection.Config.{sendactivesetconfigpacket, handleactivesetconfigpacket}
use subiaoserver.Connection.Media.{Library, handlealarmreport, handlattachmentload}

abbrev pub set_header : Connection → Header → Connection
set_header c h = record c { header = h }

abbrev pub header_ops : List (Op Header)
header_ops =
    into uint8 (λ v h. record h { s_jt808sync = v })
    ∷ into uint8 (λ v h. record h { s_checksum = v })
    ∷ into uint16 (λ v h. record h { s_sequencemsgcnt = v })
    ∷ into uint16 (λ v h. record h { s_manufacture_id = v })
    ∷ into uint8 (λ v h. record h { s_terminalcode_id = v })
    ∷ into uint8 (λ v h. record h { s_opcode = v })
    ∷ []

-- Two local variables that are only printed.
abbrev pub status_ops : List (Op (Unit {0}))
status_ops = into uint8 (λ v s. s) ∷ into uint32 (λ v s. s) ∷ []

unfoldable pub handlestatusreport : Exec Connection (Unit {0})
handlestatusreport = do read_locals tt status_ops; sendactivesetconfigpacket

-- `processInput`. The acknowledgements 0x2F, 0x30, 0x32, 0x35, 0x50 and 0x52 and all other
-- opcodes are only printed.
unfoldable pub process_input : Library → Exec Connection (Unit {0})
process_input lib c =
    let opcode = c.header.s_opcode in
    if opcode == 0x34
    then handleactivesetconfigpacket c
    else if opcode == 0x38
    then handlestatusreport c
    else if opcode == 0x36
    then handlealarmreport lib c
    else if opcode == 0x51
    then handlattachmentload lib c
    else done tt c

-- How an `async_read_some` ends.
pub data ReadEvent : Type 0 where
  aborted failed : ReadEvent
  received : List ℕ → ReadEvent

abbrev pub message_size : ℕ
message_size = 128 * 1024

-- `readmedia`: the offset is `total_bytes_read`, and the room is a difference of two `size_t`.
unfoldable pub readmedia : ℕ → Connection → Connection
readmedia bytes_count c =
    let total = size_add c.total_bytes_read bytes_count in
    let room = (c.buf_size + 2 ^ 64 - total) % 2 ^ 64 in
    set_host (record c { total_bytes_read = total })
      (record (c.host) { reading = c.host.reading ++ (total, room) ∷ [] })

-- The bytes up to `count` become `readpacket`, which is decoded and dispatched.
unfoldable pub process_message : Library → ℕ → Exec Connection (Unit {0})
process_message lib count = do
  modify (λ c. put_buffer c (record (clear c.readpacket.buffer) { storage = take count c.buf }))
  on_readpacket jt808decode
  read_into (λ c. c.header) set_header header_ops
  process_input lib

-- The handler that `readmedia` gives to `async_read_some`. Nothing received and nothing kept makes
-- it look at the byte before the buffer.
unfoldable pub read_handler : Library → ReadEvent → Exec Connection (Unit {0})
read_handler lib aborted c = done tt c
read_handler lib failed c = done tt (manager_stop c)
read_handler lib (received bs) c =
    let count = c.total_bytes_read + length bs in
    let c' = record c { buf = memcpy c.total_bytes_read bs c.buf } in
    if count == 0
    then undefined
    else if get_or c'.buf (count - 1) 0 == 0x7e
    then (do
      process_message lib count
      modify (λ d. readmedia 0 (record d { total_bytes_read = 0 })))
        c'
    else done tt (readmedia (length bs) c')

-- `start_write` and `heart_tick`: a status packet if the socket is open, and a wait of 8 seconds.
abbrev pub beat : LocalTime → Exec Connection (Unit {0})
beat t = do
  (λ c. if c.is_open then sendrealtimepacket t c else done tt c)
  modify (heartbeat_call (expires_from_now 8000))
  modify (heartbeat_call async_wait)

unfoldable pub start_write : LocalTime → Exec Connection (Unit {0})
start_write t = beat t

unfoldable pub heart_tick : LocalTime → Bool → Exec Connection (Unit {0})
heart_tick t ec c = if ec then done tt (manager_stop c) else beat t c

-- `Connection::Start`.
unfoldable pub start : LocalTime → Exec Connection (Unit {0})
start t = do
  modify (λ c. readmedia 0 (record c { total_bytes_read = 0; buf = []; buf_size = message_size }))
  start_write t

-- What the memory of a new connection holds in the members that its constructor leaves alone.
pub record Indeterminate : Type 0 where
  pub header : Header
  pub attachment : Attachment
  pub t_mediainfodescription : MediaInfo
  pub total_bytes_read : ℕ
  pub buf_size : ℕ

-- `Connection::Connection`, once its socket is connected.
unfoldable pub connection : Indeterminate → Settings → Connection
connection memory settings = record {
  is_open = true;
  registered = false;
  total_bytes_read = memory.total_bytes_read;
  buf = [];
  buf_size = memory.buf_size;
  header = memory.header;
  readpacket = world_packet 0;
  outbox = [];
  m_mediainfodescription = [];
  t_mediainfodescription = memory.t_mediainfodescription;
  mediarequestcnt = 0;
  attachment = memory.attachment;
  m_file = none;
  settings = settings;
  host = record {
    posted = [];
    writing = [];
    reading = [];
    heartbeat_timer = [];
    mediadelay_timer = [];
    files = [];
  };
}
