-- ===== src/Connection.antt =====
-- include/Connection.h and src/Connection.cpp: the state of one connection, with what it has
-- asked of Boost.Asio and of the C library.
pub mod Globals
pub mod Outbox
pub mod Packets
pub mod Reads
pub mod Config
pub mod Receive
pub mod Halting
pub mod Life
pub mod Media
pub mod Requests
pub mod Kept
pub mod Unused
use subiaoserver.Common.{
  ℕ, ◌+◌, Bool, true, false, List, [], ◌∷◌, ◌++◌, Option, none, some, if◌then◌else◌, Outcome, done,
  throws, undefined, diverges, Exec, modify,
}
use subiaoserver.ByteBuffer.{ByteBuffer}
use subiaoserver.WorldPacket.{WorldPacket, world_packet}
use Globals.{Settings}

-- The `mediainfodescription` of one file. Its two packet counters are never used.
pub record MediaInfo : Type 0 where
  pub mediatype : ℕ
  pub multimedia_id : ℕ

-- The header of the packet that was read last, in the fields `s_…`.
pub record Header : Type 0 where
  pub s_jt808sync : ℕ
  pub s_checksum : ℕ
  pub s_sequencemsgcnt : ℕ
  pub s_manufacture_id : ℕ
  pub s_terminalcode_id : ℕ
  pub s_opcode : ℕ

-- The header of the last piece of a file, in the fields `m_…`.
pub record Attachment : Type 0 where
  pub m_mediatype : ℕ
  pub m_multimedia_id : ℕ
  pub m_totalpacket_no : ℕ
  pub m_currentpacket_no : ℕ

-- The calls that a timer and the file functions get, in their order.
pub data TimerCall : Type 0 where
  expires_from_now : ℕ → TimerCall
  async_wait : TimerCall
  cancel : TimerCall

-- A file is named by what `fopen` returned for it.
pub data FileCall : Type 0 where
  fopen : List ℕ → Option ℕ → FileCall
  fwrite : ℕ → List ℕ → FileCall
  fclose : ℕ → FileCall

-- What is outstanding at Boost.Asio, and the calls that leave no mark in the connection:
-- handlers that `_strand.post` was given, the packet of each as its argument; the bytes of each
-- `async_write` that has not completed; the offset and room of each `async_read_some`.
pub record Host : Type 0 where
  pub posted : List WorldPacket
  pub writing : List (List ℕ)
  pub reading : List (ℕ × ℕ)
  pub heartbeat_timer : List TimerCall
  pub mediadelay_timer : List TimerCall
  pub files : List FileCall

-- `is_open` is that of `socket_`; `registered` says that the manager holds the connection.
pub record Connection : Type 0 where
  pub is_open : Bool
  pub registered : Bool
  pub total_bytes_read : ℕ
  pub buf : List ℕ
  pub buf_size : ℕ
  pub header : Header
  pub readpacket : WorldPacket
  pub outbox : List WorldPacket
  pub m_mediainfodescription : List MediaInfo
  pub t_mediainfodescription : MediaInfo
  pub mediarequestcnt : ℕ
  pub attachment : Attachment
  pub m_file : Option ℕ
  pub settings : Settings
  pub host : Host

abbrev pub set_settings : Connection → Settings → Connection
set_settings c s = record c { settings = s }

abbrev pub set_host : Connection → Host → Connection
set_host c h = record c { host = h }

-- A call of a member function of `readpacket`.
abbrev pub put_buffer : Connection → ByteBuffer → Connection
put_buffer c b = record c { readpacket = record (c.readpacket) { buffer = b } }

unfoldable pub on_readpacket : {A : Type 0} → Exec ByteBuffer A → Exec Connection A
on_readpacket m c = elim (m c.readpacket.buffer) [
  | done a b ↦ done a (put_buffer c b)
  | throws e b ↦ throws e (put_buffer c b)
  | undefined ↦ undefined
  | diverges ↦ diverges
]

abbrev pub heartbeat_call : TimerCall → Connection → Connection
heartbeat_call t c =
    set_host c (record (c.host) { heartbeat_timer = c.host.heartbeat_timer ++ t ∷ [] })

abbrev pub mediadelay_call : TimerCall → Connection → Connection
mediadelay_call t c =
    set_host c (record (c.host) { mediadelay_timer = c.host.mediadelay_timer ++ t ∷ [] })

abbrev pub file_call : FileCall → Connection → Connection
file_call f c = set_host c (record (c.host) { files = c.host.files ++ f ∷ [] })

-- `Connection::Stop`.
unfoldable pub stop : Connection → Connection
stop c = mediadelay_call cancel (heartbeat_call cancel (record c { is_open = false }))

-- `connectionManager_.Stop(self)`: the manager forgets the connection and stops it.
unfoldable pub manager_stop : Connection → Connection
unfolding stop
manager_stop c = stop (record c { registered = false })
