-- ===== src/Connection/Media/Pieces.antt =====
-- Reading one piece of a file and acknowledging it.
use subiaoserver.Common.{
  ℕ, ◌+◌, ◌-◌, ◌%◌, ◌^◌, ◌≤◌, ◌<◌, length, ◌≡◌, ◌≢◌, refl, arith, List-cases, List, [], ◌∷◌, ◌++◌,
  length-append, take-append, done,
}
use subiaoserver.Common.Words.{uint8, uint16, uint32, InRange}
use subiaoserver.Endian.{swap_endian}
use subiaoserver.Endian.Laws.{swap_endian-swap_endian, swap_endian-InRange}
use subiaoserver.ByteBuffer.{ByteBuffer, size, clearheader, contents}
use subiaoserver.ByteBuffer.Access.{Unread}
use subiaoserver.ByteBuffer.Streams.{Values, bytes_of}
use subiaoserver.ByteBuffer.Operators.Feed.{feed, past, past-Unread}
use subiaoserver.Connection.{Connection, Attachment, put_buffer, fwrite, cancel, mediadelay_call}
use subiaoserver.Connection.Reads.{read_into-feed, on_readpacket-done}
use subiaoserver.Connection.Outbox.{packetwrite}
use subiaoserver.Connection.Packets.{header}
use subiaoserver.Connection.Packets.Frames.{framed, send-framed}
use subiaoserver.Connection.Media.{
  attachment_ops, put_attachment, unpack_piece, sendattachmentload_ack,
}

-- The header of a piece, as it stands in a packet.
abbrev pub piece_values : Attachment → Values
piece_values a =
    (uint8, a.m_mediatype)
    ∷ (uint32, swap_endian uint32 a.m_multimedia_id)
    ∷ (uint16, swap_endian uint16 a.m_totalpacket_no)
    ∷ (uint16, swap_endian uint16 a.m_currentpacket_no)
    ∷ []

-- What acknowledges it.
abbrev pub ack_values : Attachment → Values
ack_values a = piece_values a ++ (uint8, 0) ∷ []

-- The numbers of a piece are values of their types.
abbrev pub Fits : Attachment → Type 0
Fits a =
    InRange uint8 a.m_mediatype
    × InRange uint32 a.m_multimedia_id
    × InRange uint16 a.m_totalpacket_no
    × InRange uint16 a.m_currentpacket_no

feed_attachment :
    (a a0 : Attachment) → Fits a → feed attachment_ops (bytes_of (piece_values a)) a0 ≡ a
feed_attachment a a0 h = ground (
  arith,
  swap_endian-swap_endian uint32 a.m_multimedia_id h.1,
  swap_endian-swap_endian uint16 a.m_totalpacket_no h.2,
  swap_endian-swap_endian uint16 a.m_currentpacket_no h.3,
  swap_endian-InRange uint32 a.m_multimedia_id,
  swap_endian-InRange uint16 a.m_totalpacket_no,
  swap_endian-InRange uint16 a.m_currentpacket_no,
)

-- The connection when a piece `a` with the bytes `payload` has been read and written to the file
-- `f`, and its acknowledgement has been numbered.
abbrev pub stored : Attachment → List ℕ → ℕ → Connection → Connection
stored a payload f c = record c {
  attachment = record a {
    m_totalpacket_no = swap_endian uint16 a.m_totalpacket_no;
    m_currentpacket_no = swap_endian uint16 a.m_currentpacket_no;
  };
  readpacket = record (c.readpacket) {
    buffer = record (c.readpacket.buffer) { storage = payload; rpos = 0 };
  };
  settings = record (c.settings) { sequencemsgcnt = (c.settings.sequencemsgcnt + 1) % 2 ^ 16 };
  host = record (c.host) {
    mediadelay_timer = c.host.mediadelay_timer ++ cancel ∷ [];
    files = c.host.files ++ fwrite f payload ∷ [];
  };
}

-- What `clearheader` leaves of a packet that has been read up to its payload: no sync byte.
clearheader-payload :
    (b : ByteBuffer) (payload : List ℕ)
    → Unread b (payload ++ 0x7e ∷ [])
    → clearheader b ≡ done tt (record b { storage = payload; rpos = 0 })
unfolding clearheader
clearheader-payload b payload u = ground (
  arith,
  u.rest,
  u.within,
  length-append payload (0x7e ∷ []),
  take-append payload (0x7e ∷ []) (size b - b.rpos - 1),
)

-- The connection when the acknowledgement of a piece is sent: the counter is one on, and the numbers
-- of the piece are swapped.
abbrev pub numbered : Connection → Connection
numbered c =
    let a = c.attachment in
    record c {
      attachment = record a {
        m_totalpacket_no = swap_endian uint16 a.m_totalpacket_no;
        m_currentpacket_no = swap_endian uint16 a.m_currentpacket_no;
      };
      settings = record (c.settings) { sequencemsgcnt = (c.settings.sequencemsgcnt + 1) % 2 ^ 16 };
    }

abbrev pub acknowledged : Connection → List ℕ
acknowledged c = bytes_of (header 0x51 (numbered c) ++ ack_values c.attachment)

pub ack_framed :
    (c : Connection)
    → (sendattachmentload_ack c ≡ packetwrite (framed 0x51 (acknowledged c)) (numbered c))
      × (2 ≤ length (acknowledged c))
      × (length (acknowledged c) < 256)
unfolding sendattachmentload_ack header
ack_framed c =
    let lo : 2 ≤ length (acknowledged c) = omega arith in
    let hi : length (acknowledged c) < 256 = omega arith in (send-framed 0x51 _ _ lo hi, lo, hi)

-- The connection when a piece has been unpacked.
abbrev pub unpacked : Attachment → List ℕ → Connection → Connection
unpacked a payload c =
    put_buffer (put_attachment (mediadelay_call cancel c) a)
      (record (c.readpacket.buffer) { storage = payload; rpos = 0 })

pub unpack_piece-unpacked :
    (c : Connection) (a : Attachment) (payload : List ℕ)
    → Fits a
    → payload ≢ []
    → Unread c.readpacket.buffer (bytes_of (piece_values a) ++ (payload ++ 0x7e ∷ []))
    → unpack_piece c ≡ done payload (unpacked a payload c)
unfolding unpack_piece contents
unpack_piece-unpacked c a payload fits ne u =
    let bs = bytes_of (piece_values a) in
    let rest = payload ++ 0x7e ∷ [] in
    let b = c.readpacket.buffer in
    let c1 = mediadelay_call cancel c in
    let read = read_into-feed (λ c. c.attachment) put_attachment attachment_ops c1 bs rest u refl in
    let c2 = put_attachment (put_buffer c1 (past 9 b)) a in
    let behind = past-Unread b 9 bs rest u (omega arith) in
    let cleared = clearheader-payload (past 9 b) payload behind in
    let b3 = record b { storage = payload; rpos = 0 } in
    let whole : contents b3 ≡ done payload b3 = ground (arith, List-cases payload) in
    rw (
      read,
      feed_attachment a c.attachment fits,
      on_readpacket-done clearheader c2 tt b3 cleared,
      on_readpacket-done contents (put_buffer c2 b3) payload b3 whole,
    )
