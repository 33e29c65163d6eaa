-- ===== src/Connection/Media.antt =====
-- The files of an alarm in src/Connection.cpp: the reports that list them (0x36), the requests for
-- them (0x50) and their pieces (0x51).
pub mod Pieces
pub mod Storing
pub mod Transfer
pub mod Listing
pub mod Fetching
use subiaoserver.Common.{
  ℕ, zero, suc, ◌+◌, ◌%◌, ◌^◌, Bool, List, [], ◌∷◌, ◌++◌, Option, none, some, ◌==◌, if◌then◌else◌,
  Outcome, done, throws, undefined, diverges, Exec, ◌>>=◌, ◌>>◌, pure, modify,
}
use subiaoserver.Common.Words.{UInt, uint8, uint16, uint32}
use subiaoserver.Endian.{swap_endian}
use subiaoserver.ByteBuffer.{clearheader, contents}
use subiaoserver.ByteBuffer.Streams.{Values}
use subiaoserver.ByteBuffer.Operators.{Op, into, assign, skip}
use subiaoserver.Connection.{
  Connection, MediaInfo, Attachment, FileCall, fopen, fwrite, fclose, TimerCall, expires_from_now,
  async_wait, cancel, mediadelay_call, file_call, on_readpacket, set_settings,
}
use subiaoserver.Connection.Reads.{read_into, read_locals}
use subiaoserver.Connection.Packets.{send, header, sendcurrentmultimediarequest}
use subiaoserver.Connection.Config.{adas_id, dms_id}

-- What the C library answers during one handler: the local time as `strftime` and `sprintf` write
-- it, `%Y%m%d_%H%M_%S_` and the milliseconds, and the result of `fopen`, `none` for `NULL`.
pub record Library : Type 0 where
  pub stamp : List ℕ
  pub opened : Option ℕ

abbrev jpg : List ℕ
jpg = b'.' ∷ b'j' ∷ b'p' ∷ b'g' ∷ []

abbrev mp4 : List ℕ
mp4 = b'.' ∷ b'm' ∷ b'p' ∷ b'4' ∷ []

abbrev bin : List ℕ
bin = b'.' ∷ b'b' ∷ b'i' ∷ b'n' ∷ []

unfoldable pub extension : ℕ → List ℕ
extension mediatype = if mediatype == 0 then jpg else if mediatype == 2 then mp4 else bin

-- Only pictures and videos set a delay, in milliseconds; the wait is begun in any case.
unfoldable pub start_getalarmsmedia : ℕ → Connection → Connection
start_getalarmsmedia mediatype c =
    let c1 = record c { mediarequestcnt = 0 } in
    let c2 = if mediatype == 0 then mediadelay_call (expires_from_now 200) c1 else c1 in
    let c3 = if mediatype == 2 then mediadelay_call (expires_from_now 8000) c2 else c2 in
    mediadelay_call async_wait c3

-- The handler of the timer. It does not look at its error code.
unfoldable pub getalarmsmedia : Bool → Exec Connection (Unit {0})
unfolding sendcurrentmultimediarequest
getalarmsmedia ec = do sendcurrentmultimediarequest; modify (mediadelay_call cancel)

-- The packet that `sendmultimediarequest` builds here is not sent. The result of `fopen` is kept
-- unchecked.
pub request_media : Library → List MediaInfo → Connection → Connection
request_media lib [] c = c
request_media lib (m ∷ rest) c =
    let c1 = record c { t_mediainfodescription = m; m_mediainfodescription = rest } in
    let c2 = file_call (fopen (lib.stamp ++ extension m.mediatype) lib.opened) c1 in
    start_getalarmsmedia m.mediatype (record c2 { m_file = lib.opened })

unfoldable pub sendmultimediarequest : Library → Connection → Connection
unfolding request_media extension start_getalarmsmedia
sendmultimediarequest lib c = request_media lib c.m_mediainfodescription c

-- `sendattachmentload_ack`. The packet numbers stay swapped in the connection.
unfoldable pub sendattachmentload_ack : Exec Connection (Unit {0})
unfolding send header
sendattachmentload_ack c =
    let count = (c.settings.sequencemsgcnt + 1) % 2 ^ 16 in
    let a = c.attachment in
    let total = swap_endian uint16 a.m_totalpacket_no in
    let current = swap_endian uint16 a.m_currentpacket_no in
    let c' = record (set_settings c (record (c.settings) { sequencemsgcnt = count })) {
      attachment = record a { m_totalpacket_no = total; m_currentpacket_no = current };
    } in
    send 0x51
      (header 0x51 c'
        ++ ((uint8, a.m_mediatype)
            ∷ (uint32, swap_endian uint32 a.m_multimedia_id)
            ∷ (uint16, total)
            ∷ (uint16, current)
            ∷ (uint8, 0)
            ∷ []))
      c'

abbrev pub attachment_ops : List (Op Attachment)
attachment_ops =
    into uint8 (λ v a. record a { m_mediatype = v })
    ∷ into uint32 (λ v a. record a { m_multimedia_id = v })
    ∷ assign (λ a. record a { m_multimedia_id = swap_endian uint32 a.m_multimedia_id })
    ∷ into uint16 (λ v a. record a { m_totalpacket_no = v })
    ∷ into uint16 (λ v a. record a { m_currentpacket_no = v })
    ∷ assign (λ a. record a { m_totalpacket_no = swap_endian uint16 a.m_totalpacket_no })
    ∷ assign (λ a. record a { m_currentpacket_no = swap_endian uint16 a.m_currentpacket_no })
    ∷ []

-- `fwrite` and `fclose` of a null pointer are undefined.
unfoldable pub write_file : Option ℕ → List ℕ → Exec Connection (Unit {0})
write_file none bytes c = undefined
write_file (some f) bytes c = done tt (file_call (fwrite f bytes) c)

unfoldable pub close_file : Option ℕ → Exec Connection (Unit {0})
close_file none c = undefined
close_file (some f) c = done tt (record (file_call (fclose f) c) { m_file = none })

abbrev pub put_attachment : Connection → Attachment → Connection
put_attachment c a = record c { attachment = a }

-- The header of a piece is read into the connection, and the bytes behind it are returned.
unfoldable pub unpack_piece : Exec Connection (List ℕ)
unpack_piece = do
  modify (mediadelay_call cancel)
  read_into (λ c. c.attachment) put_attachment attachment_ops
  on_readpacket clearheader
  on_readpacket contents

-- The numbers are compared as they were before the acknowledgement.
unfoldable pub store_piece : Library → List ℕ → Exec Connection (Unit {0})
store_piece lib bytes = do
  (λ c. write_file c.m_file bytes c)
  (λ c.
      let packcnt = (c.attachment.m_currentpacket_no + 1) % 2 ^ 16 in
      let finish = (do (λ s. close_file s.m_file s); modify (sendmultimediarequest lib)) in
      let last = c.attachment.m_totalpacket_no == packcnt in
      (do sendattachmentload_ack; if last then finish else pure tt) c)

unfoldable pub handlattachmentload : Library → Exec Connection (Unit {0})
unfolding unpack_piece store_piece
handlattachmentload lib = do bytes ← unpack_piece; store_piece lib bytes

-- The local variables of the two report handlers that are used again.
pub record Alarm : Type 0 where
  pub alarm_id : ℕ
  pub alarm_type : ℕ
  pub mediacnt : ℕ

abbrev no_alarm : Alarm
no_alarm = record { alarm_id = 0; alarm_type = 0; mediacnt = 0 }

-- A variable that nothing reads.
abbrev unused : UInt → Op Alarm
unused t = into t (λ v a. a)

abbrev pub adas_alarm_ops : List (Op Alarm)
adas_alarm_ops =
    into uint32 (λ v a. record a { alarm_id = v })
    ∷ unused uint8
    ∷ into uint8 (λ v a. record a { alarm_type = v })
    ∷ assign (λ a. record a { alarm_id = swap_endian uint32 a.alarm_id })
    ∷ unused uint8
    ∷ unused uint8
    ∷ unused uint8
    ∷ unused uint8
    ∷ unused uint8
    ∷ unused uint8
    ∷ unused uint16
    ∷ unused uint32
    ∷ unused uint32
    ∷ skip 6
    ∷ unused uint16
    ∷ into uint8 (λ v a. record a { mediacnt = v })
    ∷ []

abbrev pub dsm_alarm_ops : List (Op Alarm)
dsm_alarm_ops =
    into uint32 (λ v a. record a { alarm_id = v })
    ∷ unused uint8
    ∷ into uint8 (λ v a. record a { alarm_type = v })
    ∷ unused uint8
    ∷ assign (λ a. record a { alarm_id = swap_endian uint32 a.alarm_id })
    ∷ skip 4
    ∷ unused uint8
    ∷ unused uint16
    ∷ unused uint32
    ∷ unused uint32
    ∷ skip 6
    ∷ unused uint16
    ∷ into uint8 (λ v a. record a { mediacnt = v })
    ∷ []

abbrev pub media_ops : List (Op MediaInfo)
media_ops =
    into uint8 (λ v m. record m { mediatype = v })
    ∷ into uint32 (λ v m. record m { multimedia_id = v })
    ∷ assign (λ m. record m { multimedia_id = swap_endian uint32 m.multimedia_id })
    ∷ []

abbrev no_media : MediaInfo
no_media = record { mediatype = 0; multimedia_id = 0 }

abbrev push_media : MediaInfo → Connection → Connection
push_media m c = record c { m_mediainfodescription = c.m_mediainfodescription ++ m ∷ [] }

-- `for (m = 0; m < mediacnt; m++)`, with the rounds left.
unfoldable pub read_media : ℕ → Exec Connection (Unit {0})
read_media zero = pure tt
read_media (suc rounds) = do
  m ← read_locals no_media media_ops
  modify (push_media m)
  read_media rounds

-- `handladasealarmreport` and `handledsmalarmreport` differ in what they read.
unfoldable pub read_report : List (Op Alarm) → Library → Exec Connection (Unit {0})
read_report ops lib = do
  a ← read_locals no_alarm ops
  modify (λ c. record c { m_mediainfodescription = [] })
  read_media a.mediacnt
  modify (sendmultimediarequest lib)

unfoldable pub handladasealarmreport : Library → Exec Connection (Unit {0})
handladasealarmreport = read_report adas_alarm_ops

unfoldable pub handledsmalarmreport : Library → Exec Connection (Unit {0})
handledsmalarmreport = read_report dsm_alarm_ops

unfoldable pub handlealarmreport : Library → Exec Connection (Unit {0})
handlealarmreport lib = do
  (λ c. if c.header.s_terminalcode_id == adas_id then handladasealarmreport lib c else done tt c)
  (λ c. if c.header.s_terminalcode_id == dms_id then handledsmalarmreport lib c else done tt c)
