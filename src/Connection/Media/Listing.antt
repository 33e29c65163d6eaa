-- ===== src/Connection/Media/Listing.antt =====
-- `handlealarmreport`: the files that a report lists.
use subiaoserver.Common.{
  ℕ, ◌+◌, ◌*◌, ◌≡◌, ◌⊎◌, refl, sym, ◌∙◌, arith, inl, inr, List, [], ◌∷◌, ◌++◌, append-nil,
  append_assoc, ◌==◌, if◌then◌else◌, length, length-append, All, drop-append, drop_all, drop-drop,
  done,
}
use subiaoserver.Common.Words.{uint8, uint32, InRange}
use subiaoserver.Endian.{swap_endian}
use subiaoserver.Endian.Laws.{swap_endian-swap_endian, swap_endian-InRange}
use subiaoserver.ByteBuffer.Access.{Unread}
use subiaoserver.ByteBuffer.Streams.{Values, bytes_of}
use subiaoserver.ByteBuffer.Operators.{Op}
use subiaoserver.ByteBuffer.Operators.Feed.{demand, feed, past, past-Unread}
use subiaoserver.Connection.{
  Connection, MediaInfo, TimerCall, expires_from_now, async_wait, fopen, file_call, put_buffer,
}
use subiaoserver.Connection.Reads.{read_locals-feed}
use subiaoserver.Connection.Config.{adas_id, dms_id}
use subiaoserver.Connection.Media.{
  Library, Alarm, no_alarm, no_media, media_ops, adas_alarm_ops, dsm_alarm_ops, extension,
  read_media, read_report, handladasealarmreport, handledsmalarmreport, handlealarmreport,
  sendmultimediarequest, start_getalarmsmedia,
}
use native.Mathlib.Nat.{add_assoc, add-zero}

-- A file of an alarm, as it is listed in a packet.
abbrev pub media_values : MediaInfo → Values
media_values m = (uint8, m.mediatype) ∷ (uint32, swap_endian uint32 m.multimedia_id) ∷ []

abbrev pub listing : List MediaInfo → List ℕ
listing [] = []
listing (m ∷ ms) = bytes_of (media_values m) ++ listing ms

abbrev pub MediaFits : MediaInfo → Type 0
MediaFits m = InRange uint8 m.mediatype × InRange uint32 m.multimedia_id

feed_media : (m m0 : MediaInfo) → MediaFits m → feed media_ops (bytes_of (media_values m)) m0 ≡ m
feed_media m m0 h = ground (
  arith,
  swap_endian-swap_endian uint32 m.multimedia_id h.1,
  swap_endian-InRange uint32 m.multimedia_id,
)

-- The connection once the report has been read up to the end of its list.
abbrev listed : ℕ → List MediaInfo → Connection → Connection
listed n ms c = record c {
  readpacket = record (c.readpacket) { buffer = past n c.readpacket.buffer };
  m_mediainfodescription = ms;
}

read_media_lem :
    (ms : List MediaInfo) (rest : List ℕ) (c : Connection)
    → All MediaFits ms
    → Unread c.readpacket.buffer (listing ms ++ rest)
    → read_media (length ms) c ≡ done tt (listed (5 * length ms) (c.m_mediainfodescription ++ ms) c)
unfolding read_media
read_media_lem [] rest c h u = rw (append-nil, add-zero)
read_media_lem (m ∷ ms) rest c h u =
    let bs = bytes_of (media_values m) in
    let u' : Unread c.readpacket.buffer (bs ++ (listing ms ++ rest)) = rw (← append_assoc) u in
    let later = past-Unread c.readpacket.buffer 5 bs (listing ms ++ rest) u' (omega arith) in
    rw
      (
        read_locals-feed no_media media_ops c bs (listing ms ++ rest) u' refl,
        feed_media m no_media h.0,
      )
      (read_media_lem ms rest (listed 5 (c.m_mediainfodescription ++ m ∷ []) c) h.1 later
        ∙ ground (arith, append_assoc c.m_mediainfodescription (m ∷ []) ms))

report_read :
    (ops : List (Op Alarm)) (lib : Library) (c : Connection) (body : List ℕ)
    → (ms : List MediaInfo) (rest : List ℕ) → length body ≡ demand ops
    → (feed ops body no_alarm).mediacnt ≡ length ms
    → All MediaFits ms
    → Unread c.readpacket.buffer (body ++ (listing ms ++ rest))
    → read_report ops lib c
      ≡ done tt (sendmultimediarequest lib (listed (demand ops + 5 * length ms) ms c))
unfolding read_report
report_read ops lib c body ms rest all count fits u =
    let later =
      rw (drop_all (demand ops) body (omega arith)) at
        (past-Unread c.readpacket.buffer (demand ops) body (listing ms ++ rest) u (omega arith)) in
    rw (
      read_locals-feed no_alarm ops c body (listing ms ++ rest) u all,
      count,
      read_media_lem ms rest (listed (demand ops) [] c) fits later,
      add_assoc,
    )

-- The waits that are asked of the timer before the file is requested: 0.2 seconds for a picture, 8
-- for a video.
abbrev delays : ℕ → List TimerCall
delays mediatype =
    if mediatype == 0
    then expires_from_now 200 ∷ async_wait ∷ []
    else if mediatype == 2
    then expires_from_now 8000 ∷ async_wait ∷ []
    else async_wait ∷ []

start_getalarmsmedia-delays :
    (mediatype : ℕ) (c : Connection)
    → start_getalarmsmedia mediatype c ≡ record c {
      mediarequestcnt = 0;
      host = record (c.host) { mediadelay_timer = c.host.mediadelay_timer ++ delays mediatype };
    }
unfolding start_getalarmsmedia
start_getalarmsmedia-delays mediatype c = ground (
  arith,
  append_assoc c.host.mediadelay_timer (expires_from_now 200 ∷ []) (async_wait ∷ []),
  append_assoc c.host.mediadelay_timer (expires_from_now 8000 ∷ []) (async_wait ∷ []),
)

-- The connection that has turned to the first of the listed files.
abbrev pub turned : Library → List MediaInfo → Connection → Connection
turned lib [] c = record c { m_mediainfodescription = [] }
turned lib (m ∷ ms) c = record c {
  m_mediainfodescription = ms;
  t_mediainfodescription = m;
  mediarequestcnt = 0;
  m_file = lib.opened;
  host = record (c.host) {
    mediadelay_timer = c.host.mediadelay_timer ++ delays m.mediatype;
    files = c.host.files ++ fopen (lib.stamp ++ extension m.mediatype) lib.opened ∷ [];
  };
}

pub sendmultimediarequest-turned :
    (lib : Library) (ms : List MediaInfo) (c : Connection)
    → sendmultimediarequest lib (record c { m_mediainfodescription = ms }) ≡ turned lib ms c
unfolding sendmultimediarequest
sendmultimediarequest-turned lib [] c = refl
sendmultimediarequest-turned lib (m ∷ ms) c =
    let c1 = record c { t_mediainfodescription = m; m_mediainfodescription = ms } in
    let c2 = file_call (fopen (lib.stamp ++ extension m.mediatype) lib.opened) c1 in
    start_getalarmsmedia-delays m.mediatype (record c2 { m_file = lib.opened })

turned-header :
    (lib : Library) (ms : List MediaInfo) (c : Connection) → (turned lib ms c).header ≡ c.header
turned-header lib [] c = refl
turned-header lib (m ∷ ms) c = refl

mediacnt-last :
    (body : List ℕ) (n : ℕ)
    → length body ≡ 30
    → ((feed adas_alarm_ops (body ++ n ∷ []) no_alarm).mediacnt ≡ n)
      × ((feed dsm_alarm_ops (body ++ n ∷ []) no_alarm).mediacnt ≡ n)
mediacnt-last body n e =
    let last = drop-append body (n ∷ []) 30 (sym e) in
    (simp (drop-drop, last) (omega arith), simp (drop-drop, last) (omega arith))

-- A report of either kind of sensor, 30 bytes and a list of files in the range of their types,
-- makes its list the list of files to request, whatever was there before, and turns to the first of
-- them, if there is one: a file is opened for it and the timer is started by its type. Nothing is
-- sent, and a file that was open is not closed.
pub handlealarmreport-turned :
    (lib : Library) (c : Connection) (body : List ℕ) (ms : List MediaInfo) (rest : List ℕ)
    → (c.header.s_terminalcode_id ≡ adas_id) ⊎ (c.header.s_terminalcode_id ≡ dms_id)
    → length body ≡ 30
    → All MediaFits ms
    → Unread c.readpacket.buffer (body ++ (length ms ∷ (listing ms ++ rest)))
    → handlealarmreport lib c
      ≡ done tt (turned lib ms (put_buffer c (past (31 + 5 * length ms) c.readpacket.buffer)))
unfolding handlealarmreport handladasealarmreport handledsmalarmreport
handlealarmreport-turned lib c body ms rest kind all fits u =
    let (adas, dsm) = mediacnt-last body (length ms) all in
    let whole : List ℕ = body ++ length ms ∷ [] in
    let len : length whole ≡ 31 = length-append body (length ms ∷ []) ∙ omega arith in
    let u' : Unread c.readpacket.buffer (whole ++ (listing ms ++ rest)) = rw append_assoc u in
    let d = put_buffer c (past (31 + 5 * length ms) c.readpacket.buffer) in
    let turn = sendmultimediarequest-turned lib ms d in
    elim kind [
      | inl a ↦ ground (
        arith,
        a,
        report_read adas_alarm_ops lib c whole ms rest len adas fits u',
        turn,
        turned-header lib ms d,
      )
      | inr b ↦
          ground (arith, b, report_read dsm_alarm_ops lib c whole ms rest len dsm fits u', turn)
    ]
