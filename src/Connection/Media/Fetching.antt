-- ===== src/Connection/Media/Fetching.antt =====
-- All files of an alarm, one after another: the report, and for each file the timer, the request
-- and the pieces with which the sensor answers.
use subiaoserver.Common.{
  ℕ, ◌+◌, ◌*◌, ◌^◌, ◌<◌, ◌≡◌, refl, ap, ◌∙◌, arith, false, List, [], ◌∷◌, ◌++◌, append-nil,
  append_assoc, none, some, length, All, done, Exec, ◌>>◌, inl, inr, ◌⊎◌,
}
use subiaoserver.ByteBuffer.Streams.{bytes_of}
use subiaoserver.ByteBuffer.Access.{Unread}
use subiaoserver.ByteBuffer.Operators.Feed.{past}
use subiaoserver.Connection.{
  Connection, MediaInfo, Attachment, FileCall, fopen, fwrite, fclose, cancel, mediadelay_call,
  put_buffer,
}
use subiaoserver.Connection.Outbox.{post}
use subiaoserver.Connection.Packets.Frames.{framed, packetwrite_cases}
use subiaoserver.Connection.Requests.{current_media, message, sendcurrentmultimediarequest-framed}
use subiaoserver.Connection.Config.{adas_id, dms_id}
use subiaoserver.Connection.Media.{
  Library, extension, getalarmsmedia, handlealarmreport, sendmultimediarequest,
}
use subiaoserver.Connection.Media.Transfer.{IsPayload, transfer, transfer-closed}
use subiaoserver.Connection.Media.Listing.{
  MediaFits, listing, turned, sendmultimediarequest-turned, handlealarmreport-turned,
}
use mathlib.Core.List.{map}

-- A file as the sensor keeps it: the pieces into which it is cut, at least one.
pub record Recording : Type 0 where
  pub piece : List ℕ
  pub pieces : List (List ℕ)

-- A file that a report lists, with the time at which it is opened here and what `fopen` returns.
pub record Entry : Type 0 where
  pub info : MediaInfo
  pub stamp : List ℕ
  pub opened : ℕ

-- What the C library answers when the next file is opened. Behind the last one it is not asked.
abbrev pub library_for : List Entry → Library
library_for [] = record { stamp = []; opened = none }
library_for (x ∷ xs) = record { stamp = x.stamp; opened = some x.opened }

-- The header with which the sensor sends the pieces of a file.
abbrev pub attachment_of : MediaInfo → Recording → Attachment
attachment_of m r = record {
  m_mediatype = m.mediatype;
  m_multimedia_id = m.multimedia_id;
  m_totalpacket_no = 1 + length r.pieces;
  m_currentpacket_no = 0;
}

-- Asking for the file leaves the files and their list alone.
getalarmsmedia_lem :
    (c : Connection)
    → (d : Connection) × (getalarmsmedia false c ≡ done tt d)
      × (d.m_file ≡ c.m_file)
      × (d.host.files ≡ c.host.files)
      × (d.m_mediainfodescription ≡ c.m_mediainfodescription)
      × (d.t_mediainfodescription ≡ c.t_mediainfodescription)
unfolding getalarmsmedia
getalarmsmedia_lem c =
    let p = framed 0x50 (bytes_of (message current_media c)) in
    let sent = sendcurrentmultimediarequest-framed c in
    elim (packetwrite_cases p c) [
      | inl posted ↦
          (mediadelay_call cancel (post p c), rw (sent, posted) refl, refl, refl, refl, refl)
      | inr not_posted ↦
          (mediadelay_call cancel c, rw (sent, not_posted) refl, refl, refl, refl, refl)
    ]

turns :
    (lib : Library) (c : Connection) (ms : List MediaInfo)
    → c.m_mediainfodescription ≡ ms
    → sendmultimediarequest lib c ≡ turned lib ms c
turns lib c ms e =
    sendmultimediarequest-turned lib c.m_mediainfodescription c ∙ ap (λ l. turned lib l c) e

module _ (sensor : MediaInfo → Recording) where
  -- The sensor answers a request with the pieces of the file that is asked for.
  abbrev sends : MediaInfo → Library → Exec Connection (Unit {0})
  sends m lib = let r = sensor m in transfer lib (attachment_of m r) 0 (r.piece ∷ r.pieces)

  abbrev answers : Library → Exec Connection (Unit {0})
  answers lib c = sends c.t_mediainfodescription lib c

  -- The timer runs out, and the sensor answers the request.
  abbrev asks : Library → Exec Connection (Unit {0})
  asks lib = do getalarmsmedia false; answers lib

  -- As often as there are files.
  unfoldable pub fetch : List Entry → Exec Connection (Unit {0})
  fetch [] c = done tt c
  fetch (x ∷ xs) c = (do asks (library_for xs); fetch xs) c

  -- The calls that keep the files: each is opened, filled with its pieces and closed.
  abbrev fills : Entry → List FileCall
  fills x =
      let r = sensor x.info in map (fwrite x.opened) (r.piece ∷ r.pieces) ++ fclose x.opened ∷ []

  abbrev pub opens : Entry → FileCall
  opens x = fopen (x.stamp ++ extension x.info.mediatype) (some x.opened)

  abbrev pub keeps : List Entry → List FileCall
  keeps [] = []
  keeps (x ∷ xs) = opens x ∷ (fills x ++ keeps xs)

  -- A file whose numbers and pieces are in range.
  abbrev pub IsSendable : Entry → Type 0
  IsSendable x =
      let r = sensor x.info in
      MediaFits x.info × (1 + length r.pieces < 2 ^ 16) × All IsPayload (r.piece ∷ r.pieces)

  -- A connection that has turned to `x`, with the entries of `xs` still listed.
  record IsAt (x : Entry) (xs : List Entry) (c : Connection) : Type 0 where
    file : c.m_file ≡ some x.opened
    current : c.t_mediainfodescription ≡ x.info
    list : c.m_mediainfodescription ≡ map (λ e. e.info) xs

  one_answer :
      (lib : Library) (x : Entry) (xs : List Entry) (c : Connection)
      → IsAt x xs c
      → IsSendable x
      → (d : Connection) × (asks lib c ≡ done tt (sendmultimediarequest lib d))
        × (d.m_file ≡ none)
        × (d.host.files ≡ c.host.files ++ fills x)
        × (d.m_mediainfodescription ≡ map (λ e. e.info) xs)
  one_answer lib x xs c v h =
      let (s, asked, file, files, list, current) = getalarmsmedia_lem c in
      let r = sensor x.info in
      let (d, run, shut, written, left) =
        transfer-closed lib (attachment_of x.info r) 0 r.piece r.pieces s x.opened (file ∙ v.file)
          (h.0.0, h.0.1, h.1, omega arith) h.2 (omega arith) in
      let same = ap (λ m. sends m lib s) (current ∙ v.current) ∙ run in
      (d, rw asked same, shut, rw files at written, left ∙ list ∙ v.list)

  fetch-IsAt :
      (x : Entry) (xs : List Entry) (c : Connection)
      → IsAt x xs c
      → All IsSendable (x ∷ xs)
      → (d : Connection) × (fetch (x ∷ xs) c ≡ done tt d)
        × (d.m_file ≡ none)
        × (d.m_mediainfodescription ≡ [])
        × (d.host.files ≡ c.host.files ++ (fills x ++ keeps xs))
  unfolding fetch
  fetch-IsAt x [] c v h =
      let (d, run, shut, files, left) = one_answer (library_for []) x [] c v h.0 in
      (
        record d { m_mediainfodescription = [] },
        rw (run, turns (library_for []) d [] left) refl,
        shut,
        refl,
        files ∙ rw append-nil,
      )
  fetch-IsAt x (y ∷ ys) c v h =
      let lib = library_for (y ∷ ys) in
      let (d, run, shut, files, left) = one_answer lib x (y ∷ ys) c v h.0 in
      let rest = map (λ e. e.info) ys in
      let s = turned lib (y.info ∷ rest) d in
      let (d2, run2, shut2, none_left, files2) =
        fetch-IsAt y ys s (record { file = refl; current = refl; list = refl }) h.1 in
      let turn = turns lib d (y.info ∷ rest) left in
      (
        d2,
        rw (run, turn) run2,
        shut2,
        none_left,
        files2 ∙ rw (files, append_assoc, append_assoc, append_assoc) refl,
      )

  IsSendable-MediaFits :
      (xs : List Entry) → All IsSendable xs → All MediaFits (map (λ e. e.info) xs)
  IsSendable-MediaFits [] h = tt
  IsSendable-MediaFits (x ∷ xs) h = (h.0.0, IsSendable-MediaFits xs h.1)

  pub fetch-keeps :
      (x : Entry) (xs : List Entry) (c : Connection) (body rest : List ℕ)
      → (c.header.s_terminalcode_id ≡ adas_id) ⊎ (c.header.s_terminalcode_id ≡ dms_id)
      → length body ≡ 30
      → All IsSendable (x ∷ xs)
      → (let ms = map (λ e. e.info) (x ∷ xs) in
          Unread c.readpacket.buffer (body ++ (length ms ∷ (listing ms ++ rest))))
      → (d : Connection) × ((do handlealarmreport (library_for (x ∷ xs)); fetch (x ∷ xs)) c
          ≡ done tt d)
        × (d.m_file ≡ none)
        × (d.m_mediainfodescription ≡ [])
        × (d.host.files ≡ c.host.files ++ keeps (x ∷ xs))
  fetch-keeps x xs c body rest kind all h u =
      let lib = library_for (x ∷ xs) in
      let ms = map (λ e. e.info) (x ∷ xs) in
      let report =
        handlealarmreport-turned lib c body ms rest kind all (IsSendable-MediaFits (x ∷ xs) h) u in
      let s = turned lib ms (put_buffer c (past (31 + 5 * length ms) c.readpacket.buffer)) in
      let (d, run, shut, none_left, files) =
        fetch-IsAt x xs s (record { file = refl; current = refl; list = refl }) h in
      (d, rw report run, shut, none_left, files ∙ append_assoc c.host.files (opens x ∷ []) _)
