-- ===== src/Connection/Media/Storing.antt =====
-- `handlattachmentload`: what becomes of a piece.
use subiaoserver.Common.{
  ℕ, ◌+◌, ◌%◌, ◌^◌, ◌≡◌, ◌≢◌, ◌>>◌, pure, modify, refl, sym, Bool, true, false, inl, inr, List, [],
  ◌∷◌, ◌++◌, some, none, ◌==◌, if◌then◌else◌, done, undefined,
}
use mathlib.Core.Path.{subst}
use subiaoserver.ByteBuffer.Access.{Unread}
use subiaoserver.ByteBuffer.Streams.{bytes_of}
use subiaoserver.WorldPacket.{WorldPacket}
use subiaoserver.Connection.{Connection, Attachment, file_call, fwrite, fclose}
use subiaoserver.Connection.Outbox.{post, packetwrite}
use subiaoserver.Connection.Packets.{header}
use subiaoserver.Connection.Packets.Frames.{packetwrite_cases, framed}
use subiaoserver.Connection.Media.{
  Library, write_file, handlattachmentload, sendmultimediarequest, close_file,
}
use subiaoserver.Connection.Media.Pieces.{
  piece_values, ack_values, Fits, stored, unpacked, unpack_piece-unpacked, ack_framed,
}

-- The last piece is written: the file is closed and the next one requested.
abbrev pub closed : Library → ℕ → Connection → Connection
closed lib f s = sendmultimediarequest lib (record (file_call (fclose f) s) { m_file = none })

close_file-closed :
    (lib : Library) (f : ℕ) (c : Connection)
    → c.m_file ≡ some f
    → (do (λ s. close_file s.m_file s); modify (sendmultimediarequest lib)) c
      ≡ done tt (closed lib f c)
unfolding close_file
close_file-closed lib f c e =
    subst
      (λ m.
        (do (λ s. close_file m s); modify (sendmultimediarequest lib)) c ≡ done tt (closed lib f c))
      (sym e) refl

-- After the acknowledgement, whether or not it was posted, the file is still open.
finish-closed :
    (lib : Library) (last : Bool) (f : ℕ) (p : WorldPacket) (c : Connection)
    → c.m_file ≡ some f
    → (do
      packetwrite p
      if last
          then (do (λ s. close_file s.m_file s); modify (sendmultimediarequest lib))
          else pure tt)
        c
      ≡ (do packetwrite p; if last then modify (closed lib f) else pure tt) c
finish-closed lib false f p c e = refl
finish-closed lib true f p c e = elim (packetwrite_cases p c) [
  | inl posted ↦ rw posted (close_file-closed lib f (post p c) e)
  | inr not_posted ↦ rw not_posted (close_file-closed lib f c e)
]

-- A piece that has payload, and numbers in the range of their types, is written to the open file
-- without its header and sync byte, and one acknowledgement is handed to packetwrite; after the
-- last piece the file is closed and the next one requested.
pub handlattachmentload-stored :
    (lib : Library) (c : Connection) (a : Attachment) (payload : List ℕ) (f : ℕ)
    → c.m_file ≡ some f
    → Fits a
    → payload ≢ []
    → Unread c.readpacket.buffer (bytes_of (piece_values a) ++ (payload ++ 0x7e ∷ []))
    → handlattachmentload lib c ≡ (
        let d = stored a payload f c in
        (do
          packetwrite (framed 0x51 (bytes_of (header 0x51 d ++ ack_values a)))
          if a.m_totalpacket_no == (a.m_currentpacket_no + 1) % 2 ^ 16
              then modify (closed lib f)
              else pure tt)
          d)
unfolding handlattachmentload write_file close_file
handlattachmentload-stored lib c a payload f e fits ne u =
    let c1 = unpacked a payload c in
    let c2 = file_call (fwrite f payload) c1 in
    let wrote : write_file c1.m_file payload c1 ≡ done tt c2 =
      subst (λ m. write_file m payload c1 ≡ done tt c2) (sym e) refl in
    rw (unpack_piece-unpacked c a payload fits ne u, wrote, (ack_framed c2).0)
      (finish-closed lib (a.m_totalpacket_no == (a.m_currentpacket_no + 1) % 2 ^ 16) f _ _ e)

-- A piece that has payload, and numbers in the range of their types, is written to a null pointer,
-- which is undefined, where no file is open.
pub handlattachmentload_unopened :
    (lib : Library) (c : Connection) (a : Attachment) (payload : List ℕ)
    → c.m_file ≡ none
    → Fits a
    → payload ≢ []
    → Unread c.readpacket.buffer (bytes_of (piece_values a) ++ (payload ++ 0x7e ∷ []))
    → handlattachmentload lib c ≡ undefined
unfolding handlattachmentload write_file
handlattachmentload_unopened lib c a payload e fits ne u =
    let c1 = unpacked a payload c in
    let wrote : write_file c1.m_file payload c1 ≡ undefined =
      subst (λ m. write_file m payload c1 ≡ undefined) (sym e) refl in
    rw (unpack_piece-unpacked c a payload fits ne u, wrote)
