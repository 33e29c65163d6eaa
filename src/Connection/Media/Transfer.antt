-- ===== src/Connection/Media/Transfer.antt =====
-- The pieces of one file, one after another.
use subiaoserver.Common.{
  ℕ, suc, ◌+◌, ◌%◌, ◌^◌, ◌<◌, ◌≡◌, ◌≢◌, refl, ◌∙◌, arith, Bool, true, false, List, [], ◌∷◌, ◌++◌,
  append_assoc, none, some, length, length-append, All, ◌==◌, if◌then◌else◌, done, Exec, ◌>>◌,
  modify, pure, inl, inr, ◌⊎◌,
}
use subiaoserver.ByteBuffer.Access.{Unread}
use subiaoserver.ByteBuffer.Streams.{bytes_of}
use subiaoserver.WorldPacket.{WorldPacket}
use subiaoserver.Connection.{Connection, Attachment, fwrite, fclose, file_call, put_buffer}
use subiaoserver.Connection.Outbox.{packetwrite, post}
use subiaoserver.Connection.Packets.{header}
use subiaoserver.Connection.Packets.Frames.{framed, packetwrite_cases}
use subiaoserver.Connection.Media.{Library, handlattachmentload, sendmultimediarequest}
use subiaoserver.Connection.Media.Pieces.{piece_values, ack_values, Fits, stored}
use subiaoserver.Connection.Media.Storing.{closed, handlattachmentload-stored}
use mathlib.Core.List.{map}

-- A packet of this content has been received and read up to its payload.
abbrev pub arrives : List ℕ → Connection → Connection
arrives bs c = put_buffer c (record { rpos = 0; wpos = length bs; storage = bs; escbuffer = [] })

abbrev pub piece_packet : Attachment → List ℕ → List ℕ
piece_packet a payload = bytes_of (piece_values a) ++ (payload ++ 0x7e ∷ [])

-- The piece `k` of the file `a`.
abbrev pub numbered : Attachment → ℕ → Attachment
numbered a k = record a { m_currentpacket_no = k }

-- The pieces of the file `a` from `k` on arrive and are handled.
unfoldable pub transfer : Library → Attachment → ℕ → List (List ℕ) → Exec Connection (Unit {0})
transfer lib a k [] c = done tt c
transfer lib a k (p ∷ ps) c =
    (do
      modify (arrives (piece_packet (numbered a k) p))
      handlattachmentload lib
      transfer lib a (suc k) ps)
      c

-- After a payload has been written the file is still open, and the list of files is the same.
record Wrote (f : ℕ) (payload : List ℕ) (c d : Connection) : Type 0 where
  file : d.m_file ≡ some f
  files : d.host.files ≡ c.host.files ++ fwrite f payload ∷ []
  list : d.m_mediainfodescription ≡ c.m_mediainfodescription

after_ack :
    (lib : Library) (f : ℕ) (last : Bool) (p : WorldPacket) (d : Connection)
    → (s : Connection) × ((do packetwrite p; if last then modify (closed lib f) else pure tt) d
        ≡ done tt (if last then closed lib f s else s))
      × ((s ≡ post p d) ⊎ (s ≡ d))
after_ack lib f true p d = elim (packetwrite_cases p d) [
  | inl posted ↦ (post p d, rw posted, inl refl)
  | inr not_posted ↦ (d, rw not_posted, inr refl)
]
after_ack lib f false p d = elim (packetwrite_cases p d) [
  | inl posted ↦ (post p d, rw posted, inl refl)
  | inr not_posted ↦ (d, rw not_posted, inr refl)
]

one_piece :
    (lib : Library) (c : Connection) (a : Attachment) (payload : List ℕ) (f : ℕ)
    → c.m_file ≡ some f
    → Fits a
    → payload ≢ []
    → length payload < 2 ^ 32
    → (s : Connection) × (handlattachmentload lib (arrives (piece_packet a payload) c)
        ≡ done tt (
            if a.m_totalpacket_no == (a.m_currentpacket_no + 1) % 2 ^ 16
            then closed lib f s
            else s))
      × Wrote f payload c s
one_piece lib c a payload f e fits ne small =
    let c1 = arrives (piece_packet a payload) c in
    let d = stored a payload f c1 in
    let unread : Unread c1.readpacket.buffer (piece_packet a payload) = record {
      addressable = omega (arith, length-append payload (0x7e ∷ []));
      within = omega arith;
      rest = refl;
    } in
    let last = a.m_totalpacket_no == (a.m_currentpacket_no + 1) % 2 ^ 16 in
    let p = framed 0x51 (bytes_of (header 0x51 d ++ ack_values a)) in
    let (s, run, which) = after_ack lib f last p d in
    (
      s,
      handlattachmentload-stored lib c1 a payload f e fits ne unread ∙ run,
      elim which [
        | inl posted ↦ record { file = rw posted e; files = rw posted; list = rw posted }
        | inr same ↦ record { file = rw same e; files = rw same; list = rw same }
      ],
    )

-- A payload that a piece can carry.
abbrev pub IsPayload : List ℕ → Type 0
IsPayload p = (p ≢ []) × (length p < 2 ^ 32)

-- The pieces of a file from any on to the last, with payloads and numbers in the range of their
-- types, that arrive in their order while a file is open, are written to it one after another and
-- to nothing else; then it is closed and the next file of the list is requested.
pub transfer-closed :
    (lib : Library) (a : Attachment) (k : ℕ) (p : List ℕ) (ps : List (List ℕ)) (c : Connection)
    (f : ℕ)
    → c.m_file ≡ some f
    → Fits a
    → All IsPayload (p ∷ ps)
    → k + suc (length ps) ≡ a.m_totalpacket_no
    → (d : Connection) × (transfer lib a k (p ∷ ps) c ≡ done tt (sendmultimediarequest lib d))
      × (d.m_file ≡ none)
      × (d.host.files ≡ c.host.files ++ (map (fwrite f) (p ∷ ps) ++ fclose f ∷ []))
      × (d.m_mediainfodescription ≡ c.m_mediainfodescription)
unfolding transfer
transfer-closed lib a k p [] c f e fits payloads count =
    let (s, run, w) =
      one_piece lib c (numbered a k) p f e (fits.0, fits.1, fits.2, omega (arith, fits.2))
        payloads.0.0 payloads.0.1 in
    let last : (a.m_totalpacket_no == (k + 1) % 2 ^ 16) ≡ true = ground (arith, fits.2) in
    (
      record (file_call (fclose f) s) { m_file = none },
      rw (run, last),
      refl,
      rw (w.files, append_assoc),
      w.list,
    )
transfer-closed lib a k p (q ∷ ps) c f e fits payloads count =
    let (s, run, w) =
      one_piece lib c (numbered a k) p f e (fits.0, fits.1, fits.2, omega (arith, fits.2))
        payloads.0.0 payloads.0.1 in
    let more : (a.m_totalpacket_no == (k + 1) % 2 ^ 16) ≡ false = ground (arith, fits.2) in
    let (d, run2, shut, files, list) =
      transfer-closed lib a (suc k) q ps s f w.file fits payloads.1 (omega arith) in
    (d, rw (run, more) run2, shut, files ∙ rw (w.files, append_assoc), list ∙ w.list)
