-- ===== src/Examples/Media.antt =====
-- The theorems on the files of an alarm, at concrete inputs.
use subiaoserver.Common.{
  undefined, none, ◌≡◌, refl, arith, List, [], ◌∷◌, ◌++◌, done, some, inl, replicate, ◌>>◌, modify,
}
use subiaoserver.ByteBuffer.Streams.{bytes_of}
use subiaoserver.ByteBuffer.Operators.Feed.{past}
use subiaoserver.Endian.{swap_endian}
use subiaoserver.Connection.{Connection, Attachment, MediaInfo, put_buffer}
use subiaoserver.Connection.Outbox.{packetwrite}
use subiaoserver.Connection.Packets.{header}
use subiaoserver.Connection.Packets.Frames.{framed}
use subiaoserver.Connection.Media.{handlealarmreport, handlattachmentload}
use subiaoserver.Connection.Media.Pieces.{piece_values, ack_values, stored}
use subiaoserver.Connection.Media.Transfer.{transfer, transfer-closed}
use subiaoserver.Connection.Media.{sendmultimediarequest}
use subiaoserver.Connection.{fwrite, fclose}
use subiaoserver.Connection.Media.Storing.{
  closed, handlattachmentload-stored, handlattachmentload_unopened,
}
use subiaoserver.Connection.Media.Listing.{listing, turned, handlealarmreport-turned}
use subiaoserver.Connection.Media.Fetching.{Recording, Entry, library_for, fetch, fetch-keeps}
use subiaoserver.Common.{◌==◌, if◌then◌else◌}
use subiaoserver.Connection.{fopen}
use subiaoserver.Connection.Media.{extension}
use subiaoserver.Examples.Connections.{library, reading}

-- The last of three pieces of a picture.
abbrev piece : Attachment
piece = record {
  m_mediatype = 0;
  m_multimedia_id = 0x01020304;
  m_totalpacket_no = 3;
  m_currentpacket_no = 2;
}

abbrev receiving : Connection
receiving = record (reading 0x64 (bytes_of (piece_values piece) ++ (0xaa ∷ 0xbb ∷ 0x7e ∷ []))) {
  m_file = some 7;
}

handlattachmentload-stored_example : handlattachmentload library receiving ≡ (
    let d = stored piece (0xaa ∷ 0xbb ∷ []) 7 receiving in
    (do
      packetwrite (framed 0x51 (bytes_of (header 0x51 d ++ ack_values piece)))
      modify (closed library 7))
      d)
unfolding swap_endian
handlattachmentload-stored_example =
    handlattachmentload-stored library receiving piece (0xaa ∷ 0xbb ∷ []) 7 refl
      (omega arith, omega arith, omega arith, omega arith) (λ e. absurd (cc e))
      (record { addressable = omega arith; within = refl; rest = refl })

handlattachmentload_unopened_example :
    handlattachmentload library (record receiving { m_file = none }) ≡ undefined
unfolding swap_endian
handlattachmentload_unopened_example =
    handlattachmentload_unopened library (record receiving { m_file = none }) piece
      (0xaa ∷ 0xbb ∷ []) refl (omega arith, omega arith, omega arith, omega arith)
      (λ e. absurd (cc e)) (record { addressable = omega arith; within = refl; rest = refl })

-- A video and a picture.
abbrev two_files : List MediaInfo
two_files =
    record { mediatype = 2; multimedia_id = 5 } ∷ record { mediatype = 0; multimedia_id = 6 } ∷ []

abbrev report : Connection
report = reading 0x64 (replicate 30 1 ++ (2 ∷ (listing two_files ++ (0x7e ∷ []))))

handlealarmreport-turned_example :
    handlealarmreport library report
    ≡ done tt (turned library two_files (put_buffer report (past 41 report.readpacket.buffer)))
unfolding swap_endian
handlealarmreport-turned_example =
    handlealarmreport-turned library report (replicate 30 1) two_files (0x7e ∷ []) (inl refl) refl
      ((omega arith, omega arith), ((omega arith, omega arith), tt))
      (record { addressable = omega arith; within = refl; rest = refl })

-- A file of three pieces.
abbrev whole_file : Attachment
whole_file = record {
  m_mediatype = 0;
  m_multimedia_id = 5;
  m_totalpacket_no = 3;
  m_currentpacket_no = 0;
}

transfer-closed_example :
    (d : Connection) × (transfer library whole_file 0
        ((1 ∷ 2 ∷ []) ∷ (3 ∷ []) ∷ (0x7e ∷ []) ∷ [])
        receiving
      ≡ done tt (sendmultimediarequest library d))
    × (d.m_file ≡ none)
    × (d.host.files
        ≡ fwrite 7 (1 ∷ 2 ∷ []) ∷ fwrite 7 (3 ∷ []) ∷ fwrite 7 (0x7e ∷ []) ∷ fclose 7 ∷ [])
    × (d.m_mediainfodescription ≡ [])
transfer-closed_example =
    transfer-closed library whole_file 0 (1 ∷ 2 ∷ []) ((3 ∷ []) ∷ (0x7e ∷ []) ∷ []) receiving 7 refl
      (omega arith, omega arith, omega arith, omega arith)
      (
        ((λ e. absurd (cc e)), omega arith),
        (((λ e. absurd (cc e)), omega arith), (((λ e. absurd (cc e)), omega arith), tt)),
      )
      refl

-- The sensor keeps every video in two pieces, and everything else in one.
abbrev sensor : MediaInfo → Recording
sensor m = record {
  piece = 1 ∷ m.multimedia_id ∷ [];
  pieces = if m.mediatype == 2 then (2 ∷ []) ∷ [] else [];
}

abbrev video : Entry
video = record { info = record { mediatype = 2; multimedia_id = 5 }; stamp = b'1' ∷ []; opened = 7 }

abbrev picture : Entry
picture = record {
  info = record { mediatype = 0; multimedia_id = 6 };
  stamp = b'2' ∷ [];
  opened = 8;
}

fetch-keeps_example :
    (d : Connection) × ((do
      handlealarmreport (library_for (video ∷ picture ∷ []))
      fetch sensor (video ∷ picture ∷ []))
        report
      ≡ done tt d)
    × (d.m_file ≡ none)
    × (d.m_mediainfodescription ≡ [])
    × (d.host.files
        ≡ fopen (b'1' ∷ b'.' ∷ b'm' ∷ b'p' ∷ b'4' ∷ []) (some 7)
          ∷ fwrite 7 (1 ∷ 5 ∷ [])
          ∷ fwrite 7 (2 ∷ [])
          ∷ fclose 7
          ∷ fopen (b'2' ∷ b'.' ∷ b'j' ∷ b'p' ∷ b'g' ∷ []) (some 8)
          ∷ fwrite 8 (1 ∷ 6 ∷ [])
          ∷ fclose 8
          ∷ [])
unfolding extension
fetch-keeps_example =
    fetch-keeps sensor video (picture ∷ []) report (replicate 30 1) (0x7e ∷ []) (inl refl) refl
      (
        (
          (omega arith, omega arith),
          omega arith,
          (((λ e. absurd (cc e)), omega arith), (((λ e. absurd (cc e)), omega arith), tt)),
        ),
        (((omega arith, omega arith), omega arith, (((λ e. absurd (cc e)), omega arith), tt)), tt),
      )
      (record { addressable = omega arith; within = refl; rest = refl })
