-- ===== src/Examples/Incoming.antt =====
-- The theorems on what a connection receives, at concrete inputs.
use subiaoserver.Common.{ℕ, ◌≡◌, refl, arith, List, [], ◌∷◌, ◌++◌, ◌>>◌, modify}
use subiaoserver.ByteBuffer.Streams.{bytes_of}
use subiaoserver.ByteBuffer.Escape.Spec.{escape, unescape}
use subiaoserver.ByteBuffer.Operators.Feed.{Throws}
use subiaoserver.Connection.{Connection, put_buffer}
use subiaoserver.Connection.Outbox.{packetwrite}
use subiaoserver.Connection.Packets.{header}
use subiaoserver.Connection.Packets.Frames.{framed}
use subiaoserver.Connection.Config.{dsm_values}
use subiaoserver.Connection.Receive.{process_input, process_message}
use subiaoserver.Connection.Receive.Status.{process_input-status}
use subiaoserver.Common.{inr}
use subiaoserver.Connection.Receive.Message.{opened, process_message-Throws}
use subiaoserver.Connection.Receive.Reassembly.{deliver, IsReceiving, restart, reassembly}
use subiaoserver.Examples.Connections.{settings, new, reading, library}

-- A status report of 5 bytes, which is cut into three chunks, the escaped byte among them.
abbrev chunks : List (List ℕ)
chunks = (0x7e ∷ 9 ∷ 0 ∷ 0 ∷ []) ∷ (0x12 ∷ 0x34 ∷ 0x64 ∷ 0x2f ∷ 0x7d ∷ []) ∷ []

reassembly_example :
    (d : Connection) × IsReceiving new d
    × (deliver library (chunks ++ (2 ∷ 5 ∷ 0x7e ∷ []) ∷ []) new
        ≡ (do process_input library; modify restart)
            (opened 9 0 0 0x12 0x34 0x64 0x2f (0x7e ∷ 5 ∷ []) d))
unfolding escape
reassembly_example =
    reassembly library chunks (2 ∷ 5 ∷ 0x7e ∷ []) new 9 0 0 0x12 0x34 0x64 0x2f (0x7e ∷ 5 ∷ []) refl
      refl (((λ e. absurd (cc e)), omega arith), (((λ e. absurd (cc e)), omega arith), tt))
      ((λ e. absurd (cc e)), refl) refl (omega arith)

abbrev buffered : Connection
buffered = record new { buf = 0x7e ∷ 9 ∷ 0 ∷ 0 ∷ 0x12 ∷ 0x34 ∷ 0x64 ∷ 0x2f ∷ 5 ∷ 0x7e ∷ [] }

process_message-Throws_example : Throws (process_message library 1 buffered)
unfolding unescape
process_message-Throws_example =
    process_message-Throws library buffered 1 [] refl refl (omega arith) (omega arith)

abbrev reporting : Connection
reporting = record (reading 0x65 (2 ∷ 0 ∷ 0 ∷ 0 ∷ 0 ∷ 0x7e ∷ [])) {
  header = record (new.header) { s_terminalcode_id = 0x65; s_opcode = 0x38 };
}

process_input-status_example :
    process_input library reporting
    ≡ packetwrite
        (framed 0x35 (0 ∷ 0 ∷ 0x12 ∷ 0x34 ∷ 0x65 ∷ 0x35 ∷ bytes_of (dsm_values settings)))
        (put_buffer reporting (record reporting.readpacket.buffer { rpos = 5 }))
unfolding header
process_input-status_example =
    process_input-status library reporting (2 ∷ 0 ∷ 0 ∷ 0 ∷ 0 ∷ []) (0x7e ∷ []) refl (inr refl) refl
      (record { addressable = omega arith; within = refl; rest = refl })
