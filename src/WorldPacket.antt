-- ===== src/WorldPacket.antt =====
-- Packets/WorldPacket.h: a byte buffer with an opcode.
use subiaoserver.Common.{ℕ}
use subiaoserver.ByteBuffer.{ByteBuffer, byte_buffer}
use subiaoserver.ByteBuffer

pub record WorldPacket : Type 0 where
  pub buffer : ByteBuffer
  pub open buffer use *
  pub opcode : ℕ

-- `WorldPacket()` and `WorldPacket(uint8 opcode, size_t res)`; `res` only reserves.
abbrev pub world_packet : ℕ → WorldPacket
world_packet opcode = record { buffer = byte_buffer; opcode = opcode }

unfoldable pub copy : WorldPacket → WorldPacket
unfolding ByteBuffer.copy
copy packet = record { buffer = ByteBuffer.copy packet.buffer; opcode = packet.opcode }

pub initialize : ℕ → WorldPacket → WorldPacket
initialize opcode p = record { buffer = ByteBuffer.clear p.buffer; opcode = opcode }

abbrev pub get_opcode : WorldPacket → ℕ
get_opcode p = p.opcode

pub set_opcode : ℕ → WorldPacket → WorldPacket
set_opcode opcode p = record p { opcode = opcode }
