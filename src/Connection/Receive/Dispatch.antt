-- ===== src/Connection/Receive/Dispatch.antt =====
-- What the dispatch of a message and the heartbeat leave alone.
use subiaoserver.Common.{ℕ, List, ◌==◌, modify, done, throws, undefined, diverges}
use subiaoserver.Common.Keeps.{
  Ends, Keeps-modify, Keeps-bind, Keeps-then, Keeps-if, Keeps-pure, keeps_rules,
}
use subiaoserver.ByteBuffer.{clear}
use subiaoserver.ByteBuffer.Escape.{jt808decode}
use subiaoserver.Connection.{TimerCall, heartbeat_call, put_buffer, on_readpacket}
use subiaoserver.Connection.Packets.{LocalTime}
use subiaoserver.Connection.Media.{Library}
use subiaoserver.Connection.Kept.{
  Sides, sides, Survives, KeepsSides, read_locals-Keeps, read_into-Keeps, sendrealtimepacket-Keeps,
  sendactivesetconfigpacket-Keeps,
}
use subiaoserver.Connection.Kept.Handlers.{
  handlattachmentload-Keeps, handlealarmreport-Keeps, handleactivesetconfigpacket-Keeps,
}
use subiaoserver.Connection.Receive.{process_input, process_message, handlestatusreport, beat}

-- What is said of the sides is not about the escape buffer.
pub record Forgets (Q : Sides → Type 0) : Type 0 where
  pub forgets :
      (s : Sides) (e : List ℕ)
      → Q s
      → Q (record s { incoming = record (s.incoming) { escbuffer = e } })

module _ (Q : Sides → Type 0) (survives : Survives Q) where
  pub handlestatusreport-Keeps : KeepsSides Q survives handlestatusreport
  unfolding handlestatusreport
  handlestatusreport-Keeps =
      Keeps-bind _ _ (read_locals-Keeps Q survives _ _)
        (λ _. sendactivesetconfigpacket-Keeps Q survives)

  pub process_input-Keeps : (lib : Library) → KeepsSides Q survives (process_input lib)
  unfolding process_input
  process_input-Keeps lib =
      Keeps-if (λ c. c.header.s_opcode == 0x34) _ _ (handleactivesetconfigpacket-Keeps Q survives)
        (Keeps-if (λ c. c.header.s_opcode == 0x38) _ _ handlestatusreport-Keeps
          (Keeps-if (λ c. c.header.s_opcode == 0x36) _ _ (handlealarmreport-Keeps Q survives lib)
            (Keeps-if (λ c. c.header.s_opcode == 0x51) _ _
              (handlattachmentload-Keeps Q survives lib) (Keeps-pure tt))))

  -- Decoding changes the escape buffer.
  decode-Keeps : Forgets Q → KeepsSides Q survives (on_readpacket jt808decode)
  unfolding on_readpacket
  decode-Keeps f = record {
    at = λ c h.
        elim (jt808decode c.readpacket.buffer)
          as (λ r.
            Ends (λ d. Q (sides d))
              (elim r [
                | done a b ↦ done a (put_buffer c b)
                | throws e b ↦ throws e (put_buffer c b)
                | undefined ↦ undefined
                | diverges ↦ diverges
              ])) [
                | done a b ↦ f.forgets (sides c) b.escbuffer h
                | throws e b ↦ f.forgets (sides c) b.escbuffer h
                | undefined ↦ tt
                | diverges ↦ tt
              ];
  }

  pub process_message-Keeps :
      (lib : Library) (count : ℕ) → Forgets Q → KeepsSides Q survives (process_message lib count)
  unfolding process_message clear
  process_message-Keeps lib count f = Keeps-then _ _ (Keeps-modify _ (λ c h. h)) (
      Keeps-then _ _ (decode-Keeps f)
        (Keeps-then _ _ (read_into-Keeps Q survives _ _ _ (λ c s h. h)) (process_input-Keeps lib)))

  pub heartbeat-Keeps : (t : TimerCall) → KeepsSides Q survives (modify (heartbeat_call t))
  heartbeat-Keeps t = record { at = λ c h. h }

  pub beat-Keeps : (t : LocalTime) → KeepsSides Q survives (beat t)
  beat-Keeps t = search (keeps_rules, sendrealtimepacket-Keeps Q survives, heartbeat-Keeps)
