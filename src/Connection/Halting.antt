-- ===== src/Connection/Halting.antt =====
-- The handlers of messages, of the timers and of the outgoing side end: none of them loops.
use subiaoserver.Common.{
  ℕ, zero, suc, Bool, true, false, List, sym, if◌then◌else◌, done, throws, undefined, diverges,
  Exec, ◌>>◌, pure, modify, none, some,
}
use mathlib.Core.Path.{subst}
use subiaoserver.Common.Halts.{
  IsHalted, IsHalted-if, Halts, Halts-modify, Halts-bind, Halts-then, halts_rules, Stays-IsHalted,
}
use subiaoserver.ByteBuffer.{ByteBuffer, clearheader, contents}
use subiaoserver.ByteBuffer.Operators.{Op, run_ops}
use subiaoserver.ByteBuffer.Operators.Steady.{
  IsSteady, AreSteady, run_ops-AreSteady, clearheader-IsSteady, contents-IsSteady,
}
use subiaoserver.WorldPacket.{WorldPacket}
use subiaoserver.Connection.{Connection, put_buffer, on_readpacket}
use subiaoserver.Connection.Reads.{read_into, read_locals}
use subiaoserver.Connection.Requests.{
  Request, perform, prepared, perform-framed, realtime, current_media, set_adas, set_dsm,
}
use subiaoserver.Connection.Outbox.{packetwrite}
use subiaoserver.Connection.Packets.{LocalTime, sendrealtimepacket, sendcurrentmultimediarequest}
use subiaoserver.Connection.Config.{
  send_adasactivesetconfigpacket, send_dsmactivesetconfigpacket, sendactivesetconfigpacket,
  handle_adasactivesetconfigpacket, handle_dsmactivesetconfigpacket, handleactivesetconfigpacket,
}
use subiaoserver.Connection.Media.{
  Library, getalarmsmedia, sendmultimediarequest, sendattachmentload_ack, write_file, close_file,
  unpack_piece, store_piece, handlattachmentload, read_media, read_report, handladasealarmreport,
  handledsmalarmreport, handlealarmreport, Alarm,
}
use subiaoserver.Connection.Media.Pieces.{ack_framed}
use subiaoserver.Connection.Receive.{process_input, handlestatusreport, beat}

packetwrite-Halts : (p : WorldPacket) → Halts (packetwrite p)
unfolding packetwrite
packetwrite-Halts p = record { at = λ c. IsHalted-if c.is_open _ _ tt tt }

pub perform-Halts : (r : Request) → Halts (perform r)
perform-Halts r = record {
  at = λ c. subst IsHalted (sym (perform-framed r c)) ((packetwrite-Halts _).at (prepared r c));
}

ack-Halts : Halts sendattachmentload_ack
ack-Halts = record { at = λ c. subst IsHalted (sym (ack_framed c).0) ((packetwrite-Halts _).at _) }

on_readpacket-Halts :
    {A : Type 0} (m : Exec ByteBuffer A) (c : Connection)
    → IsHalted (m c.readpacket.buffer)
    → IsHalted (on_readpacket m c)
unfolding on_readpacket
on_readpacket-Halts m c h =
    elim (m c.readpacket.buffer)
        as (λ r.
          IsHalted r
          → IsHalted (elim r [
            | done a b ↦ done a (put_buffer c b)
            | throws e b ↦ throws e (put_buffer c b)
            | undefined ↦ undefined
            | diverges ↦ diverges
          ])) [
            | done a b ↦ λ e. tt
            | throws x b ↦ λ e. tt
            | undefined ↦ λ e. tt
            | diverges ↦ λ e. e
          ]
      h

steady-Halts :
    {A : Type 0} (m : Exec ByteBuffer A)
    → ((b : ByteBuffer) → IsSteady b.escbuffer (m b))
    → Halts (on_readpacket m)
steady-Halts m steady = record {
  at = λ c. on_readpacket-Halts m c (Stays-IsHalted _ _ (steady c.readpacket.buffer));
}

module _ {S : Type 0} where
  read_locals-Halts : (locals : S) (ops : List (Op S)) → Halts (read_locals locals ops)
  unfolding read_locals
  read_locals-Halts locals ops = record {
    at = λ c.
        elim (run_ops ops (c.readpacket.buffer, locals))
            as (λ r.
              AreSteady c.readpacket.buffer.escbuffer r
              → IsHalted (elim r [
                | done _ (b, s) ↦ done s (put_buffer c b)
                | throws e (b, s) ↦ throws e (put_buffer c b)
                | undefined ↦ undefined
                | diverges ↦ diverges
              ])) [
                | done a (b, s) ↦ λ e. tt
                | throws x (b, s) ↦ λ e. tt
                | undefined ↦ λ e. tt
                | diverges ↦ λ e. e
              ]
          (run_ops-AreSteady ops (c.readpacket.buffer, locals));
  }

  pub read_into-Halts :
      (part : Connection → S) (put : Connection → S → Connection) (ops : List (Op S))
      → Halts (read_into part put ops)
  unfolding read_into
  read_into-Halts part put ops = record {
    at = λ c.
        elim (run_ops ops (c.readpacket.buffer, part c))
            as (λ r.
              AreSteady c.readpacket.buffer.escbuffer r
              → IsHalted (elim r [
                | done _ (b, s) ↦ done tt (put (put_buffer c b) s)
                | throws e (b, s) ↦ throws e (put (put_buffer c b) s)
                | undefined ↦ undefined
                | diverges ↦ diverges
              ])) [
                | done a (b, s) ↦ λ e. tt
                | throws x (b, s) ↦ λ e. tt
                | undefined ↦ λ e. tt
                | diverges ↦ λ e. e
              ]
          (run_ops-AreSteady ops (c.readpacket.buffer, part c));
  }

sendcurrentmultimediarequest-Halts : Halts sendcurrentmultimediarequest
sendcurrentmultimediarequest-Halts = unfold perform in perform-Halts current_media

send_adasactivesetconfigpacket-Halts : Halts send_adasactivesetconfigpacket
send_adasactivesetconfigpacket-Halts = unfold perform in perform-Halts set_adas

send_dsmactivesetconfigpacket-Halts : Halts send_dsmactivesetconfigpacket
send_dsmactivesetconfigpacket-Halts = unfold perform in perform-Halts set_dsm

sendrealtimepacket-Halts : (t : LocalTime) → Halts (sendrealtimepacket t)
sendrealtimepacket-Halts t = unfold perform in perform-Halts (realtime t)

pub getalarmsmedia-Halts : (ec : Bool) → Halts (getalarmsmedia ec)
unfolding getalarmsmedia
getalarmsmedia-Halts ec = search (halts_rules, sendcurrentmultimediarequest-Halts)

pub beat-Halts : (t : LocalTime) → Halts (beat t)
beat-Halts t = search (halts_rules, sendrealtimepacket-Halts)

write-Halts : (bytes : List ℕ) → Halts (λ c. write_file c.m_file bytes c)
unfolding write_file
write-Halts bytes = record {
  at = λ c. elim c.m_file as (λ m. IsHalted (write_file m bytes c)) [ none ↦ tt | some f ↦ tt ];
}

close-Halts : Halts (λ c. close_file c.m_file c)
unfolding close_file
close-Halts = record {
  at = λ c. elim c.m_file as (λ m. IsHalted (close_file m c)) [ none ↦ tt | some f ↦ tt ];
}

finish-Halts :
    (lib : Library) (last : Bool)
    → Halts (do
      sendattachmentload_ack
      if last
          then (do (λ s. close_file s.m_file s); modify (sendmultimediarequest lib))
          else pure tt)
finish-Halts lib true = search (halts_rules, ack-Halts, close-Halts)
finish-Halts lib false = search (halts_rules, ack-Halts)

store_piece-Halts : (lib : Library) (bytes : List ℕ) → Halts (store_piece lib bytes)
unfolding store_piece
store_piece-Halts lib bytes =
    Halts-then _ _ (write-Halts bytes) (record { at = λ c. (finish-Halts lib _).at c })

clearheader-Halts : Halts (on_readpacket clearheader)
clearheader-Halts = steady-Halts clearheader clearheader-IsSteady

contents-Halts : Halts (on_readpacket contents)
contents-Halts = steady-Halts contents contents-IsSteady

unpack_piece-Halts : Halts unpack_piece
unfolding unpack_piece
unpack_piece-Halts = search (halts_rules, read_into-Halts, clearheader-Halts, contents-Halts)

handlattachmentload-Halts : (lib : Library) → Halts (handlattachmentload lib)
unfolding handlattachmentload
handlattachmentload-Halts lib = search (halts_rules, unpack_piece-Halts, store_piece-Halts)

read_media-Halts : (rounds : ℕ) → Halts (read_media rounds)
unfolding read_media
read_media-Halts zero = record { at = λ c. tt }
read_media-Halts (suc rounds) =
    Halts-bind _ _ (read_locals-Halts _ _)
      (λ m. Halts-then _ _ (Halts-modify _) (read_media-Halts rounds))

read_report-Halts : (ops : List (Op Alarm)) (lib : Library) → Halts (read_report ops lib)
unfolding read_report
read_report-Halts ops lib = search (halts_rules, read_locals-Halts, read_media-Halts)

handlealarmreport-Halts : (lib : Library) → Halts (handlealarmreport lib)
unfolding handlealarmreport handladasealarmreport handledsmalarmreport
handlealarmreport-Halts lib = search (halts_rules, read_report-Halts)

handleactivesetconfigpacket-Halts : Halts handleactivesetconfigpacket
unfolding handleactivesetconfigpacket handle_adasactivesetconfigpacket
    handle_dsmactivesetconfigpacket
handleactivesetconfigpacket-Halts = search (halts_rules, read_into-Halts)

sendactivesetconfigpacket-Halts : Halts sendactivesetconfigpacket
unfolding sendactivesetconfigpacket
sendactivesetconfigpacket-Halts =
    search (halts_rules, send_adasactivesetconfigpacket-Halts, send_dsmactivesetconfigpacket-Halts)

handlestatusreport-Halts : Halts handlestatusreport
unfolding handlestatusreport
handlestatusreport-Halts = search (halts_rules, read_locals-Halts, sendactivesetconfigpacket-Halts)

pub process_input-Halts : (lib : Library) → Halts (process_input lib)
unfolding process_input
process_input-Halts lib = search (
  halts_rules, handleactivesetconfigpacket-Halts, handlestatusreport-Halts, handlealarmreport-Halts,
  handlattachmentload-Halts,
)
