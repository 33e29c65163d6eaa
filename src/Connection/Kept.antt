-- ===== src/Connection/Kept.antt =====
-- What the handlers of messages and of the timers leave alone: the buffer for incoming bytes, the
-- count of those in it, the reads that have been asked for, the outbox and the writes that have
-- begun. To what has been posted they add packets. One rule for each way to build a handler.
pub mod Handlers
use subiaoserver.Common.{
  ℕ, zero, suc, ◌+◌, Bool, true, false, List, [], ◌∷◌, ◌++◌, ◌≡◌, ◌≢◌, arith, ◌≤◌, ◌<◌, sym, refl,
  length, length-append, length-take, and_then, if◌then◌else◌, Outcome, done, throws, undefined,
  diverges, Exec, ◌>>=◌, ◌>>◌, pure, modify, Bool-cases, inl, inr, Option, none, some, ◌==◌,
}
use subiaoserver.Common.Keeps.{Ends, Ends-if, Keeps, keeps_rules}
use subiaoserver.ByteBuffer.{ByteBuffer, size}
use subiaoserver.ByteBuffer.Checksum.{add_check_sum}
use subiaoserver.ByteBuffer.Streams.{Values}
use subiaoserver.ByteBuffer.Operators.{Op, run_ops}
use subiaoserver.ByteBuffer.Operators.Steady.{IsSteady, AreSteady, run_ops-AreSteady}
use subiaoserver.ByteBuffer.Escape.{jt808encode, encode_loop, wrap_escbuffer}
use subiaoserver.ByteBuffer.Streams.{write_all}
use mathlib.Core.Path.{subst}
use subiaoserver.ByteBuffer.Streams.{bytes_of}
use subiaoserver.ByteBuffer.Escape.RoundTrip.{frame as frame_of}
use subiaoserver.Connection.Packets.Frames.{framed}
use subiaoserver.Connection.Requests.{
  Request, perform, prepared, message, message-fits, opcode_of, perform-framed, realtime,
  current_media, set_adas, set_dsm,
}
use subiaoserver.WorldPacket.{WorldPacket, world_packet, copy}
use subiaoserver.Connection.{Connection, on_readpacket, put_buffer}
use subiaoserver.Connection.Reads.{read_into, read_locals}
use subiaoserver.Connection.Outbox.{packetwrite}
use subiaoserver.Connection.Packets.{
  send, LocalTime, sendrealtimepacket, sendcurrentmultimediarequest,
}
use subiaoserver.Connection.Config.{
  send_adasactivesetconfigpacket, send_dsmactivesetconfigpacket, sendactivesetconfigpacket,
  handle_adasactivesetconfigpacket, handle_dsmactivesetconfigpacket, handleactivesetconfigpacket,
}
use subiaoserver.Connection.Media.{
  Library, getalarmsmedia, sendmultimediarequest, request_media, start_getalarmsmedia,
  sendattachmentload_ack, write_file, close_file, unpack_piece, store_piece, handlattachmentload,
  read_media, read_report, handladasealarmreport, handledsmalarmreport, handlealarmreport, Alarm,
}

pub record Frame : Type 0 where
  pub total : ℕ
  pub bytes : List ℕ
  pub room : ℕ
  pub reading : List (ℕ × ℕ)
  pub escbuffer : List ℕ

abbrev pub frame : Connection → Frame
frame c = record {
  total = c.total_bytes_read;
  bytes = c.buf;
  room = c.buf_size;
  reading = c.host.reading;
  escbuffer = c.readpacket.buffer.escbuffer;
}

-- The incoming side and the outgoing one.
pub record Sides : Type 0 where
  pub incoming : Frame
  pub is_open : Bool
  pub registered : Bool
  pub outbox : List WorldPacket
  pub writing : List (List ℕ)
  pub posted : List WorldPacket

abbrev pub sides : Connection → Sides
sides c = record {
  incoming = frame c;
  is_open = c.is_open;
  registered = c.registered;
  outbox = c.outbox;
  writing = c.host.writing;
  posted = c.host.posted;
}

abbrev pub with_posted : WorldPacket → Sides → Sides
with_posted p s = record s { posted = s.posted ++ copy p ∷ [] }

-- The frame of a message for which the checksum loop ends.
abbrev pub IsFrame : List ℕ → Type 0
IsFrame bs = (xs : List ℕ) × (2 ≤ length xs) × (length xs < 256) × (bs ≡ frame_of xs)

-- What is said of the sides, and survives the packets that handlers post.
pub record Survives (Q : Sides → Type 0) : Type 0 where
  pub grows : (s : Sides) (p : WorldPacket) → IsFrame p.buffer.storage → Q s → Q (with_posted p s)

prepared-sides : (r : Request) (c : Connection) → sides (prepared r c) ≡ sides c
prepared-sides (realtime t) c = refl
prepared-sides _ c = refl

module _ (Q : Sides → Type 0) (survives : Survives Q) where
  abbrev pub KeepsSides : {A : Type 0} → Exec Connection A → Type 0
  KeepsSides m = Keeps (λ c. Q (sides c)) m

  packetwrite-Keeps : (p : WorldPacket) → IsFrame p.buffer.storage → KeepsSides (packetwrite p)
  unfolding packetwrite
  packetwrite-Keeps p is_frame = record {
    at = λ c h. Ends-if (λ d. Q (sides d)) c.is_open _ _ (survives.grows (sides c) p is_frame h) h;
  }

  -- A handler that hands on the frame of `bs`.
  pub framed-Ends :
      (m : Exec Connection (Unit {0})) (c d : Connection) (opcode : ℕ) (bs : List ℕ)
      → m c ≡ packetwrite (framed opcode bs) d
      → 2 ≤ length bs
      → length bs < 256
      → Q (sides d)
      → Ends (λ d. Q (sides d)) (m c)
  framed-Ends m c d opcode bs e lo hi h =
      subst (Ends (λ d. Q (sides d))) (sym e)
        ((packetwrite-Keeps (framed opcode bs) (bs, lo, hi, refl)).at d h)

  pub perform-Keeps : (r : Request) → KeepsSides (perform r)
  perform-Keeps r = record {
    at = λ c h.
        let d = prepared r c in
        let (lo, hi) = message-fits r d in
        framed-Ends (perform r) c d (opcode_of r) (bytes_of (message r d)) (perform-framed r c) lo
          hi (subst Q (sym (prepared-sides r c)) h);
  }

  put_buffer-sides :
      (c : Connection) (b : ByteBuffer)
      → b.escbuffer ≡ c.readpacket.buffer.escbuffer
      → Q (sides c)
      → Q (sides (put_buffer c b))
  put_buffer-sides c b e h =
      subst (λ x. Q (record (sides c) { incoming = record (frame c) { escbuffer = x } })) (sym e) h

  pub on_readpacket-Keeps :
      {A : Type 0} (m : Exec ByteBuffer A)
      → ((b : ByteBuffer) → IsSteady b.escbuffer (m b))
      → KeepsSides (on_readpacket m)
  unfolding on_readpacket
  on_readpacket-Keeps m steady = record {
    at = λ c h.
        elim (m c.readpacket.buffer)
            as (λ r.
              IsSteady c.readpacket.buffer.escbuffer r
              → Ends (λ d. Q (sides d))
                  (elim r [
                    | done a b ↦ done a (put_buffer c b)
                    | throws e b ↦ throws e (put_buffer c b)
                    | undefined ↦ undefined
                    | diverges ↦ diverges
                  ])) [
                    | done a b ↦ λ e. put_buffer-sides c b e h
                    | throws x b ↦ λ e. put_buffer-sides c b e h
                    | undefined ↦ λ e. tt
                    | diverges ↦ λ e. tt
                  ]
          (steady c.readpacket.buffer);
  }

  pub read_locals-Keeps :
      {S : Type 0} (locals : S) (ops : List (Op S)) → KeepsSides (read_locals locals ops)
  unfolding read_locals
  read_locals-Keeps locals ops = record {
    at = λ c h.
        elim (run_ops ops (c.readpacket.buffer, locals))
            as (λ r.
              AreSteady c.readpacket.buffer.escbuffer r
              → Ends (λ d. Q (sides d))
                  (elim r [
                    | done _ (b, s) ↦ done s (put_buffer c b)
                    | throws e (b, s) ↦ throws e (put_buffer c b)
                    | undefined ↦ undefined
                    | diverges ↦ diverges
                  ])) [
                    | done a (b, s) ↦ λ e. put_buffer-sides c b e h
                    | throws x (b, s) ↦ λ e. put_buffer-sides c b e h
                    | undefined ↦ λ e. tt
                    | diverges ↦ λ e. tt
                  ]
          (run_ops-AreSteady ops (c.readpacket.buffer, locals));
  }

  pub read_into-Keeps :
      {S : Type 0} (part : Connection → S) (put : Connection → S → Connection) (ops : List (Op S))
      → ((c : Connection) (s : S) → Q (sides c) → Q (sides (put c s)))
      → KeepsSides (read_into part put ops)
  unfolding read_into
  read_into-Keeps part put ops kept = record {
    at = λ c h.
        elim (run_ops ops (c.readpacket.buffer, part c))
            as (λ r.
              AreSteady c.readpacket.buffer.escbuffer r
              → Ends (λ d. Q (sides d))
                  (elim r [
                    | done _ (b, s) ↦ done tt (put (put_buffer c b) s)
                    | throws e (b, s) ↦ throws e (put (put_buffer c b) s)
                    | undefined ↦ undefined
                    | diverges ↦ diverges
                  ])) [
                    | done a (b, s) ↦ λ e. kept (put_buffer c b) s (put_buffer-sides c b e h)
                    | throws x (b, s) ↦ λ e. kept (put_buffer c b) s (put_buffer-sides c b e h)
                    | undefined ↦ λ e. tt
                    | diverges ↦ λ e. tt
                  ]
          (run_ops-AreSteady ops (c.readpacket.buffer, part c));
  }

  pub sendrealtimepacket-Keeps : (t : LocalTime) → KeepsSides (sendrealtimepacket t)
  sendrealtimepacket-Keeps t = unfold perform in perform-Keeps (realtime t)

  pub sendcurrentmultimediarequest-Keeps : KeepsSides sendcurrentmultimediarequest
  sendcurrentmultimediarequest-Keeps = unfold perform in perform-Keeps current_media

  send_adasactivesetconfigpacket-Keeps : KeepsSides send_adasactivesetconfigpacket
  send_adasactivesetconfigpacket-Keeps = unfold perform in perform-Keeps set_adas

  send_dsmactivesetconfigpacket-Keeps : KeepsSides send_dsmactivesetconfigpacket
  send_dsmactivesetconfigpacket-Keeps = unfold perform in perform-Keeps set_dsm

  pub sendactivesetconfigpacket-Keeps : KeepsSides sendactivesetconfigpacket
  unfolding sendactivesetconfigpacket
  sendactivesetconfigpacket-Keeps =
      search
        (keeps_rules, send_adasactivesetconfigpacket-Keeps, send_dsmactivesetconfigpacket-Keeps)
