-- ===== src/Connection/Receive/Bounds.antt =====
-- The buffer for incoming bytes is never left.
use subiaoserver.Common.{
  ℕ, ◌+◌, ◌-◌, ◌%◌, ◌^◌, ◌≤◌, ◌≡◌, refl, arith, Bool, true, false, List, [], length, get_or, ◌==◌,
  All, All-append, Outcome, done, modify,
}
use subiaoserver.Common.Keeps.{Ends, Ends-if, Keeps, Keeps-then}
use mathlib.Core.Path.{subst}
use subiaoserver.ByteBuffer.{memcpy}
use subiaoserver.ByteBuffer.Memcpy.{length-memcpy_bounds}
use subiaoserver.WorldPacket.{WorldPacket}
use subiaoserver.Connection.{Connection, manager_stop}
use subiaoserver.Connection.Outbox.{packetwrite_impl, write_handler}
use subiaoserver.Connection.Packets.{LocalTime}
use subiaoserver.Connection.Media.{Library, getalarmsmedia}
use subiaoserver.Connection.Kept.{Frame, frame, Sides, Survives}
use subiaoserver.Connection.Kept.Handlers.{getalarmsmedia-Keeps}
use subiaoserver.Connection.Outbox.Framing.{
  frame-Ignores, packetwrite_impl-Keeps, write_handler-Keeps,
}
use subiaoserver.Connection.Receive.Dispatch.{process_message-Keeps, beat-Keeps}
use subiaoserver.Connection.Receive.{
  ReadEvent, aborted, failed, received, message_size, readmedia, read_handler, heart_tick, start,
  start_write,
}

-- A read is asked for at the end of what is kept, and for no more than the rest of the buffer.
abbrev pub IsInside : ℕ × ℕ → Type 0
IsInside (offset, room) = offset + room ≡ message_size

-- The bytes that are kept have been received, and lie in the buffer, as do all reads.
pub record IsWithin (f : Frame) : Type 0 where
  pub room : f.room ≡ message_size
  pub total : f.total ≤ length f.bytes
  pub bytes : length f.bytes ≤ message_size
  pub reads : All IsInside f.reading

abbrev Incoming : Sides → Type 0
Incoming s = IsWithin s.incoming

Incoming-Survives : Survives Incoming
Incoming-Survives = record { grows = λ s p ne h. h }

again_within : (f : Frame) (e : List ℕ) → IsWithin f → IsWithin (record f { escbuffer = e })
again_within f e v = record { room = v.room; total = v.total; bytes = v.bytes; reads = v.reads }

-- A read is asked for behind `count` more bytes, which have been received.
readmedia-IsWithin :
    (count : ℕ) (c : Connection)
    → IsWithin (frame c)
    → c.total_bytes_read + count ≤ length c.buf
    → IsWithin (frame (readmedia count c))
unfolding readmedia
readmedia-IsWithin count c v h =
    let small : (c.total_bytes_read + count) % 2 ^ 64 ≡ c.total_bytes_read + count =
      omega (arith, v.bytes) in
    record {
      room = v.room;
      total = rw small h;
      bytes = v.bytes;
      reads =
          All-append IsInside c.host.reading _ v.reads
            (omega (arith, v.room, v.bytes, small, h), tt);
    }

-- `async_read_some` gives no more than the room that was asked for.
abbrev pub Fits : ReadEvent → Connection → Type 0
Fits aborted c = Unit
Fits failed c = Unit
Fits (received bs) c = c.total_bytes_read + length bs ≤ c.buf_size

arrived-IsWithin :
    (bs : List ℕ) (c : Connection)
    → IsWithin (frame c)
    → Fits (received bs) c
    → (c.total_bytes_read + length bs ≤ length (memcpy c.total_bytes_read bs c.buf))
      × IsWithin (frame (record c { buf = memcpy c.total_bytes_read bs c.buf }))
arrived-IsWithin bs c v fits =
    let (inside, small) =
      length-memcpy_bounds message_size c.total_bytes_read bs c.buf v.total v.bytes
        (omega (arith, v.room, fits)) in
    (
      inside,
      record { room = v.room; total = omega (arith, inside); bytes = small; reads = v.reads },
    )

-- After a message the buffer is filled from its front again.
again :
    Keeps (λ c. IsWithin (frame c)) (modify (λ d. readmedia 0 (record d { total_bytes_read = 0 })))
again = record {
  at = λ d v.
      let front : IsWithin (frame (record d { total_bytes_read = 0 })) = record {
        room = v.room;
        total = omega arith;
        bytes = v.bytes;
        reads = v.reads;
      } in
      readmedia-IsWithin 0 (record d { total_bytes_read = 0 }) front (omega arith);
}

read_handler-IsWithin :
    (lib : Library) (e : ReadEvent) (c : Connection)
    → Fits e c
    → IsWithin (frame c)
    → Ends (λ d. IsWithin (frame d)) (read_handler lib e c)
unfolding read_handler manager_stop
read_handler-IsWithin lib aborted c fits v = v
read_handler-IsWithin lib failed c fits v = v
read_handler-IsWithin lib (received bs) c fits v =
    let (inside, w) = arrived-IsWithin bs c v fits in
    let c' = record c { buf = memcpy c.total_bytes_read bs c.buf } in
    let count = c.total_bytes_read + length bs in
    Ends-if (λ d. IsWithin (frame d)) (count == 0) _ _ tt
      (Ends-if (λ d. IsWithin (frame d)) (get_or c'.buf (count - 1) 0 == 0x7e) _ _
        ((Keeps-then _ _
            (process_message-Keeps Incoming Incoming-Survives lib count
              (record { forgets = λ s e h. again_within s.incoming e h }))
            again).at
          c' w)
        (readmedia-IsWithin (length bs) c' w inside))

heart_tick-IsWithin :
    (t : LocalTime) (ec : Bool) (c : Connection)
    → IsWithin (frame c)
    → Ends (λ d. IsWithin (frame d)) (heart_tick t ec c)
unfolding heart_tick manager_stop
heart_tick-IsWithin t true c v = v
heart_tick-IsWithin t false c v = (beat-Keeps Incoming Incoming-Survives t).at c v

start-IsWithin :
    (t : LocalTime) (c : Connection)
    → c.host.reading ≡ []
    → Ends (λ d. IsWithin (frame d)) (start t c)
unfolding start start_write
start-IsWithin t c e =
    let c' = record c { total_bytes_read = 0; buf = []; buf_size = message_size } in
    let v : IsWithin (frame c') = record {
      room = refl;
      total = omega arith;
      bytes = omega arith;
      reads = rw e tt;
    } in
    (beat-Keeps Incoming Incoming-Survives t).at (readmedia 0 c')
      (readmedia-IsWithin 0 c' v (omega arith))

-- The states of a connection from its start on, whatever happens to it in whatever order.
pub data Reaches : Connection → Type 0 where
  starts :
      (c : Connection) {d : Connection} (t : LocalTime)
      → c.host.reading ≡ []
      → start t c ≡ done tt d
      → Reaches d
  reads :
      (c : Connection) {d : Connection} (lib : Library) (e : ReadEvent)
      → Reaches c
      → Fits e c
      → read_handler lib e c ≡ done tt d
      → Reaches d
  beats :
      (c : Connection) {d : Connection} (t : LocalTime) (ec : Bool)
      → Reaches c
      → heart_tick t ec c ≡ done tt d
      → Reaches d
  requests :
      (c : Connection) {d : Connection} (ec : Bool)
      → Reaches c
      → getalarmsmedia ec c ≡ done tt d
      → Reaches d
  runs :
      (c : Connection) {d : Connection} (p : WorldPacket)
      → Reaches c
      → packetwrite_impl p c ≡ done tt d
      → Reaches d
  writes :
      (c : Connection) {d : Connection} (ec : Bool)
      → Reaches c
      → write_handler ec c ≡ done tt d
      → Reaches d
  stops : (c : Connection) → Reaches c → Reaches (manager_stop c)

ended :
    {d : Connection} (r : Outcome Connection (Unit {0}))
    → Ends (λ c. IsWithin (frame c)) r
    → r ≡ done tt d
    → IsWithin (frame d)
ended r v e = subst (Ends (λ c. IsWithin (frame c))) e v

-- From Start on, whatever is received, however timers, writes and posted handlers end, and in
-- whatever order, as long as async_read_some gives no more than the room it was given, the size of
-- the receive buffer is 128 KB, the bytes that are kept lie in it, and every read that is asked for
-- lies in it, from its offset to the end of the buffer.
pub Reaches-IsWithin : (c : Connection) → Reaches c → IsWithin (frame c)
unfolding manager_stop
Reaches-IsWithin d (starts c t none_yet e) = ended (start t c) (start-IsWithin t c none_yet) e
Reaches-IsWithin d (reads c lib ev r fits e) =
    ended (read_handler lib ev c) (read_handler-IsWithin lib ev c fits (Reaches-IsWithin c r)) e
Reaches-IsWithin d (beats c t ec r e) =
    ended (heart_tick t ec c) (heart_tick-IsWithin t ec c (Reaches-IsWithin c r)) e
Reaches-IsWithin d (requests c ec r e) =
    ended (getalarmsmedia ec c)
      ((getalarmsmedia-Keeps Incoming Incoming-Survives ec).at c (Reaches-IsWithin c r)) e
Reaches-IsWithin d (runs c p r e) =
    ended (packetwrite_impl p c)
      ((packetwrite_impl-Keeps _ (frame-Ignores IsWithin) p).at c (Reaches-IsWithin c r)) e
Reaches-IsWithin d (writes c ec r e) =
    ended (write_handler ec c)
      ((write_handler-Keeps _ (frame-Ignores IsWithin) ec).at c (Reaches-IsWithin c r)) e
Reaches-IsWithin d (stops c r) = Reaches-IsWithin c r
