-- ===== src/Connection/Life/Posting.antt =====
-- What the handlers of a connection do to the outgoing side: they post frames.
use subiaoserver.Common.{
  ℕ, Bool, Outcome, ◌≡◌, refl, sym, false, List, [], ◌∷◌, ◌++◌, append_assoc, append-nil, length,
  get_or, ◌-◌, ◌+◌, ◌==◌, Exec, modify, All, All-append,
}
use mathlib.Core.Path.{subst}
use mathlib.Core.List.{map, map-append}
use subiaoserver.Common.Keeps.{Ends, Ends-if, Keeps, Keeps-then, Keeps-modify}
use subiaoserver.ByteBuffer.{memcpy}
use subiaoserver.WorldPacket.{WorldPacket, copy}
use subiaoserver.Connection.{Connection}
use subiaoserver.Connection.Packets.{LocalTime}
use subiaoserver.Connection.Media.{Library, getalarmsmedia}
use subiaoserver.Connection.Requests.{Request, perform}
use subiaoserver.Connection.Kept.Handlers.{getalarmsmedia-Keeps}
use subiaoserver.Connection.Kept.{perform-Keeps, IsFrame, Frame, frame, Sides, sides, Survives}
use subiaoserver.Connection.Receive.{
  received, readmedia, message_size, beat, read_handler, heart_tick, start, start_write,
}
use subiaoserver.Connection.Receive.Dispatch.{process_message-Keeps, beat-Keeps}
use subiaoserver.Connection.Outbox.Line.{bytes}

-- What a handler does to the outgoing side: it posts frames.
pub record Extends (s0 s : Sides) : Type 0 where
  pub more : List WorldPacket
  pub posted : s.posted ≡ s0.posted ++ more
  pub filled : All IsFrame (map bytes more)
  pub outbox : s.outbox ≡ s0.outbox
  pub writing : s.writing ≡ s0.writing
  pub is_open : s.is_open ≡ s0.is_open
  pub registered : s.registered ≡ s0.registered

Extends-Survives : (s0 : Sides) → Survives (Extends s0)
unfolding copy
Extends-Survives s0 = record {
  grows = λ s p is_frame h. record {
    more = h.more ++ copy p ∷ [];
    posted = rw (h.posted, append_assoc) refl;
    filled = rw map-append (All-append IsFrame (map bytes h.more) _ h.filled (is_frame, tt));
    outbox = h.outbox;
    writing = h.writing;
    is_open = h.is_open;
    registered = h.registered;
  };
}

pub Extends-self : (s : Sides) → Extends s s
Extends-self s = record {
  more = [];
  posted = sym (append-nil s.posted);
  filled = tt;
  outbox = refl;
  writing = refl;
  is_open = refl;
  registered = refl;
}

module _ (s0 : Sides) where
  -- The incoming side has no part in it.
  incoming-Extends : (f : Frame) (s : Sides) → Extends s0 s → Extends s0 (record s { incoming = f })
  incoming-Extends f s h = record {
    more = h.more;
    posted = h.posted;
    filled = h.filled;
    outbox = h.outbox;
    writing = h.writing;
    is_open = h.is_open;
    registered = h.registered;
  }

  abbrev KeepsExtends : Exec Connection (Unit {0}) → Type 0
  KeepsExtends m = Keeps (λ c. Extends s0 (sides c)) m

  beats-Keeps : (t : LocalTime) → KeepsExtends (beat t)
  beats-Keeps t = beat-Keeps (Extends s0) (Extends-Survives s0) t

  read_again-Keeps :
      (count : ℕ) (f : Connection → Connection)
      → ((c : Connection) → record (sides (f c)) { incoming = frame c } ≡ sides c)
      → KeepsExtends (modify (λ c. readmedia count (f c)))
  unfolding readmedia
  read_again-Keeps count f same = Keeps-modify _ (λ c h.
      incoming-Extends (frame (readmedia count (f c))) (record (sides (f c)) { incoming = frame c })
        (subst (Extends s0) (sym (same c)) h))

  read_handler-Keeps : (lib : Library) (bs : List ℕ) → KeepsExtends (read_handler lib (received bs))
  unfolding read_handler
  read_handler-Keeps lib bs = record {
    at = λ c h.
        let c' = record c { buf = memcpy c.total_bytes_read bs c.buf } in
        let count = c.total_bytes_read + length bs in
        let h' = incoming-Extends (frame c') (sides c) h in
        let P = λ (d : Connection). Extends s0 (sides d) in
        Ends-if P (count == 0) _ _ tt (
          Ends-if P (get_or c'.buf (count - 1) 0 == 0x7e) _ _
            ((Keeps-then _ _
                (process_message-Keeps (Extends s0) (Extends-Survives s0) lib count
                  (record { forgets = λ s e h. incoming-Extends _ s h }))
                (read_again-Keeps 0 (λ d. record d { total_bytes_read = 0 }) (λ d. refl))).at
              c' h')
            ((read_again-Keeps (length bs) (λ d. d) (λ d. refl)).at c' h'));
  }

  start-Keeps : (t : LocalTime) → KeepsExtends (start t)
  unfolding start start_write
  start-Keeps t =
      Keeps-then _ _
        (read_again-Keeps 0
          (λ c. record c { total_bytes_read = 0; buf = []; buf_size = message_size }) (λ c. refl))
        (beats-Keeps t)

  heart_tick-Keeps : (t : LocalTime) → KeepsExtends (heart_tick t false)
  unfolding heart_tick
  heart_tick-Keeps t = record { at = λ c h. (beats-Keeps t).at c h }

-- A run of a handler that only posts frames.
abbrev pub Posts : Connection → Outcome Connection (Unit {0}) → Type 0
Posts c r = Ends (λ d. Extends (sides c) (sides d)) r

posts :
    (m : Exec Connection (Unit {0})) (c : Connection)
    → Keeps (λ d. Extends (sides c) (sides d)) m
    → Posts c (m c)
posts m c h = h.at c (Extends-self (sides c))

pub start-Posts : (t : LocalTime) (c : Connection) → Posts c (start t c)
start-Posts t c = posts _ c (start-Keeps (sides c) t)

pub received-Posts :
    (lib : Library) (bs : List ℕ) (c : Connection) → Posts c (read_handler lib (received bs) c)
received-Posts lib bs c = posts _ c (read_handler-Keeps (sides c) lib bs)

pub heart_tick-Posts : (t : LocalTime) (c : Connection) → Posts c (heart_tick t false c)
heart_tick-Posts t c = posts _ c (heart_tick-Keeps (sides c) t)

pub getalarmsmedia-Posts : (ec : Bool) (c : Connection) → Posts c (getalarmsmedia ec c)
getalarmsmedia-Posts ec c =
    posts _ c (getalarmsmedia-Keeps (Extends (sides c)) (Extends-Survives (sides c)) ec)

pub perform-Posts : (r : Request) (c : Connection) → Posts c (perform r c)
perform-Posts r c = posts _ c (perform-Keeps (Extends (sides c)) (Extends-Survives (sides c)) r)
