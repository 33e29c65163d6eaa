-- ===== src/Connection/Life/Membership.antt =====
-- What happens to a connection and its place in the manager: it may only lose it.
use subiaoserver.Common.{
  ◌≡◌, sym, ◌∙◌, Bool, true, false, Outcome, done, throws, undefined, diverges,
}
use subiaoserver.Common.Keeps.{Ends}
use subiaoserver.Connection.{Connection, manager_stop}
use subiaoserver.Connection.Media.{Library}
use subiaoserver.Connection.Kept.{sides}
use subiaoserver.Connection.Packets.{LocalTime}
use subiaoserver.Connection.Receive.{ReadEvent, aborted, failed, received, read_handler, heart_tick}
use subiaoserver.Connection.Outbox.Framing.{
  Ignores, run_posted-Ends, complete_write-Ends, fail_write-Ends,
}
use subiaoserver.Connection.Outbox.Line.{Line}
use subiaoserver.Connection.Life.{
  Occurrence, starting, receives, beats, delayed, asks, running, completing, failing, stopping,
  hears, happens,
}
use subiaoserver.Connection.Life.Posting.{
  Extends, start-Posts, received-Posts, heart_tick-Posts, getalarmsmedia-Posts, perform-Posts,
  Posts,
}

-- A connection that the manager holds has an open socket.
abbrev pub IsUsable : Connection → Type 0
IsUsable c = c.registered ≡ true → c.is_open ≡ true

-- It is held only if it was before, and then it is open.
abbrev pub IsStill : Connection → Connection → Type 0
IsStill c0 c = c.registered ≡ true → (c0.registered ≡ true) × (c.is_open ≡ true)

still : (c : Connection) → IsUsable c → IsStill c c
still c v h = (h, v h)

stop-IsStill : (c0 c : Connection) → IsStill c0 (manager_stop c)
unfolding manager_stop
stop-IsStill c0 c h = absurd (cc h)

IsStill-Ignores : (c0 : Connection) → Ignores (IsStill c0)
IsStill-Ignores c0 = record {
  queue = λ c ps h. h;
  pop = λ c ps h. h;
  write = λ c bss h. h;
  quit = λ c h. stop-IsStill c0 c;
}

Extends-IsStill : (c0 c : Connection) → IsUsable c0 → Extends (sides c0) (sides c) → IsStill c0 c
Extends-IsStill c0 c v e h = let held = sym e.registered ∙ h in (held, e.is_open ∙ v held)

abbrev StillEnds : Line → Outcome Line (Unit {0}) → Type 0
StillEnds l r = Ends (λ l'. IsStill l.connection l'.connection) r

hears-IsStill :
    (l : Line) (r : Outcome Connection (Unit {0}))
    → IsUsable l.connection
    → Posts l.connection r
    → StillEnds l (hears l r)
hears-IsStill l (done a c) v e = Extends-IsStill l.connection c v e
hears-IsStill l (throws x c) v e = Extends-IsStill l.connection c v e
hears-IsStill l undefined v e = tt
hears-IsStill l diverges v e = tt

read_handler-IsStill :
    (lib : Library) (e : ReadEvent) (l : Line)
    → IsUsable l.connection
    → StillEnds l (hears l (read_handler lib e l.connection))
read_handler-IsStill lib aborted l v = unfold read_handler in still l.connection v
read_handler-IsStill lib failed l v = unfold read_handler in stop-IsStill l.connection l.connection
read_handler-IsStill lib (received bs) l v =
    hears-IsStill l _ v (received-Posts lib bs l.connection)

heart_tick-IsStill :
    (t : LocalTime) (ec : Bool) (l : Line)
    → IsUsable l.connection
    → StillEnds l (hears l (heart_tick t ec l.connection))
heart_tick-IsStill t true l v = unfold heart_tick in stop-IsStill l.connection l.connection
heart_tick-IsStill t false l v = hears-IsStill l _ v (heart_tick-Posts t l.connection)

pub happens-IsStill :
    (o : Occurrence) (l : Line) → IsUsable l.connection → StillEnds l (happens o l)
unfolding happens
happens-IsStill (starting t) l v = hears-IsStill l _ v (start-Posts t l.connection)
happens-IsStill (receives lib e) l v = read_handler-IsStill lib e l v
happens-IsStill (beats t ec) l v = heart_tick-IsStill t ec l v
happens-IsStill (delayed ec) l v = hears-IsStill l _ v (getalarmsmedia-Posts ec l.connection)
happens-IsStill (asks r) l v = hears-IsStill l _ v (perform-Posts r l.connection)
happens-IsStill running l v =
    let c = l.connection in
    run_posted-Ends (IsStill c) (IsStill-Ignores c) c.host.posted l (still c v)
happens-IsStill completing l v =
    let c = l.connection in
    complete_write-Ends (IsStill c) (IsStill-Ignores c) c.host.writing l (still c v)
happens-IsStill failing l v =
    let c = l.connection in
    fail_write-Ends (IsStill c) (IsStill-Ignores c) c.host.writing l (still c v)
happens-IsStill stopping l v = stop-IsStill l.connection l.connection
