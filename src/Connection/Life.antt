-- ===== src/Connection/Life.antt =====
-- A connection from its start on, with everything that may happen to it.
pub mod Posting
pub mod Hearing
pub mod Sending
pub mod Keeping
pub mod Ending
pub mod Membership
pub mod Progress
use subiaoserver.Common.{
  ℕ, Bool, List, [], ◌∷◌, ◌++◌, drop, length, Outcome, done, throws, undefined, diverges, Exec,
  ◌>>◌,
}
use mathlib.Core.List.{map}
use subiaoserver.Connection.{Connection, manager_stop}
use subiaoserver.Connection.Globals.{Settings}
use subiaoserver.Connection.Packets.{LocalTime}
use subiaoserver.Connection.Requests.{Request, perform}
use subiaoserver.Connection.Media.{Library, getalarmsmedia}
use subiaoserver.Connection.Receive.{
  ReadEvent, read_handler, heart_tick, start, Indeterminate, connection,
}
use subiaoserver.Connection.Outbox.Line.{Line, bytes, run_posted, complete_write, fail_write}

-- What happens to a connection: its start, a read that ends, the two timers, a request, a posted
-- handler that runs, a write that completes or fails, and a stop from elsewhere.
pub data Occurrence : Type 0 where
  starting : LocalTime → Occurrence
  receives : Library → ReadEvent → Occurrence
  beats : LocalTime → Bool → Occurrence
  delayed : Bool → Occurrence
  asks : Request → Occurrence
  running completing failing stopping : Occurrence

-- The line after a handler. What the handler has posted has been submitted.
abbrev pub after : Line → Connection → Line
after l c = record {
  connection = c;
  wire = l.wire;
  submitted = l.submitted ++ map bytes (drop (length l.connection.host.posted) c.host.posted);
}

abbrev pub hears : Line → Outcome Connection (Unit {0}) → Outcome Line (Unit {0})
hears l (done _ c) = done tt (after l c)
hears l (throws e c) = throws e (after l c)
hears l undefined = undefined
hears l diverges = diverges

unfoldable pub happens : Occurrence → Exec Line (Unit {0})
happens (starting t) l = hears l (start t l.connection)
happens (receives lib e) l = hears l (read_handler lib e l.connection)
happens (beats t ec) l = hears l (heart_tick t ec l.connection)
happens (delayed ec) l = hears l (getalarmsmedia ec l.connection)
happens (asks r) l = hears l (perform r l.connection)
happens running l = run_posted l.connection.host.posted l
happens completing l = complete_write l.connection.host.writing l
happens failing l = fail_write l.connection.host.writing l
happens stopping l = done tt (record l { connection = manager_stop l.connection })

unfoldable pub happen_all : List Occurrence → Exec Line (Unit {0})
happen_all [] l = done tt l
happen_all (o ∷ os) l = (do happens o; happen_all os) l

-- The line of a new connection.
abbrev pub new_line : Indeterminate → Settings → Line
new_line memory settings = record {
  connection = connection memory settings;
  wire = [];
  submitted = [];
}
