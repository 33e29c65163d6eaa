-- ===== src/Server/Running.antt =====
-- The whole program: the server with everything that happens to its connections. Each object has
-- the packets whose write has completed and those that its handlers have sent.
pub mod Lines
pub mod Taking
pub mod Accepting
pub mod Occurring
pub mod Reaching
pub mod Progress
use subiaoserver.Common.{
  ℕ, ◌%◌, ◌^◌, ◌<◌, ◌≡◌, ◌≢◌, true, false, Bool, List, [], ◌∷◌, ◌++◌, drop, length, if◌then◌else◌,
  Outcome, done, throws, undefined, diverges, Exec,
}
use mathlib.Core.List.{map}
use subiaoserver.Connection.{Connection, set_settings}
use subiaoserver.Connection.Globals.{Settings}
use subiaoserver.Connection.Packets.{LocalTime}
use subiaoserver.Connection.Receive.{Indeterminate}
use subiaoserver.Connection.Outbox.Line.{Line, bytes}
use subiaoserver.Connection.Life.{Occurrence, happens}
use subiaoserver.ConnectionManager.{ConnectionManager, put_object, update}
use subiaoserver.ConnectionManager.Sets.{erase}
use subiaoserver.Server.{Server, server, accepted, handle_accept, shutdown}

pub record Program : Type 0 where
  pub server : Server
  pub wires : ℕ → List (List ℕ)
  pub submitted : ℕ → List (List ℕ)

-- The connection at an address, as its handlers see it: with the global variables as they are.
abbrev pub line : ℕ → Program → Line
line i s = record {
  connection = set_settings (s.server.manager.objects i) s.server.manager.settings;
  wire = s.wires i;
  submitted = s.submitted i;
}

-- `connectionManager_.Stop(self)` has taken a connection from the set that is not held any more.
abbrev pub forget : ℕ → Connection → List ℕ → List ℕ
forget i c is = if c.registered then is else erase i is

abbrev pub put_line : ℕ → Line → Program → Program
put_line i l s = record {
  server = record (s.server) {
    manager = record (put_object i l.connection s.server.manager) {
      settings = l.connection.settings;
      connections = forget i l.connection s.server.manager.connections;
    };
  };
  wires = update i l.wire s.wires;
  submitted = update i l.submitted s.submitted;
}

abbrev pub after_line : ℕ → Program → Outcome Line (Unit {0}) → Outcome Program (Unit {0})
after_line i s (done _ l) = done tt (put_line i l s)
after_line i s (throws e l) = throws e (put_line i l s)
after_line i s undefined = undefined
after_line i s diverges = diverges

-- The line of the object at `j` is new; what the start of that at `i` has posted is submitted.
abbrev pub put_server : ℕ → ℕ → Program → Server → Program
put_server i j s s' =
    let old = (s.server.manager.objects i).host.posted in
    let new = (s'.manager.objects i).host.posted in
    record {
      server = s';
      wires = update j [] s.wires;
      submitted =
          update j [] (update i (s.submitted i ++ map bytes (drop (length old) new)) s.submitted);
    }

abbrev pub after_accept : ℕ → ℕ → Program → Outcome Server (Unit {0}) → Outcome Program (Unit {0})
after_accept i j s (done _ s') = done tt (put_server i j s s')
after_accept i j s (throws e s') = throws e (put_server i j s s')
after_accept i j s undefined = undefined
after_accept i j s diverges = diverges

-- An accept completes, something happens to a connection, or the server shuts down.
pub data Event : Type 0 where
  accepts : LocalTime → Indeterminate → Bool → Event
  occurs : ℕ → Occurrence → Event
  shuts : Event

unfoldable pub handle : Event → Exec Program (Unit {0})
handle (accepts t memory error) s =
    after_accept s.server.new_connection s.server.next s
      (handle_accept t memory error (accepted error s.server))
handle (occurs i o) s = after_line i s (happens o (line i s))
handle shuts s = done tt (record s { server = shutdown s.server })

-- The event loop runs, and what happens happens to a connection that has been accepted.
abbrev pub IsPossible : Event → Program → Type 0
IsPossible (accepts t memory error) s = s.server.stopped ≡ false
IsPossible (occurs i o) s =
    (s.server.stopped ≡ false) × (i < s.server.next) × (i ≢ s.server.new_connection)
IsPossible shuts s = Unit

-- The port that `main` passes: the multi-character constant '8888', as a uint16.
abbrev pub main_port : ℕ
main_port = 0x38383838 % 2 ^ 16

-- `main`, when the event loop begins.
unfoldable pub program : Indeterminate → Settings → (ℕ → Connection) → Program
program memory settings store = record {
  server = server memory settings store main_port;
  wires = λ i. [];
  submitted = λ i. [];
}

-- The states of the program, whatever happens in whatever order.
pub data Reaches : Program → Type 0 where
  begins :
      (memory : Indeterminate) (settings : Settings) (store : ℕ → Connection)
      → ((i : ℕ) → (store i).registered ≡ false)
      → Reaches (program memory settings store)
  moves :
      (s : Program) {s' : Program} (e : Event)
      → Reaches s
      → IsPossible e s
      → handle e s ≡ done tt s'
      → Reaches s'
