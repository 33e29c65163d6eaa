-- ===== src/Server/Running/Reaching.antt =====
-- The program in every state that it reaches.
use subiaoserver.Common.{
  ℕ, ◌<◌, ◌≡◌, ◌≢◌, ap, ◌∙◌, arith, refl, true, false, Bool, List, if◌then◌else◌,
}
use mathlib.Core.Path.{subst, sym}
use subiaoserver.Common.Keeps.{Ends}
use subiaoserver.Connection.{Connection, manager_stop, set_settings}
use subiaoserver.Connection.Globals.{Settings}
use subiaoserver.Connection.Receive.{Indeterminate, connection}
use subiaoserver.Connection.Life.Hearing.{IsSending}
use subiaoserver.Connection.Life.Sending.{stopped-IsSending, Delivers, delivers}
use subiaoserver.ConnectionManager.{ConnectionManager, stop_all}
use subiaoserver.ConnectionManager.Held.{stop_all-IsHeld}
use subiaoserver.ConnectionManager.Sets.{contains}
use subiaoserver.Server.{Server, shutdown, server, start_accept, accept_next}
use subiaoserver.Server.Serving.{IsServing, server-IsServing}
use subiaoserver.Server.Running.{
  Program, line, handle, occurs, accepts, shuts, Event, IsPossible, main_port, Reaches, begins,
  moves, program,
}
use subiaoserver.Server.Running.Lines.{
  IsIdle, IsSound, line_of, line_of-IsSending, settings-IsSending,
}
use subiaoserver.Server.Running.Accepting.{accept-IsSound}
use subiaoserver.Server.Running.Occurring.{occurs-IsSound}

-- What the shutdown leaves of the object `k`.
abbrev shut : ℕ → ConnectionManager → Connection
shut k m = if contains k m.connections then manager_stop (m.objects k) else m.objects k

shut-object : (k : ℕ) (s : Server) → IsServing s → (shutdown s).manager.objects k ≡ shut k s.manager
unfolding shutdown
shut-object k s v = (stop_all-IsHeld s.manager v.held).1 k

shut-new :
    (s : Server)
    → IsServing s
    → (shutdown s).manager.objects s.new_connection ≡ s.manager.objects s.new_connection
shut-new s v =
    ground (arith, shut-object s.new_connection s v, v.held.registered s.new_connection, v.waits)

shutdown-IsServing : (s : Server) → IsServing s → IsServing (shutdown s)
unfolding shutdown stop_all contains
shutdown-IsServing s v = record {
  held = (stop_all-IsHeld s.manager v.held).0;
  accepting = v.accepting;
  made = v.made;
  waits = ap (λ (c : Connection). c.registered) (shut-new s v) ∙ v.waits;
  unused = λ k above. refl;
}

stopped_or-IsSending :
    (held : Bool) (c : Connection) (wire sent : List (List ℕ)) (s : Settings)
    → IsSending (line_of (set_settings c s) wire sent)
    → IsSending (line_of (set_settings (if held then manager_stop c else c) s) wire sent)
unfolding manager_stop
stopped_or-IsSending true c wire sent s v =
    stopped-IsSending (line_of (set_settings c s) wire sent) v
stopped_or-IsSending false c wire sent s v = v

shutdown-IsSound : (s : Program) → IsSound s → Ends IsSound (handle shuts s)
unfolding handle shutdown
shutdown-IsSound s v =
    let m = s.server.manager in
    let new = shut-new s.server v.serving in
    record {
      serving = shutdown-IsServing s.server v.serving;
      fresh = record {
        idle = subst IsIdle (sym new) v.fresh.idle;
        wire = v.fresh.wire;
        submitted = v.fresh.submitted;
      };
      sending = λ k before away.
          settings-IsSending ((stop_all m).objects k) (s.wires k) (s.submitted k) m.settings _ (
            line_of-IsSending m.settings (shut-object k s.server v.serving) refl refl (
              stopped_or-IsSending (contains k m.connections) (m.objects k) (s.wires k)
                (s.submitted k) m.settings (v.sending k before away)));
    }

program-IsSound :
    (memory : Indeterminate) (settings : Settings) (store : ℕ → Connection)
    → ((i : ℕ) → (store i).registered ≡ false)
    → IsSound (program memory settings store)
unfolding program server start_accept accept_next connection
program-IsSound memory settings store free = record {
  serving = server-IsServing memory settings store main_port free;
  fresh = record { idle = (refl, refl, refl, refl); wire = refl; submitted = refl };
  sending = λ k before away. ground (arith, before, away);
}

handle-IsSound : (e : Event) (s : Program) → IsPossible e s → IsSound s → Ends IsSound (handle e s)
handle-IsSound (accepts t memory error) s can v = accept-IsSound t memory error s v
handle-IsSound (occurs i o) s can v = occurs-IsSound i o s can.1 can.2 v
handle-IsSound shuts s can v = shutdown-IsSound s v

pub Reaches-IsSound : (s : Program) → Reaches s → IsSound s
Reaches-IsSound _ (begins memory settings store free) = program-IsSound memory settings store free
Reaches-IsSound s' (moves s e r can run) =
    subst (Ends IsSound) run (handle-IsSound e s can (Reaches-IsSound s r))

-- In every state of the program that is reached from its start with a store that holds no
-- registered connection, whatever connections have been accepted and whatever has happened to them,
-- in whatever interleaving, as long as no handler has thrown, the server serves, and for each
-- connection that has been accepted or whose accept has failed, what its handlers have sent are
-- frames of messages of 2 to 255 bytes, those written are the first of them, in their order, and
-- the connection is closed, or it is ordered and draining it writes all of them without an
-- exception.
pub Reaches-Delivers :
    (s : Program) (k : ℕ)
    → Reaches s
    → k < s.server.next
    → k ≢ s.server.new_connection
    → IsServing s.server × Delivers (line k s)
Reaches-Delivers s k r before other =
    let v = Reaches-IsSound s r in
    let sends = v.sending k before (ground (arith, other)) in
    (v.serving, delivers (line k s) sends.0 sends.1)
