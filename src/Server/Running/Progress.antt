-- ===== src/Server/Running/Progress.antt =====
-- What the program does without an exception: everything but to read bytes that arrive.
use subiaoserver.Common.{refl, ◌≡◌, ap, arith, Bool, true, false, done}
use subiaoserver.Connection.Life.Progress.{is_quiet, Completes, happens-Completes}
use subiaoserver.Connection.Receive.Heartbeat
use subiaoserver.ConnectionManager.Held.{starting}
use subiaoserver.Server.{handle_accept}
use subiaoserver.Server.Running.{
  Program, line, handle, after_line, after_accept, occurs, accepts, shuts, Event, IsPossible,
  Reaches, moves,
}
use subiaoserver.Server.Running.Accepting.{start-accepted, opened}
use subiaoserver.Server.Running.Lines.{IsSound}
use subiaoserver.Server.Running.Reaching.{Reaches-IsSound}

-- Every event but bytes that arrive at a connection.
abbrev pub is_quiet_event : Event → Bool
is_quiet_event (occurs i o) = is_quiet o
is_quiet_event _ = true

handle-Completes :
    (e : Event) (s : Program)
    → is_quiet_event e ≡ true
    → IsPossible e s
    → IsSound s
    → Completes (handle e s)
unfolding handle handle_accept
handle-Completes (accepts t memory true) s quiet can v = (_, refl)
handle-Completes (accepts t memory false) s quiet can v =
    let (d, run, _) =
      Heartbeat.start-Keeps t (starting s.server.new_connection (opened s.server)) in
    (_, ap (after_accept s.server.new_connection s.server.next s) (start-accepted t memory s d run))
handle-Completes (occurs i o) s quiet can v =
    let (l, run) =
      happens-Completes o (line i s) quiet (v.sending i can.1 (ground (arith, can.2))) in
    (_, ap (after_line i s) run)
handle-Completes shuts s quiet can v = (_, refl)

pub Reaches-Completes :
    (s : Program) (e : Event)
    → Reaches s
    → IsPossible e s
    → is_quiet_event e ≡ true
    → (s' : Program) × (handle e s ≡ done tt s') × Reaches s'
Reaches-Completes s e r can quiet =
    let (s', run) = handle-Completes e s quiet can (Reaches-IsSound s r) in
    (s', run, moves s e r can run)
