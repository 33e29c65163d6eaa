-- ===== src/Server/Serving.antt =====
-- Accepting and losing connections in any order.
use subiaoserver.Common.{
  ℕ, ◌≤◌, ◌<◌, ◌≡◌, refl, ◌∙◌, arith, Bool, true, false, List, [], ◌∷◌, done, Exec, ◌>>◌,
}
use subiaoserver.Connection.{Connection, manager_stop}
use subiaoserver.Connection.Globals.{Settings}
use subiaoserver.Connection.Packets.{LocalTime}
use subiaoserver.Connection.Receive.{Indeterminate}
use subiaoserver.ConnectionManager.{ConnectionManager}
use subiaoserver.ConnectionManager
use subiaoserver.ConnectionManager.Sets.{contains, contains-insert, contains-erase}
use subiaoserver.ConnectionManager.Held.{IsHeld, stop-IsHeld, start-IsHeld, put_object-IsHeld}
use subiaoserver.Server.{
  Server, handle_accept, accepted, accept_next, start_new, start_accept, server,
}

-- One accept is outstanding, for a connection that the manager does not hold, and no connection is
-- held at an address where none has been made.
pub record IsServing (s : Server) : Type 0 where
  pub held : IsHeld s.manager
  pub accepting : s.accepting ≡ s.new_connection ∷ []
  pub made : s.new_connection < s.next
  pub waits : (s.manager.objects s.new_connection).registered ≡ false
  pub unused : (i : ℕ) → s.next ≤ i → contains i s.manager.connections ≡ false

-- An accept completes with or without an error, or a connection is given up.
pub data Event : Type 0 where
  accepts : LocalTime → Indeterminate → Bool → Event
  loses : ℕ → Event

unfoldable pub handle : Event → Exec Server (Unit {0})
handle (accepts t memory error) s = handle_accept t memory error (accepted error s)
handle (loses i) s = done tt (record s { manager = ConnectionManager.stop i s.manager })

unfoldable pub handle_events : List Event → Exec Server (Unit {0})
handle_events [] s = done tt s
handle_events (e ∷ es) s = (do handle e; handle_events es) s

abbrev pub Serves : Server → Event → Type 0
Serves s e = (s' : Server) × (handle e s ≡ done tt s') × IsServing s'

lose-Serves : (i : ℕ) (s : Server) → IsServing s → Serves s (loses i)
unfolding handle ConnectionManager.stop manager_stop
lose-Serves i s v = (
  record s { manager = ConnectionManager.stop i s.manager },
  refl,
  record {
    held = stop-IsHeld i s.manager v.held;
    accepting = v.accepting;
    made = v.made;
    waits = ground (arith, v.waits);
    unused =
        λ k h. ground (arith, v.unused k h, contains-erase k i s.manager.connections v.held.sorted);
  },
)

-- What `accept_next` needs.
record IsReady (s : Server) : Type 0 where
  held : IsHeld s.manager
  accepting : s.accepting ≡ []
  unused : (i : ℕ) → s.next ≤ i → contains i s.manager.connections ≡ false

accept_next-IsServing :
    (memory : Indeterminate) (s : Server) → IsReady s → IsServing (accept_next memory s)
unfolding accept_next
accept_next-IsServing memory s v = record {
  held = put_object-IsHeld s.next _ s.manager (v.unused s.next (omega arith)) refl v.held;
  accepting = rw v.accepting;
  made = omega arith;
  waits = ground arith;
  unused = λ k h. v.unused k (omega arith);
}

start-IsReady :
    (t : LocalTime) (s : Server)
    → (s.manager.objects s.new_connection).is_open ≡ true
    → s.new_connection < s.next
    → IsReady s
    → (s' : Server) × (start_new t s ≡ done tt s') × IsReady s'
unfolding start_new
start-IsReady t s o made v =
    let (m, run, held, e, others) = start-IsHeld t s.new_connection s.manager o v.held in
    (
      record s { manager = m },
      rw run,
      record {
        held = held;
        accepting = v.accepting;
        unused = λ k h. rw e (
            ground (arith, contains-insert k s.new_connection s.manager.connections, v.unused k h));
      },
    )

pub accept-Serves :
    (t : LocalTime) (memory : Indeterminate) (error : Bool) (s : Server)
    → IsServing s
    → Serves s (accepts t memory error)
unfolding handle handle_accept
accept-Serves t memory true s v = (
  accept_next memory (accepted true s),
  refl,
  accept_next-IsServing memory (accepted true s)
      (record { held = v.held; accepting = rw v.accepting; unused = v.unused }),
)
accept-Serves t memory false s v =
    let c = record (s.manager.objects s.new_connection) { is_open = true } in
    let free : contains s.new_connection s.manager.connections ≡ false =
      v.held.registered s.new_connection ∙ v.waits in
    let ready : IsReady (accepted false s) = record {
      held = put_object-IsHeld s.new_connection c s.manager free v.waits v.held;
      accepting = rw v.accepting;
      unused = v.unused;
    } in
    let (s', run, ready') = start-IsReady t (accepted false s) (ground arith) v.made ready in
    (accept_next memory s', rw run, accept_next-IsServing memory s' ready')

handle-Serves : (e : Event) (s : Server) → IsServing s → Serves s e
handle-Serves (accepts t memory error) s v = accept-Serves t memory error s v
handle-Serves (loses i) s v = lose-Serves i s v

pub handle_events-IsServing :
    (es : List Event) (s : Server)
    → IsServing s
    → (s' : Server) × (handle_events es s ≡ done tt s') × IsServing s'
unfolding handle_events
handle_events-IsServing [] s v = (s, refl, v)
handle_events-IsServing (e ∷ es) s v =
    let (s1, run1, v1) = handle-Serves e s v in
    let (s2, run2, v2) = handle_events-IsServing es s1 v1 in (s2, rw run1 run2, v2)

-- A new server serves, whatever its port argument is, if no object in memory is marked as held.
pub server-IsServing :
    (memory : Indeterminate) (settings : Settings) (store : ℕ → Connection) (port : ℕ)
    → ((i : ℕ) → (store i).registered ≡ false)
    → IsServing (server memory settings store port)
unfolding server start_accept accept_next contains
server-IsServing memory settings store port free = record {
  held = record {
    sorted = tt;
    registered = λ k. ground (arith, free k);
    is_open = λ k h. ground (arith, free k);
  };
  accepting = refl;
  made = omega arith;
  waits = refl;
  unused = λ k h. refl;
}
