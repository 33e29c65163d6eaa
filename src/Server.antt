-- ===== src/Server.antt =====
-- src/Server.cpp and include/Server.h: the acceptor, the connection that waits to be accepted, and
-- the manager.
pub mod Serving
pub mod Running
use subiaoserver.Common.{
  ℕ, suc, ◌+◌, Bool, true, false, List, [], ◌∷◌, ◌++◌, tail, done, Outcome, throws, undefined,
  diverges, Exec, ◌>>◌, pure, modify, if◌then◌else◌,
}
use subiaoserver.Connection.{Connection}
use subiaoserver.Connection.Globals.{Settings}
use subiaoserver.Connection.Packets.{LocalTime}
use subiaoserver.Connection.Receive.{Indeterminate, connection}
use subiaoserver.ConnectionManager.{ConnectionManager, put_object}
use subiaoserver.ConnectionManager

-- The calls that the acceptor gets; that one of them fails is only printed.
pub data AcceptorCall : Type 0 where
  opens listens : AcceptorCall
  binds : ℕ → AcceptorCall

-- `accepting` are the connections that an outstanding `async_accept` waits for. At `next` and above
-- no object has been made. `new_connection` is the address that `newConnection_` points to.
pub record Server : Type 0 where
  pub running : Bool
  pub stopped : Bool
  pub m_port : ℕ
  pub acceptor : List AcceptorCall
  pub accepting : List ℕ
  pub new_connection : ℕ
  pub next : ℕ
  pub manager : ConnectionManager

-- `newConnection_.reset(new Connection(…))` and `async_accept`.
unfoldable pub accept_next : Indeterminate → Server → Server
unfolding connection
accept_next memory s =
    let c = record (connection memory s.manager.settings) { is_open = false } in
    record s {
      new_connection = s.next;
      next = suc s.next;
      accepting = s.accepting ++ s.next ∷ [];
      manager = put_object s.next c s.manager;
    }

-- `Server::StartAccept`.
unfoldable pub start_accept : Indeterminate → Server → Server
unfolding accept_next
start_accept memory s =
    accept_next memory
      (record s { acceptor = s.acceptor ++ (opens ∷ binds s.m_port ∷ listens ∷ []) })

-- `Server::Server`. Its port is not used.
unfoldable pub server : Indeterminate → Settings → (ℕ → Connection) → ℕ → Server
unfolding start_accept
server memory settings store port =
    record (start_accept memory (record {
      running = false;
      stopped = false;
      m_port = 8888;
      acceptor = [];
      accepting = [];
      new_connection = 0;
      next = 0;
      manager = record { connections = []; objects = store; settings = settings };
    })) { running = true }

-- The accept that was begun first has completed; without an error, its socket is open.
abbrev pub accepted : Bool → Server → Server
accepted error s =
    let c = s.manager.objects s.new_connection in
    let m =
      if error
      then s.manager
      else put_object s.new_connection (record c { is_open = true }) s.manager in
    record s { accepting = tail s.accepting; manager = m }

abbrev pub after_start : Server → Outcome ConnectionManager (Unit {0}) → Outcome Server (Unit {0})
after_start s (done _ m) = done tt (record s { manager = m })
after_start s (throws e m) = throws e (record s { manager = m })
after_start s undefined = undefined
after_start s diverges = diverges

unfoldable pub start_new : LocalTime → Exec Server (Unit {0})
unfolding ConnectionManager.start
start_new t s = after_start s (ConnectionManager.start t s.new_connection s.manager)

-- `Server::HandleAccept`, where the peer of an accepted socket can be asked for.
unfoldable pub handle_accept : LocalTime → Indeterminate → Bool → Exec Server (Unit {0})
unfolding start_new accept_next
handle_accept t memory error = do
  (if error then pure tt else start_new t)
  modify (accept_next memory)

-- `Server::Shutdown`, also what the destructor of a running server does.
unfoldable pub shutdown : Server → Server
unfolding ConnectionManager.stop_all
shutdown s = record s {
  manager = ConnectionManager.stop_all s.manager;
  stopped = true;
  running = false;
}
