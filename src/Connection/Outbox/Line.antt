-- ===== src/Connection/Outbox/Line.antt =====
-- The outbox, the strand and the socket as a queue of packets. An event is a call of
-- `packetwrite`, the strand running the handler that was posted first, or the completion of the
-- write that was begun first, with or without an error, or a stop of the connection from elsewhere.
use subiaoserver.Common.{
  ℕ, ◌≡◌, ◌≢◌, true, false, Bool, List, [], ◌∷◌, ◌++◌, Outcome, done, throws, undefined, diverges,
  Exec, ◌>>◌, All,
}
use subiaoserver.WorldPacket.{WorldPacket}
use subiaoserver.Connection.{Connection, set_host, manager_stop}
use subiaoserver.Connection.Outbox.{packetwrite, packetwrite_impl, write_handler}
use mathlib.Core.List.{map}

pub data Event : Type 0 where
  submits : WorldPacket → Event
  runs : Event
  completes fails : Event
  stops : Event

-- A connection, the packets whose write has completed and those that `packetwrite` was called with.
pub record Line : Type 0 where
  pub connection : Connection
  pub wire : List (List ℕ)
  pub submitted : List (List ℕ)

abbrev pub bytes : WorldPacket → List ℕ
bytes p = p.buffer.storage

-- The state of a line after a handler of its connection.
abbrev pub continue : Line → Outcome Connection (Unit {0}) → Outcome Line (Unit {0})
continue l (done _ c) = done tt (record l { connection = c })
continue l (throws e c) = throws e (record l { connection = c })
continue l undefined = undefined
continue l diverges = diverges

unfoldable pub run_posted : List WorldPacket → Exec Line (Unit {0})
run_posted [] l = done tt l
run_posted (p ∷ ps) l =
    continue l
      (packetwrite_impl p (set_host l.connection (record (l.connection.host) { posted = ps })))

unfoldable pub complete_write : List (List ℕ) → Exec Line (Unit {0})
complete_write [] l = done tt l
complete_write (bs ∷ rest) l =
    continue (record l { wire = l.wire ++ bs ∷ [] })
      (write_handler false (set_host l.connection (record (l.connection.host) { writing = rest })))

unfoldable pub fail_write : List (List ℕ) → Exec Line (Unit {0})
fail_write [] l = done tt l
fail_write (bs ∷ rest) l =
    continue l
      (write_handler true (set_host l.connection (record (l.connection.host) { writing = rest })))

unfoldable pub handle : Event → Exec Line (Unit {0})
handle (submits p) l =
    continue (record l { submitted = l.submitted ++ bytes p ∷ [] }) (packetwrite p l.connection)
handle runs l = run_posted l.connection.host.posted l
handle completes l = complete_write l.connection.host.writing l
handle fails l = fail_write l.connection.host.writing l
handle stops l = done tt (record l { connection = manager_stop l.connection })

unfoldable pub handle_all : List Event → Exec Line (Unit {0})
handle_all [] l = done tt l
handle_all (e ∷ es) l = (do handle e; handle_all es) l

abbrev pub front : List WorldPacket → List (List ℕ)
front [] = []
front (p ∷ _) = bytes p ∷ []

-- An open connection writes the first packet of its outbox and nothing else, and no packet is
-- lost, doubled or overtaken: those written, in the outbox and posted are those submitted.
pub record IsOrdered (l : Line) : Type 0 where
  pub is_open : l.connection.is_open ≡ true
  pub writes_front : l.connection.host.writing ≡ front l.connection.outbox
  pub filled : All (λ bs. bs ≢ []) (map bytes (l.connection.outbox ++ l.connection.host.posted))
  pub ordered : l.wire ++ map bytes (l.connection.outbox ++ l.connection.host.posted) ≡ l.submitted

unfoldable pub IsFilled : Event → Type 0
IsFilled (submits p) = bytes p ≢ []
IsFilled runs = Unit
IsFilled completes = Unit
IsFilled fails = Unit
IsFilled stops = Unit

-- Neither a write that fails nor a stop.
unfoldable pub is_live : Event → Bool
is_live fails = false
is_live stops = false
is_live _ = true
