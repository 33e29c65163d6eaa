-- ===== src/Examples/Lines.antt =====
-- The theorems on whole runs of a connection, at concrete inputs.
use subiaoserver.Common.{ℕ, ◌≡◌, refl, List, [], ◌∷◌, done, diverges, ◌≢◌, arith}
use subiaoserver.Connection.{Connection, manager_stop}
use subiaoserver.Connection.Outbox.Line.{Line, handle_all, IsOrdered, IsFilled, is_live}
use subiaoserver.Connection.Outbox.Fifo.{Refines, handle_all-Refines}
use subiaoserver.Connection.Outbox.Draining.{draining, draining-flushes}
use subiaoserver.Connection.Kept.{frame}
use subiaoserver.Connection.Receive.{received}
use subiaoserver.Connection.Receive.Bounds.{starts, stops, IsWithin, Reaches-IsWithin}
use subiaoserver.Connection.Receive.Heartbeat.{start-Keeps}
use subiaoserver.Connection.Life.{
  Occurrence, starting, receives, asks, running, completing, happen_all, new_line,
}
use subiaoserver.Connection.Life.Sending.{Delivers, happen_all-Delivers}
use subiaoserver.Connection.Life.Ending.{happen_all-Halts}
use subiaoserver.Connection.Requests.{photo_now}
use subiaoserver.Common.Keeps.{Ends}
use subiaoserver.Examples.Servers.{noon}
use subiaoserver.Examples.Connections.{new, idle, events, packet_of, memory, settings, library}

handle_all-Refines_example : Refines events idle
unfolding IsFilled is_live
handle_all-Refines_example =
    handle_all-Refines events idle
      (
        (λ e. absurd (cc e)),
        ((λ e. absurd (cc e)), (tt, (tt, (tt, ((λ e. absurd (cc e)), (tt, tt)))))),
      )
      (refl, (refl, (refl, (refl, (refl, (refl, (refl, tt)))))))
      (record { is_open = refl; writes_front = refl; filled = tt; ordered = refl })

-- One packet is being written, one waits behind it and one is posted.
abbrev busy : Line
busy = record {
  connection = record new {
    outbox = packet_of (1 ∷ []) ∷ packet_of (2 ∷ []) ∷ [];
    host = record (new.host) { posted = packet_of (3 ∷ []) ∷ []; writing = (1 ∷ []) ∷ [] };
  };
  wire = [];
  submitted = (1 ∷ []) ∷ (2 ∷ []) ∷ (3 ∷ []) ∷ [];
}

draining-flushes_example :
    (l : Line) × (handle_all (draining busy.connection) busy ≡ done tt l)
    × IsOrdered l
    × (l.submitted ≡ (1 ∷ []) ∷ (2 ∷ []) ∷ (3 ∷ []) ∷ [])
    × ((l.connection.host.posted ≡ [])
        × (l.connection.host.writing ≡ [])
        × (l.wire ≡ (1 ∷ []) ∷ (2 ∷ []) ∷ (3 ∷ []) ∷ []))
draining-flushes_example = draining-flushes busy (record {
  is_open = refl;
  writes_front = refl;
  filled = ((λ e. absurd (cc e)), ((λ e. absurd (cc e)), ((λ e. absurd (cc e)), tt)));
  ordered = refl;
})

-- A connection that has been started.
abbrev started : Connection
started = (start-Keeps noon new).0

abbrev stopped : Connection
stopped = manager_stop started

Reaches-IsWithin_example : IsWithin (frame stopped)
Reaches-IsWithin_example =
    Reaches-IsWithin stopped (stops started (starts new noon refl (start-Keeps noon new).1))

-- The heartbeat of the start is on its way when a sensor reports its status. A later write fails.
abbrev status : List ℕ
status = 0x7e ∷ 9 ∷ 0 ∷ 0 ∷ 0x12 ∷ 0x34 ∷ 0x65 ∷ 0x38 ∷ 2 ∷ 0 ∷ 0 ∷ 0 ∷ 0 ∷ 0x7e ∷ []

abbrev occurrences : List Occurrence
occurrences =
    starting noon
    ∷ running
    ∷ receives library (received status)
    ∷ completing
    ∷ asks photo_now
    ∷ running
    ∷ []

happen_all-Delivers_example : Ends Delivers (happen_all occurrences (new_line memory settings))
happen_all-Delivers_example = happen_all-Delivers memory settings occurrences

happen_all-Halts_example : happen_all occurrences (new_line memory settings) ≢ diverges
happen_all-Halts_example = happen_all-Halts memory settings occurrences (omega arith)
