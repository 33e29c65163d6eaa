-- ===== src/Examples/Servers.antt =====
-- The theorems on the server and its manager, at concrete inputs.
use subiaoserver.Common.{
  ℕ, ap, ◌≡◌, refl, arith, true, false, List, [], ◌∷◌, ◌++◌, ◌>>◌, done, ◌==◌, if◌then◌else◌,
}
use subiaoserver.Connection.{Connection, manager_stop}
use subiaoserver.Connection.Packets.{LocalTime}
use subiaoserver.ConnectionManager.{ConnectionManager, run_on, stop_all}
use subiaoserver.ConnectionManager.Relaying.{
  seen, taken_over, settings_answer, process_input-relayed,
}
use subiaoserver.WorldPacket.{copy}
use subiaoserver.ByteBuffer.Streams.{bytes_of}
use subiaoserver.Connection.Config.{adas_values}
use subiaoserver.Connection.Receive.{process_input}
use subiaoserver.ConnectionManager.Sets.{contains}
use subiaoserver.ConnectionManager.Held.{starting, begun, IsHeld, stop_all-IsHeld}
use subiaoserver.Server.{Server, server, accept_next}
use subiaoserver.Server.Serving.{
  Event, accepts, loses, handle_events, IsServing, handle_events-IsServing, server-IsServing,
}
use subiaoserver.Server.Running.{
  Program, line, put_line, put_server, after_accept, handle, occurs, program, Reaches, begins,
  moves,
}
use subiaoserver.Server.Running
use subiaoserver.Server.Running.Accepting.{start-accepted, with_manager, opened}
use subiaoserver.Server.Running.Progress.{Reaches-Completes}
use subiaoserver.Connection.Life.Progress.{is_quiet}
use subiaoserver.Server.Running.Reaching.{Reaches-Delivers}
use subiaoserver.Connection.Receive.Heartbeat
use subiaoserver.Connection.Life.{happens, stopping, failing}
use subiaoserver.Connection.Life.Sending.{Delivers}
use subiaoserver.Examples.Connections.{
  new, memory, settings, reading, library, adas_values-AllInRange,
}

abbrev pub noon : LocalTime
noon = record { year = 24; mon = 0; mday = 1; hour = 12; min = 0; sec = 0 }

-- The connection 7 is held; all others are open, but unknown to the manager.
abbrev holding_one : ConnectionManager
holding_one = record {
  connections = 7 ∷ [];
  objects = λ i. record new { registered = i == 7 };
  settings = settings;
}

holding_one-IsHeld : IsHeld holding_one
unfolding contains
holding_one-IsHeld = record {
  sorted = (tt, tt);
  registered = λ i. ground arith;
  is_open = λ i h. refl;
}

stop_all-IsHeld_example :
    IsHeld (stop_all holding_one)
    × ((k : ℕ)
        → (stop_all holding_one).objects k ≡ (
            if contains k (7 ∷ [])
            then manager_stop (holding_one.objects k)
            else holding_one.objects k))
stop_all-IsHeld_example = stop_all-IsHeld holding_one holding_one-IsHeld

-- The settings of the sensor at 0 have been decoded, and the status of the one at 1.
abbrev answering : Connection
answering = record (reading 0x64 (bytes_of (adas_values settings))) {
  header = record (new.header) { s_terminalcode_id = 0x64; s_opcode = 0x34 };
}

abbrev reporting : Connection
reporting = record (reading 0x64 (2 ∷ 0 ∷ 0 ∷ 0 ∷ 0 ∷ [])) {
  header = record (new.header) { s_terminalcode_id = 0x64; s_opcode = 0x38 };
}

abbrev both : ConnectionManager
both = record {
  connections = 0 ∷ 1 ∷ [];
  objects = λ i. if i == 0 then answering else reporting;
  settings = settings;
}

process_input-relayed_example :
    (m : ConnectionManager) × ((do
      run_on 0 (process_input library)
      run_on 1 (process_input library))
        both
      ≡ done tt m)
    × ((m.objects 1).host.posted
        ≡ [] ++ copy (settings_answer (taken_over settings both) (seen 1 both)) ∷ [])
process_input-relayed_example =
    process_input-relayed library 0 1 both settings [] (2 ∷ 0 ∷ 0 ∷ 0 ∷ 0 ∷ []) []
      (λ e. absurd (cc e)) refl refl adas_values-AllInRange (omega arith) (omega arith)
      (record { addressable = omega arith; within = refl; rest = refl }) refl refl refl
      (record { addressable = omega arith; within = refl; rest = refl }) refl

abbrev store : ℕ → Connection
store i = record new { registered = false }

abbrev events : List Event
events =
    accepts noon memory false ∷ accepts noon memory true ∷ accepts noon memory false ∷ loses 0 ∷ []

handle_events-IsServing_example :
    (s : Server) × (handle_events events (server memory settings store 8080) ≡ done tt s)
    × IsServing s
handle_events-IsServing_example =
    handle_events-IsServing events (server memory settings store 8080)
      (server-IsServing memory settings store 8080 (λ i. refl))

-- The program when it begins, and when a connection has been accepted.
abbrev first : Program
first = program memory settings store

abbrev begun_first : Connection
begun_first = (Heartbeat.start-Keeps noon (starting 0 (opened first.server))).0

abbrev second : Program
second =
    put_server 0 1 first
      (accept_next memory (with_manager first (begun 0 begun_first (opened first.server))))

second-Reaches : Reaches second
unfolding program handle server
second-Reaches =
    moves first (Running.accepts noon memory false) (begins memory settings store (λ i. refl)) refl
      (ap (after_accept 0 1 first) (
        start-accepted noon memory first begun_first
          (Heartbeat.start-Keeps noon (starting 0 (opened first.server))).1))

-- Then it is stopped.
abbrev third : Program
third =
    put_line 0 (record (line 0 second) { connection = manager_stop (line 0 second).connection })
      second

Reaches-Delivers_example : IsServing third.server × Delivers (line 0 third)
unfolding handle happens accept_next program server
Reaches-Delivers_example =
    Reaches-Delivers third 0
      (moves second (occurs 0 stopping) second-Reaches (refl, omega arith, λ e. absurd (cc e)) refl)
      (omega arith) (λ e. absurd (cc e))

Reaches-Completes_example :
    (s : Program) × (handle (occurs 0 failing) second ≡ done tt s) × Reaches s
unfolding accept_next program server is_quiet
Reaches-Completes_example =
    Reaches-Completes second (occurs 0 failing) second-Reaches
      (refl, omega arith, λ e. absurd (cc e)) refl
