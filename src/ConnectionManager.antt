-- ===== src/ConnectionManager.antt =====
-- src/ConnectionManager.cpp and include/ConnectionManager.h: the set of running connections. The
-- address of a connection is a number; `objects` is what lies there. `BroadcastAll` does nothing.
pub mod Sets
pub mod Held
pub mod Updates
pub mod Relaying
use subiaoserver.Common.{
  ℕ, ◌≡◌, Bool, true, false, List, [], ◌∷◌, Outcome, done, throws, undefined, diverges, Exec, ◌==◌,
  if◌then◌else◌,
}
use subiaoserver.Connection.{Connection, manager_stop, set_settings}
use subiaoserver.Connection.Globals.{Settings}
use subiaoserver.Connection.Packets.{LocalTime}
use subiaoserver.Connection.Receive
use Sets.{insert, erase}

-- `settings` are the global variables; those of an object are set when it runs.
pub record ConnectionManager : Type 0 where
  pub connections : List ℕ
  pub objects : ℕ → Connection
  pub settings : Settings

abbrev pub update : {A : Type 0} → ℕ → A → (ℕ → A) → ℕ → A
update i x map k = if k == i then x else map k

abbrev pub put_object : ℕ → Connection → ConnectionManager → ConnectionManager
put_object i c m = record m { objects = update i c m.objects }

-- A member function runs on an object, and on the global variables.
abbrev pub after_run :
    ℕ → ConnectionManager → Outcome Connection (Unit {0}) → Outcome ConnectionManager (Unit {0})
after_run i m (done _ c) = done tt (record (put_object i c m) { settings = c.settings })
after_run i m (throws e c) = throws e (record (put_object i c m) { settings = c.settings })
after_run i m undefined = undefined
after_run i m diverges = diverges

unfoldable pub run_on : ℕ → Exec Connection (Unit {0}) → Exec ConnectionManager (Unit {0})
run_on i f m = after_run i m (f (set_settings (m.objects i) m.settings))

-- `ConnectionManager::Start`.
unfoldable pub start : LocalTime → ℕ → Exec ConnectionManager (Unit {0})
unfolding run_on
start t i m =
    run_on i (Receive.start t)
      (record (put_object i (record (m.objects i) { registered = true }) m) {
        connections = insert i m.connections;
      })

-- `ConnectionManager::Stop`.
unfoldable pub stop : ℕ → ConnectionManager → ConnectionManager
stop i m = record (put_object i (manager_stop (m.objects i)) m) {
  connections = erase i m.connections;
}

-- `StopAll`: `Stop` of each connection of the set, which none of them leaves before `clear`.
unfoldable pub stop_each : List ℕ → ConnectionManager → ConnectionManager
stop_each [] m = m
stop_each (i ∷ is) m = stop_each is (put_object i (manager_stop (m.objects i)) m)

unfoldable pub stop_all : ConnectionManager → ConnectionManager
unfolding stop_each
stop_all m = record (stop_each m.connections m) { connections = [] }
