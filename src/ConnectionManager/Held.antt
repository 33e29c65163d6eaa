-- ===== src/ConnectionManager/Held.antt =====
-- The set of the manager and what its connections know of it.
use subiaoserver.Common.{
  ◌==◌, ℕ, ◌≡◌, refl, ◌∙◌, arith, Bool, true, false, List, [], ◌∷◌, done, if◌then◌else◌,
}
use subiaoserver.Connection.{Connection, manager_stop, set_settings}
use subiaoserver.Connection.Packets.{LocalTime}
use subiaoserver.Connection.Receive
use subiaoserver.Connection.Receive.Heartbeat.{start-Keeps}
use subiaoserver.ConnectionManager.{ConnectionManager, start, stop, stop_each, stop_all, put_object}
use subiaoserver.ConnectionManager.Sets.{
  contains, insert, IsSorted, contains-above, contains-insert, contains-erase, insert-IsSorted,
  erase-IsSorted,
}

-- The set holds each connection once, it holds those that are marked as registered, and these have
-- an open socket.
pub record IsHeld (m : ConnectionManager) : Type 0 where
  pub sorted : IsSorted m.connections
  pub registered : (i : ℕ) → contains i m.connections ≡ (m.objects i).registered
  pub is_open : (i : ℕ) → (m.objects i).registered ≡ true → (m.objects i).is_open ≡ true

pub stop-IsHeld : (i : ℕ) (m : ConnectionManager) → IsHeld m → IsHeld (stop i m)
unfolding stop manager_stop
stop-IsHeld i m v = record {
  sorted = erase-IsSorted i m.connections v.sorted;
  registered = λ k. ground (arith, contains-erase k i m.connections v.sorted, v.registered k);
  is_open = λ k h. ground (arith, v.is_open k);
}

-- The object at `i` when it starts, and the manager when the start has made `d` of it.
abbrev pub starting : ℕ → ConnectionManager → Connection
starting i m = set_settings (record (m.objects i) { registered = true }) m.settings

abbrev pub begun : ℕ → Connection → ConnectionManager → ConnectionManager
begun i d m =
    let m1 = record (put_object i (record (m.objects i) { registered = true }) m) {
      connections = insert i m.connections;
    } in
    record (put_object i d m1) { settings = d.settings }

pub start-begun :
    (t : LocalTime) (i : ℕ) (m : ConnectionManager) (d : Connection)
    → Receive.start t (starting i m) ≡ done tt d
    → start t i m ≡ done tt (begun i d m)
unfolding start
start-begun t i m d run = ground (arith, run)

-- Starting a connection whose socket is open ends without an exception, adds it to the set, changes
-- no other connection, and leaves a consistent manager consistent.
pub start-IsHeld :
    (t : LocalTime) (i : ℕ) (m : ConnectionManager)
    → (m.objects i).is_open ≡ true
    → IsHeld m
    → (m' : ConnectionManager) × (start t i m ≡ done tt m')
      × IsHeld m'
      × (m'.connections ≡ insert i m.connections)
      × ((k : ℕ) → m'.objects k ≡ (if k == i then m'.objects i else m.objects k))
start-IsHeld t i m o v =
    let (d, run, same) = start-Keeps t (starting i m) in
    (
      begun i d m,
      start-begun t i m d run,
      record {
        sorted = insert-IsSorted i m.connections v.sorted;
        registered = λ k. ground (arith, contains-insert k i m.connections, v.registered k, same.1);
        is_open = λ k h. ground (arith, v.is_open k, same.0, o);
      },
      refl,
      λ k. ground arith,
    )

-- What `StopAll` leaves of the object `k`.
abbrev stopped : Bool → Connection → Connection
stopped held c = if held then manager_stop c else c

stop_each-objects :
    (is : List ℕ) (m : ConnectionManager) (k : ℕ)
    → IsSorted is
    → (stop_each is m).objects k ≡ stopped (contains k is) (m.objects k)
unfolding stop_each contains
stop_each-objects [] m k h = refl
stop_each-objects (i ∷ is) m k h =
    stop_each-objects is (put_object i (manager_stop (m.objects i)) m) k h.1
    ∙ ground (arith, contains-above k i is)

-- StopAll on a consistent manager stops every connection of the set and no other, leaves the set
-- empty, and the manager consistent.
pub stop_all-IsHeld :
    (m : ConnectionManager)
    → IsHeld m
    → IsHeld (stop_all m)
      × ((k : ℕ)
          → (stop_all m).objects k
            ≡ (if contains k m.connections then manager_stop (m.objects k) else m.objects k))
unfolding stop_all contains manager_stop
stop_all-IsHeld m v =
    let objects = λ (k : ℕ). stop_each-objects m.connections m k v.sorted in
    (
      record {
        sorted = tt;
        registered = λ k. ground (arith, objects k, v.registered k);
        is_open = λ k h. ground (arith, objects k, v.registered k);
      },
      objects,
    )

-- An object that is not held may change, as long as it does not become registered.
pub put_object-IsHeld :
    (i : ℕ) (c : Connection) (m : ConnectionManager)
    → contains i m.connections ≡ false
    → c.registered ≡ false
    → IsHeld m
    → IsHeld (put_object i c m)
put_object-IsHeld i c m free other v = record {
  sorted = v.sorted;
  registered = λ k. ground (arith, v.registered k);
  is_open = λ k h. ground (arith, v.is_open k);
}
