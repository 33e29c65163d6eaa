-- ===== src/ConnectionManager/Relaying.antt =====
-- Settings go from one connection to another by the global variables.
use subiaoserver.Common.{
  ℕ, ◌≡◌, ◌≢◌, refl, ap, ◌∙◌, arith, true, List, [], ◌∷◌, ◌++◌, length, inl, done, ◌>>◌,
}
use subiaoserver.Common.Words.{uint16, InRange}
use subiaoserver.ByteBuffer.Access.{Unread}
use subiaoserver.ByteBuffer.Operators.Feed.{past}
use subiaoserver.ByteBuffer.Streams.{bytes_of, AllInRange}
use subiaoserver.WorldPacket.{WorldPacket, copy}
use subiaoserver.Connection.{Connection, set_settings, put_buffer}
use subiaoserver.Connection.Globals.{Settings}
use subiaoserver.Connection.Outbox.{packetwrite, post}
use subiaoserver.Connection.Packets.{header}
use subiaoserver.Connection.Packets.Frames.{framed}
use subiaoserver.Connection.Config.{adas_id, adas_values}
use subiaoserver.Connection.Config.RoundTrip.{handle_adas_values}
use subiaoserver.Connection.Media.{Library}
use subiaoserver.Connection.Receive.{process_input}
use subiaoserver.Connection.Receive.Status.{process_input-status, settings_for}
use subiaoserver.ConnectionManager.{ConnectionManager, run_on, put_object}
use subiaoserver.ConnectionManager.Updates.{update-at}

-- The connection at an address, with the global variables as they are.
abbrev pub seen : ℕ → ConnectionManager → Connection
seen i m = set_settings (m.objects i) m.settings

process_input-adas :
    (lib : Library) (c : Connection) (g : Settings) (rest : List ℕ)
    → c.header.s_opcode ≡ 0x34
    → c.header.s_terminalcode_id ≡ adas_id
    → AllInRange (adas_values g)
    → InRange uint16 g.camera.timedslice
    → InRange uint16 g.camera.distanceslice
    → Unread c.readpacket.buffer (bytes_of (adas_values g) ++ rest)
    → process_input lib c
      ≡ done tt (
          set_settings
            (put_buffer c (past 50 c.readpacket.buffer))
            (record (c.settings) { camera = g.camera; adas = g.adas }))
unfolding process_input
process_input-adas lib c g rest op kind h t d u =
    ground (arith, op, handle_adas_values c g rest kind h t d u)

-- The global variables when the ADAS settings of `g` have been read.
abbrev pub taken_over : Settings → ConnectionManager → Settings
taken_over g m = record (m.settings) { camera = g.camera; adas = g.adas }

-- The manager when the connection at `i` has read the settings of `g`.
abbrev learned : ℕ → Settings → ConnectionManager → ConnectionManager
learned i g m =
    let s = taken_over g m in
    record (put_object i
      (set_settings (put_buffer (seen i m) (past 50 (m.objects i).readpacket.buffer)) s) m) {
        settings = s;
      }

learns :
    (lib : Library) (i : ℕ) (m : ConnectionManager) (g : Settings) (rest : List ℕ)
    → (m.objects i).header.s_opcode ≡ 0x34
    → (m.objects i).header.s_terminalcode_id ≡ adas_id
    → AllInRange (adas_values g)
    → InRange uint16 g.camera.timedslice
    → InRange uint16 g.camera.distanceslice
    → Unread (m.objects i).readpacket.buffer (bytes_of (adas_values g) ++ rest)
    → run_on i (process_input lib) m ≡ done tt (learned i g m)
unfolding run_on
learns lib i m g rest op kind h t d u =
    rw (process_input-adas lib (seen i m) g rest op kind h t d u) refl

-- The packet with settings that answers a status report.
abbrev pub settings_answer : Settings → Connection → WorldPacket
settings_answer g c = framed 0x35 (bytes_of (header 0x35 c ++ adas_values g))

settings_for-adas :
    (c : Connection)
    → c.header.s_terminalcode_id ≡ adas_id
    → settings_for c ≡ adas_values c.settings
settings_for-adas c kind = ground (arith, kind)

answers :
    (lib : Library) (k : ℕ) (m : ConnectionManager) (c : Connection) (bs rest : List ℕ)
    → m.objects k ≡ c
    → c.header.s_opcode ≡ 0x38
    → c.header.s_terminalcode_id ≡ adas_id
    → length bs ≡ 5
    → Unread c.readpacket.buffer (bs ++ rest)
    → c.is_open ≡ true
    → (m' : ConnectionManager) × (run_on k (process_input lib) m ≡ done tt m')
      × ((m'.objects k).host.posted
          ≡ c.host.posted ++ copy (settings_answer m.settings (set_settings c m.settings)) ∷ [])
unfolding run_on packetwrite header
answers lib k m c bs rest here op kind five u is_open =
    let c1 = set_settings c m.settings in
    let p = framed 0x35 (bytes_of (header 0x35 c1 ++ settings_for c1)) in
    let d = post p (put_buffer c1 (past 5 c.readpacket.buffer)) in
    let run : process_input lib c1 ≡ done tt d =
      process_input-status lib c1 bs rest op (inl kind) five u ∙ ground (arith, is_open) in
    (
      record (put_object k d m) { settings = d.settings },
      rw (here, run) refl,
      ap (λ (o : Connection). o.host.posted) (update-at k k d m.objects (ground arith))
          ∙ ap (λ vs. c.host.posted ++ copy (framed 0x35 (bytes_of (header 0x35 c1 ++ vs))) ∷ [])
              (settings_for-adas c1 kind),
    )

-- A connection that dispatches an answer with settings, opcode 0x34, from a sensor of the ADAS
-- kind, in the range of their types and in the layout in which they are sent, makes every other
-- connection whose socket is open answer the status report of a sensor of that kind with these
-- settings: neither dispatch throws, and the second one posts one packet, the frame of the global
-- settings with the camera and ADAS settings taken over.
pub process_input-relayed :
    (lib : Library) (i k : ℕ) (m : ConnectionManager) (g : Settings) (rest bs more : List ℕ)
    → k ≢ i
    → (m.objects i).header.s_opcode ≡ 0x34
    → (m.objects i).header.s_terminalcode_id ≡ adas_id
    → AllInRange (adas_values g)
    → InRange uint16 g.camera.timedslice
    → InRange uint16 g.camera.distanceslice
    → Unread (m.objects i).readpacket.buffer (bytes_of (adas_values g) ++ rest)
    → (m.objects k).header.s_opcode ≡ 0x38
    → (m.objects k).header.s_terminalcode_id ≡ adas_id
    → length bs ≡ 5
    → Unread (m.objects k).readpacket.buffer (bs ++ more)
    → (m.objects k).is_open ≡ true
    → (m' : ConnectionManager) × ((do run_on i (process_input lib); run_on k (process_input lib)) m
        ≡ done tt m')
      × ((m'.objects k).host.posted
          ≡ (m.objects k).host.posted ++ copy (settings_answer (taken_over g m) (seen k m)) ∷ [])
unfolding header
process_input-relayed lib i k m g rest bs more other op kind h t d u op' kind' five u' is_open =
    let m1 = learned i g m in
    let (m', run, posted) =
      answers lib k m1 (m.objects k) bs more (ground (arith, other)) op' kind' five u' is_open in
    (m', rw (learns lib i m g rest op kind h t d u) run, posted)
