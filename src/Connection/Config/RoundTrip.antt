-- ===== src/Connection/Config/RoundTrip.antt =====
-- What is sent as settings is what is read as settings.
use subiaoserver.Common.{ℕ, ◌≡◌, refl, ◌∙◌, ap, arith, List, ◌++◌, done}
use subiaoserver.Common.Words.{uint16, InRange}
use subiaoserver.Endian.Laws.{swap_endian-swap_endian}
use subiaoserver.ByteBuffer.Streams.{bytes_of, AllInRange}
use subiaoserver.ByteBuffer.Access.{Unread}
use subiaoserver.ByteBuffer.Operators.Feed.{feed, past}
use subiaoserver.Connection.{Connection, put_buffer, set_settings}
use subiaoserver.Connection.Reads.{read_into-feed}
use subiaoserver.Connection.Globals.{Settings}
use subiaoserver.Connection.Config.{
  handle_adasactivesetconfigpacket, handle_dsmactivesetconfigpacket, adas_values, dsm_values,
  adas_ops, dsm_ops, handleactivesetconfigpacket, adas_id, dms_id,
}

feed_adas :
    (g g0 : Settings)
    → AllInRange (adas_values g)
    → InRange uint16 g.camera.timedslice
    → InRange uint16 g.camera.distanceslice
    → feed adas_ops (bytes_of (adas_values g)) g0 ≡ record g0 { camera = g.camera; adas = g.adas }
feed_adas g g0 h t d = ground (
  arith,
  swap_endian-swap_endian uint16 g.camera.timedslice,
  swap_endian-swap_endian uint16 g.camera.distanceslice,
)

feed_dsm :
    (g g0 : Settings)
    → AllInRange (dsm_values g)
    → InRange uint16 g.camera.timedslice
    → InRange uint16 g.camera.distanceslice
    → InRange uint16 g.dsm.smokingtime
    → InRange uint16 g.dsm.calltime
    → feed dsm_ops (bytes_of (dsm_values g)) g0
      ≡ record g0 { reschar = g.reschar; camera = g.camera; dsm = g.dsm }
feed_dsm g g0 h t d sm ca = ground (
  arith,
  swap_endian-swap_endian uint16 g.camera.timedslice,
  swap_endian-swap_endian uint16 g.camera.distanceslice,
  swap_endian-swap_endian uint16 g.dsm.smokingtime,
  swap_endian-swap_endian uint16 g.dsm.calltime,
)

-- A sensor of the ADAS kind that answers with settings in the range of their types, in the layout
-- in which they are sent, sets the variables of that kind to them, and no other; 50 bytes are read.
pub handle_adas_values :
    (c : Connection) (g : Settings) (rest : List ℕ)
    → c.header.s_terminalcode_id ≡ adas_id
    → AllInRange (adas_values g)
    → InRange uint16 g.camera.timedslice
    → InRange uint16 g.camera.distanceslice
    → Unread c.readpacket.buffer (bytes_of (adas_values g) ++ rest)
    → handleactivesetconfigpacket c
      ≡ done tt (
          set_settings
            (put_buffer c (past 50 c.readpacket.buffer))
            (record (c.settings) { camera = g.camera; adas = g.adas }))
unfolding handleactivesetconfigpacket handle_adasactivesetconfigpacket
    handle_dsmactivesetconfigpacket
handle_adas_values c g rest id h t d u =
    let read =
      read_into-feed (λ c. c.settings) set_settings adas_ops c (bytes_of (adas_values g)) rest u
        refl
      ∙ ap (λ s. done tt (set_settings (put_buffer c (past 50 c.readpacket.buffer)) s))
          (feed_adas g c.settings h t d) in
    ground (arith, read)

-- A sensor of the DMS kind that answers with settings in the range of their types, in the layout in
-- which they are sent, sets the variables of that kind and reschar to them, and no other; 43 bytes
-- are read.
pub handle_dsm_values :
    (c : Connection) (g : Settings) (rest : List ℕ)
    → c.header.s_terminalcode_id ≡ dms_id
    → AllInRange (dsm_values g)
    → InRange uint16 g.camera.timedslice
    → InRange uint16 g.camera.distanceslice
    → InRange uint16 g.dsm.smokingtime
    → InRange uint16 g.dsm.calltime
    → Unread c.readpacket.buffer (bytes_of (dsm_values g) ++ rest)
    → handleactivesetconfigpacket c
      ≡ done tt (
          set_settings
            (put_buffer c (past 43 c.readpacket.buffer))
            (record (c.settings) { reschar = g.reschar; camera = g.camera; dsm = g.dsm }))
unfolding handleactivesetconfigpacket handle_adasactivesetconfigpacket
    handle_dsmactivesetconfigpacket
handle_dsm_values c g rest id h t d sm ca u =
    let read =
      read_into-feed (λ c. c.settings) set_settings dsm_ops c (bytes_of (dsm_values g)) rest u refl
      ∙ ap (λ s. done tt (set_settings (put_buffer c (past 43 c.readpacket.buffer)) s))
          (feed_dsm g c.settings h t d sm ca) in
    ground (arith, read)
