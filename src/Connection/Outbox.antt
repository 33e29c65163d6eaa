-- ===== src/Connection/Outbox.antt =====
-- The outgoing side of src/Connection.cpp: `packetwrite`, `packetwrite_impl` and `writeHandler`.
pub mod Line
pub mod Moves
pub mod Steps
pub mod Order
pub mod Fifo
pub mod Draining
pub mod Closed
pub mod Failure
pub mod Framing
use subiaoserver.Common.{
  ℕ, Bool, true, false, List, [], ◌∷◌, ◌++◌, if◌then◌else◌, ltb, length, Outcome, done, throws,
  undefined, diverges, Exec, ◌>>=◌, ◌>>◌, pure, modify,
}
use subiaoserver.ByteBuffer.{contents}
use subiaoserver.WorldPacket.{WorldPacket, copy}
use subiaoserver.Connection.{Connection, Host, set_host, manager_stop}

abbrev pub post : WorldPacket → Connection → Connection
post p c = set_host c (record (c.host) { posted = c.host.posted ++ copy p ∷ [] })

-- `packetwrite(WorldPacket &)`: an open connection posts a copy of the packet to its strand.
unfoldable pub packetwrite : WorldPacket → Exec Connection (Unit {0})
packetwrite m_packet c = if c.is_open then done tt (post m_packet c) else done tt c

abbrev async_write : List ℕ → Connection → Connection
async_write bytes c = set_host c (record (c.host) { writing = c.host.writing ++ bytes ∷ [] })

-- `packetwrite()`: write the first packet of the outbox; taking it from an empty one is undefined.
pub write_front : List WorldPacket → Exec Connection (Unit {0})
write_front [] c = undefined
write_front (message ∷ _) c =
    if c.is_open
    then (elim (contents message.buffer) [
      | done bytes _ ↦ done tt (async_write bytes c)
      | throws e _ ↦ throws e c
      | undefined ↦ undefined
      | diverges ↦ diverges
    ])
    else done tt c

pub packetwrite_outbox : Exec Connection (Unit {0})
unfolding write_front contents
packetwrite_outbox c = write_front c.outbox c

unfoldable pub packetwrite_impl : WorldPacket → Exec Connection (Unit {0})
unfolding packetwrite_outbox
packetwrite_impl m_packet c =
    let c' = record c { outbox = c.outbox ++ copy m_packet ∷ [] } in
    if ltb 1 (length c'.outbox) then done tt c' else packetwrite_outbox c'

abbrev is_empty : List WorldPacket → Bool
is_empty [] = true
is_empty (_ ∷ _) = false

-- `_outbox.pop_front()` of an empty outbox is undefined.
pub after_pop : Bool → List WorldPacket → Exec Connection (Unit {0})
after_pop error [] c = undefined
after_pop error (_ ∷ rest) c =
    let c' = record c { outbox = rest } in
    if error
    then done tt (manager_stop c')
    else if is_empty rest
    then done tt c'
    else packetwrite_outbox c'

unfoldable pub write_handler : Bool → Exec Connection (Unit {0})
unfolding after_pop packetwrite_outbox
write_handler error c = after_pop error c.outbox c
