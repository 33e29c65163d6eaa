-- ===== src/Connection/Receive/Heartbeat.antt =====
-- How `Start` and the heartbeat leave a connection.
use subiaoserver.Common.{◌≡◌, refl, ◌∙◌, arith, false, [], done, inl, inr, Bool-cases}
use subiaoserver.Connection.{Connection, heartbeat_call, expires_from_now, async_wait}
use subiaoserver.Connection.Outbox.{post}
use subiaoserver.Connection.Packets.{LocalTime, sendrealtimepacket}
use subiaoserver.Connection.Packets.Frames.{framed, packetwrite_cases}
use subiaoserver.Connection.Requests.{sendrealtimepacket-framed, message, prepared, realtime}
use subiaoserver.Connection.Receive.{start, start_write, heart_tick, message_size, beat, readmedia}
use subiaoserver.ByteBuffer.Streams.{bytes_of}

-- It ends, and leaves the socket and the place in the manager as they are.
abbrev pub Keeps : Connection → Connection → Type 0
Keeps c d = (d.is_open ≡ c.is_open) × (d.registered ≡ c.registered)

send-Keeps :
    (t : LocalTime) (c : Connection)
    → (d : Connection) × (sendrealtimepacket t c ≡ done tt d) × Keeps c d
send-Keeps t c =
    let c' = prepared (realtime t) c in
    let p = framed 0x31 (bytes_of (message (realtime t) c')) in
    elim (packetwrite_cases p c') [
      | inl posted ↦ (post p c', sendrealtimepacket-framed t c ∙ posted, (refl, refl))
      | inr not_posted ↦ (c', sendrealtimepacket-framed t c ∙ not_posted, (refl, refl))
    ]

waiting : Connection → Connection
waiting c = heartbeat_call async_wait (heartbeat_call (expires_from_now 8000) c)

pub beat-Keeps :
    (t : LocalTime) (c : Connection) → (d : Connection) × (beat t c ≡ done tt d) × Keeps c d
unfolding waiting
beat-Keeps t c = elim (Bool-cases c.is_open) [
  | inl is_open ↦
      let (d, sent, same) = send-Keeps t c in (waiting d, ground (arith, is_open, sent), same)
  | inr shut ↦ (waiting c, ground (arith, shut), (refl, refl))
]

-- A new connection starts: its first read is begun at the front of the buffer and its heartbeat
-- is running.
pub start-Keeps :
    (t : LocalTime) (c : Connection) → (d : Connection) × (start t c ≡ done tt d) × Keeps c d
unfolding start start_write readmedia
start-Keeps t c =
    beat-Keeps t
      (readmedia 0 (record c { total_bytes_read = 0; buf = []; buf_size = message_size }))

pub heart_tick-Keeps :
    (t : LocalTime) (c : Connection)
    → (d : Connection) × (heart_tick t false c ≡ done tt d) × Keeps c d
unfolding heart_tick
heart_tick-Keeps t c = beat-Keeps t c
