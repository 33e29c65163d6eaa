-- ===== src/Connection/Packets/Frames.antt =====
-- What the sending functions post: one framed packet each.
use mathlib.Core.List.{map}
use subiaoserver.Common.{
  ℕ, zero, suc, ◌+◌, ◌*◌, ◌/◌, ◌%◌, ◌≤◌, ◌<◌, ◌≡◌, refl, arith, Bool, true, List, [], ◌∷◌, length,
  ◌==◌, ◌&&◌,
}
use subiaoserver.ByteBuffer.{byte_buffer}
use subiaoserver.ByteBuffer.Streams.{Values, bytes_of, write_all-push}
use subiaoserver.ByteBuffer.Access.{push}
use subiaoserver.ByteBuffer.Escape.Spec.{escape}
use subiaoserver.ByteBuffer.Escape.RoundTrip.{checked, frame, jt808encode-frame}
use subiaoserver.WorldPacket.{WorldPacket}
use subiaoserver.Connection.{Connection}
use subiaoserver.Connection.Outbox.{packetwrite, post}
use subiaoserver.Common.{◌⊎◌, done, Bool-cases, inl, inr}
use subiaoserver.Connection.Packets.{send, bcd, utc_bcd_time, LocalTime}

-- The packet of opcode `op` that has the bytes `bs`, after `jt808encode`.
abbrev pub framed : ℕ → List ℕ → WorldPacket
framed op bs = record {
  buffer = record {
    rpos = 0;
    wpos = length (escape (checked bs)) + 2;
    storage = frame bs;
    escbuffer = [];
  };
  opcode = op;
}

-- A packet of 2 to 255 bytes is written and framed without an exception, its checksum loop ends,
-- and `packetwrite` gets the frame of the bytes.
pub send-framed :
    (op : ℕ) (vs : Values) (c : Connection)
    → 2 ≤ length (bytes_of vs)
    → length (bytes_of vs) < 256
    → send op vs c ≡ packetwrite (framed op (bytes_of vs)) c
unfolding send
send-framed op vs c lo hi =
    rw (write_all-push vs byte_buffer refl (omega arith), send)
      (rw ((jt808encode-frame (push (bytes_of vs) byte_buffer) refl lo hi).0, send))

bcd_table : (n : ℕ) → Bool
bcd_table zero = true
bcd_table (suc n) = bcd n == n / 10 * 16 + n % 10 && bcd_table n

bcd_table_sound : (n x : ℕ) → bcd_table n ≡ true → x < n → bcd x ≡ x / 10 * 16 + x % 10
unfolding bcd_table
bcd_table_sound zero x e h = absurd (omega arith)
bcd_table_sound (suc n) x e h = ground (arith, bcd_table_sound n x)

bcd_lem : (x : ℕ) → x < 100 → bcd x ≡ x / 10 * 16 + x % 10
bcd_lem x h = bcd_table_sound 100 x table h
  where
    table : bcd_table 100 ≡ true
    table = unfold bcd_table bcd in refl

-- The number that two decimal digits in the halves of a byte stand for.
abbrev pub from_bcd : ℕ → ℕ
from_bcd b = b / 16 * 10 + b % 16

from_bcd-bcd : (x : ℕ) → x < 100 → from_bcd (bcd x) ≡ x
from_bcd-bcd x h = omega (arith, bcd_lem x h)

pub record IsCalendarTime (t : LocalTime) : Type 0 where
  pub year : t.year < 100
  pub mon : t.mon < 12
  pub mday : t.mday < 32
  pub hour : t.hour < 24
  pub min : t.min < 60
  pub sec : t.sec < 61

-- The six bytes of `UtcBcdTime` are two digits each of the year from 2000 on, the month from 1 on,
-- the day, the hour, the minute and the second, for every time of the years 2000 to 2099.
pub utc_bcd_time_digits :
    (t : LocalTime)
    → IsCalendarTime t
    → map from_bcd (utc_bcd_time t) ≡ t.year ∷ (1 + t.mon) ∷ t.mday ∷ t.hour ∷ t.min ∷ t.sec ∷ []
unfolding utc_bcd_time
utc_bcd_time_digits t v = ground (
  arith,
  from_bcd-bcd t.year,
  from_bcd-bcd (1 + t.mon),
  from_bcd-bcd t.mday,
  from_bcd-bcd t.hour,
  from_bcd-bcd t.min,
  from_bcd-bcd t.sec,
)

pub packetwrite_cases :
    (p : WorldPacket) (c : Connection)
    → (packetwrite p c ≡ done tt (post p c)) ⊎ (packetwrite p c ≡ done tt c)
unfolding packetwrite
packetwrite_cases p c = elim (Bool-cases c.is_open) [
  | inl is_open ↦ inl (ground (arith, is_open))
  | inr shut ↦ inr (ground (arith, shut))
]
