-- ===== src/ByteBuffer/PackedTime/RoundTrip.antt =====
-- A packed time is read back to the minute.
use Prim.Native.Nat.{bit_and}
use subiaoserver.Common.{
  ℕ, ◌+◌, ◌-◌, ◌*◌, ◌/◌, ◌%◌, ◌^◌, ◌<◌, ◌≤◌, ◌≡◌, refl, arith, [], ◌++◌, append-nil, length-append,
  drop-append, done, ltb, ◌||◌, false, ◌>>◌,
}
use subiaoserver.Common.Words.{uint32, le_bytes, le_value-le_bytes, length-le_bytes}
use subiaoserver.Common.Bits.{bit_or-below, bit_and-15, bit_and-31, bit_and-63}
use subiaoserver.ByteBuffer.{ByteBuffer, size}
use subiaoserver.ByteBuffer.Access.{push, write-push, Unread, read-Unread, advance-add}
use subiaoserver.ByteBuffer.Streams.{after_reading}
use subiaoserver.ByteBuffer.PackedTime.{
  Tm, field, pack_time, unpack_time, append_packed_time, read_packed_time,
}

-- The local times from the year 2000 to 2127.
pub record IsPackable (t : Tm) : Type 0 where
  pub min : t.tm_min < 60
  pub hour : t.tm_hour < 24
  pub mday_from : 1 ≤ t.tm_mday
  pub mday : t.tm_mday < 32
  pub mon : t.tm_mon < 12
  pub year_from : 100 ≤ t.tm_year
  pub year : t.tm_year < 228
  pub wday : t.tm_wday < 7

pack_time_lem :
    (t : Tm)
    → IsPackable t
    → pack_time t
      ≡ (((((t.tm_year - 100) * 16 + t.tm_mon) * 64 + (t.tm_mday - 1)) * 8 + t.tm_wday) * 32
            + t.tm_hour)
          * 64
        + t.tm_min
unfolding pack_time
pack_time_lem t v =
    let y = t.tm_year - 100 in
    let v1 = field 24 y + field 20 t.tm_mon in
    let v2 = v1 + field 14 (t.tm_mday - 1) in
    let v3 = v2 + field 11 t.tm_wday in
    let v4 = v3 + field 6 t.tm_hour in
    rw
      (
        bit_or-below 24 y (field 24 y) (field 20 t.tm_mon) refl (omega (arith, v.mon)),
        bit_or-below 20 (y * 16 + t.tm_mon) v1 (field 14 (t.tm_mday - 1)) (omega arith)
            (omega (arith, v.mday)),
        bit_or-below 14 ((y * 16 + t.tm_mon) * 64 + (t.tm_mday - 1)) v2 (field 11 t.tm_wday)
            (omega arith) (omega (arith, v.wday)),
        bit_or-below 11 (((y * 16 + t.tm_mon) * 64 + (t.tm_mday - 1)) * 8 + t.tm_wday) v3
            (field 6 t.tm_hour) (omega arith) (omega (arith, v.hour)),
        bit_or-below 6
            ((((y * 16 + t.tm_mon) * 64 + (t.tm_mday - 1)) * 8 + t.tm_wday) * 32 + t.tm_hour) v4
            t.tm_min (omega arith) (omega (arith, v.min)),
      )
      (omega (arith, v.year, v.mon, v.mday, v.wday, v.hour, v.min))

-- The time without its seconds and its day of the week, in the years from 2000 to 2031.
abbrev pub to_the_minute : Tm → Tm
to_the_minute t = record t { tm_sec = 0; tm_year = 100 + (t.tm_year - 100) % 32; tm_wday = 0 }

unpack_time-pack_time : (t : Tm) → IsPackable t → unpack_time (pack_time t) ≡ to_the_minute t
unfolding unpack_time
unpack_time-pack_time t v =
    let p = pack_time t in
    let e = pack_time_lem t v in
    let min : bit_and p 0x3f ≡ t.tm_min = omega (arith, e, v.min, bit_and-63 p) in
    let hour : bit_and (p / 2 ^ 6) 0x1f ≡ t.tm_hour =
      omega (arith, e, v.min, v.hour, bit_and-31 (p / 2 ^ 6)) in
    let mday : bit_and (p / 2 ^ 14) 0x3f + 1 ≡ t.tm_mday =
      omega (arith, e, v.min, v.hour, v.wday, v.mday, v.mday_from, bit_and-63 (p / 2 ^ 14)) in
    let mon : bit_and (p / 2 ^ 20) 0xf ≡ t.tm_mon =
      omega (arith, e, v.min, v.hour, v.wday, v.mday, v.mon, bit_and-15 (p / 2 ^ 20)) in
    let year : bit_and (p / 2 ^ 24) 0x1f + 100 ≡ 100 + (t.tm_year - 100) % 32 =
      omega
        (arith, e, v.min, v.hour, v.wday, v.mday, v.mon, v.year_from, bit_and-31 (p / 2 ^ 24)) in
    λ i. record {
      tm_sec = 0;
      tm_min = min i;
      tm_hour = hour i;
      tm_mday = mday i;
      tm_mon = mon i;
      tm_year = year i;
      tm_wday = 0;
    }

-- A time whose local time is valid and of the years 2000 to 2127, packed behind a storage that has
-- been read, and that stays below 2 ^ 64 bytes, is read back as the time that mktime gives for its
-- month, day, hour and minute, without its seconds, in the year modulo 32 from 2000 on.
pub read_packed_time-append_packed_time :
    (mktime : Tm → ℕ) (localtime_r : ℕ → Tm) (time : ℕ) (b : ByteBuffer)
    → IsPackable (localtime_r time)
    → b.wpos ≡ size b
    → b.rpos ≡ size b
    → size b + 4 < 2 ^ 64
    → (do append_packed_time localtime_r time; read_packed_time mktime) b
      ≡ done
          (mktime (to_the_minute (localtime_r time)) % 2 ^ 32)
          (after_reading 4 (push (le_bytes 4 (pack_time (localtime_r time))) b))
unfolding append_packed_time read_packed_time
read_packed_time-append_packed_time mktime localtime_r time b v e r fits =
    let t = localtime_r time in
    let bs = le_bytes 4 (pack_time t) in
    let c = push bs b in
    let u : Unread c (bs ++ []) = record {
      addressable = omega (arith, length-append b.storage bs);
      within = omega (arith, length-append b.storage bs);
      rest = rw append-nil (drop-append b.storage bs b.rpos r);
    } in
    let small : pack_time t < 256 ^ 4 =
      omega (arith, pack_time_lem t v, v.min, v.hour, v.wday, v.mday, v.mon, v.year, v.year_from) in
    let valid : (ltb t.tm_year 100 || ltb t.tm_mday 1) ≡ false =
      ground (arith, v.year_from, v.mday_from) in
    let four = length-le_bytes 4 (pack_time t) in
    rw
      (
        valid,
        write-push uint32 (pack_time t) b e fits,
        read-Unread c bs [] u uint32 four,
        le_value-le_bytes 4 (pack_time t) small,
        unpack_time-pack_time t v,
      )
      (ground (arith, advance-add c bs [] u, four))
