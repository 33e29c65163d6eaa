-- ===== src/ByteBuffer/PackedTime.antt =====
-- `AppendPackedTime` and `ReadPackedTime` of Packets/ByteBuffer.h. `localtime_r` and `mktime` of
-- the C library are arguments.
pub mod RoundTrip
use Prim.Native.Nat.{bit_and, bit_or}
use subiaoserver.Common.{
  ℕ, ◌+◌, ◌-◌, ◌*◌, ◌/◌, ◌%◌, ◌^◌, ◌<◌, ◌≤◌, ◌≡◌, refl, ◌∙◌, arith, ltb, if◌then◌else◌, ◌||◌, [],
  ◌++◌, append-nil, length-append, drop-append, done, undefined, Exec, ◌>>=◌, ◌>>◌, pure,
}
use subiaoserver.Common.Words.{uint32, le_bytes, le_value-le_bytes, length-le_bytes}
use subiaoserver.ByteBuffer.{ByteBuffer, size, write, read}
use subiaoserver.ByteBuffer.Access.{push, write-push, Unread, read-Unread, advance-add}
use subiaoserver.ByteBuffer.Streams.{after_reading}

-- The fields of a `tm` that the code reads or writes. A date before 1900 has no `tm_year` here.
pub record Tm : Type 0 where
  pub tm_sec : ℕ
  pub tm_min : ℕ
  pub tm_hour : ℕ
  pub tm_mday : ℕ
  pub tm_mon : ℕ
  pub tm_year : ℕ
  pub tm_wday : ℕ

abbrev pub field : ℕ → ℕ → ℕ
field k x = x * 2 ^ k

-- The argument of `append<uint32>`. To shift a negative number to the left is undefined.
unfoldable pub pack_time : Tm → ℕ
pack_time lt =
    bit_or
      (bit_or
        (bit_or
          (bit_or (bit_or (field 24 (lt.tm_year - 100)) (field 20 lt.tm_mon))
            (field 14 (lt.tm_mday - 1)))
          (field 11 lt.tm_wday))
        (field 6 lt.tm_hour))
      lt.tm_min
    % 2 ^ 32

unfoldable pub append_packed_time : (localtime_r : ℕ → Tm) → ℕ → Exec ByteBuffer (Unit {0})
unfolding pack_time write
append_packed_time localtime_r time b =
    let lt = localtime_r time in
    if ltb lt.tm_year 100 || ltb lt.tm_mday 1 then undefined else write uint32 (pack_time lt) b

-- The `tm` that is given to `mktime`: what is not assigned is 0.
unfoldable pub unpack_time : ℕ → Tm
unpack_time packed_date = record {
  tm_sec = 0;
  tm_min = bit_and packed_date 0x3f;
  tm_hour = bit_and (packed_date / 2 ^ 6) 0x1f;
  tm_mday = bit_and (packed_date / 2 ^ 14) 0x3f + 1;
  tm_mon = bit_and (packed_date / 2 ^ 20) 0xf;
  tm_year = bit_and (packed_date / 2 ^ 24) 0x1f + 100;
  tm_wday = 0;
}

unfoldable pub read_packed_time : (mktime : Tm → ℕ) → Exec ByteBuffer ℕ
unfolding unpack_time read
read_packed_time mktime = do
  packed_date ← read uint32
  pure (mktime (unpack_time packed_date) % 2 ^ 32)
