-- ===== src/ByteBuffer/Numbers/RoundTrip.antt =====
-- Signed integers and floating-point numbers that are written are read back.
use subiaoserver.Common.{
  append-nil, drop-append, length-append, ltb, pure, ◌>>=◌, ℕ, ◌+◌, ◌*◌, ◌/◌, ◌%◌, ◌==◌, ◌^◌, ◌<◌,
  ◌≡◌, refl, ap, ◌∙◌, arith, List, [], ◌∷◌, ◌++◌, length, All, if◌then◌else◌, done, ◌>>◌,
}
use subiaoserver.Common.Words.{
  UInt, uint32, uint64, sizeof, InRange, IsByte, le_bytes, le_value, length-le_bytes,
}
use subiaoserver.Common.Int.{
  ℤ, SInt, unsigned, modulus, to_bits, of_bits, IsInt, of_bits-to_bits, to_bits-lt, to_bits-of_bits,
  of_bits-IsInt,
}
use subiaoserver.ByteBuffer.{ByteBuffer, size, advance, write, read}
use subiaoserver.ByteBuffer.Access.{Unread, push, read-Unread}
use subiaoserver.ByteBuffer.Operators.Feed.{past}
use subiaoserver.ByteBuffer.Containers.RoundTrip.{IsSerial, of_uint-IsSerial}
use native.Mathlib.Nat.{pow-suc}
use subiaoserver.ByteBuffer.Numbers.{
  float_limit, write_int, read_int, of_int, myisfinite, narrows, write_float, write_double,
  read_float, read_double,
}

abbrev int_bytes : SInt → ℤ → List ℕ
int_bytes t z = le_bytes (sizeof (unsigned t)) (to_bits t z)

of_int-IsSerial : (t : SInt) → IsSerial (of_int t) (int_bytes t) (IsInt t)
unfolding write_int read_int
of_int-IsSerial t =
    let u = of_uint-IsSerial (unsigned t) in
    record {
      put-push = λ z b h e room. u.put-push (to_bits t z) b (to_bits-lt t z h) e room;
      get-past = λ z b rest h unread.
          rw (u.get-past (to_bits t z) b rest (to_bits-lt t z h) unread, of_bits-to_bits t z h);
    }

finite_lem : (f : ℕ) → (if myisfinite f then f else 0) ≡ (if f / 2 ^ 23 % 256 == 255 then 0 else f)
unfolding myisfinite
finite_lem f = ground arith

-- An integer is written, and what is read of it is converted.
read-converted :
    {A : Type 0} (t : UInt) (f : ℕ → A) (v : ℕ) (b : ByteBuffer)
    → InRange t v
    → b.wpos ≡ size b
    → b.rpos ≡ size b
    → size b + sizeof t < 2 ^ 64
    → (do write t v; x ← read t; pure (f x)) b
      ≡ done (f v) (past (sizeof t) (push (le_bytes (sizeof t) v) b))
read-converted t f v b h e r room =
    let bs = le_bytes (sizeof t) v in
    let len = length-le_bytes (sizeof t) v in
    let grown = length-append b.storage bs in
    let u = of_uint-IsSerial t in
    let unread : Unread (push bs b) (bs ++ []) = rw append-nil (record {
      addressable = omega (arith, grown, len);
      within = omega (arith, grown);
      rest = drop-append b.storage bs b.rpos r;
    }) in
    rw (u.put-push v b h e (omega (arith, len)), u.get-past v (push bs b) [] h unread)
      (ap (λ (n : ℕ). done (f v) (past n (push bs b))) len)

-- A signed integer in the range of its type that is written behind a storage that has been read,
-- and that stays below 2 ^ 64 bytes, is read back, with both cursors at the end.
pub read_int-write_int :
    (t : SInt) (z : ℤ) (b : ByteBuffer)
    → IsInt t z
    → b.wpos ≡ size b
    → b.rpos ≡ size b
    → size b + sizeof (unsigned t) < 2 ^ 64
    → (do write_int t z; read_int t) b
      ≡ done z (past (sizeof (unsigned t)) (push (le_bytes (sizeof (unsigned t)) (to_bits t z)) b))
unfolding write_int read_int
read_int-write_int t z b h e r room =
    read-converted (unsigned t) (of_bits t) (to_bits t z) b (to_bits-lt t z h) e r room
    ∙ ap (λ (x : ℤ). done x (past (sizeof (unsigned t)) (push (int_bytes t z) b)))
        (of_bits-to_bits t z h)

le_value-lt : (bs : List ℕ) → All IsByte bs → le_value bs < 256 ^ length bs
le_value-lt [] h = omega arith
le_value-lt (b ∷ bs) h = omega (arith, h.0, le_value-lt bs h.1, pow-suc 256 (length bs))

le_bytes-le_value : (bs : List ℕ) → All IsByte bs → le_bytes (length bs) (le_value bs) ≡ bs
le_bytes-le_value [] h = refl
le_bytes-le_value (b ∷ bs) h =
    let low : (b + 256 * le_value bs) % 256 ≡ b = omega (arith, h.0) in
    let high : (b + 256 * le_value bs) / 256 ≡ le_value bs = omega (arith, h.0) in
    rw (low, high, le_bytes-le_value bs h.1)

-- Reading a signed integer from as many unread bytes as its type has succeeds, whatever the bytes
-- are: it gives a number in the range of the type, the one whose representation is these bytes.
pub read_int-IsInt :
    (t : SInt) (b : ByteBuffer) (bs rest : List ℕ)
    → Unread b (bs ++ rest)
    → length bs ≡ sizeof (unsigned t)
    → All IsByte bs
    → (z : ℤ) × (read_int t b ≡ done z (advance (sizeof (unsigned t)) b))
      × IsInt t z
      × (le_bytes (sizeof (unsigned t)) (to_bits t z) ≡ bs)
unfolding read_int
read_int-IsInt t b bs rest u len h =
    let v = le_value bs in
    let small : v < modulus t = rw len at (le_value-lt bs h) in
    (
      of_bits t v,
      rw (read-Unread b bs rest u (unsigned t) len) refl,
      of_bits-IsInt t v small,
      rw (to_bits-of_bits t v small, ← len) (le_bytes-le_value bs h),
    )

-- A float that is written behind a storage that has been read, and that stays below 2 ^ 64 bytes, is
-- read back as it was where it is finite, and as 0 everywhere else.
pub read_float-write_float :
    (f : ℕ) (b : ByteBuffer)
    → f < 2 ^ 32
    → b.wpos ≡ size b
    → b.rpos ≡ size b
    → size b + 4 < 2 ^ 64
    → (do write_float f; read_float) b
      ≡ done (if f / 2 ^ 23 % 256 == 255 then 0 else f) (past 4 (push (le_bytes 4 f) b))
unfolding write_float read_float
read_float-write_float f b h e r room =
    read-converted uint32 (λ v. if myisfinite v then v else 0) f b h e r room
    ∙ ap (λ (x : ℕ). done x (past 4 (push (le_bytes 4 f) b))) (finite_lem f)

-- A double that is written behind a storage that has been read, and that stays below 2 ^ 64 bytes,
-- is read back as it was where its conversion to float is finite, and as 0 everywhere else.
pub read_double-write_double :
    (d : ℕ) (b : ByteBuffer)
    → d < 2 ^ 64
    → b.wpos ≡ size b
    → b.rpos ≡ size b
    → size b + 8 < 2 ^ 64
    → (do write_double d; read_double) b
      ≡ done (if ltb (d % 2 ^ 63) float_limit then d else 0) (past 8 (push (le_bytes 8 d) b))
unfolding write_double read_double
read_double-write_double d b h e r room =
    read-converted uint64 (λ v. if narrows v then v else 0) d b h e r room
