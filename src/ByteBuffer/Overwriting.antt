-- ===== src/ByteBuffer/Overwriting.antt =====
-- `put<T>(size_t pos, T value)` and what reads at a position.
use subiaoserver.Common.{ℕ, ◌+◌, ◌^◌, ◌≤◌, ◌<◌, ◌≡◌, sym, arith, done, ◌>>◌}
use subiaoserver.Common.Words.{UInt, sizeof, InRange, le_bytes, length-le_bytes, le_value-le_bytes}
use subiaoserver.ByteBuffer.{ByteBuffer, size, memcpy, put, put_value, read_at}
use subiaoserver.ByteBuffer.Memcpy.{take-drop-memcpy, length-memcpy_within}

-- The buffer after a value has been put at `pos`.
abbrev pub overwritten : UInt → ℕ → ℕ → ByteBuffer → ByteBuffer
overwritten t pos v b = record b { storage = memcpy pos (le_bytes (sizeof t) v) b.storage }

module _ (t : UInt) (pos v : ℕ) (b : ByteBuffer) (room : pos + sizeof t ≤ size b)
    (small : size b < 2 ^ 64) where
  put_value-overwritten : put_value t pos v b ≡ done tt (overwritten t pos v b)
  unfolding put_value put
  put_value-overwritten = ground (arith, length-le_bytes (sizeof t) v)

  same_size : size (overwritten t pos v b) ≡ size b
  same_size =
      length-memcpy_within pos (le_bytes (sizeof t) v) b.storage
        (omega (arith, length-le_bytes (sizeof t) v))

  read_at-overwritten :
      InRange t v → read_at t pos (overwritten t pos v b) ≡ done v (overwritten t pos v b)
  unfolding read_at
  read_at-overwritten h =
      let there =
        take-drop-memcpy pos (sizeof t) (le_bytes (sizeof t) v) b.storage (omega arith)
          (sym (length-le_bytes (sizeof t) v)) in
      let value = le_value-le_bytes (sizeof t) v h in ground (arith, same_size, there, value)

  -- A value in the range of its type that is put where a storage below 2 ^ 64 bytes is large enough
  -- is read back there; its bytes take the place of those that were there, and the cursors and the
  -- size of the storage stay.
  pub read_at-put_value :
      InRange t v
      → ((do put_value t pos v; read_at t pos) b ≡ done v (overwritten t pos v b))
        × (size (overwritten t pos v b) ≡ size b)
  read_at-put_value h = (rw (put_value-overwritten, read_at-overwritten h), same_size)
