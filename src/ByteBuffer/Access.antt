-- ===== src/ByteBuffer/Access.antt =====
-- What is written is what is read back.
use subiaoserver.Common.{
  ℕ, ◌+◌, ◌-◌, ◌^◌, ◌≤◌, ◌<◌, ◌≡◌, ◌≢◌, refl, ◌∙◌, arith, List, [], ◌∷◌, ◌++◌, append-nil, length,
  drop, replicate, length-append, drop-drop, take_all, drop_all, inl, inr, take-append_le,
  take-append, drop-append, length-replicate, done, throws, position_exception, false, ltb,
  Bool-cases,
}
use subiaoserver.Common.Words.{
  UInt, uint8, uint16, uint32, uint64, sizeof, le_bytes, le_value, length-le_bytes,
}
use subiaoserver.ByteBuffer.{
  ByteBuffer, size, size_add, grow, memcpy, append, write, read, read_skip, advance,
}

-- The bytes from the read cursor on, of a storage whose positions do not wrap.
pub record Unread (b : ByteBuffer) (xs : List ℕ) : Type 0 where
  pub addressable : size b < 2 ^ 64
  pub within : b.rpos + length xs ≡ size b
  pub rest : drop b.rpos b.storage ≡ xs

module _ (b : ByteBuffer) (bs rest : List ℕ) (u : Unread b (bs ++ rest)) where
  pub advance-add : size_add b.rpos (length bs) ≡ b.rpos + length bs
  advance-add = omega (arith, u.within, u.addressable, length-append bs rest)

  advance-le : b.rpos + length bs ≤ size b
  advance-le = omega (arith, u.within, length-append bs rest)

  pub advance-Unread : Unread (advance (length bs) b) rest
  advance-Unread = record {
    addressable = u.addressable;
    within = omega (arith, advance-add, u.within, length-append bs rest);
    rest =
        rw advance-add
          (rw (← drop-drop b.rpos (length bs) b.storage, u.rest) (drop-append bs rest _ refl));
  }

  pub read-Unread :
      (t : UInt) → length bs ≡ sizeof t → read t b ≡ done (le_value bs) (advance (sizeof t) b)
  unfolding read
  read-Unread t h =
      ground (arith, advance-add, advance-le, h, u.rest, take-append bs rest (sizeof t))

  pub read_skip-Unread : read_skip (length bs) b ≡ done tt (advance (length bs) b)
  unfolding read_skip
  read_skip-Unread = ground (arith, advance-add, advance-le)

-- Where fewer bytes are left than the type has, and no position wraps, reading throws and reports
-- the value's size and the storage's.
pub read-short :
    (t : UInt) (b : ByteBuffer) (xs : List ℕ)
    → Unread b xs
    → size b + sizeof t < 2 ^ 64
    → length xs < sizeof t
    → read t b ≡ throws (position_exception false b.rpos (sizeof t) (size b)) b
unfolding read
read-short uint8 b xs u h short = ground arith
read-short t b xs u h short = ground arith

pub read_skip-short :
    (n : ℕ) (b : ByteBuffer) (xs : List ℕ)
    → Unread b xs
    → size b + n < 2 ^ 64
    → length xs < n
    → read_skip n b ≡ throws (position_exception false b.rpos n (size b)) b
unfolding read_skip
read_skip-short n b xs u h short = ground arith

memcpy-grow :
    (pos : ℕ) (src xs : List ℕ)
    → pos ≤ length xs
    → memcpy pos src (grow (pos + length src) xs) ≡ memcpy pos src xs
memcpy-grow pos src xs h = elim (Bool-cases (ltb (length xs) (pos + length src))) [
  | inl more ↦ rw (
    more,
    take_all (pos + length src) xs (ground arith),
    take-append_le pos xs _ h,
    drop_all (pos + length src) xs (ground arith),
    drop_all (pos + length src) (xs ++ replicate (pos + length src - length xs) 0) (
        ground (
          arith,
          length-append xs (replicate (pos + length src - length xs) 0),
          length-replicate {A = ℕ} (pos + length src - length xs) 0,
        )),
  )
  | inr fits ↦ rw fits
]

-- Appending at least one byte, with the write cursor within the storage and without a wrap, writes
-- them over what is at the cursor and then behind the storage, and moves the cursor behind them.
pub append_lem :
    (src : List ℕ) (b : ByteBuffer)
    → src ≢ []
    → b.wpos ≤ size b
    → b.wpos + length src < 2 ^ 64
    → append src b
      ≡ done tt (record b { storage = memcpy b.wpos src b.storage; wpos = b.wpos + length src })
unfolding append
append_lem [] b ne inside fits = absurd (ne refl)
append_lem (c ∷ cs) b ne inside fits = ground (arith, memcpy-grow b.wpos (c ∷ cs) b.storage)

-- The buffer with `bs` behind its storage and the write cursor behind them.
abbrev pub push : List ℕ → ByteBuffer → ByteBuffer
push bs b = record b { storage = b.storage ++ bs; wpos = b.wpos + length bs }

memcpy-end : (src xs : List ℕ) → memcpy (length xs) src xs ≡ xs ++ src
memcpy-end src xs = rw (
  take_all (length xs) xs (omega arith),
  drop_all (length xs + length src) xs (omega arith),
  append-nil,
)

pub append-push :
    (src : List ℕ) (b : ByteBuffer)
    → src ≢ []
    → b.wpos ≡ size b
    → size b + length src < 2 ^ 64
    → append src b ≡ done tt (push src b)
append-push src b ne e fits = append_lem src b ne (omega arith) (omega arith) ∙ rw e (rw memcpy-end)

le_bytes-ne-nil : (t : UInt) (v : ℕ) → le_bytes (sizeof t) v ≢ []
le_bytes-ne-nil uint8 v e = cc
le_bytes-ne-nil uint16 v e = cc
le_bytes-ne-nil uint32 v e = cc
le_bytes-ne-nil uint64 v e = cc

pub write-push :
    (t : UInt) (v : ℕ) (b : ByteBuffer)
    → b.wpos ≡ size b
    → size b + sizeof t < 2 ^ 64
    → write t v b ≡ done tt (push (le_bytes (sizeof t) v) b)
unfolding write
write-push t v b e fits =
    append-push _ b (le_bytes-ne-nil t v) e (omega (arith, length-le_bytes (sizeof t) v))
