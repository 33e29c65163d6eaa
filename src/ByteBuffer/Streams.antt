-- ===== src/ByteBuffer/Streams.antt =====
-- Sequences of integers through `operator<<` and `operator>>`.
use subiaoserver.Common.{
  ℕ, ◌+◌, ◌^◌, ◌<◌, ◌≡◌, ap, ◌∙◌, arith, List, [], ◌∷◌, ◌++◌, append-nil, append_assoc, length,
  length-append, done, Exec, ◌>>=◌, ◌>>◌, pure, drop-append,
}
use subiaoserver.Common.Words.{UInt, sizeof, InRange, le_bytes, length-le_bytes, le_value-le_bytes}
use subiaoserver.ByteBuffer.{ByteBuffer, size, advance, write, read}
use subiaoserver.ByteBuffer.Access.{
  Unread, read-Unread, advance-add, advance-Unread, push, write-push,
}
use mathlib.Core.List.{map}
use native.Mathlib.Nat.{add_assoc, add-zero}

-- Some integers with their types, and the bytes that they make.
abbrev pub Values : Type 0
Values = List (UInt × ℕ)

abbrev pub bytes_of : Values → List ℕ
bytes_of [] = []
bytes_of ((t, v) ∷ vs) = le_bytes (sizeof t) v ++ bytes_of vs

abbrev pub AllInRange : Values → Type 0
AllInRange [] = Unit
AllInRange ((t, v) ∷ vs) = InRange t v × AllInRange vs

-- `b << v1 << v2 << …`
pub write_all : Values → Exec ByteBuffer (Unit {0})
write_all [] = pure tt
write_all ((t, v) ∷ vs) = do write t v; write_all vs

-- `b >> v1 >> v2 >> …`
pub read_all : List UInt → Exec ByteBuffer (List ℕ)
read_all [] = pure []
read_all (t ∷ ts) = do v ← read t; vs ← read_all ts; pure (v ∷ vs)

pub push-push : (xs ys : List ℕ) (b : ByteBuffer) → push ys (push xs b) ≡ push (xs ++ ys) b
push-push xs ys b = rw (length-append xs ys, append_assoc, add_assoc)

pub write_all-push :
    (vs : Values) (b : ByteBuffer)
    → b.wpos ≡ size b
    → size b + length (bytes_of vs) < 2 ^ 64
    → write_all vs b ≡ done tt (push (bytes_of vs) b)
unfolding write_all
write_all-push [] b e fits = rw (add-zero, append-nil)
write_all-push ((t, v) ∷ vs) b e fits =
    let bs = le_bytes (sizeof t) v in
    let all = length-append bs (bytes_of vs) in
    let one = length-le_bytes (sizeof t) v in
    rw (write-push t v b e (omega arith)) (
      write_all-push vs (push bs b) (omega (arith, length-append b.storage bs))
        (omega (arith, length-append b.storage bs))
      ∙ ap (done tt) (push-push bs (bytes_of vs) b))

-- The state after reading `n` bytes that were there.
abbrev pub after_reading : ℕ → ByteBuffer → ByteBuffer
after_reading n b = record b { rpos = b.rpos + n }

pub read_all-Unread :
    (vs : Values) (b : ByteBuffer) (rest : List ℕ)
    → AllInRange vs
    → Unread b (bytes_of vs ++ rest)
    → read_all (map (λ v. v.0) vs) b
      ≡ done (map (λ v. v.1) vs) (after_reading (length (bytes_of vs)) b)
unfolding read_all
read_all-Unread [] b rest h u = rw add-zero
read_all-Unread ((t, v) ∷ vs) b rest h u =
    let bs = le_bytes (sizeof t) v in
    let one = length-le_bytes (sizeof t) v in
    let u' : Unread b (bs ++ (bytes_of vs ++ rest)) = rw append_assoc at u in
    let moved = advance-add b bs (bytes_of vs ++ rest) u' in
    let later : Unread (advance (sizeof t) b) (bytes_of vs ++ rest) =
      rw one at (advance-Unread b bs (bytes_of vs ++ rest) u') in
    rw (read-Unread b bs (bytes_of vs ++ rest) u' t one) (
      rw (read_all-Unread vs (advance (sizeof t) b) rest h.1 later) (
        ground
          (arith, le_value-le_bytes (sizeof t) v h.0, moved, one, length-append bs (bytes_of vs))))

-- Integers in the range of their types that are written behind a storage that has been read, and
-- that stays below 2 ^ 64 bytes, are read back in their order, with both cursors at the end.
pub read_all-write_all :
    (vs : Values) (b : ByteBuffer)
    → AllInRange vs
    → b.wpos ≡ size b
    → b.rpos ≡ size b
    → size b + length (bytes_of vs) < 2 ^ 64
    → (do write_all vs; read_all (map (λ v. v.0) vs)) b
      ≡ done (map (λ v. v.1) vs) (after_reading (length (bytes_of vs)) (push (bytes_of vs) b))
read_all-write_all vs b h e r fits = rw (write_all-push vs b e fits) (
    read_all-Unread vs (push (bytes_of vs) b) [] h (record {
      addressable = omega (arith, length-append b.storage (bytes_of vs));
      within = rw append-nil (omega (arith, length-append b.storage (bytes_of vs)));
      rest = rw append-nil (drop-append b.storage (bytes_of vs) b.rpos r);
    }))
