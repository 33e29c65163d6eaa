-- ===== src/ByteBuffer/Bytes.antt =====
-- The functions of Packets/ByteBuffer.h leave bytes in a buffer of bytes.
pub mod Coding
pub mod Operations
use subiaoserver.Common.{
  ℕ, zero, suc, ◌+◌, ◌-◌, ◌^◌, ◌%◌, ◌<◌, ◌≡◌, refl, arith, Bool, true, false, List, [], ◌∷◌, ◌++◌,
  take, drop, replicate, length, ltb, leb, ◌==◌, if◌then◌else◌, All, All-append, Outcome, done,
  throws, undefined, diverges, Exec, ◌>>=◌, ◌>>◌, pure, modify, Option, none, some, get_or,
}
use subiaoserver.Common.Words.{
  UInt, uint8, uint16, uint32, uint64, sizeof, IsByte, le_bytes, le_value, le_bytes-IsByte,
}
use subiaoserver.Common.Keeps.{
  Ends, Ends-if, Keeps, Keeps-pure, Keeps-bind, Keeps-then, Keeps-from, Returns, Gives,
}
use subiaoserver.ByteBuffer.{
  ByteBuffer, size, size_add, grow, vector_resize, memcpy, clear, clearheader, append, write,
  write_string, put, put_value, read_at, read, read_bytes, read_skip, read_string, read_string_loop,
  resize, set_rpos, set_wpos, contents,
}
use subiaoserver.ByteBuffer.Checksum.{checksum_loop, checksum_fuel, checksum_from, add_check_sum}
use subiaoserver.ByteBuffer.Escape.{
  escaped, push_back, encode_loop, wrap_escbuffer, jt808encode, unescaped, decode_at, decode_loop,
  take_escbuffer, jt808decode,
}

abbrev pub HoldsBytes : ByteBuffer → Type 0
HoldsBytes b = All IsByte b.storage × All IsByte b.escbuffer

pub All-take : (n : ℕ) (xs : List ℕ) → All IsByte xs → All IsByte (take n xs)
All-take zero xs h = tt
All-take (suc n) [] h = tt
All-take (suc n) (x ∷ xs) h = (h.0, All-take n xs h.1)

pub All-drop : (n : ℕ) (xs : List ℕ) → All IsByte xs → All IsByte (drop n xs)
All-drop zero xs h = h
All-drop (suc n) [] h = tt
All-drop (suc n) (x ∷ xs) h = All-drop n xs h.1

pub All-replicate : (n x : ℕ) → IsByte x → All IsByte (replicate n x)
All-replicate zero x h = tt
All-replicate (suc n) x h = (h, All-replicate n x h)

pub All-memcpy :
    (pos : ℕ) (src xs : List ℕ) → All IsByte src → All IsByte xs → All IsByte (memcpy pos src xs)
All-memcpy pos src xs hs hx =
    All-append IsByte (take pos xs) _ (All-take pos xs hx)
      (All-append IsByte src _ hs (All-drop (pos + length src) xs hx))

pub All-if :
    (b : Bool) (xs ys : List ℕ) → All IsByte xs → All IsByte ys → All IsByte (if b then xs else ys)
All-if true xs ys hx hy = hx
All-if false xs ys hx hy = hy

pub All-vector_resize :
    (n : ℕ) (xs : List ℕ) → IsByte 0 → All IsByte xs → All IsByte (vector_resize n xs)
All-vector_resize n xs z h =
    All-append IsByte (take n xs) _ (All-take n xs h) (All-replicate (n - length xs) 0 z)

pub All-grow : (n : ℕ) (xs : List ℕ) → IsByte 0 → All IsByte xs → All IsByte (grow n xs)
All-grow n xs z h =
    All-if (ltb (length xs) n) (vector_resize n xs) xs (All-vector_resize n xs z h) h

pub zero-IsByte : IsByte 0
zero-IsByte = omega arith

pub append-Keeps : (src : List ℕ) → All IsByte src → Keeps HoldsBytes (append src)
unfolding append
append-Keeps src hs = record {
  at = λ b h. Ends-if HoldsBytes (length src == 0) _ _ h (
      Ends-if HoldsBytes (ltb (size_add b.wpos (length src)) b.wpos) _ _ tt (
        All-memcpy b.wpos src _ hs
            (All-grow (size_add b.wpos (length src)) b.storage zero-IsByte h.0),
        h.1,
      ));
}

pub write-Keeps : (t : UInt) (v : ℕ) → Keeps HoldsBytes (write t v)
unfolding write
write-Keeps t v = append-Keeps (le_bytes (sizeof t) v) (le_bytes-IsByte (sizeof t) v)

pub write_string-Keeps : (cs : List ℕ) → All IsByte cs → Keeps HoldsBytes (write_string cs)
unfolding write_string
write_string-Keeps [] h = write-Keeps uint8 0
write_string-Keeps (c ∷ cs) h = Keeps-then _ _ (append-Keeps (c ∷ cs) h) (write-Keeps uint8 0)

pub put-Keeps : (pos : ℕ) (src : List ℕ) → All IsByte src → Keeps HoldsBytes (put pos src)
unfolding put
put-Keeps pos src hs = record {
  at = λ b h. Ends-if HoldsBytes (ltb (size b) (size_add pos (length src))) _ _ h (
      Ends-if HoldsBytes (ltb (size b) (pos + length src)) _ _ tt
        (All-memcpy pos src b.storage hs h.0, h.1));
}

pub clearheader-Keeps : Keeps HoldsBytes clearheader
unfolding clearheader
clearheader-Keeps = record {
  at = λ b h.
      Ends-if HoldsBytes (leb (size b) b.rpos) _ _ tt
        (All-take _ (drop b.rpos b.storage) (All-drop b.rpos b.storage h.0), h.1);
}

pub le_value-IsByte : (xs : List ℕ) → All IsByte xs → IsByte (le_value (take 1 xs))
le_value-IsByte [] h = omega arith
le_value-IsByte (x ∷ xs) h = omega (arith, h.0)

pub read_at-Keeps : (t : UInt) (pos : ℕ) → Keeps HoldsBytes (read_at t pos)
unfolding read_at
read_at-Keeps t pos = record {
  at = λ b h.
      Ends-if HoldsBytes (ltb (size b) (size_add pos (sizeof t))) _ _ h
        (Ends-if HoldsBytes (ltb (size b) (pos + sizeof t)) _ _ tt h);
}

pub read-Keeps : (t : UInt) → Keeps HoldsBytes (read t)
unfolding read
read-Keeps t = record {
  at = λ b h. (Keeps-bind _ _ (read_at-Keeps t b.rpos) (λ r. record { at = λ s k. k })).at b h;
}

pub read_bytes-Keeps : (len : ℕ) → Keeps HoldsBytes (read_bytes len)
unfolding read_bytes
read_bytes-Keeps len = record {
  at = λ b h.
      Ends-if HoldsBytes (ltb (size b) (size_add b.rpos len)) _ _ h
        (Ends-if HoldsBytes (ltb (size b) (b.rpos + len)) _ _ tt h);
}

pub read_skip-Keeps : (n : ℕ) → Keeps HoldsBytes (read_skip n)
unfolding read_skip
read_skip-Keeps n = record {
  at = λ b h. Ends-if HoldsBytes (ltb (size b) (size_add b.rpos n)) _ _ h h;
}

pub put_value-Keeps : (t : UInt) (pos v : ℕ) → Keeps HoldsBytes (put_value t pos v)
unfolding put_value
put_value-Keeps t pos v = put-Keeps pos _ (le_bytes-IsByte (sizeof t) _)
