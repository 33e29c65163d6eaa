-- ===== src/ByteBuffer/Bytes/Coding.antt =====
-- The same of strings, of the checksum and of `jt808encode` and `jt808decode`.
use subiaoserver.Common.{
  ℕ, zero, suc, ◌+◌, ◌%◌, ◌<◌, ◌≡◌, refl, arith, Bool, true, false, List, [], ◌∷◌, ◌++◌, length,
  drop, ltb, ◌==◌, if◌then◌else◌, All, All-append, Outcome, done, diverges, Exec, ◌>>=◌, pure,
  Option, none, some, get_or,
}
use subiaoserver.Common.Words.{uint8, IsByte}
use subiaoserver.Common.Keeps.{
  Ends, Keeps, Keeps-pure, Keeps-bind, Keeps-from, Returns, Gives, Gives-bind,
}
use subiaoserver.ByteBuffer.{
  ByteBuffer, size, size_add, read_at, read_string, read_string_loop, contents,
}
use subiaoserver.ByteBuffer.Checksum.{checksum_loop, checksum_fuel, checksum_from, add_check_sum}
use subiaoserver.ByteBuffer.Escape.{
  protocol_sign, protocol_escape, protocol_escape_sign, protocol_escape_escape, escaped, push_back,
  encode_loop, wrap_escbuffer, jt808encode, unescaped, decode_at, decode_loop, jt808decode,
}
use subiaoserver.ByteBuffer.Bytes.{
  HoldsBytes, zero-IsByte, le_value-IsByte, All-drop, All-vector_resize, read-Keeps,
}

-- Both cases of a test.
Ends-either :
    {A : Type 0} (t : Bool) (r q : Outcome ByteBuffer A)
    → Ends HoldsBytes r
    → Ends HoldsBytes q
    → Ends HoldsBytes (elim t [ false ↦ r | true ↦ q ])
Ends-either true r q hr hq = hq
Ends-either false r q hr hq = hr

read_string_loop-Keeps :
    (fuel : ℕ) (value : List ℕ) → Keeps HoldsBytes (read_string_loop fuel value)
unfolding read_string_loop
read_string_loop-Keeps zero value = record { at = λ b h. tt }
read_string_loop-Keeps (suc fuel) value = record {
  at = λ b h. Ends-either (ltb b.rpos (size b)) _ _ h (
      (Keeps-bind _ _ (read-Keeps uint8) (λ c. record {
        at = λ s k.
            Ends-either (c == 0) _ _ ((read_string_loop-Keeps fuel (value ++ c ∷ [])).at s k) k;
      })).at
        b h);
}

pub read_string-Keeps : Keeps HoldsBytes read_string
unfolding read_string
read_string-Keeps = record { at = λ b h. (read_string_loop-Keeps (size b + 1) []).at b h }

Returns-if :
    {A : Type 0} (R : A → Type 0) (t : Bool) (r q : Outcome ByteBuffer A)
    → Returns R HoldsBytes r
    → Returns R HoldsBytes q
    → Returns R HoldsBytes (if t then r else q)
Returns-if R true r q hr hq = hr
Returns-if R false r q hr hq = hq

-- The byte that is read is one.
read_at-Gives : (pos : ℕ) → Gives IsByte HoldsBytes (read_at uint8 pos)
unfolding read_at
read_at-Gives pos = record {
  at = λ b h. Returns-if IsByte (ltb (size b) (size_add pos 1)) _ _ h (
      Returns-if IsByte (ltb (size b) (pos + 1)) _ _ tt
        (le_value-IsByte (drop pos b.storage) (All-drop pos b.storage h.0), h));
}

checksum_loop-IsByte :
    (fuel i len : ℕ) (buf : List ℕ) (ret r : ℕ)
    → ret < 256
    → checksum_loop fuel i len buf ret ≡ some r
    → r < 256
unfolding checksum_loop
checksum_loop-IsByte zero i len buf ret r h e = absurd (cc e)
checksum_loop-IsByte (suc fuel) i len buf ret r h e =
    ground
      (arith, checksum_loop-IsByte fuel ((i + 1) % 256) len buf ((ret + get_or buf i 0) % 256) r)

checksum-Ends :
    (r : Option ℕ) (b : ByteBuffer)
    → ((x : ℕ) → r ≡ some x → x < 256)
    → HoldsBytes b
    → Returns IsByte HoldsBytes (elim r [ none ↦ diverges | some ret ↦ done ret b ])
checksum-Ends none b f h = tt
checksum-Ends (some x) b f h = (f x refl, h)

contents-Gives : Gives (All IsByte) HoldsBytes contents
unfolding contents
contents-Gives = record { at = λ b h. Returns-if (All IsByte) (size b == 0) _ _ h (h.0, h) }

pub checksum_from-Gives : (start : ℕ) → Gives IsByte HoldsBytes (checksum_from start)
unfolding checksum_from
checksum_from-Gives start = Gives-bind _ _ contents-Gives (λ buf hb. record {
  at = λ b h.
      checksum-Ends (checksum_loop checksum_fuel start (size b) buf 0) b
        (λ r e. checksum_loop-IsByte checksum_fuel start (size b) buf 0 r (omega arith) e) h;
})

pub add_check_sum-Keeps : (t : Bool) → Keeps HoldsBytes (add_check_sum t)
unfolding add_check_sum
add_check_sum-Keeps t =
    Keeps-from _ _ (checksum_from-Gives 2) (λ ret r. record { at = λ b h. ((r, h.0), h.1) })

escaped-IsByte : (c : ℕ) → IsByte c → All IsByte (escaped c)
escaped-IsByte c h = ground (arith, h)

push_back-HoldsBytes :
    (xs : List ℕ) (b : ByteBuffer) → All IsByte xs → HoldsBytes b → HoldsBytes (push_back xs b)
push_back-HoldsBytes xs b h k = (k.0, All-append IsByte b.escbuffer xs k.1 h)

encode_loop-Keeps : (rounds i j : ℕ) → Keeps HoldsBytes (encode_loop rounds i j)
unfolding encode_loop
encode_loop-Keeps zero i j = Keeps-pure j
encode_loop-Keeps (suc rounds) i j = Keeps-from _ _ (read_at-Gives i) (λ c hc. record {
  at = λ b h.
      (encode_loop-Keeps rounds (i + 1) (j + length (escaped c))).at (push_back (escaped c) b)
        (push_back-HoldsBytes (escaped c) b (escaped-IsByte c hc) h);
})

wrap_escbuffer-HoldsBytes :
    (j : ℕ) (b : ByteBuffer) → HoldsBytes b → HoldsBytes (wrap_escbuffer j b)
wrap_escbuffer-HoldsBytes j b h = (
  All-vector_resize (j + 2) _ zero-IsByte (
    omega arith,
    All-append IsByte _ (protocol_sign ∷ []) (All-vector_resize j b.escbuffer zero-IsByte h.1)
        (omega arith, tt),
  ),
  tt,
)

pub jt808encode-Keeps : Keeps HoldsBytes jt808encode
unfolding jt808encode
jt808encode-Keeps = Keeps-bind _ _ (add_check_sum-Keeps true) (λ r. record {
  at = λ b h.
      (Keeps-bind _ _ (encode_loop-Keeps (size b) 0 0)
          (λ j. record { at = λ s k. wrap_escbuffer-HoldsBytes j s k })).at
        b h;
})

abbrev KeptByte : ℕ × ℕ → Type 0
KeptByte r = IsByte r.0

KeptByte-if : (t : Bool) (r q : ℕ × ℕ) → KeptByte r → KeptByte q → KeptByte (if t then r else q)
KeptByte-if true r q hr hq = hr
KeptByte-if false r q hr hq = hq

unescaped-IsByte : (c d : ℕ) → IsByte c → KeptByte (unescaped c d)
unescaped-IsByte c d h =
    KeptByte-if (d == protocol_escape_sign) _ _ (omega arith)
      (KeptByte-if (d == protocol_escape_escape) _ _ (omega arith) h)

Gives-pure : (r : ℕ × ℕ) → KeptByte r → Gives KeptByte HoldsBytes (pure r)
Gives-pure r h = record { at = λ b k. (h, k) }

Gives-either :
    (t : Bool) (m n : Exec ByteBuffer (ℕ × ℕ))
    → Gives KeptByte HoldsBytes m
    → Gives KeptByte HoldsBytes n
    → Gives KeptByte HoldsBytes (if t then m else n)
Gives-either true m n hm hn = hm
Gives-either false m n hm hn = hn

decode_at-Gives : (i : ℕ) → Gives KeptByte HoldsBytes (decode_at i)
unfolding decode_at
decode_at-Gives i = Gives-bind _ _ (read_at-Gives i) (λ c hc.
    Gives-either (c == protocol_escape) (do d ← read_at uint8 (i + 1); pure (unescaped c d))
      (pure (c, 1))
      (Gives-bind _ _ (read_at-Gives (i + 1))
        (λ d hd. Gives-pure (unescaped c d) (unescaped-IsByte c d hc)))
      (Gives-pure (c, 1) hc))

decode_loop-Keeps : (fuel i len j : ℕ) → Keeps HoldsBytes (decode_loop fuel i len j)
unfolding decode_loop
decode_loop-Keeps zero i len j = record { at = λ b h. tt }
decode_loop-Keeps (suc fuel) i len j = record {
  at = λ b h. Ends-either (ltb i len) _ _ h (
      (Keeps-from _ _ (decode_at-Gives i) (λ r hr. record {
        at = λ s k.
            (decode_loop-Keeps fuel (i + r.1) len (j + 1)).at (push_back (r.0 ∷ []) s)
              (push_back-HoldsBytes (r.0 ∷ []) s (hr, tt) k);
      })).at
        b h);
}

pub jt808decode-Keeps : Keeps HoldsBytes jt808decode
unfolding jt808decode
jt808decode-Keeps = record {
  at = λ b h.
      (Keeps-bind _ _ (decode_loop-Keeps (size b + 1) 0 (size b) 0)
          (λ j. record { at = λ s k. (All-vector_resize j s.escbuffer zero-IsByte k.1, tt) })).at
        b h;
}
