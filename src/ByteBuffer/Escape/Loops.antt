-- ===== src/ByteBuffer/Escape/Loops.antt =====
-- The loops of `jt808encode` and `jt808decode` against the escaping on lists.
use subiaoserver.Common.{
  ℕ, zero, suc, ◌+◌, ◌^◌, ◌≤◌, ◌<◌, ◌≡◌, ◌∙◌, refl, sym, ap, arith, Bool, true, false, List, [],
  ◌∷◌, ◌++◌, append-nil, append_assoc, ◌==◌, if◌then◌else◌, length, drop, drop-drop, length-append,
  inl, inr, Bool-cases, lt→ltb, le→ltb, Outcome, done, throws, ByteBufferException,
  position_exception, tail,
}
use subiaoserver.Common.Words.{uint8}
use subiaoserver.ByteBuffer.{ByteBuffer, size, read_at}
use subiaoserver.ByteBuffer.Escape.{escaped, push_back, encode_loop, decode_at, decode_loop}
use native.Mathlib.Nat.{add_assoc, add-zero}
use subiaoserver.ByteBuffer.Escape.Spec.{escape, next_byte, unescape_cases, unescape}

-- The storage from position `i` on; the positions do not wrap.
pub record From (b : ByteBuffer) (i : ℕ) (xs : List ℕ) : Type 0 where
  addressable : size b + 1 < 2 ^ 64
  within : i + length xs ≡ size b
  rest : drop i b.storage ≡ xs

From-tail : {b : ByteBuffer} {i c : ℕ} {xs : List ℕ} → From b i (c ∷ xs) → From b (i + 1) xs
From-tail {b} {i} u = record {
  addressable = u.addressable;
  within = omega (arith, u.within);
  rest = sym (drop-drop i 1 b.storage) ∙ ap tail u.rest;
}

From-push_back :
    {b : ByteBuffer} {i : ℕ} {xs : List ℕ} (bs : List ℕ) → From b i xs → From (push_back bs b) i xs
From-push_back bs u = record { addressable = u.addressable; within = u.within; rest = u.rest }

read_at-From :
    (b : ByteBuffer) (i c : ℕ) (xs : List ℕ) → From b i (c ∷ xs) → read_at uint8 i b ≡ done c b
unfolding read_at
read_at-From b i c xs u = ground (arith, u.rest)

read_at-end :
    (b : ByteBuffer) (i : ℕ)
    → From b i []
    → read_at uint8 i b ≡ throws (position_exception false i 1 (size b)) b
unfolding read_at
read_at-end b i u = ground arith

push_back-push_back :
    (xs ys : List ℕ) (b : ByteBuffer) → push_back ys (push_back xs b) ≡ push_back (xs ++ ys) b
push_back-push_back xs ys b = rw append_assoc

pub encode_loop_lem :
    (xs : List ℕ) (b : ByteBuffer) (i j : ℕ)
    → From b i xs
    → encode_loop (length xs) i j b ≡ done (j + length (escape xs)) (push_back (escape xs) b)
unfolding encode_loop escape
encode_loop_lem [] b i j u = rw (add-zero, append-nil)
encode_loop_lem (c ∷ xs) b i j u = rw (read_at-From b i c xs u) (
    encode_loop_lem xs (push_back (escaped c) b) (i + 1) (j + length (escaped c))
      (From-push_back (escaped c) (From-tail u))
    ∙ rw (append_assoc, length-append (escaped c) (escape xs), add_assoc))

-- What decoding makes of the bytes `xs`, from the state of the loop.
abbrev pub decoded : List ℕ × Bool → ℕ → ByteBuffer → Outcome ByteBuffer ℕ
decoded (ys, whole) j b =
    if whole
    then done (j + length ys) (push_back ys b)
    else throws (position_exception false (size b) 1 (size b)) (push_back ys b)

decode_loop_end :
    (fuel i j : ℕ) (b : ByteBuffer)
    → size b ≤ i
    → decode_loop (suc fuel) i (size b) j b ≡ decoded ([], true) j b
unfolding decode_loop
decode_loop_end fuel i j b h = rw (le→ltb _ _ h, decode_loop) (rw (add-zero, append-nil))

decoded_cons :
    (c : ℕ) (r : List ℕ × Bool) (j : ℕ) (b : ByteBuffer)
    → decoded r (j + 1) (push_back (c ∷ []) b) ≡ decoded (c ∷ r.0, r.1) j b
decoded_cons c (ys, true) j b = rw (append_assoc, add_assoc) (ground arith)
decoded_cons c (ys, false) j b = rw append_assoc

decode_step :
    (fuel i j c step : ℕ) (b : ByteBuffer)
    → i < size b
    → decode_at i b ≡ done (c, step) b
    → decode_loop (suc fuel) i (size b) j b
      ≡ decode_loop fuel (i + step) (size b) (j + 1) (push_back (c ∷ []) b)
unfolding decode_loop
decode_step fuel i j c step b h e = rw (lt→ltb _ _ h, decode_loop) (rw e)

decode_next :
    (fuel i j c step : ℕ) (b : ByteBuffer) (rest : List ℕ)
    → i < size b
    → decode_at i b ≡ done (c, step) b
    → decode_loop fuel (i + step) (size b) (j + 1) (push_back (c ∷ []) b)
      ≡ decoded (unescape rest) (j + 1) (push_back (c ∷ []) b)
    → decode_loop (suc fuel) i (size b) j b ≡ decoded (c ∷ (unescape rest).0, (unescape rest).1) j b
decode_next fuel i j c step b rest h e ih =
    decode_step fuel i j c step b h e ∙ ih ∙ decoded_cons c (unescape rest) j b

decode_at_pair :
    (b : ByteBuffer) (i c d : ℕ) (xs : List ℕ)
    → From b i (c ∷ d ∷ xs)
    → decode_at i b ≡ done (next_byte c d) b
unfolding decode_at
decode_at_pair b i c d xs u =
    ground (arith, read_at-From b i c (d ∷ xs) u, read_at-From b (i + 1) d xs (From-tail u))

decode_at_last :
    (b : ByteBuffer) (i c : ℕ)
    → From b i (c ∷ [])
    → decode_at i b ≡ (
        if c == 0x7d
        then throws (position_exception false (size b) 1 (size b)) b
        else done (c, 1) b)
unfolding decode_at
decode_at_last b i c u =
    ground (arith, u.within, read_at-From b i c [] u, read_at-end b (i + 1) (From-tail u))

decode_stops :
    (fuel i j : ℕ) (b : ByteBuffer) {e : ByteBufferException}
    → i < size b
    → decode_at i b ≡ throws e b
    → decode_loop (suc fuel) i (size b) j b ≡ throws e b
unfolding decode_loop
decode_stops fuel i j b h e = rw (lt→ltb _ _ h, decode_loop) (rw e)

From-skip : {b : ByteBuffer} {i c d : ℕ} {xs : List ℕ} → From b i (c ∷ d ∷ xs) → From b (i + 2) xs
From-skip {b} {i} {c} {d} {xs} u =
    let v = From-tail (From-tail u) in
    record {
      addressable = v.addressable;
      within = omega (arith, v.within);
      rest = rw add_assoc at v.rest;
    }

pub decode_loop_lem :
    (fuel : ℕ) (xs : List ℕ) (b : ByteBuffer) (i j : ℕ)
    → From b i xs
    → length xs < fuel
    → decode_loop fuel i (size b) j b ≡ decoded (unescape xs) j b
unfolding unescape
decode_loop_lem zero xs b i j u h = absurd (omega arith)
decode_loop_lem (suc fuel) [] b i j u h = decode_loop_end fuel i j b (omega (arith, u.within))
decode_loop_lem (suc fuel) (c ∷ []) b i j u h =
    let inside : i < size b = omega (arith, u.within) in
    elim (Bool-cases (c == 0x7d)) [
      | inl esc ↦
          rw esc
            (decode_stops fuel i j b inside (rw esc at (decode_at_last b i c u)) ∙ rw append-nil)
      | inr plain ↦ rw plain (
          decode_next fuel i j c 1 b [] inside (rw plain at (decode_at_last b i c u)) (
            decode_loop_lem fuel [] (push_back (c ∷ []) b) (i + 1) (j + 1)
              (From-push_back _ (From-tail u)) (omega arith)))
    ]
decode_loop_lem (suc fuel) (c ∷ d ∷ xs) b i j u h =
    let inside : i < size b = omega (arith, u.within) in
    let here = decode_at_pair b i c d xs u in
    elim (unescape_cases c d xs) [
      | inl (two, e) ↦ rw e (
          decode_next fuel i j _ _ b xs inside here (
            rw two (
              decode_loop_lem fuel xs (push_back ((next_byte c d).0 ∷ []) b) (i + 2) (j + 1)
                (From-push_back _ (From-skip u)) (omega arith))))
      | inr (one, e) ↦ rw e (
          decode_next fuel i j _ _ b (d ∷ xs) inside here (
            rw one (
              decode_loop_lem fuel (d ∷ xs) (push_back ((next_byte c d).0 ∷ []) b) (i + 1) (j + 1)
                (From-push_back _ (From-tail u)) (omega arith))))
    ]

pub start : (b : ByteBuffer) → size b + 1 < 2 ^ 64 → From b 0 b.storage
start b h = record { addressable = h; within = omega arith; rest = refl }
