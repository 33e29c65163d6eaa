-- ===== src/ByteBuffer/Printing/Hex.antt =====
-- What `hexlike` prints, and that it shows every byte.
use subiaoserver.Common.{
  ℕ, suc, ◌+◌, ◌-◌, ◌*◌, ◌/◌, ◌%◌, ◌^◌, ◌<◌, ◌≡◌, refl, sym, ap, ◌∙◌, arith, true, List, [], ◌∷◌,
  ◌++◌, append-nil, append_assoc, leb, ◌==◌, if◌then◌else◌, ◌&&◌, length, drop, drop-drop, All,
  done,
}
use subiaoserver.Common.Words.{uint8, IsByte}
use subiaoserver.Common.Text.{codes}
use subiaoserver.ByteBuffer.{ByteBuffer, size, read_at}
use subiaoserver.ByteBuffer.Printing.{hex_byte, separator, hex_loop, hexlike}

-- What stands in front of the byte at a position: 16 bytes to a line, a bar in the middle.
abbrev pub gap : ℕ → List ℕ
gap i =
    if i == 0 then [] else if i % 16 == 0 then codes "\n" else if i % 8 == 0 then codes "| " else []

abbrev pub grid : ℕ → List ℕ → List ℕ
grid i [] = []
grid i (v ∷ vs) = (gap i ++ (hex_byte v ++ codes " ")) ++ grid (i + 1) vs

-- The two counters in front of position `i`.
abbrev count : ℕ → ℕ → ℕ
count n i = if i == 0 then 1 else (i + (n - 1)) / n

separator-gap :
    (i : ℕ)
    → i + 1 < 2 ^ 32
    → separator i (count 8 i) (count 16 i) ≡ (gap i, count 8 (i + 1), count 16 (i + 1))
unfolding separator
separator-gap i h = ground arith

read_at-drop :
    (i v : ℕ) (vs : List ℕ) (b : ByteBuffer)
    → drop i b.storage ≡ v ∷ vs
    → i < size b
    → size b < 2 ^ 32
    → read_at uint8 i b ≡ done v b
unfolding read_at
read_at-drop i v vs b e inside small = ground arith

abbrev cell : ℕ → ℕ → List ℕ
cell i v = gap i ++ (hex_byte v ++ codes " ")

hex_loop-cell :
    (fuel i v : ℕ) (vs o : List ℕ) (b : ByteBuffer)
    → drop i b.storage ≡ v ∷ vs
    → i < size b
    → size b < 2 ^ 32
    → hex_loop (suc fuel) i (count 8 i) (count 16 i) o b
      ≡ hex_loop fuel (i + 1) (count 8 (i + 1)) (count 16 (i + 1)) (o ++ cell i v) b
unfolding hex_loop
hex_loop-cell fuel i v vs o b e inside small =
    let sep = separator-gap i (omega arith) in
    let next : (i + 1) % 2 ^ 32 ≡ i + 1 = omega arith in
    ground (
      arith,
      read_at-drop i v vs b e inside small,
      next,
      ap (λ (s : List ℕ × ℕ × ℕ). s.0) sep,
      ap (λ (s : List ℕ × ℕ × ℕ). s.1) sep,
      ap (λ (s : List ℕ × ℕ × ℕ). s.2) sep,
    )

hex_loop-end :
    (fuel i j k : ℕ) (o : List ℕ) (b : ByteBuffer)
    → i ≡ size b
    → hex_loop (suc fuel) i j k o b ≡ done o b
unfolding hex_loop
hex_loop-end fuel i j k o b e = ground arith

hex_loop-grid :
    (vs : List ℕ) (i : ℕ) (o : List ℕ) (b : ByteBuffer)
    → drop i b.storage ≡ vs
    → i + length vs ≡ size b
    → size b < 2 ^ 32
    → hex_loop (suc (length vs)) i (count 8 i) (count 16 i) o b ≡ done (o ++ grid i vs) b
hex_loop-grid [] i o b e all small =
    hex_loop-end 0 i (count 8 i) (count 16 i) o b (omega arith) ∙ rw append-nil refl
hex_loop-grid (v ∷ vs) i o b e all small =
    hex_loop-cell (suc (length vs)) i v vs o b e (omega arith) small
    ∙ hex_loop-grid vs (i + 1) (o ++ cell i v) b (sym (drop-drop i 1 b.storage) ∙ ap (drop 1) e)
        (omega arith) small
    ∙ rw append_assoc refl

-- The values of the hexadecimal digits of a text, and the bytes that they make in pairs.
abbrev pub hex_values : List ℕ → List ℕ
hex_values [] = []
hex_values (c ∷ cs) =
    if leb b'0' c && leb c b'9'
    then (c - b'0') ∷ hex_values cs
    else if leb b'A' c && leb c b'F'
    then (c - b'A' + 10) ∷ hex_values cs
    else hex_values cs

abbrev pub pairs : List ℕ → List ℕ
pairs [] = []
pairs (h ∷ []) = []
pairs (h ∷ l ∷ rest) = (h * 16 + l) ∷ pairs rest

hex_values-append : (xs ys : List ℕ) → hex_values (xs ++ ys) ≡ hex_values xs ++ hex_values ys
hex_values-append [] ys = refl
hex_values-append (x ∷ xs) ys = ground (arith, hex_values-append xs ys)

hex_values-gap : (i : ℕ) → hex_values (gap i) ≡ []
hex_values-gap i = ground arith

hex_values-hex_byte :
    (v : ℕ) (rest : List ℕ)
    → v < 256
    → hex_values (hex_byte v ++ rest) ≡ (v / 16) ∷ (v % 16) ∷ hex_values rest
unfolding hex_byte
hex_values-hex_byte v rest h = ground arith

hex_values-grid :
    (i : ℕ) (vs rest : List ℕ)
    → All IsByte vs
    → hex_values rest ≡ []
    → pairs (hex_values (grid i vs ++ rest)) ≡ vs
hex_values-grid i [] rest h none_left = rw none_left refl
hex_values-grid i (v ∷ vs) rest h none_left =
    let more = grid (i + 1) vs ++ rest in
    let tail = hex_byte v ++ (codes " " ++ more) in
    let split : grid i (v ∷ vs) ++ rest ≡ gap i ++ tail =
      rw (append_assoc, append_assoc, append_assoc) refl in
    let byte : v / 16 * 16 + v % 16 ≡ v = omega arith in
    rw split (
      rw
        (
          hex_values-append (gap i) tail,
          hex_values-gap i,
          hex_values-hex_byte v (codes " " ++ more) h.0,
        )
        (rw (byte, hex_values-grid (i + 1) vs rest h.1 none_left) refl))

-- hexlike prints a storage of fewer than 2 ^ 32 bytes without an exception as two hexadecimal
-- digits and a space for each byte, with a bar before every byte 8 of a line of 16 and a line break
-- before every further line; the digits that are printed give the storage back.
pub hexlike-grid :
    (b : ByteBuffer)
    → All IsByte b.storage
    → size b < 2 ^ 32
    → (hexlike true b ≡ done (grid 0 b.storage ++ codes "  \n") b)
      × (pairs (hex_values (grid 0 b.storage ++ codes "  \n")) ≡ b.storage)
unfolding hexlike
hexlike-grid b h small =
    let one_more : size b + 1 ≡ suc (size b) = omega arith in
    (
      rw (one_more, hex_loop-grid b.storage 0 [] b refl (omega arith) small) refl,
      hex_values-grid 0 b.storage (codes "  \n") h refl,
    )
