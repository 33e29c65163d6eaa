-- ===== src/ByteBuffer/PackedGuid/Packing.antt =====
-- The bytes into which a number is packed.
use Prim.Native.Nat.{bit_and, bit_or}
use subiaoserver.Common.{
  ℕ, zero, suc, ◌+◌, ◌*◌, ◌/◌, ◌%◌, ◌^◌, ◌≤◌, ◌<◌, ◌≡◌, ◌≢◌, refl, ◌∙◌, arith, List, [], ◌∷◌, ◌++◌,
  append-nil, append_assoc, ◌==◌, if◌then◌else◌, length, length-append, done, inl, inr, Bool-cases,
}
use subiaoserver.Common.Bits.{bit_or-shifted, bit_and-255}
use subiaoserver.ByteBuffer.{ByteBuffer}
use subiaoserver.ByteBuffer.PackedGuid.{pack_loop}
use native.Mathlib.Nat.{pow-suc, pow-le-pow_right}

-- Which of the `n` lowest bytes of `g` are not zero, as binary digits, and those bytes.
abbrev pub marks : ℕ → ℕ → ℕ
marks zero g = 0
marks (suc n) g = (if g % 256 == 0 then 0 else 1) + 2 * marks n (g / 256)

abbrev pub nonzero : ℕ → ℕ → List ℕ
nonzero zero g = []
nonzero (suc n) g = if g % 256 == 0 then nonzero n (g / 256) else (g % 256) ∷ nonzero n (g / 256)

unfoldable pub packed : ℕ → List ℕ
packed g = marks 8 g ∷ nonzero 8 g

marks-zero : (n : ℕ) → marks n 0 ≡ 0
marks-zero zero = refl
marks-zero (suc n) = omega (arith, marks-zero n)

nonzero-zero : (n : ℕ) → nonzero n 0 ≡ []
nonzero-zero zero = refl
nonzero-zero (suc n) = nonzero-zero n

pub power-le : (i n : ℕ) → i ≤ n → 2 ^ i ≤ 2 ^ n
power-le i n h = pow-le-pow_right (omega arith) h

marked : (i mark : ℕ) → i < 8 → mark < 2 ^ i → bit_or mark (2 ^ i % 256) ≡ mark + 2 ^ i
marked i mark h small =
    let fits : 2 ^ i % 256 ≡ 1 * 2 ^ i = omega (arith, power-le i 7 (omega arith)) in
    rw fits (omega (arith, bit_or-shifted i mark 1 small))

pub pow-add_one : (a i : ℕ) → a ^ (i + 1) ≡ a ^ i * a
pow-add_one a i = let e : i + 1 ≡ suc i = omega arith in rw e (pow-suc a i)

shift : (i d mark m : ℕ) → mark + d * 2 ^ i + m * 2 ^ (i + 1) ≡ mark + (d + 2 * m) * 2 ^ i
shift i d mark m = rw (pow-add_one 2 i) (omega arith)

module _ (fuel i g mark : ℕ) (out : List ℕ) (b : ByteBuffer) where
  pack-stop : g ≡ 0 → pack_loop (suc fuel) i g mark out b ≡ done (mark ∷ out) b
  unfolding pack_loop
  pack-stop e = ground arith

  pack-skip :
      g ≢ 0
      → g % 256 ≡ 0
      → i < 8
      → pack_loop (suc fuel) i g mark out b ≡ pack_loop fuel (i + 1) (g / 256) mark out b
  unfolding pack_loop
  pack-skip ne e h =
      let next : (i + 1) % 256 ≡ i + 1 = omega arith in ground (arith, bit_and-255 g, next)

  pack-mark :
      g % 256 ≢ 0
      → i < 8
      → mark < 2 ^ i
      → length out ≤ i
      → pack_loop (suc fuel) i g mark out b
        ≡ pack_loop fuel (i + 1) (g / 256) (mark + 2 ^ i) (out ++ (g % 256) ∷ []) b
  unfolding pack_loop
  pack-mark ne h hm hl =
      let next : (i + 1) % 256 ≡ i + 1 = omega arith in
      let low : bit_and g 0xff % 256 ≡ g % 256 = omega (arith, bit_and-255 g) in
      ground (arith, bit_and-255 g, next, low, marked i mark h hm)

pub pack_loop_lem :
    (n i g mark : ℕ) (out : List ℕ) (b : ByteBuffer)
    → g < 256 ^ n
    → mark < 2 ^ i
    → i + n ≤ 8
    → length out ≤ i
    → pack_loop (suc n) i g mark out b ≡ done ((mark + marks n g * 2 ^ i) ∷ (out ++ nonzero n g)) b
pack_loop_lem zero i g mark out b hg hm hi hl =
    pack-stop 0 i g mark out b (omega arith) ∙ rw append-nil (ground arith)
pack_loop_lem (suc n) i g mark out b hg hm hi hl = elim (Bool-cases (g == 0)) [
  | inl is_zero ↦
      let e : g ≡ 0 = ground arith in
      pack-stop (suc n) i g mark out b e
      ∙ rw (e, marks-zero (suc n), nonzero-zero (suc n), append-nil) (ground arith)
  | inr not_zero ↦ elim (Bool-cases (g % 256 == 0)) [
    | inl skipped ↦
        pack-skip (suc n) i g mark out b (ground arith) (ground arith) (omega arith)
        ∙ pack_loop_lem n (i + 1) (g / 256) mark out b (omega (arith, pow-suc 256 n))
            (omega (arith, pow-add_one 2 i)) (omega arith) (omega arith)
        ∙ rw skipped (ground (arith, shift i 0 mark (marks n (g / 256))))
    | inr kept ↦
        pack-mark (suc n) i g mark out b (ground arith) (omega arith) hm hl
        ∙ pack_loop_lem n (i + 1) (g / 256) (mark + 2 ^ i) (out ++ (g % 256) ∷ []) b
            (omega (arith, pow-suc 256 n)) (omega (arith, pow-add_one 2 i)) (omega arith)
            (omega (arith, length-append out ((g % 256) ∷ [])))
        ∙ rw (kept, append_assoc) (ground (arith, shift i 1 mark (marks n (g / 256))))
  ]
]
