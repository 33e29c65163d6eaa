-- ===== src/ByteBuffer/Escape/Spec.antt =====
-- The escaping of the protocol on lists of bytes.
use subiaoserver.Common.{
  ℕ, ◌≤◌, ◌≡◌, ◌≢◌, ◌∙◌, refl, arith, Bool, true, false, List, [], ◌∷◌, ◌++◌, ◌*◌, length-append,
  ◌==◌, if◌then◌else◌, length, All, ◌⊎◌, inl, inr, Bool-cases, All-append,
}
use subiaoserver.ByteBuffer.Escape.{escaped, unescaped}

unfoldable pub escape : List ℕ → List ℕ
escape [] = []
escape (c ∷ cs) = escaped c ++ escape cs

-- The bytes before the end or before a trailing escape byte, and whether there is none.
unfoldable pub unescape : List ℕ → List ℕ × Bool
unescape [] = ([], true)
unescape (c ∷ []) = if c == 0x7d then ([], false) else (c ∷ [], true)
unescape (c ∷ d ∷ cs) = elim (c == 0x7d) [
  | false ↦ (let (ys, whole) = unescape (d ∷ cs) in (c ∷ ys, whole))
  | true ↦ elim (d == 2) [
    | true ↦ (let (ys, whole) = unescape cs in (0x7e ∷ ys, whole))
    | false ↦ elim (d == 1) [
      | true ↦ (let (ys, whole) = unescape cs in (0x7d ∷ ys, whole))
      | false ↦ (let (ys, whole) = unescape (d ∷ cs) in (c ∷ ys, whole))
    ]
  ]
]

escaped-ne-sign : (c : ℕ) → All (λ x. x ≢ 0x7e) (escaped c)
escaped-ne-sign c = ground arith

escaped_cases :
    (c : ℕ) → ((c ≢ 0x7d) × (escaped c ≡ c ∷ [])) ⊎ ((d : ℕ) × (escaped c ≡ 0x7d ∷ d ∷ []))
escaped_cases c = elim (Bool-cases (c == 0x7e)) [
  | inl sign ↦ inr (2, rw sign)
  | inr other ↦ elim (Bool-cases (c == 0x7d)) [
    | inl esc ↦ inr (1, rw (other, esc))
    | inr plain ↦ inl (ground arith, rw (other, plain))
  ]
]

-- Nothing that `escape` makes is a sync byte.
pub escape-ne-sign : (cs : List ℕ) → All (λ c. c ≢ 0x7e) (escape cs)
unfolding escape
escape-ne-sign [] = tt
escape-ne-sign (c ∷ cs) =
    All-append _ (escaped c) (escape cs) (escaped-ne-sign c) (escape-ne-sign cs)

-- One round of the decoder on two bytes, and what it leaves to decode.
abbrev pub next_byte : ℕ → ℕ → ℕ × ℕ
next_byte c d = if c == 0x7d then unescaped c d else (c, 1)

pub unescape_cases :
    (c d : ℕ) (cs : List ℕ)
    → (((next_byte c d).1 ≡ 2)
        × (unescape (c ∷ d ∷ cs) ≡ ((next_byte c d).0 ∷ (unescape cs).0, (unescape cs).1)))
      ⊎ (((next_byte c d).1 ≡ 1)
          × (unescape (c ∷ d ∷ cs)
              ≡ ((next_byte c d).0 ∷ (unescape (d ∷ cs)).0, (unescape (d ∷ cs)).1)))
unfolding unescape
unescape_cases c d cs = elim (Bool-cases (c == 0x7d)) [
  | inr plain ↦ inr (rw plain, ground arith)
  | inl esc ↦ elim (Bool-cases (d == 2)) [
    | inl sign ↦ inl (rw (esc, sign), ground arith)
    | inr other ↦ elim (Bool-cases (d == 1)) [
      | inl escape ↦ inl (rw (esc, other, escape), ground arith)
      | inr neither ↦ inr (rw (esc, other, neither), ground arith)
    ]
  ]
]

unescape_pair :
    (c d : ℕ) (cs : List ℕ)
    → escaped c ≡ 0x7d ∷ d ∷ []
    → unescape (0x7d ∷ d ∷ cs) ≡ (c ∷ (unescape cs).0, (unescape cs).1)
unfolding unescape
unescape_pair c d cs h = ground arith

unescape_plain :
    (c : ℕ) (cs : List ℕ) → c ≢ 0x7d → unescape (c ∷ cs) ≡ (c ∷ (unescape cs).0, (unescape cs).1)
unfolding unescape
unescape_plain c [] h = ground arith
unescape_plain c (d ∷ cs) h = ground arith

-- Unescaping takes back what `escape` did, whatever follows.
pub unescape-escape :
    (xs ys : List ℕ) → unescape (escape xs ++ ys) ≡ (xs ++ (unescape ys).0, (unescape ys).1)
unfolding escape
unescape-escape [] ys = refl
unescape-escape (c ∷ cs) ys = elim (escaped_cases c) [
  | inl (ne, e) ↦ rw e (unescape_plain c (escape cs ++ ys) ne ∙ rw (unescape-escape cs ys))
  | inr (d, e) ↦ rw e (unescape_pair c d (escape cs ++ ys) e ∙ rw (unescape-escape cs ys))
]

-- Bytes that do not end in an escape byte are decoded to their end.
pub unescape_whole : (xs : List ℕ) (y : ℕ) → y ≢ 0x7d → (unescape (xs ++ y ∷ [])).1 ≡ true
unfolding unescape
unescape_whole [] y h = ground arith
unescape_whole (c ∷ []) y h = ground arith
unescape_whole (c ∷ d ∷ cs) y h = ground (arith, unescape_whole cs y h, unescape_whole (d ∷ cs) y h)

pub unescape_frame :
    (cs : List ℕ) → unescape (0x7e ∷ (escape cs ++ 0x7e ∷ [])) ≡ (0x7e ∷ (cs ++ 0x7e ∷ []), true)
unescape_frame cs =
    unescape_plain 0x7e (escape cs ++ 0x7e ∷ []) (omega arith)
    ∙ rw (unescape-escape cs (0x7e ∷ [])) (unfold unescape in refl)

pub length-escape : (cs : List ℕ) → length (escape cs) ≤ 2 * length cs
unfolding escape
length-escape [] = omega arith
length-escape (c ∷ cs) = ground (arith, length-append (escaped c) (escape cs), length-escape cs)
