-- ===== src/ByteBuffer/Memcpy.antt =====
-- Copying into a vector or a receive buffer: `memcpy` at a position that is not past the end.
use subiaoserver.Common.{
  length-drop, ℕ, zero, suc, ◌+◌, ◌≤◌, ◌≡◌, refl, ap, arith, List, [], ◌∷◌, ◌++◌, append_assoc,
  length, length-append, length-take, take, drop, get_or, take-append, drop-append, drop-drop,
}
use subiaoserver.ByteBuffer.{memcpy}
use native.Mathlib.Nat.{zero-add, suc-add}

-- One copy behind another is a copy of both.
pub memcpy-memcpy :
    (pos : ℕ) (ys zs xs : List ℕ)
    → pos ≤ length xs
    → memcpy (pos + length ys) zs (memcpy pos ys xs) ≡ memcpy pos (ys ++ zs) xs
memcpy-memcpy zero ys zs xs h =
    rw
      (
        zero-add (length ys),
        zero-add (length (ys ++ zs)),
        take-append ys (drop (length ys) xs) (length ys) refl,
        ← drop-drop (length ys) (length zs),
        drop-append ys (drop (length ys) xs) (length ys) refl,
      )
      (rw (drop-drop (length ys) (length zs) xs, append_assoc, length-append))
memcpy-memcpy (suc n) ys zs [] h = absurd (omega arith)
memcpy-memcpy (suc n) ys zs (x ∷ xs) h =
    simp suc-add (ap (◌∷◌ x) (memcpy-memcpy n ys zs xs (omega arith)))

pub take-memcpy :
    (pos : ℕ) (ys xs : List ℕ)
    → pos ≤ length xs
    → take (pos + length ys) (memcpy pos ys xs) ≡ take pos xs ++ ys
take-memcpy zero ys xs h =
    rw (zero-add (length ys)) (take-append ys (drop (length ys) xs) (length ys) refl)
take-memcpy (suc n) ys [] h = absurd (omega arith)
take-memcpy (suc n) ys (x ∷ xs) h = simp suc-add (ap (◌∷◌ x) (take-memcpy n ys xs (omega arith)))

get_or-append_left :
    (ys zs : List ℕ) (i : ℕ) → suc i ≤ length ys → get_or (ys ++ zs) i 0 ≡ get_or ys i 0
get_or-append_left [] zs i h = absurd (omega arith)
get_or-append_left (y ∷ ys) zs zero h = refl
get_or-append_left (y ∷ ys) zs (suc i) h = get_or-append_left ys zs i (omega arith)

-- The byte `i` of what was copied.
pub get_or-memcpy :
    (pos i : ℕ) (ys xs : List ℕ)
    → pos ≤ length xs
    → suc i ≤ length ys
    → get_or (memcpy pos ys xs) (pos + i) 0 ≡ get_or ys i 0
get_or-memcpy zero i ys xs h hi =
    rw (zero-add (length ys), zero-add i) (get_or-append_left ys (drop (length ys) xs) i hi)
get_or-memcpy (suc n) i ys [] h hi = absurd (omega arith)
get_or-memcpy (suc n) i ys (x ∷ xs) h hi = simp suc-add (get_or-memcpy n i ys xs (omega arith) hi)

pub length-memcpy :
    (pos : ℕ) (ys xs : List ℕ) → pos ≤ length xs → pos + length ys ≤ length (memcpy pos ys xs)
length-memcpy zero ys xs h =
    rw (zero-add (length ys)) (omega (arith, length-append ys (drop (length ys) xs)))
length-memcpy (suc n) ys [] h = absurd (omega arith)
length-memcpy (suc n) ys (x ∷ xs) h =
    simp suc-add (omega (arith, length-memcpy n ys xs (omega arith)))

-- What was copied lies where it was copied to.
pub take-drop-memcpy :
    (pos n : ℕ) (ys xs : List ℕ)
    → pos ≤ length xs
    → n ≡ length ys
    → take n (drop pos (memcpy pos ys xs)) ≡ ys
take-drop-memcpy zero n ys xs h e = take-append ys _ n e
take-drop-memcpy (suc pos) n ys [] h e = absurd (omega arith)
take-drop-memcpy (suc pos) n ys (x ∷ xs) h e =
    simp suc-add (take-drop-memcpy pos n ys xs (omega arith) e)

-- A copy within some bytes leaves their number.
pub length-memcpy_within :
    (pos : ℕ) (ys xs : List ℕ) → pos + length ys ≤ length xs → length (memcpy pos ys xs) ≡ length xs
length-memcpy_within zero ys xs h =
    rw (zero-add (length ys))
      (omega (arith, length-append ys (drop (length ys) xs), length-drop (length ys) xs))
length-memcpy_within (suc pos) ys [] h = absurd (omega arith)
length-memcpy_within (suc pos) ys (x ∷ xs) h =
    simp suc-add (ap suc (length-memcpy_within pos ys xs (omega arith)))

-- The bytes that are copied lie within the list, which stays below `n`.
pub length-memcpy_bounds :
    (n pos : ℕ) (src xs : List ℕ)
    → pos ≤ length xs
    → length xs ≤ n
    → pos + length src ≤ n
    → (pos + length src ≤ length (memcpy pos src xs)) × (length (memcpy pos src xs) ≤ n)
length-memcpy_bounds n pos src xs inside small fits = omega (
  arith,
  length-append (take pos xs) (src ++ drop (pos + length src) xs),
  length-append src (drop (pos + length src) xs),
  length-take pos xs,
  length-drop (pos + length src) xs,
)
