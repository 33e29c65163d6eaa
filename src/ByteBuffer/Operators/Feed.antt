-- ===== src/ByteBuffer/Operators/Feed.antt =====
-- What a list of reads makes of the bytes that it finds.
use subiaoserver.Common.{
  ℕ, ◌+◌, ◌^◌, ◌≤◌, ◌<◌, ◌≡◌, sym, refl, ap, ◌∙◌, arith, false, List, [], ◌∷◌, ◌++◌, append-nil,
  append_assoc, length, take, drop, length-take, length-drop, take-append-drop, done, throws,
  ByteBufferException, Outcome, position_exception,
}
use subiaoserver.Common.Words.{UInt, sizeof, le_value}
use subiaoserver.ByteBuffer.{ByteBuffer, size, read, read_skip, advance}
use subiaoserver.ByteBuffer.Access.{
  Unread, advance-add, advance-Unread, read-Unread, read_skip-Unread, read-short, read_skip-short,
}
use subiaoserver.ByteBuffer.Operators.{Op, into, assign, skip, run_ops}
use native.Mathlib.Decide.{dec_lt}
use native.Mathlib.Nat.{add_assoc, add-zero}

module _ {S : Type 0} where
  -- The number of bytes that the reads take.
  abbrev pub demand : List (Op S) → ℕ
  demand [] = 0
  demand (into t set ∷ ops) = sizeof t + demand ops
  demand (assign f ∷ ops) = demand ops
  demand (skip n ∷ ops) = n + demand ops

  -- The variables after the reads from `bs`.
  abbrev pub feed : List (Op S) → List ℕ → S → S
  feed [] bs s = s
  feed (into t set ∷ ops) bs s =
      feed ops (drop (sizeof t) bs) (set (le_value (take (sizeof t) bs)) s)
  feed (assign f ∷ ops) bs s = feed ops bs (f s)
  feed (skip n ∷ ops) bs s = feed ops (drop n bs) s

-- The buffer after `n` bytes that were there have been read.
abbrev pub past : ℕ → ByteBuffer → ByteBuffer
past n b = record b { rpos = b.rpos + n }

module _ (b : ByteBuffer) (n : ℕ) (bs rest : List ℕ) (u : Unread b (bs ++ rest))
    (enough : n ≤ length bs) where
  split : Unread b (take n bs ++ (drop n bs ++ rest))
  split = rw (← append_assoc, take-append-drop n bs) u

  taken : length (take n bs) ≡ n
  taken = omega (arith, length-take n bs)

  advance-past : advance n b ≡ past n b
  advance-past =
      ap (λ p. record b { rpos = p })
        (rw taken at (advance-add b (take n bs) (drop n bs ++ rest) split))

  pub past-Unread : Unread (past n b) (drop n bs ++ rest)
  past-Unread =
      rw (← advance-past) (rw taken at (advance-Unread b (take n bs) (drop n bs ++ rest) split))

  pub read-past : (t : UInt) → sizeof t ≡ n → read t b ≡ done (le_value (take n bs)) (past n b)
  read-past t e =
      read-Unread b (take n bs) (drop n bs ++ rest) split t (taken ∙ sym e) ∙ rw (e, advance-past)

  pub read_skip-past : read_skip n b ≡ done tt (past n b)
  read_skip-past =
      rw taken at (read_skip-Unread b (take n bs) (drop n bs ++ rest) split) ∙ rw advance-past

-- Where the bytes are unread in a storage below 2 ^ 64 bytes, the reads of a sequence of reads,
-- assignments and skips succeed, the variables are those of `feed`, and the read cursor stands
-- behind the bytes.
pub run_ops-feed :
    {S : Type 0} (ops : List (Op S)) (b : ByteBuffer) (s : S) (bs rest : List ℕ)
    → Unread b (bs ++ rest)
    → length bs ≡ demand ops
    → run_ops ops (b, s) ≡ done tt (past (demand ops) b, feed ops bs s)
unfolding run_ops
run_ops-feed [] b s bs rest u e = rw add-zero
run_ops-feed (into t set ∷ ops) b s bs rest u e =
    rw (read-past b (sizeof t) bs rest u (omega arith) t refl) (
      run_ops-feed ops (past (sizeof t) b) _ (drop (sizeof t) bs) rest
        (past-Unread b (sizeof t) bs rest u (omega arith))
        (omega (arith, length-drop (sizeof t) bs))
      ∙ rw add_assoc)
run_ops-feed (assign f ∷ ops) b s bs rest u e = run_ops-feed ops b (f s) bs rest u e
run_ops-feed (skip n ∷ ops) b s bs rest u e = rw (read_skip-past b n bs rest u (omega arith)) (
    run_ops-feed ops (past n b) s (drop n bs) rest (past-Unread b n bs rest u (omega arith))
      (omega (arith, length-drop n bs))
    ∙ rw add_assoc)

abbrev pub Throws : {S A : Type 0} → Outcome S A → Type 0
Throws {S} {A} r = (e : ByteBufferException) × (s : S) × (r ≡ throws e s)

-- Where the unread bytes are fewer than a sequence of reads, assignments and skips takes, and no
-- position wraps, one of the reads throws.
pub run_ops-Throws :
    {S : Type 0} (ops : List (Op S)) (b : ByteBuffer) (s : S) (bs : List ℕ)
    → Unread b bs
    → size b + demand ops < 2 ^ 64
    → length bs < demand ops
    → Throws (run_ops ops (b, s))
unfolding run_ops
run_ops-Throws [] b s bs u h short = absurd (omega arith)
run_ops-Throws (into t set ∷ ops) b s bs u h short = elim (dec_lt (length bs) (sizeof t)) [
  | yes missing ↦ (
    position_exception false b.rpos (sizeof t) (size b),
    (b, s),
    rw (read-short t b bs u (omega arith) missing),
  )
  | no there ↦
      let u' : Unread b (bs ++ []) = rw append-nil u in
      let later = rw append-nil at (past-Unread b (sizeof t) bs [] u' (omega arith)) in
      rw (read-past b (sizeof t) bs [] u' (omega arith) t refl) (
        run_ops-Throws ops (past (sizeof t) b) _ (drop (sizeof t) bs) later (omega arith)
          (omega (arith, length-drop (sizeof t) bs)))
]
run_ops-Throws (assign f ∷ ops) b s bs u h short = run_ops-Throws ops b (f s) bs u h short
run_ops-Throws (skip n ∷ ops) b s bs u h short = elim (dec_lt (length bs) n) [
  | yes missing ↦ (
    position_exception false b.rpos n (size b),
    (b, s),
    rw (read_skip-short n b bs u (omega arith) missing),
  )
  | no there ↦
      let u' : Unread b (bs ++ []) = rw append-nil u in
      let later = rw append-nil at (past-Unread b n bs [] u' (omega arith)) in
      rw (read_skip-past b n bs [] u' (omega arith)) (
        run_ops-Throws ops (past n b) s (drop n bs) later (omega arith)
          (omega (arith, length-drop n bs)))
]
