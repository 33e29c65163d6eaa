-- ===== src/ByteBuffer/Operators/Steady.antt =====
-- Reads end, and leave the escape buffer as it was.
use subiaoserver.Common.{
  ℕ, ◌+◌, ◌≡◌, refl, List, [], ◌∷◌, ltb, leb, ◌==◌, Outcome, done, throws, undefined, diverges,
}
use mathlib.Core.Path.{subst}
use subiaoserver.Common.Words.{UInt, sizeof}
use subiaoserver.Common.Halts.{Stays, Stays-if, Stays-and_then}
use subiaoserver.ByteBuffer.{
  ByteBuffer, size, size_add, read_at, read, read_skip, clearheader, contents,
}
use subiaoserver.ByteBuffer.Operators.{Op, into, assign, skip, updating, run_op, run_ops}

abbrev pub IsSteady : {A : Type 0} → List ℕ → Outcome ByteBuffer A → Type 0
IsSteady e r = Stays (λ b. b.escbuffer ≡ e) r

read-IsSteady : (t : UInt) (b : ByteBuffer) → IsSteady b.escbuffer (read t b)
unfolding read read_at
read-IsSteady t b =
    let P = λ (c : ByteBuffer). c.escbuffer ≡ b.escbuffer in
    Stays-and_then P (read_at t b.rpos b) _
      (unfold read_at in
        Stays-if P (ltb (size b) (size_add b.rpos (sizeof t))) _ _ refl
          (Stays-if P (ltb (size b) (b.rpos + sizeof t)) _ _ tt refl))
      (λ a s h. h)

read_skip-IsSteady : (n : ℕ) (b : ByteBuffer) → IsSteady b.escbuffer (read_skip n b)
unfolding read_skip
read_skip-IsSteady n b = Stays-if _ (ltb (size b) (size_add b.rpos n)) _ _ refl refl

pub clearheader-IsSteady : (b : ByteBuffer) → IsSteady b.escbuffer (clearheader b)
unfolding clearheader
clearheader-IsSteady b = Stays-if _ (leb (size b) b.rpos) _ _ tt refl

pub contents-IsSteady : (b : ByteBuffer) → IsSteady b.escbuffer (contents b)
unfolding contents
contents-IsSteady b = Stays-if _ (size b == 0) _ _ refl refl

module _ {S : Type 0} where
  abbrev pub AreSteady : List ℕ → Outcome (ByteBuffer × S) (Unit {0}) → Type 0
  AreSteady e r = Stays (λ st. st.0.escbuffer ≡ e) r

  updating-AreSteady :
      {A : Type 0} (e : List ℕ) (set : A → S → S) (s : S) (r : Outcome ByteBuffer A)
      → IsSteady e r
      → AreSteady e (updating set s r)
  updating-AreSteady e set s (done a b) h = h
  updating-AreSteady e set s (throws x b) h = h
  updating-AreSteady e set s undefined h = tt
  updating-AreSteady e set s diverges h = h

  run_op-AreSteady : (op : Op S) (st : ByteBuffer × S) → AreSteady st.0.escbuffer (run_op op st)
  unfolding run_op
  run_op-AreSteady (into t set) (b, s) = updating-AreSteady b.escbuffer set s _ (read-IsSteady t b)
  run_op-AreSteady (assign f) (b, s) = refl
  run_op-AreSteady (skip n) (b, s) =
      updating-AreSteady b.escbuffer (λ _ s. s) s _ (read_skip-IsSteady n b)

  pub run_ops-AreSteady :
      (ops : List (Op S)) (st : ByteBuffer × S) → AreSteady st.0.escbuffer (run_ops ops st)
  unfolding run_ops
  run_ops-AreSteady [] st = refl
  run_ops-AreSteady (op ∷ ops) st =
      Stays-and_then (λ s. s.0.escbuffer ≡ st.0.escbuffer) (run_op op st) _ (run_op-AreSteady op st)
        (λ _ s h. subst (λ e. AreSteady e (run_ops ops s)) h (run_ops-AreSteady ops s))
