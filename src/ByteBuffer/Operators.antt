-- ===== src/ByteBuffer/Operators.antt =====
-- Statements such as `packet >> a >> b; b = f(b); packet.read_skip(n);`, as lists of what they do
-- one after another to the buffer and to the variables `S` that they assign.
pub mod Feed
pub mod Steady
use subiaoserver.Common.{ℕ, List, [], ◌∷◌, Outcome, done, throws, undefined, diverges, Exec, ◌>>◌}
use subiaoserver.Common.Words.{UInt}
use subiaoserver.ByteBuffer.{ByteBuffer, read, read_skip}

pub data Op (S : Type 0) : Type 0 where
  into : UInt → (ℕ → S → S) → Op S
  assign : (S → S) → Op S
  skip : ℕ → Op S

module _ {S : Type 0} where
  -- After a run on the buffer the variables are updated by its result, unless it throws.
  abbrev pub updating :
      {A : Type 0} → (A → S → S) → S → Outcome ByteBuffer A → Outcome (ByteBuffer × S) (Unit {0})
  updating set s (done a b) = done tt (b, set a s)
  updating set s (throws e b) = throws e (b, s)
  updating set s undefined = undefined
  updating set s diverges = diverges

  unfoldable pub run_op : Op S → Exec (ByteBuffer × S) (Unit {0})
  run_op (into t set) (b, s) = updating set s (read t b)
  run_op (assign f) (b, s) = done tt (b, f s)
  run_op (skip n) (b, s) = updating (λ _ s. s) s (read_skip n b)

  unfoldable pub run_ops : List (Op S) → Exec (ByteBuffer × S) (Unit {0})
  unfolding run_op
  run_ops [] st = done tt st
  run_ops (op ∷ ops) st = (do run_op op; run_ops ops) st
