-- ===== src/Common/Runs.antt =====
-- Runs of C++ code over a state: the exceptions of ByteBuffer.h, undefined behaviour, and loops
-- that do not end, each as a value of its own.
use Prim.Native.Nat.{ℕ}
use mathlib.Core.Bool.{Bool}

-- The arguments stand in the order in which the constructors in ByteBuffer.h take them.
pub data ByteBufferException : Type 0 where
  exception : ByteBufferException
  position_exception : Bool → ℕ → ℕ → ℕ → ByteBufferException
  source_exception : ℕ → ℕ → ℕ → ByteBufferException

-- A thrown exception leaves the state as it was at the throw.
pub data Outcome (S A : Type 0) : Type 0 where
  done : A → S → Outcome S A
  throws : ByteBufferException → S → Outcome S A
  undefined : Outcome S A
  diverges : Outcome S A

abbrev pub Exec : Type 0 → Type 0 → Type 0
Exec S A = S → Outcome S A

module _ {S A B : Type 0} where
  abbrev pub and_then : Outcome S A → (A → Exec S B) → Outcome S B
  and_then (done a s) k = k a s
  and_then (throws e s) k = throws e s
  and_then undefined k = undefined
  and_then diverges k = diverges

  infixl 5 ◌>>=◌ ◌>>◌
  abbrev pub ◌>>=◌ : Exec S A → (A → Exec S B) → Exec S B
  ◌>>=◌ m k s = and_then (m s) k

  abbrev pub ◌>>◌ : Exec S A → Exec S B → Exec S B
  ◌>>◌ m n s = and_then (m s) (λ _. n)

module _ {S A : Type 0} where
  abbrev pub pure : A → Exec S A
  pure a s = done a s

  abbrev pub throw : ByteBufferException → Exec S A
  throw e s = throws e s

  abbrev pub is_undefined : Exec S A
  is_undefined s = undefined

abbrev pub modify : {S : Type 0} → (S → S) → Exec S (Unit {0})
modify f s = done tt (f s)

abbrev pub get : {S : Type 0} → Exec S S
get s = done s s
