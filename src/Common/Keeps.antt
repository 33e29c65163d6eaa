-- ===== src/Common/Keeps.antt =====
-- What runs leave as it was, one rule for each way to build a run.
use mathlib.Core.Bool.{Bool, true, false}
use subiaoserver.Common.Tests.{if◌then◌else◌}
use subiaoserver.Common.Runs.{
  Outcome, done, throws, undefined, diverges, Exec, and_then, ◌>>=◌, ◌>>◌, pure, modify,
}

-- A run that ends, or throws, leaves a state of which `P` holds.
abbrev pub Ends : {S A : Type 0} → (S → Type 0) → Outcome S A → Type 0
Ends P (done a s) = P s
Ends P (throws e s) = P s
Ends P undefined = Unit
Ends P diverges = Unit

pub record Keeps {S A : Type 0} (P : S → Type 0) (m : Exec S A) : Type 0 where
  pub at : (s : S) → P s → Ends P (m s)

pub Ends-if :
    {S A : Type 0} (P : S → Type 0) (b : Bool) (r q : Outcome S A)
    → Ends P r
    → Ends P q
    → Ends P (if b then r else q)
Ends-if P true r q hr hq = hr
Ends-if P false r q hr hq = hq

module _ {S A : Type 0} {P : S → Type 0} where
  pub Keeps-pure : (a : A) → Keeps P (pure a)
  Keeps-pure a = record { at = λ s h. h }

  -- A test of the state.
  pub Keeps-if :
      (b : S → Bool) (m n : Exec S A)
      → Keeps P m
      → Keeps P n
      → Keeps P (λ s. if b s then m s else n s)
  Keeps-if b m n km kn = record { at = λ s h. Ends-if P (b s) (m s) (n s) (km.at s h) (kn.at s h) }

module _ {S A B : Type 0} {P : S → Type 0} where
  Ends-and_then :
      (r : Outcome S A) (k : A → Exec S B)
      → Ends P r
      → ((a : A) → Keeps P (k a))
      → Ends P (and_then r k)
  Ends-and_then (done a s) k h kk = (kk a).at s h
  Ends-and_then (throws e s) k h kk = h
  Ends-and_then undefined k h kk = tt
  Ends-and_then diverges k h kk = tt

  pub Keeps-bind :
      (m : Exec S A) (k : A → Exec S B) → Keeps P m → ((a : A) → Keeps P (k a)) → Keeps P (m >>= k)
  Keeps-bind m k km kk = record { at = λ s h. Ends-and_then (m s) k (km.at s h) kk }

  pub Keeps-then : (m : Exec S A) (n : Exec S B) → Keeps P m → Keeps P n → Keeps P (m >> n)
  Keeps-then m n km kn = record { at = λ s h. Ends-and_then (m s) (λ _. n) (km.at s h) (λ _. kn) }

pub Keeps-modify :
    {S : Type 0} {P : S → Type 0} (f : S → S) → ((s : S) → P s → P (f s)) → Keeps P (modify f)
Keeps-modify f kf = record { at = kf }

pub ruleset keeps_rules = (Keeps-pure, Keeps-if, Keeps-bind, Keeps-then)

-- The same, with what is said of the result.
abbrev pub Returns : {S A : Type 0} → (A → Type 0) → (S → Type 0) → Outcome S A → Type 0
Returns R P (done a s) = R a × P s
Returns R P (throws e s) = P s
Returns R P undefined = Unit
Returns R P diverges = Unit

pub record Gives {S A : Type 0} (R : A → Type 0) (P : S → Type 0) (m : Exec S A) : Type 0 where
  pub at : (s : S) → P s → Returns R P (m s)

module _ {S A B : Type 0} {R : A → Type 0} {P : S → Type 0} where
  Ends-Returns :
      (r : Outcome S A) (k : A → Exec S B)
      → Returns R P r
      → ((a : A) → R a → Keeps P (k a))
      → Ends P (and_then r k)
  Ends-Returns (done a s) k h kk = (kk a h.0).at s h.1
  Ends-Returns (throws e s) k h kk = h
  Ends-Returns undefined k h kk = tt
  Ends-Returns diverges k h kk = tt

  pub Keeps-from :
      (m : Exec S A) (k : A → Exec S B)
      → Gives R P m
      → ((a : A) → R a → Keeps P (k a))
      → Keeps P (m >>= k)
  Keeps-from m k km kk = record { at = λ s h. Ends-Returns (m s) k (km.at s h) kk }

module _ {S A B : Type 0} {R : A → Type 0} {T : B → Type 0} {P : S → Type 0} where
  Returns-and_then :
      (r : Outcome S A) (k : A → Exec S B)
      → Returns R P r
      → ((a : A) → R a → Gives T P (k a))
      → Returns T P (and_then r k)
  Returns-and_then (done a s) k h kk = (kk a h.0).at s h.1
  Returns-and_then (throws e s) k h kk = h
  Returns-and_then undefined k h kk = tt
  Returns-and_then diverges k h kk = tt

  pub Gives-bind :
      (m : Exec S A) (k : A → Exec S B)
      → Gives R P m
      → ((a : A) → R a → Gives T P (k a))
      → Gives T P (m >>= k)
  Gives-bind m k km kk = record { at = λ s h. Returns-and_then (m s) k (km.at s h) kk }
