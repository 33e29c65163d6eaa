-- ===== src/Common/Halts.antt =====
-- Runs that end, whatever the state is, one rule for each way to build a run.
use mathlib.Core.Bool.{Bool, true, false}
use mathlib.Core.Path.{subst}
use mathlib.Core.Logic.{◌≢◌}
use subiaoserver.Common.Tests.{if◌then◌else◌}
use subiaoserver.Common.Keeps.{Ends}
use subiaoserver.Common.Runs.{
  Outcome, done, throws, undefined, diverges, Exec, and_then, ◌>>=◌, ◌>>◌, pure, modify,
}

abbrev pub IsHalted : {S A : Type 0} → Outcome S A → Type 0
IsHalted (done a s) = Unit
IsHalted (throws e s) = Unit
IsHalted undefined = Unit
IsHalted diverges = ⊥

pub IsHalted-diverges : {S A : Type 0} (r : Outcome S A) → IsHalted r → r ≢ diverges
IsHalted-diverges r h e = subst IsHalted e h

pub record Halts {S A : Type 0} (m : Exec S A) : Type 0 where
  pub at : (s : S) → IsHalted (m s)

pub IsHalted-if :
    {S A : Type 0} (b : Bool) (r q : Outcome S A)
    → IsHalted r
    → IsHalted q
    → IsHalted (if b then r else q)
IsHalted-if true r q hr hq = hr
IsHalted-if false r q hr hq = hq

module _ {S A : Type 0} where
  pub Halts-pure : (a : A) → Halts {S = S} (pure a)
  Halts-pure a = record { at = λ s. tt }

  pub Halts-if :
      (b : S → Bool) (m n : Exec S A) → Halts m → Halts n → Halts (λ s. if b s then m s else n s)
  Halts-if b m n hm hn = record { at = λ s. IsHalted-if (b s) (m s) (n s) (hm.at s) (hn.at s) }

pub Halts-modify : {S : Type 0} (f : S → S) → Halts (modify f)
Halts-modify f = record { at = λ s. tt }

module _ {S A B : Type 0} where
  pub IsHalted-and_then :
      (r : Outcome S A) (k : A → Exec S B)
      → IsHalted r
      → ((a : A) → Halts (k a))
      → IsHalted (and_then r k)
  IsHalted-and_then (done a s) k h hk = (hk a).at s
  IsHalted-and_then (throws e s) k h hk = tt
  IsHalted-and_then undefined k h hk = tt
  IsHalted-and_then diverges k h hk = h

  -- The second part only halts where the first ends in a state of which `P` holds.
  pub IsHalted-from :
      (P : S → Type 0) (r : Outcome S A) (k : A → Exec S B)
      → IsHalted r
      → Ends P r
      → ((a : A) (s : S) → P s → IsHalted (k a s))
      → IsHalted (and_then r k)
  IsHalted-from P (done a s) k h e hk = hk a s e
  IsHalted-from P (throws x s) k h e hk = tt
  IsHalted-from P undefined k h e hk = tt
  IsHalted-from P diverges k h e hk = h

  pub Halts-bind :
      (m : Exec S A) (k : A → Exec S B) → Halts m → ((a : A) → Halts (k a)) → Halts (m >>= k)
  Halts-bind m k hm hk = record { at = λ s. IsHalted-and_then (m s) k (hm.at s) hk }

  pub Halts-then : (m : Exec S A) (n : Exec S B) → Halts m → Halts n → Halts (m >> n)
  Halts-then m n hm hn = record { at = λ s. IsHalted-and_then (m s) (λ _. n) (hm.at s) (λ _. hn) }

pub ruleset halts_rules = (Halts-pure, Halts-if, Halts-modify, Halts-bind, Halts-then)

-- A run that ends, and leaves a state of which `P` holds.
abbrev pub Stays : {S A : Type 0} → (S → Type 0) → Outcome S A → Type 0
Stays P (done a s) = P s
Stays P (throws e s) = P s
Stays P undefined = Unit
Stays P diverges = ⊥

pub Stays-if :
    {S A : Type 0} (P : S → Type 0) (b : Bool) (r q : Outcome S A)
    → Stays P r
    → Stays P q
    → Stays P (if b then r else q)
Stays-if P true r q hr hq = hr
Stays-if P false r q hr hq = hq

pub Stays-and_then :
    {S A B : Type 0} (P : S → Type 0) (r : Outcome S A) (k : A → Exec S B)
    → Stays P r
    → ((a : A) (s : S) → P s → Stays P (k a s))
    → Stays P (and_then r k)
Stays-and_then P (done a s) k h hk = hk a s h
Stays-and_then P (throws e s) k h hk = h
Stays-and_then P undefined k h hk = tt
Stays-and_then P diverges k h hk = h

pub Stays-IsHalted : {S A : Type 0} (P : S → Type 0) (r : Outcome S A) → Stays P r → IsHalted r
Stays-IsHalted P (done a s) h = tt
Stays-IsHalted P (throws e s) h = tt
Stays-IsHalted P undefined h = tt
Stays-IsHalted P diverges h = h

-- A run that ends, and where it does so without an exception it leaves a state of which `P` holds.
abbrev pub Leads : {S A : Type 0} → (S → Type 0) → Outcome S A → Type 0
Leads P (done a s) = P s
Leads P (throws e s) = Unit
Leads P undefined = Unit
Leads P diverges = ⊥

pub Leads-if :
    {S A : Type 0} (P : S → Type 0) (b : Bool) (r q : Outcome S A)
    → Leads P r
    → Leads P q
    → Leads P (if b then r else q)
Leads-if P true r q hr hq = hr
Leads-if P false r q hr hq = hq

pub Leads-Ends :
    {S A : Type 0} (P : S → Type 0) (r : Outcome S A) → IsHalted r → Ends P r → Leads P r
Leads-Ends P (done a s) h e = e
Leads-Ends P (throws x s) h e = tt
Leads-Ends P undefined h e = tt
Leads-Ends P diverges h e = h

pub Leads-IsHalted : {S A : Type 0} (P : S → Type 0) (r : Outcome S A) → Leads P r → IsHalted r
Leads-IsHalted P (done a s) h = tt
Leads-IsHalted P (throws x s) h = tt
Leads-IsHalted P undefined h = tt
Leads-IsHalted P diverges h = h

pub Leads-and_then :
    {S A B : Type 0} (P Q : S → Type 0) (r : Outcome S A) (k : A → Exec S B)
    → Leads P r
    → ((a : A) (s : S) → P s → Leads Q (k a s))
    → Leads Q (and_then r k)
Leads-and_then P Q (done a s) k h hk = hk a s h
Leads-and_then P Q (throws x s) k h hk = tt
Leads-and_then P Q undefined k h hk = tt
Leads-and_then P Q diverges k h hk = h
