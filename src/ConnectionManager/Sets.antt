-- ===== src/ConnectionManager/Sets.antt =====
-- A `std::set` of addresses: its elements in their order, each once.
use subiaoserver.Common.{
  ℕ, suc, ◌<◌, ◌≡◌, refl, arith, Bool, true, false, ◌||◌, List, [], ◌∷◌, ltb, ◌==◌, if◌then◌else◌,
  All,
}

unfoldable pub contains : ℕ → List ℕ → Bool
contains i [] = false
contains i (j ∷ js) = (i == j) || contains i js

unfoldable pub insert : ℕ → List ℕ → List ℕ
insert i [] = i ∷ []
insert i (j ∷ js) =
    let rest = insert i js in if ltb i j then i ∷ (j ∷ js) else if i == j then j ∷ js else j ∷ rest

unfoldable pub erase : ℕ → List ℕ → List ℕ
erase i [] = []
erase i (j ∷ js) = let rest = erase i js in if i == j then js else j ∷ rest

abbrev pub IsSorted : List ℕ → Type 0
IsSorted [] = Unit
IsSorted (j ∷ js) = All (λ k. j < k) js × IsSorted js

pub contains-above :
    (i j : ℕ) (js : List ℕ) → i < suc j → All (λ k. j < k) js → contains i js ≡ false
unfolding contains
contains-above i j [] h above = refl
contains-above i j (k ∷ js) h above = ground (arith, contains-above i j js h above.1)

pub contains-insert :
    (k i : ℕ) (s : List ℕ) → contains k (insert i s) ≡ (if k == i then true else contains k s)
unfolding contains insert
contains-insert k i [] = ground arith
contains-insert k i (j ∷ js) = ground (arith, contains-insert k i js)

pub contains-erase :
    (k i : ℕ) (s : List ℕ)
    → IsSorted s
    → contains k (erase i s) ≡ (if k == i then false else contains k s)
unfolding contains erase
contains-erase k i [] h = ground arith
contains-erase k i (j ∷ js) h = ground (arith, contains-erase k i js h.1, contains-above k j js)

All-above : (i j : ℕ) (js : List ℕ) → i < j → All (λ k. j < k) js → All (λ k. i < k) js
All-above i j [] h above = tt
All-above i j (k ∷ js) h above = (omega arith, All-above i j js h above.1)

All-insert : (j i : ℕ) (s : List ℕ) → j < i → All (λ k. j < k) s → All (λ k. j < k) (insert i s)
unfolding insert
All-insert j i [] h above = (h, tt)
All-insert j i (k ∷ s) h above = ground (arith, All-insert j i s h above.1)

pub insert-IsSorted : (i : ℕ) (s : List ℕ) → IsSorted s → IsSorted (insert i s)
unfolding insert
insert-IsSorted i [] h = (tt, tt)
insert-IsSorted i (j ∷ js) h =
    ground (arith, insert-IsSorted i js h.1, All-above i j js, All-insert j i js)

All-erase : (j i : ℕ) (s : List ℕ) → All (λ k. j < k) s → All (λ k. j < k) (erase i s)
unfolding erase
All-erase j i [] above = tt
All-erase j i (k ∷ s) above = ground (arith, All-erase j i s above.1)

pub erase-IsSorted : (i : ℕ) (s : List ℕ) → IsSorted s → IsSorted (erase i s)
unfolding erase
erase-IsSorted i [] h = tt
erase-IsSorted i (j ∷ js) h = ground (arith, erase-IsSorted i js h.1, All-erase j i js h.0)
