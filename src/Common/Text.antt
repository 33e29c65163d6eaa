-- ===== src/Common/Text.antt =====
-- Texts as the list of their characters' codes, and numbers in decimal.
use Prim.Native.Char.{code}
use Prim.Native.String.{String}
use Prim.Native.Nat.{ℕ, zero, suc, ◌+◌, ◌-◌, ◌*◌, ◌/◌, ◌%◌, ◌^◌, ◌<◌}
use mathlib.Core.Path.{◌≡◌}
use native.Mathlib.Omega.{arith}
use native.Mathlib.Nat.{pow-suc}
use mathlib.Core.List.{List, [], ◌∷◌}
use subiaoserver.Common.Tests.{ltb, if◌then◌else◌}

abbrev pub codes : String → List ℕ
codes String.[] = []
codes (String.◌∷◌ c s) = code c ∷ codes s

unfoldable pub decimal_loop : ℕ → ℕ → List ℕ → List ℕ
decimal_loop zero n out = out
decimal_loop (suc fuel) n out =
    let more = decimal_loop fuel (n / 10) ((b'0' + n % 10) ∷ out) in
    if ltb n 10 then (b'0' + n) ∷ out else more

-- `<<` of a `size_t` to a stream: 20 digits are enough.
unfoldable pub decimal : ℕ → List ℕ
unfolding decimal_loop
decimal n = decimal_loop 20 n []

-- The number that digits stand for, behind those of `n`.
abbrev pub number_from : ℕ → List ℕ → ℕ
number_from n [] = n
number_from n (c ∷ cs) = number_from (n * 10 + (c - b'0')) cs

number_from-decimal_loop :
    (fuel n : ℕ) (out : List ℕ)
    → n < 10 ^ suc fuel
    → number_from 0 (decimal_loop (suc fuel) n out) ≡ number_from n out
unfolding decimal_loop
number_from-decimal_loop zero n out h = ground arith
number_from-decimal_loop (suc fuel) n out h =
    ground
      (arith, pow-suc 10 (suc fuel), number_from-decimal_loop fuel (n / 10) ((b'0' + n % 10) ∷ out))

-- A `size_t` is printed in full.
pub number_from-decimal : (n : ℕ) → n < 2 ^ 64 → number_from 0 (decimal n) ≡ n
unfolding decimal
number_from-decimal n h = number_from-decimal_loop 19 n [] (omega (arith, h))
