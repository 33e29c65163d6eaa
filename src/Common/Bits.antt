-- ===== src/Common/Bits.antt =====
-- `|` and `&` on numbers, at the shapes that the code has: fields that do not overlap, masks of
-- ones, and a single bit.
use Prim.Native.Nat.{min, max, digits, bit_and, bit_or, bit_and-bitwise, bit_or-bitwise}
use Prim.Native.Nat.{ℕ, zero, suc, ◌+◌, ◌*◌, ◌/◌, ◌%◌, ◌^◌, ◌≤◌, ◌<◌}
use mathlib.Core.Path.{◌≡◌, refl, sym, ◌∙◌}
use native.Mathlib.Omega.{arith}
use native.Mathlib.Nat.{pow-suc}

-- An operation `op` that combines the binary digits by `f`, and leaves `z b` where the first number
-- has none.
module _ (z : ℕ → ℕ) (f op : ℕ → ℕ → ℕ) (law : (a b : ℕ) → op a b ≡ digits z f a a b)
    (left : (b : ℕ) → z b ≡ z (b / 2) * 2 + f 0 (b % 2)) where
  without_digits : (n b : ℕ) → digits z f n 0 b ≡ z b
  without_digits zero b = refl
  without_digits (suc n) b = refl

  -- Any number of rounds from `a` on is enough.
  rounds : (n a m b : ℕ) → a ≤ n → a ≤ m → digits z f n a b ≡ digits z f m a b
  rounds n zero m b p q = without_digits n b ∙ sym (without_digits m b)
  rounds zero (suc a) m b p q = absurd (omega arith)
  rounds (suc n) (suc a) zero b p q = absurd (omega arith)
  rounds (suc n) (suc a) (suc m) b p q =
      let high = rounds n (suc a / 2) m (b / 2) (omega arith) (omega arith) in omega (arith, high)

  by_digit : (a b : ℕ) → op a b ≡ op (a / 2) (b / 2) * 2 + f (a % 2) (b % 2)
  by_digit zero b = omega (arith, left b, law 0 b, law 0 (b / 2))
  by_digit (suc a) b =
      let h = suc a / 2 in
      let same = rounds a h h (b / 2) (omega arith) (omega arith) in
      omega (arith, same, law (suc a) b, law h (b / 2))

  -- Where the second number has no digits.
  module _ (r : ℕ → ℕ) (right : (a : ℕ) → r a ≡ r (a / 2) * 2 + f (a % 2) 0)
      (none : r 0 ≡ z 0) where
    zero_behind : (n a : ℕ) → a ≤ n → op a 0 ≡ r a
    zero_behind n zero p = law 0 0 ∙ sym none
    zero_behind zero (suc a) p = absurd (omega arith)
    zero_behind (suc n) (suc a) p =
        let high = zero_behind n (suc a / 2) (omega arith) in
        omega (arith, by_digit (suc a) 0, right (suc a), high)

bit_or_digit : (a b : ℕ) → bit_or a b ≡ bit_or (a / 2) (b / 2) * 2 + max (a % 2) (b % 2)
bit_or_digit = by_digit (λ b. b) max bit_or bit_or-bitwise (λ b. omega arith)

bit_and_digit : (a b : ℕ) → bit_and a b ≡ bit_and (a / 2) (b / 2) * 2 + min (a % 2) (b % 2)
bit_and_digit = by_digit (λ b. 0) min bit_and bit_and-bitwise (λ b. omega arith)

bit_or-zero : (a : ℕ) → bit_or a 0 ≡ a
bit_or-zero a =
    zero_behind (λ b. b) max bit_or bit_or-bitwise (λ b. omega arith) (λ a. a) (λ a. omega arith)
      refl a a (omega arith)

bit_and-zero : (a : ℕ) → bit_and a 0 ≡ 0
bit_and-zero a =
    zero_behind (λ b. 0) min bit_and bit_and-bitwise (λ b. omega arith) (λ a. 0) (λ a. omega arith)
      refl a a (omega arith)

-- Fields that do not overlap: `|` is the sum.
pub bit_or-shifted : (k a b : ℕ) → a < 2 ^ k → bit_or a (b * 2 ^ k) ≡ a + b * 2 ^ k
bit_or-shifted zero zero b h = omega (arith, bit_or-bitwise 0 (b * 2 ^ 0))
bit_or-shifted zero (suc a) b h = absurd (omega arith)
bit_or-shifted (suc k) a b h =
    let q = b * 2 ^ k in
    let twice : b * 2 ^ suc k ≡ q * 2 = rw (pow-suc 2 k) (omega arith) in
    let half : q * 2 / 2 ≡ q = omega arith in
    rw twice (
      omega (
        arith,
        rw half at (bit_or_digit a (q * 2)),
        bit_or-shifted k (a / 2) b (omega (arith, pow-suc 2 k)),
      ))

-- The same with the higher field first.
shifted-bit_or : (k a b : ℕ) → a < 2 ^ k → bit_or (b * 2 ^ k) a ≡ b * 2 ^ k + a
shifted-bit_or zero zero b h = omega (arith, bit_or-zero (b * 2 ^ 0))
shifted-bit_or zero (suc a) b h = absurd (omega arith)
shifted-bit_or (suc k) a b h =
    let q = b * 2 ^ k in
    let twice : b * 2 ^ suc k ≡ q * 2 = rw (pow-suc 2 k) (omega arith) in
    let half : q * 2 / 2 ≡ q = omega arith in
    rw twice (
      omega (
        arith,
        rw half at (bit_or_digit (q * 2) a),
        shifted-bit_or k (a / 2) b (omega (arith, pow-suc 2 k)),
      ))

pub bit_or-below : (k h v a : ℕ) → v ≡ h * 2 ^ k → a < 2 ^ k → bit_or v a ≡ v + a
bit_or-below k h v a e small = rw e (shifted-bit_or k a h small)

pub bit_and-one : (a : ℕ) → bit_and a 1 ≡ a % 2
bit_and-one a = omega (arith, bit_and_digit a 1, bit_and-zero (a / 2))

pub bit_and-15 : (a : ℕ) → bit_and a 15 ≡ a % 16
bit_and-15 a = omega (
  arith,
  bit_and_digit a 15,
  bit_and_digit (a / 2) 7,
  bit_and_digit (a / 2 / 2) 3,
  bit_and-one (a / 2 / 2 / 2),
)

pub bit_and-31 : (a : ℕ) → bit_and a 31 ≡ a % 32
bit_and-31 a = omega (arith, bit_and_digit a 31, bit_and-15 (a / 2))

pub bit_and-63 : (a : ℕ) → bit_and a 63 ≡ a % 64
bit_and-63 a = omega (arith, bit_and_digit a 63, bit_and-31 (a / 2))

pub bit_and-255 : (a : ℕ) → bit_and a 255 ≡ a % 256
bit_and-255 a =
    omega (arith, bit_and_digit a 255, bit_and_digit (a / 2) 127, bit_and-63 (a / 2 / 2))

-- The number without its `k` lowest digits.
abbrev pub halves : ℕ → ℕ → ℕ
halves zero a = a
halves (suc k) a = halves k (a / 2)

halves-suc : (k a : ℕ) → halves (suc k) a ≡ halves k a / 2
halves-suc zero a = refl
halves-suc (suc k) a = halves-suc k (a / 2)

pub halves-add_one : (k a : ℕ) → halves (k + 1) a ≡ halves k a / 2
halves-add_one k a = let e : k + 1 ≡ suc k = omega arith in rw e (halves-suc k a)

-- The digit `k` alone.
pub bit_and-power : (k a : ℕ) → bit_and a (2 ^ k) ≡ halves k a % 2 * 2 ^ k
bit_and-power zero a = omega (arith, bit_and-one a)
bit_and-power (suc k) a =
    let half : 2 ^ suc k / 2 ≡ 2 ^ k = omega (arith, pow-suc 2 k) in
    let d = halves k (a / 2) % 2 in
    let twice : d * 2 ^ suc k ≡ d * 2 ^ k * 2 = rw (pow-suc 2 k) (omega arith) in
    omega
      (arith, pow-suc 2 k, rw half at (bit_and_digit a (2 ^ suc k)), bit_and-power k (a / 2), twice)
