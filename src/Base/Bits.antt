-- ===== src/Base/Bits.antt =====
-- The binary digits of a number, through `&`, `|` and `~` and through the mask `1 << b`.
use Prim.Native.Nat.{
  ℕ, zero, suc, ◌+◌, ◌-◌, ◌*◌, ◌/◌, ◌%◌, ◌^◌, ◌≤◌, ◌<◌, min, max, bit_and, bit_or, digits,
  bit_and-bitwise, bit_or-bitwise,
}
use mathlib.Core.Path.{◌≡◌, refl, ap, ◌∙◌}
use native.Mathlib.Nat.{pow-suc}
use native.Mathlib.Omega.{arith}
use socket.Base.Tests.{◌==◌, if◌then◌else◌}

-- The digit with weight `2 ^ j`.
abbrev pub digit : ℕ → ℕ → ℕ
digit w zero = w % 2
digit w (suc j) = digit (w / 2) j

pub digit-lt : (w j : ℕ) → digit w j < 2
digit-lt w zero = omega arith
digit-lt w (suc j) = digit-lt (w / 2) j

pub digit_of_zero : (j : ℕ) → digit 0 j ≡ 0
digit_of_zero zero = refl
digit_of_zero (suc j) = digit_of_zero j

digit_above : (q r j : ℕ) → r < 2 → digit ((q * 2 + r) / 2) j ≡ digit q j
digit_above q r j lt = ap (λ n. digit n j) (omega arith)

eq_zero_fuel : (n w : ℕ) → w ≤ n → ((j : ℕ) → digit w j ≡ 0) → w ≡ 0
eq_zero_fuel n zero le h = refl
eq_zero_fuel zero (suc w) le h = absurd (omega arith)
eq_zero_fuel (suc n) (suc w) le h =
    omega (arith, h 0, eq_zero_fuel n (suc w / 2) (omega arith) (λ j. h (suc j)))

-- A number whose digits are all 0 is 0.
pub eq_zero_of_digits : (w : ℕ) → ((j : ℕ) → digit w j ≡ 0) → w ≡ 0
eq_zero_of_digits w h = eq_zero_fuel w w (omega arith) h

and_digits :
    (n a b j : ℕ) → a ≤ n → digit (digits (λ _. 0) min n a b) j ≡ min (digit a j) (digit b j)
and_digits zero zero b j le = omega (arith, digit_of_zero j)
and_digits zero (suc a) b j le = absurd (omega arith)
and_digits (suc n) zero b j le = omega (arith, digit_of_zero j)
and_digits (suc n) (suc a) b zero le = omega arith
and_digits (suc n) (suc a) b (suc j) le =
    digit_above (digits (λ _. 0) min n (suc a / 2) (b / 2)) (min (suc a % 2) (b % 2)) j
      (omega arith)
    ∙ and_digits n (suc a / 2) (b / 2) j (omega arith)

or_digits :
    (n a b j : ℕ) → a ≤ n → digit (digits (λ y. y) max n a b) j ≡ max (digit a j) (digit b j)
or_digits zero zero b j le = omega (arith, digit_of_zero j)
or_digits zero (suc a) b j le = absurd (omega arith)
or_digits (suc n) zero b j le = omega (arith, digit_of_zero j)
or_digits (suc n) (suc a) b zero le = omega arith
or_digits (suc n) (suc a) b (suc j) le =
    digit_above (digits (λ y. y) max n (suc a / 2) (b / 2)) (max (suc a % 2) (b % 2)) j
      (omega arith)
    ∙ or_digits n (suc a / 2) (b / 2) j (omega arith)

pub digit-bit_and : (a b j : ℕ) → digit (bit_and a b) j ≡ min (digit a j) (digit b j)
digit-bit_and a b j = ap (λ n. digit n j) (bit_and-bitwise a b) ∙ and_digits a a b j (omega arith)

pub digit-bit_or : (a b j : ℕ) → digit (bit_or a b) j ≡ max (digit a j) (digit b j)
digit-bit_or a b j = ap (λ n. digit n j) (bit_or-bitwise a b) ∙ or_digits a a b j (omega arith)

-- The mask `1 << b`.
pub digit-pow : (b j : ℕ) → digit (2 ^ b) j ≡ (if j == b then 1 else 0)
digit-pow zero zero = refl
digit-pow zero (suc j) = ground (arith, digit_of_zero j)
digit-pow (suc b) zero = ground (arith, pow-suc 2 b)
digit-pow (suc b) (suc j) =
    let half : 2 ^ suc b / 2 ≡ 2 ^ b = omega (arith, pow-suc 2 b) in
    ap (λ n. digit n j) half ∙ digit-pow b j ∙ ground arith

-- `~x` on words of `n` bits.
pub digit-complement : (n x j : ℕ) → x < 2 ^ n → j < n → digit (2 ^ n - 1 - x) j ≡ 1 - digit x j
digit-complement zero x j lt lj = absurd (omega arith)
digit-complement (suc n) x zero lt lj = omega (arith, pow-suc 2 n)
digit-complement (suc n) x (suc j) lt lj =
    let half : (2 ^ suc n - 1 - x) / 2 ≡ 2 ^ n - 1 - x / 2 = omega (arith, pow-suc 2 n) in
    ap (λ k. digit k j) half
    ∙ digit-complement n (x / 2) j (omega (arith, pow-suc 2 n)) (omega arith)
