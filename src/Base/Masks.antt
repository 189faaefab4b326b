-- ===== src/Base/Masks.antt =====
-- `&` with a mask of high bits, and `&` on the bytes of a word.
use Prim.Native.Nat.{
  ℕ, zero, suc, ◌+◌, ◌-◌, ◌*◌, ◌/◌, ◌%◌, ◌^◌, ◌≤◌, ◌<◌, min, bit_and, bit_and-bitwise,
}
use mathlib.Core.Path.{◌≡◌, ap, ◌∙◌, sym}
use mathlib.Core.Logic.{inl, inr, ◌⊎◌}
use native.Mathlib.Nat.{pow-suc, one-le-pow, pow-le-pow_right, div-div-eq-div-mul}
use native.Mathlib.Omega.{arith}
use socket.Base.Tests.{ltb, if◌then◌else◌}
use socket.Base.Bits.{digit, digit-lt, digit_of_zero, digit-bit_and, digit-complement}

eq_fuel : (n a b : ℕ) → a ≤ n → b ≤ n → ((j : ℕ) → digit a j ≡ digit b j) → a ≡ b
eq_fuel zero a b la lb h = omega arith
eq_fuel (suc n) a b la lb h =
    omega (arith, h 0, eq_fuel n (a / 2) (b / 2) (omega arith) (omega arith) (λ j. h (suc j)))

-- Numbers with the same digits are equal.
pub eq_of_digits : (a b : ℕ) → ((j : ℕ) → digit a j ≡ digit b j) → a ≡ b
eq_of_digits a b h = eq_fuel (a + b) a b (omega arith) (omega arith) h

digit_beyond : (n x j : ℕ) → x < 2 ^ n → n ≤ j → digit x j ≡ 0
digit_beyond zero x j lt le = ap (λ k. digit k j) (omega arith) ∙ digit_of_zero j
digit_beyond (suc n) x zero lt le = absurd (omega arith)
digit_beyond (suc n) x (suc j) lt le =
    digit_beyond n (x / 2) j (omega (arith, pow-suc 2 n)) (omega arith)

digit_of_low : (k j : ℕ) → digit (2 ^ k - 1) j ≡ (if ltb j k then 1 else 0)
digit_of_low zero j = digit_of_zero j ∙ ground arith
digit_of_low (suc k) zero = ground (arith, pow-suc 2 k, one-le-pow k 2)
digit_of_low (suc k) (suc j) =
    let half : (2 ^ suc k - 1) / 2 ≡ 2 ^ k - 1 = omega (arith, pow-suc 2 k, one-le-pow k 2) in
    ap (λ n. digit n j) half ∙ digit_of_low k j ∙ ground arith

digit-eq : (a b j : ℕ) → a ≡ b → digit a j ≡ digit b j
digit-eq a b j e = ap (λ n. digit n j) e

place-eq : (x i j : ℕ) → i ≡ j → digit x i ≡ digit x j
place-eq x i j e = ap (digit x) e

le_cases : (a b : ℕ) → (a < b) ⊎ (b ≤ a)
le_cases a b = grind arith

digit_of_shifted : (q k j : ℕ) → digit (q * 2 ^ k) j ≡ (if ltb j k then 0 else digit q (j - k))
digit_of_shifted q zero j = ground (arith, digit-eq (q * 1) q j (omega arith))
digit_of_shifted q (suc k) zero =
    let even : q * 2 ^ suc k ≡ 2 * (q * 2 ^ k) =
      omega (arith, ap (λ (t : ℕ). q * t) (pow-suc 2 k)) in
    ground (arith, even)
digit_of_shifted q (suc k) (suc j) =
    let half : q * 2 ^ suc k / 2 ≡ q * 2 ^ k = omega (arith, ap (λ (t : ℕ). q * t) (pow-suc 2 k)) in
    ap (λ n. digit n j) half ∙ digit_of_shifted q k j ∙ ground arith

digit_of_quotient : (x k j : ℕ) → digit (x / 2 ^ k) j ≡ digit x (k + j)
digit_of_quotient x zero j =
    digit-eq (x / 2 ^ 0) x j (omega arith) ∙ place-eq x j (0 + j) (omega arith)
digit_of_quotient x (suc k) j =
    let half : x / 2 ^ suc k ≡ x / 2 / 2 ^ k =
      ap (λ (t : ℕ). x / t) (omega (arith, pow-suc 2 k)) ∙ sym (div-div-eq-div-mul x 2 (2 ^ k)) in
    ap (λ n. digit n j) half
    ∙ digit_of_quotient (x / 2) k j
    ∙ place-eq x (suc (k + j)) (suc k + j) (omega arith)

digit_of_high : (x k j : ℕ) → digit (x / 2 ^ k * 2 ^ k) j ≡ (if ltb j k then 0 else digit x j)
digit_of_high x k j =
    let back : (k ≤ j) → digit x (k + (j - k)) ≡ digit x j =
      λ le. place-eq x (k + (j - k)) j (omega arith) in
    ground (arith, digit_of_shifted (x / 2 ^ k) k j, digit_of_quotient x k (j - k), back)

-- The mask of the bits from `k` up to `n`.
digit_of_mask :
    (n k j : ℕ) → k ≤ n → j < n → digit (2 ^ n - 1 - (2 ^ k - 1)) j ≡ (if ltb j k then 0 else 1)
digit_of_mask n k j le lt =
    let small : 2 ^ k - 1 < 2 ^ n =
      omega (arith, one-le-pow k 2, pow-le-pow_right {n = 2} (omega arith) le) in
    digit-complement n (2 ^ k - 1) j small lt ∙ ground (arith, digit_of_low k j)

-- `&` with that mask clears the bits below `k`.
pub bit_and-mask :
    (n k x : ℕ) → k ≤ n → x < 2 ^ n → bit_and x (2 ^ n - 1 - (2 ^ k - 1)) ≡ x / 2 ^ k * 2 ^ k
bit_and-mask n k x le lt =
    eq_of_digits (bit_and x (2 ^ n - 1 - (2 ^ k - 1))) (x / 2 ^ k * 2 ^ k) λ j.
      elim (le_cases j n) [
        | inl below ↦ ground (
          arith,
          digit-bit_and x (2 ^ n - 1 - (2 ^ k - 1)) j,
          digit_of_mask n k j le below,
          digit_of_high x k j,
          digit-lt x j,
        )
        | inr beyond ↦ ground (
          arith,
          digit-bit_and x (2 ^ n - 1 - (2 ^ k - 1)) j,
          digit_beyond n x j lt (omega arith),
          digit_of_high x k j,
        )
      ]

-- `&` on the two halves of a number.
pub bit_and-half : (a b : ℕ) → bit_and a b / 2 ≡ bit_and (a / 2) (b / 2)
bit_and-half a b =
    eq_of_digits (bit_and a b / 2) (bit_and (a / 2) (b / 2))
      λ j. digit-bit_and a b (suc j) ∙ sym (digit-bit_and (a / 2) (b / 2) j)

bit_and-step : (b a : ℕ) → bit_and (a / 2) (b / 2) * 2 + min (a % 2) (b % 2) ≡ bit_and a b
bit_and-step b a = omega (arith, bit_and-half a b, digit-bit_and a b 0)

doubled : (k a : ℕ) → 2 * (a * 2 ^ k) ≡ a * 2 ^ suc k
doubled k a = omega (arith, ap (λ power. a * power) (pow-suc 2 k))

pub bit_and-eq : (a b c d : ℕ) → a ≡ c → b ≡ d → bit_and a b ≡ bit_and c d
bit_and-eq a b c d e f = cc

-- `&` on a number in two parts.
bit_and_parts :
    (k a b p q : ℕ)
    → p < 2 ^ k
    → q < 2 ^ k
    → bit_and (a * 2 ^ k + p) (b * 2 ^ k + q) ≡ bit_and a b * 2 ^ k + bit_and p q
bit_and_parts zero a b p q lp lq = omega (
  arith,
  bit_and-eq (a * 1 + p) (b * 1 + q) a b (omega arith) (omega arith),
  bit_and-eq p q 0 0 (omega arith) (omega arith),
)
bit_and_parts (suc k) a b p q lp lq =
    let ea = doubled k a in
    let eb = doubled k b in
    let ec = doubled k (bit_and a b) in
    omega (
      arith,
      bit_and-step (b * 2 ^ suc k + q) (a * 2 ^ suc k + p),
      bit_and-eq ((a * 2 ^ suc k + p) / 2) ((b * 2 ^ suc k + q) / 2) (a * 2 ^ k + p / 2)
          (b * 2 ^ k + q / 2) (omega arith) (omega arith),
      bit_and_parts k a b (p / 2) (q / 2) (omega (arith, pow-suc 2 k)) (omega (arith, pow-suc 2 k)),
      bit_and-step q p,
    )

-- `&` byte by byte.
pub bit_and-byte :
    (a b : ℕ) → bit_and a b ≡ bit_and (a / 256) (b / 256) * 256 + bit_and (a % 256) (b % 256)
bit_and-byte a b =
    bit_and-eq a b (a / 256 * 256 + a % 256) (b / 256 * 256 + b % 256) (omega arith) (omega arith)
    ∙ bit_and_parts 8 (a / 256) (b / 256) (a % 256) (b % 256) (omega arith) (omega arith)

bit_and-le_fuel : (n a b : ℕ) → a ≤ n → bit_and a b ≤ a
bit_and-le_fuel n zero b h = omega (arith, bit_and-bitwise 0 b)
bit_and-le_fuel zero (suc a) b h = absurd (omega arith)
bit_and-le_fuel (suc n) (suc a) b h =
    omega (arith, bit_and-step b (suc a), bit_and-le_fuel n (suc a / 2) (b / 2) (omega arith))

pub bit_and-le : (a b : ℕ) → bit_and a b ≤ a
bit_and-le a b = bit_and-le_fuel a a b (omega arith)

-- The bytes of a word.
abbrev pub byte : ℕ → ℕ → ℕ
byte i w = w / 256 ^ i % 256

-- `&` on 32-bit words by their four bytes.
pub bit_and_word :
    (a b : ℕ)
    → a < 2 ^ 32
    → b < 2 ^ 32
    → bit_and a b
      ≡ ((bit_and (byte 3 a) (byte 3 b) * 256 + bit_and (byte 2 a) (byte 2 b)) * 256
            + bit_and (byte 1 a) (byte 1 b))
          * 256
        + bit_and (byte 0 a) (byte 0 b)
bit_and_word a b la lb = omega (
  arith,
  bit_and-byte a b,
  bit_and-byte (a / 256) (b / 256),
  bit_and-byte (a / 256 / 256) (b / 256 / 256),
  bit_and-eq (a / 256 / 256 / 256) (b / 256 / 256 / 256) (byte 3 a) (byte 3 b) (omega arith)
      (omega arith),
  bit_and-eq (a / 256 / 256 % 256) (b / 256 / 256 % 256) (byte 2 a) (byte 2 b) (omega arith)
      (omega arith),
  bit_and-eq (a / 256 % 256) (b / 256 % 256) (byte 1 a) (byte 1 b) (omega arith) (omega arith),
  bit_and-eq (a % 256) (b % 256) (byte 0 a) (byte 0 b) (omega arith) (omega arith),
)
