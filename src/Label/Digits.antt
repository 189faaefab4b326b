-- ===== src/Label/Digits.antt =====
-- The bits of the bitmap of label_mgt.c, through the word operations of its two functions.
use Prim.Native.Nat.{bit_and, bit_or}
use native.Mathlib.Nat.{pow-le-pow_right}
use socket.Base.{ℕ, ◌-◌, ◌/◌, ◌%◌, ◌^◌, ◌<◌, ◌≡◌, ap, ◌∙◌, arith, ◌==◌, if◌then◌else◌, lt→ltb}
use socket.Base.Run.{ok}
use socket.Base.Bits.{
  digit, digit-lt, digit_of_zero, eq_zero_of_digits, digit-bit_and, digit-bit_or, digit-pow,
  digit-complement,
}
use socket.Label.{Bitmap, bitmap_words, bit_mask, load_word, store_word}

-- 1 if the label `label_min + i` is in use, and 0 if it is free.
abbrev pub used : Bitmap → ℕ → ℕ
used m i = digit (m (i / 32)) (i % 32)

digit_of_masked : (w b j : ℕ) → digit (bit_and w (bit_mask b)) j ≡ (if j == b then digit w b else 0)
digit_of_masked w b j = ground (arith, digit-bit_and w (bit_mask b) j, digit-pow b j, digit-lt w j)

-- The test `word & (1 << b)` reads the bit.
pub masked-eq_zero : (w b : ℕ) → digit w b ≡ 0 → bit_and w (bit_mask b) ≡ 0
masked-eq_zero w b e =
    eq_zero_of_digits (bit_and w (bit_mask b)) λ j. ground (arith, digit_of_masked w b j)

pub masked-ne_zero : (w b : ℕ) → bit_and w (bit_mask b) ≡ 0 → digit w b ≡ 0
masked-ne_zero w b e =
    let here : digit (bit_and w (bit_mask b)) b ≡ 0 = ap (λ n. digit n b) e ∙ digit_of_zero b in
    ground (arith, digit_of_masked w b b)

pub digit_of_set : (w b j : ℕ) → digit (bit_or w (bit_mask b)) j ≡ (if j == b then 1 else digit w j)
digit_of_set w b j = ground (arith, digit-bit_or w (bit_mask b) j, digit-pow b j, digit-lt w j)

mask-lt : (b : ℕ) → b < 32 → bit_mask b < 2 ^ 32
mask-lt b lt =
    let top = pow-le-pow_right {n = 2} (omega arith) {i = b} {j = 31} (omega arith) in
    omega (arith, top)

pub digit_of_clear :
    (w b j : ℕ)
    → b < 32
    → j < 32
    → digit (bit_and w (2 ^ 32 - 1 - bit_mask b)) j ≡ (if j == b then 0 else digit w j)
digit_of_clear w b j lb lj = ground (
  arith,
  digit-bit_and w (2 ^ 32 - 1 - bit_mask b) j,
  digit-complement 32 (bit_mask b) j (mask-lt b lb) lj,
  digit-pow b j,
  digit-lt w j,
)

-- A store of a word whose bit `i % 32` alone is new changes the label `i` alone.
pub used-store :
    (m : Bitmap) (i j v w : ℕ)
    → ((k : ℕ) → k < 32 → digit w k ≡ (if k == i % 32 then v else digit (m (i / 32)) k))
    → used (λ k. if k == i / 32 then w else m k) j ≡ (if j == i then v else used m j)
used-store m i j v w h = ground (arith, h (j % 32) (omega arith))

pub load_word-ok : (m : Bitmap) (i : ℕ) → i < bitmap_words → load_word m i ≡ ok (m i)
unfolding load_word
load_word-ok m i lt = rw (lt→ltb i bitmap_words lt)

pub store_word-ok :
    (m : Bitmap) (i w : ℕ)
    → i < bitmap_words
    → store_word m i w ≡ ok (λ j. if j == i then w else m j)
unfolding store_word
store_word-ok m i w lt = rw (lt→ltb i bitmap_words lt)
