-- ===== src/Label/Free.antt =====
-- `free_label` of label_mgt.c, and what it gives back to `allocate_label`.
use Prim.Native.Nat.{bit_and}
use socket.Base.{
  ℕ, ◌-◌, ◌/◌, ◌%◌, ◌^◌, ◌≤◌, ◌<◌, ◌≡◌, refl, inl, inr, ◌⊎◌, arith, ltb, ◌||◌, ◌==◌, if◌then◌else◌,
  false,
}
use socket.Base.Run.{ok, Returns}
use socket.Label.{Bitmap, bit_mask, label_min, label_max, free_label}
use socket.Label.Digits.{used, used-store, digit_of_clear, load_word-ok, store_word-ok}

range_cases :
    (label : ℕ)
    → ((label < label_min) ⊎ (label_max < label)) ⊎ ((label_min ≤ label) × (label ≤ label_max))
range_cases label = grind arith

free_label-out_of_range :
    (m : Bitmap) (label : ℕ)
    → (label < label_min) ⊎ (label_max < label)
    → free_label m label ≡ ok (m, 0)
unfolding free_label
free_label-out_of_range m label out = ground arith

pub free_label-used :
    (m : Bitmap) (label : ℕ)
    → label_min ≤ label
    → label ≤ label_max
    → (m' : Bitmap) × (free_label m label ≡ ok (m', 1))
      × ((j : ℕ) → used m' j ≡ (if j == label - label_min then 0 else used m j))
unfolding free_label
free_label-used m label p q =
    let i = label - label_min in
    let w = bit_and (m (i / 32)) (2 ^ 32 - 1 - bit_mask (i % 32)) in
    let inside : (ltb label label_min || ltb label_max label) ≡ false = ground arith in
    (
      (λ j. if j == i / 32 then w else m j),
      rw (inside, load_word-ok m (i / 32) (omega arith), store_word-ok m (i / 32) w (omega arith)),
      λ j. used-store m i j 0 w λ k lt. digit_of_clear (m (i / 32)) (i % 32) k (omega arith) lt,
    )

-- What `free_label` returns: outside of the range 0 and the same bitmap, inside 1 and a bitmap
-- where that label is free and every other one is as before.
abbrev pub Freed : Bitmap → ℕ → Bitmap × ℕ → Type 0
Freed m label (m', r) =
    (((label < label_min) ⊎ (label_max < label)) × (r ≡ 0) × (m' ≡ m))
    ⊎ ((label_min ≤ label)
        × (label ≤ label_max)
        × (r ≡ 1)
        × ((j : ℕ) → used m' j ≡ (if j == label - label_min then 0 else used m j)))

-- On every bitmap and every number `free_label` returns: for a label from 16 to 65535 with 1 and
-- that label free and no other changed, for any other number with 0 and the same bitmap.
pub free_label_lem : (m : Bitmap) (label : ℕ) → Returns (Freed m label) (free_label m label)
free_label_lem m label = elim (range_cases label) [
  | inl out ↦ rw (free_label-out_of_range m label out) (inl (out, refl, refl))
  | inr (p, q) ↦ let (m', e, new) = free_label-used m label p q in rw e (inr (p, q, refl, new))
]
