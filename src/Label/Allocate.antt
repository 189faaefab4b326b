-- ===== src/Label/Allocate.antt =====
-- `allocate_label` of label_mgt.c: the first free label, on every bitmap.
use Prim.Native.Nat.{bit_and, bit_or}
use socket.Base.{
  ℕ, zero, suc, ◌+◌, ◌/◌, ◌%◌, ◌≤◌, ◌<◌, ◌≡◌, refl, ◌⊎◌, inl, inr, true, false, arith, ==_iff,
  lt_cases, ◌==◌, if◌then◌else◌, Bool-cases,
}
use socket.Base.Run.{Returns, Returns-imp}
use socket.Label.{Bitmap, bit_mask, label_min, label_count, no_label, allocate_loop, allocate_label}
use socket.Label.Digits.{
  used, used-store, masked-eq_zero, masked-ne_zero, digit_of_set, load_word-ok, store_word-ok,
}
use socket.Base.Bits.{digit-lt}

-- From `m` the call gives the label of the first free place from `i` on, and marks that one alone;
-- or it gives no label, changes nothing, and every place from `i` on is in use.
abbrev pub Allocated : Bitmap → ℕ → Bitmap × ℕ → Type 0
Allocated m i (m', label) =
    ((k : ℕ) × (i ≤ k)
      × (k < label_count)
      × (label ≡ label_min + k)
      × (used m k ≡ 0)
      × ((j : ℕ) → i ≤ j → j < k → used m j ≡ 1)
      × ((j : ℕ) → used m' j ≡ (if j == k then 1 else used m j)))
    ⊎ ((label ≡ no_label) × (m' ≡ m) × ((j : ℕ) → i ≤ j → j < label_count → used m j ≡ 1))

module _ (m : Bitmap) where
  used_one : (i : ℕ) → (bit_and (m (i / 32)) (bit_mask (i % 32)) == 0) ≡ false → used m i ≡ 1
  used_one i taken =
      ground (arith, masked-eq_zero (m (i / 32)) (i % 32), digit-lt (m (i / 32)) (i % 32))

  -- The round of the loop at a free place.
  allocate_here :
      (rounds i : ℕ)
      → i < label_count
      → (bit_and (m (i / 32)) (bit_mask (i % 32)) == 0) ≡ true
      → Returns (Allocated m i) (allocate_loop (suc rounds) i m)
  unfolding allocate_loop
  allocate_here rounds i lt free =
      let bit = i % 32 in
      let w = bit_or (m (i / 32)) (bit_mask bit) in
      let zero_here = masked-ne_zero (m (i / 32)) bit ((==_iff _ 0).0 free) in
      rw (load_word-ok m (i / 32) (omega arith), free, store_word-ok m (i / 32) w (omega arith))
        (inl (
          i,
          omega arith,
          lt,
          refl,
          zero_here,
          (λ j p q. absurd (omega arith)),
          (λ j. used-store m i j 1 w λ k _. digit_of_set (m (i / 32)) bit k),
        ))

  -- The round at a place that is in use.
  allocate_loop-taken :
      (rounds i : ℕ)
      → i < label_count
      → (bit_and (m (i / 32)) (bit_mask (i % 32)) == 0) ≡ false
      → allocate_loop (suc rounds) i m ≡ allocate_loop rounds (i + 1) m
  unfolding allocate_loop
  allocate_loop-taken rounds i lt taken = rw (load_word-ok m (i / 32) (omega arith), taken)

  earlier :
      (i k : ℕ)
      → used m i ≡ 1
      → ((j : ℕ) → i + 1 ≤ j → j < k → used m j ≡ 1)
      → (j : ℕ) → i ≤ j
      → j < k
      → used m j ≡ 1
  earlier i k here later j p q = elim (lt_cases i j) [
    | inl above ↦ later j (omega arith) q
    | inr (inl below) ↦ absurd (omega arith)
    | inr (inr same) ↦ rw (← same) here
  ]

  -- Past a place that is in use.
  Allocated-earlier :
      (i : ℕ) → used m i ≡ 1 → (r : Bitmap × ℕ) → Allocated m (i + 1) r → Allocated m i r
  Allocated-earlier i here (m', label) (inl (k, p, q, e, free, taken, new)) =
      inl (k, omega arith, q, e, free, (λ j b c. earlier i k here taken j b c), new)
  Allocated-earlier i here (m', label) (inr (e, same, full)) =
      inr (e, same, λ j b c. earlier i label_count here full j b c)

  allocate_loop-Allocated :
      (rounds i : ℕ) → rounds + i ≡ label_count → Returns (Allocated m i) (allocate_loop rounds i m)
  unfolding allocate_loop
  allocate_loop-Allocated zero i e = inr (refl, refl, λ j p q. absurd (omega arith))
  allocate_loop-Allocated (suc rounds) i e =
      elim (Bool-cases (bit_and (m (i / 32)) (bit_mask (i % 32)) == 0)) [
        | inl free ↦ allocate_here rounds i (omega arith) free
        | inr taken ↦ rw (allocate_loop-taken rounds i (omega arith) taken) (
            Returns-imp (Allocated m (i + 1)) (Allocated m i) (allocate_loop rounds (i + 1) m)
              (allocate_loop-Allocated rounds (i + 1) (omega arith))
              (Allocated-earlier i (used_one i taken)))
      ]

-- On every bitmap `allocate_label` returns: with the least free label, which is from 16 to 65535,
-- and that label alone is then marked; or, when all are in use, with -1 and the same bitmap.
pub allocate_label_lem : (m : Bitmap) → Returns (Allocated m 0) (allocate_label m)
unfolding allocate_label
allocate_label_lem m = allocate_loop-Allocated m label_count 0 refl
