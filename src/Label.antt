-- ===== src/Label.antt =====
-- The MPLS labels of label_mgt.c: `label_bitmap` with `allocate_label` and `free_label`.
-- The bitmap is an array of `bitmap_words` words of 32 bits; an access beyond it is a fault.
pub mod Allocate
pub mod Digits
pub mod Free
pub mod Reuse
use Prim.Native.Nat.{bit_and, bit_or}
use socket.Base.{ℕ, zero, suc, ◌+◌, ◌-◌, ◌/◌, ◌%◌, ◌^◌, Bool, ◌||◌, ltb, ◌==◌, if◌then◌else◌}
use socket.Base.Run.{Run, ok, fault, ◌>>=◌}

abbrev pub label_min : ℕ
label_min = 16

abbrev pub label_max : ℕ
label_max = 65535

-- `LABEL_MAX - LABEL_MIN + 1`.
abbrev pub label_count : ℕ
label_count = 65520

-- `(LABEL_COUNT + 31) / 32`.
abbrev pub bitmap_words : ℕ
bitmap_words = 2048

-- The result `-1` of a `uint32_t` function.
abbrev pub no_label : ℕ
no_label = 2 ^ 32 - 1

abbrev pub Bitmap : Type 0
Bitmap = ℕ → ℕ

unfoldable pub load_word : Bitmap → ℕ → Run ℕ
load_word m i = if ltb i bitmap_words then ok (m i) else fault

unfoldable pub store_word : Bitmap → ℕ → ℕ → Run Bitmap
store_word m i w = if ltb i bitmap_words then ok (λ j. if j == i then w else m j) else fault

-- `(uint32_t)1 << b`, for `b < 32`.
abbrev pub bit_mask : ℕ → ℕ
bit_mask b = 2 ^ b

-- The loop of `allocate_label`, with the rounds that are left and the loop variable.
unfoldable pub allocate_loop : ℕ → ℕ → Bitmap → Run (Bitmap × ℕ)
unfolding load_word store_word
allocate_loop zero i m = ok (m, no_label)
allocate_loop (suc rounds) i m =
    let rest = allocate_loop rounds (i + 1) m in
    load_word m (i / 32) >>= λ w.
    if bit_and w (bit_mask (i % 32)) == 0
    then (do m' ← store_word m (i / 32) (bit_or w (bit_mask (i % 32))); ok (m', label_min + i))
    else rest

unfoldable pub allocate_label : Bitmap → Run (Bitmap × ℕ)
unfolding allocate_loop
allocate_label m = allocate_loop label_count 0 m

unfoldable pub free_label : Bitmap → ℕ → Run (Bitmap × ℕ)
unfolding load_word store_word
free_label m label =
    if ltb label label_min || ltb label_max label
    then ok (m, 0)
    else let index = label - label_min in
      do
        w ← load_word m (index / 32)
        m' ← store_word m (index / 32) (bit_and w (2 ^ 32 - 1 - bit_mask (index % 32)))
        ok (m', 1)
