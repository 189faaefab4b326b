-- ===== src/Tests/Labels.antt =====
-- The label bitmap at concrete states: runs, and the theorems applied.
use socket.Base.{ℕ, ◌-◌, ◌^◌, ◌≡◌, ◌≢◌, refl, arith, ◌==◌, if◌then◌else◌}
use socket.Base.Run.{ok, Returns}
use socket.Label.{Bitmap, allocate_label, free_label}
use socket.Label.Allocate.{Allocated, allocate_label_lem}
use socket.Label.Digits.{used}
use socket.Label.Free.{Freed, free_label_lem}
use socket.Label.Reuse.{free_label-allocate_label, allocate_label-distinct}

-- `static uint32_t label_bitmap[BITMAP_WORDS] = {0}`.
abbrev empty : Bitmap
empty i = 0

-- The first 33 labels are in use.
abbrev some_used : Bitmap
some_used i = if i == 0 then 2 ^ 32 - 1 else if i == 1 then 1 else 0

abbrev one_used : Bitmap
one_used i = if i == 0 then 1 else 0

abbrev two_used : Bitmap
two_used i = if i == 0 then 3 else one_used i

allocate_first : Returns (λ r. r.1 ≡ 16) (allocate_label empty)
unfolding allocate_label
allocate_first = refl

allocate_34th : Returns (λ r. r.1 ≡ 49) (allocate_label some_used)
unfolding allocate_label
allocate_34th = refl

allocate_label_lem_example : Returns (Allocated some_used 0) (allocate_label some_used)
allocate_label_lem_example = allocate_label_lem some_used

free_label_lem_example : Returns (Freed some_used 48) (free_label some_used 48)
free_label_lem_example = free_label_lem some_used 48

take_first : allocate_label empty ≡ ok (one_used, 16)
unfolding allocate_label
take_first = refl

take_second : allocate_label one_used ≡ ok (two_used, 17)
unfolding allocate_label
take_second = refl

free_label-allocate_label_example :
    (m : Bitmap) × (free_label one_used 16 ≡ ok (m, 1)) × ((j : ℕ) → used m j ≡ used empty j)
free_label-allocate_label_example =
    free_label-allocate_label empty one_used 16 take_first (omega arith)

allocate_label-distinct_example : ◌≢◌ {A = ℕ} 16 17
allocate_label-distinct_example =
    allocate_label-distinct empty one_used two_used 16 17 take_first take_second (omega arith)
      (omega arith)
