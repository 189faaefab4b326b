-- ===== src/Label/Reuse.antt =====
-- `allocate_label` and `free_label` of label_mgt.c one after the other.
use socket.Base.{ℕ, ◌-◌, ◌≡◌, ◌≢◌, ◌≤◌, ◌∙◌, ap, subst, inl, inr, arith, ◌==◌, if◌then◌else◌}
use socket.Base.Run.{ok, Returns}
use socket.Label.{Bitmap, label_min, label_max, no_label, allocate_label, free_label}
use socket.Label.Allocate.{Allocated, allocate_label_lem}
use socket.Label.Digits.{used}
use socket.Label.Free.{free_label-used}

-- Given back what was taken, with everything else as it was.
restored :
    (j k before now back : ℕ)
    → (j ≡ k → before ≡ 0)
    → now ≡ (if j == k then 1 else before)
    → back ≡ (if j == k then 0 else now)
    → back ≡ before
restored j k before now back free new old = ground arith

module _ (m m' : Bitmap) (label : ℕ) (e : allocate_label m ≡ ok (m', label)) where
  allocated : Allocated m 0 (m', label)
  allocated = subst (Returns (Allocated m 0)) e (allocate_label_lem m)

  marked_cases :
      Allocated m 0 (m', label)
      → label ≢ no_label
      → (label_min ≤ label)
        × (label ≤ label_max)
        × (used m (label - label_min) ≡ 0)
        × ((j : ℕ) → used m' j ≡ (if j == label - label_min then 1 else used m j))
  marked_cases (inl (k, p, q, named, free, taken, new)) given =
      let place : label - label_min ≡ k = omega arith in
      (omega arith, omega arith, rw place free, rw place new)
  marked_cases (inr (none_left, same, full)) given = absurd (given none_left)

  pub marked :
      label ≢ no_label
      → (label_min ≤ label)
        × (label ≤ label_max)
        × (used m (label - label_min) ≡ 0)
        × ((j : ℕ) → used m' j ≡ (if j == label - label_min then 1 else used m j))
  marked = marked_cases allocated

  -- A label that `allocate_label` gave can be freed, and then every label is in use or free as it
  -- was before the allocation.
  pub free_label-allocate_label :
      label ≢ no_label
      → (m'' : Bitmap) × (free_label m' label ≡ ok (m'', 1)) × ((j : ℕ) → used m'' j ≡ used m j)
  free_label-allocate_label given =
      let (p, q, free, new) = marked given in
      let (m'', done, back) = free_label-used m' label p q in
      (
        m'',
        done,
        λ j.
            restored j (label - label_min) (used m j) (used m' j) (used m'' j)
              (λ same. ap (used m) same ∙ free) (new j) (back j),
      )

-- Of two labels that `allocate_label` gives one after the other, with nothing freed in between, the
-- second is not the first.
pub allocate_label-distinct :
    (m m' m'' : Bitmap) (first second : ℕ)
    → allocate_label m ≡ ok (m', first)
    → allocate_label m' ≡ ok (m'', second)
    → first ≢ no_label
    → second ≢ no_label
    → first ≢ second
allocate_label-distinct m m' m'' first second e e' p q same =
    let (_, _, _, new) = marked m m' first e p in
    let (_, _, free, _) = marked m' m'' second e' q in ground (arith, new (second - label_min))
