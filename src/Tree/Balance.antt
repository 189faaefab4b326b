-- ===== src/Tree/Balance.antt =====
-- Height fields and balance, and the four rotations of rsvp_db.c.
use socket.Base.{ℕ, suc, ◌+◌, ◌≤◌, ◌<◌, ◌≡◌, max, arith}
use socket.Base.Run.{Returns}
use socket.Tree.{
  Tree, null, node, get_height, right_rotate, left_rotate, left_right_rotate, right_left_rotate,
}

module _ {A : Type 0} where
  -- Every height field is right, and the two sides of a node differ in height by one at most.
  abbrev pub IsAvl : Tree A → Type 0
  IsAvl null = Unit
  IsAvl (node d l r h) =
      IsAvl l
      × IsAvl r
      × (h ≡ suc (max (get_height l) (get_height r)))
      × (get_height l ≤ get_height r + 1)
      × (get_height r ≤ get_height l + 1)

  -- An AVL tree of height `h`.
  abbrev pub AvlOf : ℕ → Tree A → Type 0
  AvlOf h t = IsAvl t × (get_height t ≡ h)

  pub right_rotate-AvlOf :
      (y x : A) (xl t2 yr : Tree A) (xh yh : ℕ)
      → IsAvl (node x xl t2 xh)
      → IsAvl yr
      → get_height t2 ≤ get_height xl
      → get_height xl ≡ get_height yr + 1
      → Returns (AvlOf (get_height t2 + 2)) (right_rotate (node y (node x xl t2 xh) yr yh))
  unfolding right_rotate
  right_rotate-AvlOf y x xl t2 yr xh yh a b p q = ground arith

  pub left_rotate-AvlOf :
      (x y : A) (xl t2 yr : Tree A) (xh yh : ℕ)
      → IsAvl xl
      → IsAvl (node y t2 yr yh)
      → get_height t2 ≤ get_height yr
      → get_height yr ≡ get_height xl + 1
      → Returns (AvlOf (get_height t2 + 2)) (left_rotate (node x xl (node y t2 yr yh) xh))
  unfolding left_rotate
  left_rotate-AvlOf x y xl t2 yr xh yh a b p q = ground arith

  pub left_right_rotate-AvlOf :
      (d e : A) (ll lr r : Tree A) (lh h : ℕ)
      → IsAvl (node e ll lr lh)
      → IsAvl r
      → get_height ll < get_height lr
      → get_height lr ≡ get_height r + 1
      → Returns (AvlOf (get_height r + 2)) (left_right_rotate (node d (node e ll lr lh) r h))
  unfolding left_right_rotate left_rotate right_rotate
  left_right_rotate-AvlOf d e ll null r lh h a b p q = absurd (omega arith)
  left_right_rotate-AvlOf d e ll (node f fl fr fh) r lh h a b p q = ground arith

  pub right_left_rotate-AvlOf :
      (d e : A) (l rl rr : Tree A) (rh h : ℕ)
      → IsAvl l
      → IsAvl (node e rl rr rh)
      → get_height rr < get_height rl
      → get_height rl ≡ get_height l + 1
      → Returns (AvlOf (get_height l + 2)) (right_left_rotate (node d l (node e rl rr rh) h))
  unfolding right_left_rotate left_rotate right_rotate
  right_left_rotate-AvlOf d e l null rr rh h a b p q = absurd (omega arith)
  right_left_rotate-AvlOf d e l (node f fl fr fh) rr rh h a b p q = ground arith
