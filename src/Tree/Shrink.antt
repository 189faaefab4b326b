-- ===== src/Tree/Shrink.antt =====
-- The end of `delete_node` of rsvp_db.c: rebalancing after the sides of a node may have shrunk.
use socket.Base.{ℕ, suc, ◌+◌, ◌≤◌, ◌<◌, ◌≡◌, max, refl, ap, inl, inr, arith}
use socket.Base.Run.{Run, ok, Returns, Returns-imp}
use socket.Tree.{
  Tree, null, node, get_height, right_rotate, left_rotate, left_right_rotate, right_left_rotate,
  rebalance_delete,
}
use socket.Tree.Balance.{
  IsAvl, AvlOf, right_rotate-AvlOf, left_rotate-AvlOf, left_right_rotate-AvlOf,
  right_left_rotate-AvlOf,
}
use socket.Tree.Rebalance.{le_or_lt}

module _ {A : Type 0} where
  -- What deletion makes of an AVL tree of height `h`.
  abbrev pub Shrunk : ℕ → Tree A → Type 0
  Shrunk h t = IsAvl t × (get_height t ≤ h) × (h ≤ get_height t + 1)

  rebalance_delete-balanced :
      (d : A) (l r : Tree A) (h : ℕ)
      → get_height l ≤ get_height r + 1
      → get_height r ≤ get_height l + 1
      → rebalance_delete (node d l r h) ≡ ok (node d l r (1 + max (get_height l) (get_height r)))
  unfolding rebalance_delete
  rebalance_delete-balanced d l r h p q = ground arith

  rebalance_delete-left_left :
      (d e : A) (ll lr r : Tree A) (lh h : ℕ)
      → get_height r + 1 < lh
      → get_height lr ≤ get_height ll
      → rebalance_delete (node d (node e ll lr lh) r h)
        ≡ right_rotate (node d (node e ll lr lh) r (1 + max lh (get_height r)))
  unfolding rebalance_delete
  rebalance_delete-left_left d e ll lr r lh h p q = ground arith

  rebalance_delete-left_right :
      (d e : A) (ll lr r : Tree A) (lh h : ℕ)
      → get_height r + 1 < lh
      → get_height ll < get_height lr
      → rebalance_delete (node d (node e ll lr lh) r h)
        ≡ left_right_rotate (node d (node e ll lr lh) r (1 + max lh (get_height r)))
  unfolding rebalance_delete
  rebalance_delete-left_right d e ll lr r lh h p q = ground arith

  rebalance_delete-right_right :
      (d e : A) (l rl rr : Tree A) (rh h : ℕ)
      → get_height l + 1 < rh
      → get_height rl ≤ get_height rr
      → rebalance_delete (node d l (node e rl rr rh) h)
        ≡ left_rotate (node d l (node e rl rr rh) (1 + max (get_height l) rh))
  unfolding rebalance_delete
  rebalance_delete-right_right d e l rl rr rh h p q = ground arith

  rebalance_delete-right_left :
      (d e : A) (l rl rr : Tree A) (rh h : ℕ)
      → get_height l + 1 < rh
      → get_height rr < get_height rl
      → rebalance_delete (node d l (node e rl rr rh) h)
        ≡ right_left_rotate (node d l (node e rl rr rh) (1 + max (get_height l) rh))
  unfolding rebalance_delete
  rebalance_delete-right_left d e l rl rr rh h p q = ground arith

  pub rebalance_delete-IsAvl : (t : Tree A) → IsAvl t → rebalance_delete t ≡ ok t
  unfolding rebalance_delete
  rebalance_delete-IsAvl null a = refl
  rebalance_delete-IsAvl (node d l r h) (al, ar, e, p, q) =
      rw (rebalance_delete-balanced d l r h p q) (ap (λ k. ok (node d l r k)) (omega arith))

  shrunk :
      (h k : ℕ) (m : Run (Tree A)) → Returns (AvlOf k) m → k ≤ h → h ≤ k + 1 → Returns (Shrunk h) m
  shrunk h k m a p q =
      Returns-imp (AvlOf k) (Shrunk h) m a λ t b. (b.0, omega (arith, b.1), omega (arith, b.1))

  module _ (d : A) where
    left_heavy :
        (l r : Tree A) (h hr : ℕ)
        → IsAvl l
        → IsAvl r
        → get_height l ≡ get_height r + 2
        → hr ≡ get_height r + 1
        → Returns (Shrunk (suc (max (get_height l) hr))) (rebalance_delete (node d l r h))
    left_heavy null r h hr a b p q = absurd (omega arith)
    left_heavy (node e ll lr lh) r h hr a b p q = elim (le_or_lt (get_height lr) (get_height ll)) [
      | inl outer ↦ rw (rebalance_delete-left_left d e ll lr r lh h (omega arith) outer) (
          shrunk _ (get_height lr + 2) _
            (right_rotate-AvlOf d e ll lr r lh _ a b outer (ground arith)) (ground arith)
            (ground arith))
      | inr inner ↦ rw (rebalance_delete-left_right d e ll lr r lh h (omega arith) inner) (
          shrunk _ (get_height r + 2) _
            (left_right_rotate-AvlOf d e ll lr r lh _ a b inner (ground arith)) (ground arith)
            (ground arith))
    ]

    right_heavy :
        (l r : Tree A) (h hl : ℕ)
        → IsAvl l
        → IsAvl r
        → get_height r ≡ get_height l + 2
        → hl ≡ get_height l + 1
        → Returns (Shrunk (suc (max hl (get_height r)))) (rebalance_delete (node d l r h))
    right_heavy l null h hl a b p q = absurd (omega arith)
    right_heavy l (node e rl rr rh) h hl a b p q = elim (le_or_lt (get_height rl) (get_height rr)) [
      | inl outer ↦ rw (rebalance_delete-right_right d e l rl rr rh h (omega arith) outer) (
          shrunk _ (get_height rl + 2) _
            (left_rotate-AvlOf d e l rl rr _ rh a b outer (ground arith)) (ground arith)
            (ground arith))
      | inr inner ↦ rw (rebalance_delete-right_left d e l rl rr rh h (omega arith) inner) (
          shrunk _ (get_height l + 2) _
            (right_left_rotate-AvlOf d e l rl rr rh _ a b inner (ground arith)) (ground arith)
            (ground arith))
    ]

    -- Both sides may have lost one from the heights `hl` and `hr`, which were in balance.
    pub rebalance_delete-Shrunk :
        (l r : Tree A) (h hl hr : ℕ)
        → Shrunk hl l
        → Shrunk hr r
        → hl ≤ hr + 1
        → hr ≤ hl + 1
        → Returns (Shrunk (suc (max hl hr))) (rebalance_delete (node d l r h))
    rebalance_delete-Shrunk l r h hl hr a b p q =
        elim (le_or_lt (get_height l) (get_height r + 1)) [
          | inr heavy ↦
              let e : hl ≡ get_height l = omega arith in
              rw e (left_heavy l r h hr a.0 b.0 (omega arith) (omega arith))
          | inl even ↦ elim (le_or_lt (get_height r) (get_height l + 1)) [
            | inr heavy ↦
                let e : hr ≡ get_height r = omega arith in
                rw e (right_heavy l r h hl a.0 b.0 (omega arith) (omega arith))
            | inl back ↦
                rw (rebalance_delete-balanced d l r h even back)
                  ((a.0, b.0, omega arith, even, back), omega arith, omega arith)
          ]
        ]
