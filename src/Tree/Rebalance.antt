-- ===== src/Tree/Rebalance.antt =====
-- The end of `insert_node` of rsvp_db.c: rebalancing after one side of a node may have grown.
use socket.Base.{ℕ, suc, ◌+◌, ◌≤◌, ◌<◌, ◌≡◌, ◌⊎◌, max, inl, inr, ◌∙◌, arith}
use socket.Base.Run.{Run, ok, Returns, Returns-imp}
use socket.Tree.{
  Tree, null, node, get_height, TunnelOrder, right_rotate, left_rotate, left_right_rotate,
  right_left_rotate, rebalance_insert,
}
use socket.Tree.Balance.{
  IsAvl, AvlOf, right_rotate-AvlOf, left_rotate-AvlOf, left_right_rotate-AvlOf,
  right_left_rotate-AvlOf,
}

-- The height of a node that keeps its shape, when one side may have grown by one.
grown_height :
    (a b k : ℕ)
    → a ≤ b + 1
    → (a ≡ k) ⊎ (a ≡ suc k)
    → (suc (max a b) ≡ suc (max k b)) ⊎ ((suc (max a b) ≡ suc (suc (max k b))) × (a ≡ b + 1))
grown_height a b k p q = ground arith

pub le_or_lt : (a b : ℕ) → (a ≤ b) ⊎ (b < a)
le_or_lt a b = grind arith

module _ {A : Type 0} ⦃o : TunnelOrder A⦄ where
  -- The side of the root on which `x` went is the higher one, or `x` is alone.
  abbrev pub Leans : A → Tree A → Type 0
  Leans x null = ⊥
  Leans x (node d l r h) =
      ((get_height l ≡ 0) × (get_height r ≡ 0))
      ⊎ ((o.tunnel_id x < o.tunnel_id d) × (get_height l ≡ get_height r + 1))
      ⊎ ((o.tunnel_id d < o.tunnel_id x) × (get_height r ≡ get_height l + 1))

  -- What insertion of `x` makes of an AVL tree of height `h`.
  abbrev pub Grown : A → ℕ → Tree A → Type 0
  Grown x h t = IsAvl t × ((get_height t ≡ h) ⊎ ((get_height t ≡ suc h) × Leans x t))

  -- Within a difference of one the node keeps its shape.
  rebalance_insert-balanced :
      (x d : A) (l r : Tree A) (h : ℕ)
      → get_height l ≤ get_height r + 1
      → get_height r ≤ get_height l + 1
      → rebalance_insert x (node d l r h) ≡ ok (node d l r (1 + max (get_height l) (get_height r)))
  unfolding rebalance_insert
  rebalance_insert-balanced x d l r h p q = ground arith

  rebalance_insert-left_left :
      (x d e : A) (ll lr r : Tree A) (h lh : ℕ)
      → get_height r + 1 < lh
      → o.tunnel_id x < o.tunnel_id e
      → (k : ℕ) × (rebalance_insert x (node d (node e ll lr lh) r h)
          ≡ right_rotate (node d (node e ll lr lh) r k))
  unfolding rebalance_insert
  rebalance_insert-left_left x d e ll lr r h lh p q =
      (1 + max lh (get_height r), ground (arith, o.cmp1_lem x e))

  rebalance_insert-left_right :
      (x d e : A) (ll lr r : Tree A) (h lh : ℕ)
      → get_height r + 1 < lh
      → o.tunnel_id e < o.tunnel_id x
      → (k : ℕ) × (rebalance_insert x (node d (node e ll lr lh) r h)
          ≡ left_right_rotate (node d (node e ll lr lh) r k))
  unfolding rebalance_insert
  rebalance_insert-left_right x d e ll lr r h lh p q =
      (1 + max lh (get_height r), ground (arith, o.cmp1_lem x e))

  rebalance_insert-right_right :
      (x d e : A) (l rl rr : Tree A) (h rh : ℕ)
      → get_height l + 1 < rh
      → o.tunnel_id e < o.tunnel_id x
      → (k : ℕ) × (rebalance_insert x (node d l (node e rl rr rh) h)
          ≡ left_rotate (node d l (node e rl rr rh) k))
  unfolding rebalance_insert
  rebalance_insert-right_right x d e l rl rr h rh p q =
      (1 + max (get_height l) rh, ground (arith, o.cmp1_lem x e))

  rebalance_insert-right_left :
      (x d e : A) (l rl rr : Tree A) (h rh : ℕ)
      → get_height l + 1 < rh
      → o.tunnel_id x < o.tunnel_id e
      → (k : ℕ) × (rebalance_insert x (node d l (node e rl rr rh) h)
          ≡ right_left_rotate (node d l (node e rl rr rh) k))
  unfolding rebalance_insert
  rebalance_insert-right_left x d e l rl rr h rh p q =
      (1 + max (get_height l) rh, ground (arith, o.cmp1_lem x e))

  -- A rotation after an insertion gives back the height from before.
  restored :
      (x : A) (h k : ℕ) (m : Run (Tree A)) → Returns (AvlOf k) m → k ≡ h → Returns (Grown x h) m
  restored x h k m a e = Returns-imp (AvlOf k) (Grown x h) m a λ t b. (b.0, inl (b.1 ∙ e))

  -- Only a child that was there before can have become too high, and then it leans.
  rebalance_left_heavy :
      (x d : A) (l r : Tree A) (h hl : ℕ)
      → Grown x hl l
      → IsAvl r
      → hl ≤ get_height r + 1
      → get_height r + 1 < get_height l
      → Returns (Grown x (suc (max hl (get_height r)))) (rebalance_insert x (node d l r h))
  rebalance_left_heavy x d null r h hl g a p heavy = absurd (omega arith)
  rebalance_left_heavy x d (node e ll lr lh) r h hl (g, inl same) a p heavy = absurd (omega arith)
  rebalance_left_heavy x d (node e ll lr lh) r h hl (g, inr (grew, inl alone)) a p heavy =
      absurd (omega arith)
  rebalance_left_heavy x d (node e ll lr lh) r h hl (g, inr (grew, inr (inl (less, lean)))) a p
        heavy =
      let (k, eq) = rebalance_insert-left_left x d e ll lr r h lh heavy less in
      rw eq (
        restored x _ (get_height lr + 2) _
          (right_rotate-AvlOf d e ll lr r lh k g a (omega arith) (omega arith)) (omega arith))
  rebalance_left_heavy x d (node e ll lr lh) r h hl (g, inr (grew, inr (inr (more, lean)))) a p
        heavy =
      let (k, eq) = rebalance_insert-left_right x d e ll lr r h lh heavy more in
      rw eq (
        restored x _ (get_height r + 2) _
          (left_right_rotate-AvlOf d e ll lr r lh k g a (omega arith) (omega arith)) (omega arith))

  rebalance_right_heavy :
      (x d : A) (l r : Tree A) (h hr : ℕ)
      → IsAvl l
      → Grown x hr r
      → hr ≤ get_height l + 1
      → get_height l + 1 < get_height r
      → Returns (Grown x (suc (max (get_height l) hr))) (rebalance_insert x (node d l r h))
  rebalance_right_heavy x d l null h hr a g p heavy = absurd (omega arith)
  rebalance_right_heavy x d l (node e rl rr rh) h hr a (g, inl same) p heavy = absurd (omega arith)
  rebalance_right_heavy x d l (node e rl rr rh) h hr a (g, inr (grew, inl alone)) p heavy =
      absurd (omega arith)
  rebalance_right_heavy x d l (node e rl rr rh) h hr a (g, inr (grew, inr (inl (less, lean)))) p
        heavy =
      let (k, eq) = rebalance_insert-right_left x d e l rl rr h rh heavy less in
      rw eq (
        restored x _ (get_height l + 2) _
          (right_left_rotate-AvlOf d e l rl rr rh k a g (omega arith) (omega arith)) (omega arith))
  rebalance_right_heavy x d l (node e rl rr rh) h hr a (g, inr (grew, inr (inr (more, lean)))) p
        heavy =
      let (k, eq) = rebalance_insert-right_right x d e l rl rr h rh heavy more in
      rw eq (
        restored x _ (get_height rl + 2) _
          (left_rotate-AvlOf d e l rl rr k rh a g (omega arith) (omega arith)) (omega arith))

  pub Grown-cases :
      (x : A) (h : ℕ) (t : Tree A) → Grown x h t → (get_height t ≡ h) ⊎ (get_height t ≡ suc h)
  Grown-cases x h t (a, inl e) = inl e
  Grown-cases x h t (a, inr e) = inr e.0

  pub rebalance_insert_left :
      (x d : A) (l r : Tree A) (h hl : ℕ)
      → o.tunnel_id x < o.tunnel_id d
      → Grown x hl l
      → IsAvl r
      → hl ≤ get_height r + 1
      → get_height r ≤ hl + 1
      → Returns (Grown x (suc (max hl (get_height r)))) (rebalance_insert x (node d l r h))
  rebalance_insert_left x d l r h hl lt g a p q =
      elim (le_or_lt (get_height l) (get_height r + 1)) [
        | inl even ↦
            let back : get_height r ≤ get_height l + 1 = ground arith in
            rw (rebalance_insert-balanced x d l r h even back) (
              (g.0, a, omega arith, even, back),
              elim (grown_height (get_height l) (get_height r) hl even (Grown-cases x hl l g)) [
                | inl same ↦ inl (omega arith)
                | inr (grew, lean) ↦ inr (omega arith, inr (inl (lt, lean)))
              ],
            )
        | inr heavy ↦ rebalance_left_heavy x d l r h hl g a p heavy
      ]

  pub rebalance_insert_right :
      (x d : A) (l r : Tree A) (h hr : ℕ)
      → o.tunnel_id d < o.tunnel_id x
      → IsAvl l
      → Grown x hr r
      → hr ≤ get_height l + 1
      → get_height l ≤ hr + 1
      → Returns (Grown x (suc (max (get_height l) hr))) (rebalance_insert x (node d l r h))
  rebalance_insert_right x d l r h hr lt a g p q =
      elim (le_or_lt (get_height r) (get_height l + 1)) [
        | inl even ↦
            let back : get_height l ≤ get_height r + 1 = ground arith in
            rw (rebalance_insert-balanced x d l r h back even) (
              (a, g.0, omega arith, back, even),
              elim (grown_height (get_height r) (get_height l) hr even (Grown-cases x hr r g)) [
                | inl same ↦ inl (omega arith)
                | inr (grew, lean) ↦ inr (omega arith, inr (inr (lt, lean)))
              ],
            )
        | inr heavy ↦ rebalance_right_heavy x d l r h hr a g p heavy
      ]
