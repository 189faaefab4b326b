-- ===== src/Tree/Height.antt =====
-- The height of a tree of rsvp_db.c is logarithmic in the number of its messages, which bounds how
-- deep the recursions nest.
use socket.Base.{ℕ, zero, suc, ◌+◌, ◌*◌, ◌^◌, ◌≤◌, inl, inr, arith, length, length-append, ◌∷◌}
use native.Mathlib.Nat.{pow-suc}
use socket.Tree.{Tree, null, node, get_height, TunnelOrder, depth}
use socket.Tree.Balance.{IsAvl}
use socket.Tree.Contents.{to_list}
use socket.Tree.Delete.{depth-IsAvl}
use socket.Tree.Rebalance.{le_or_lt}
use socket.Tree.Refines.{IsTable, id_limit}
use socket.Tree.Table.{Within-length}

module _ {A : Type 0} where
  -- An AVL tree of height 2 n or more holds 2 ^ n - 1 messages or more.
  pub pow-le-length :
      (n : ℕ) (t : Tree A) → IsAvl t → 2 * n ≤ get_height t → 2 ^ n ≤ length (to_list t) + 1
  pow-le-length zero t a p = omega arith
  pow-le-length (suc n) null a p = absurd (omega arith)
  pow-le-length (suc n) (node d l r h) a p = omega (
    arith,
    pow-suc 2 n,
    pow-le-length n l a.0 (omega arith),
    pow-le-length n r a.1 (omega arith),
    length-append (to_list l) (d ∷ to_list r),
  )

module _ {A : Type 0} ⦃o : TunnelOrder A⦄ where
  -- In a valid tree no path from the root has more than 33 nodes, and every height field is 33 at
  -- most.
  pub depth-IsTable : (t : Tree A) → IsTable t → (depth t ≤ 33) × (get_height t ≤ 33)
  depth-IsTable t v = elim (le_or_lt (get_height t) 33) [
    | inl low ↦ (omega (arith, depth-IsAvl t v.balanced), low)
    | inr high ↦ absurd (
        omega (
          arith,
          pow-le-length 17 t v.balanced (omega arith),
          Within-length 0 id_limit (to_list t) v.ordered,
        ))
  ]
