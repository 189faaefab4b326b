-- ===== src/Tree/Insert.antt =====
-- `insert_node` of rsvp_db.c, case by case, and the AVL invariant through it.
use socket.Base.{ℕ, ◌<◌, ◌≡◌, refl, inl, inr, true, false, Bool, arith, lt_cases}
use socket.Base.Run.{ok, Returns, Returns-bind, ◌>>=◌}
use socket.Tree.{
  Tree, null, node, get_height, TunnelOrder, rebalance_insert, create_node, insert_node,
}
use socket.Tree.Balance.{IsAvl}
use socket.Tree.Rebalance.{Grown, rebalance_insert_left, rebalance_insert_right}

module _ {A : Type 0} ⦃o : TunnelOrder A⦄ (malloc : Bool) (x d : A) (l r : Tree A) (h : ℕ) where
  pub insert_node-less :
      o.tunnel_id x < o.tunnel_id d
      → insert_node malloc (node d l r h) x
        ≡ (insert_node malloc l x >>= λ l'. rebalance_insert x (node d l' r h))
  unfolding insert_node
  insert_node-less lt = ground (arith, o.cmp1_lem x d)

  pub insert_node-more :
      o.tunnel_id d < o.tunnel_id x
      → insert_node malloc (node d l r h) x
        ≡ (insert_node malloc r x >>= λ r'. rebalance_insert x (node d l r' h))
  unfolding insert_node
  insert_node-more lt = ground (arith, o.cmp1_lem x d)

  pub insert_node-same :
      o.tunnel_id x ≡ o.tunnel_id d → insert_node malloc (node d l r h) x ≡ ok (node d l r h)
  unfolding insert_node
  insert_node-same e = ground (arith, o.cmp1_lem x d)

module _ {A : Type 0} ⦃o : TunnelOrder A⦄ where
  -- Insertion returns an AVL tree, whether or not `malloc` gives a node, and the height grows by
  -- one at most.
  pub insert_node-Grown :
      (malloc : Bool) (t : Tree A) (x : A)
      → IsAvl t
      → Returns (Grown x (get_height t)) (insert_node malloc t x)
  unfolding insert_node create_node
  insert_node-Grown true null x a = ground arith
  insert_node-Grown false null x a = ground arith
  insert_node-Grown malloc (node d l r h) x (al, ar, eh, p, q) =
      elim (lt_cases (o.tunnel_id x) (o.tunnel_id d)) [
        | inl less ↦
            rw (insert_node-less malloc x d l r h less, eh)
              (Returns-bind (Grown x (get_height l)) _ (insert_node malloc l x) _
                (insert_node-Grown malloc l x al)
                λ l' g. rebalance_insert_left x d l' r _ (get_height l) less g ar p q)
        | inr (inl more) ↦
            rw (insert_node-more malloc x d l r h more, eh)
              (Returns-bind (Grown x (get_height r)) _ (insert_node malloc r x) _
                (insert_node-Grown malloc r x ar)
                λ r' g. rebalance_insert_right x d l r' _ (get_height r) more al g q p)
        | inr (inr same) ↦
            rw (insert_node-same malloc x d l r h same) ((al, ar, eh, p, q), inl refl)
      ]
