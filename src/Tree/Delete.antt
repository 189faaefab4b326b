-- ===== src/Tree/Delete.antt =====
-- `delete_node` of rsvp_db.c, case by case, and the AVL invariant through it.
use socket.Base.{ℕ, zero, suc, ◌<◌, ◌≡◌, refl, subst, sym, inl, inr, max, arith, lt_cases}
use socket.Base.Run.{Run, Returns, Returns-bind, ◌>>=◌}
use socket.Tree.{
  Tree, null, node, get_height, TunnelOrder, min_node, set_min, depth, rebalance_delete,
  delete_loop,
}
use socket.Tree.Balance.{IsAvl}
use socket.Tree.Shrink.{Shrunk, rebalance_delete-Shrunk, rebalance_delete-IsAvl}

module _ {A : Type 0} where
  pub depth-IsAvl : (t : Tree A) → IsAvl t → depth t ≡ get_height t
  unfolding depth
  depth-IsAvl null a = refl
  depth-IsAvl (node d l r h) a = ground (arith, depth-IsAvl l a.0, depth-IsAvl r a.1)

  pub min_node-Returns :
      (d : A) (l r : Tree A) (h : ℕ) → Returns (λ _. Unit) (min_node (node d l r h))
  unfolding min_node
  min_node-Returns d null r h = tt
  min_node-Returns d (node e ll lr lh) r h = min_node-Returns e ll lr lh

  get_height-set_min : (x : A) (t : Tree A) → get_height (set_min x t) ≡ get_height t
  unfolding set_min
  get_height-set_min x null = refl
  get_height-set_min x (node d null r h) = refl
  get_height-set_min x (node d (node e ll lr lh) r h) = refl

  set_min-IsAvl : (x : A) (t : Tree A) → IsAvl t → IsAvl (set_min x t)
  unfolding set_min
  set_min-IsAvl x null a = a
  set_min-IsAvl x (node d null r h) a = a
  set_min-IsAvl x (node d (node e ll lr lh) r h) a =
      rw (get_height-set_min x (node e ll lr lh))
        (set_min-IsAvl x (node e ll lr lh) a.0, a.1, a.2, a.3, a.4)

module _ {A : Type 0} ⦃o : TunnelOrder A⦄ where
  -- The node to delete has two children.
  abbrev pub delete_swap : ℕ → A → Tree A → Tree A → ℕ → Run (Tree A)
  delete_swap fuel d l r h = do
    keep ← min_node r
    r' ← delete_loop fuel (set_min d r) (o.tunnel_id d)
    rebalance_delete (node keep l r' h)

module _ {A : Type 0} ⦃o : TunnelOrder A⦄ (fuel k : ℕ) (d : A) where
  pub delete_loop-less :
      (l r : Tree A) (h : ℕ)
      → k < o.tunnel_id d
      → delete_loop (suc fuel) (node d l r h) k
        ≡ (delete_loop fuel l k >>= λ l'. rebalance_delete (node d l' r h))
  unfolding delete_loop
  delete_loop-less l r h lt = ground (arith, o.cmp_lem k d)

  pub delete_loop-more :
      (l r : Tree A) (h : ℕ)
      → o.tunnel_id d < k
      → delete_loop (suc fuel) (node d l r h) k
        ≡ (delete_loop fuel r k >>= λ r'. rebalance_delete (node d l r' h))
  unfolding delete_loop
  delete_loop-more l r h lt = ground (arith, o.cmp_lem k d)

  pub delete_loop-no_left :
      (r : Tree A) (h : ℕ)
      → k ≡ o.tunnel_id d
      → delete_loop (suc fuel) (node d null r h) k ≡ rebalance_delete r
  unfolding delete_loop
  delete_loop-no_left r h e = ground (arith, o.cmp_lem k d)

  pub delete_loop-no_right :
      (e : A) (ll lr : Tree A) (lh h : ℕ)
      → k ≡ o.tunnel_id d
      → delete_loop (suc fuel) (node d (node e ll lr lh) null h) k
        ≡ rebalance_delete (node e ll lr lh)
  unfolding delete_loop
  delete_loop-no_right e ll lr lh h eq = ground (arith, o.cmp_lem k d)

  pub delete_loop-swap :
      (e f : A) (ll lr rl rr : Tree A) (lh rh h : ℕ)
      → k ≡ o.tunnel_id d
      → delete_loop (suc fuel) (node d (node e ll lr lh) (node f rl rr rh) h) k
        ≡ delete_swap fuel d (node e ll lr lh) (node f rl rr rh) h
  unfolding delete_loop
  delete_loop-swap e f ll lr rl rr lh rh h eq = ground (arith, o.cmp_lem k d)

-- That `delete_loop` keeps the invariant at one fuel.
abbrev Works : (A : Type 0) ⦃o : TunnelOrder A⦄ → ℕ → Type 0
Works A fuel =
    (t : Tree A) (j : ℕ)
    → IsAvl t
    → get_height t < fuel
    → Returns (Shrunk (get_height t)) (delete_loop fuel t j)

module _ {A : Type 0} ⦃o : TunnelOrder A⦄ where
  delete_swap-Shrunk :
      (fuel : ℕ) (d e f : A) (ll lr rl rr : Tree A) (lh rh h : ℕ)
      → Works A fuel
      → IsAvl (node d (node e ll lr lh) (node f rl rr rh) h)
      → h < suc fuel
      → Returns
          (Shrunk (suc (max lh rh)))
          (delete_swap fuel d (node e ll lr lh) (node f rl rr rh) h)
  delete_swap-Shrunk fuel d e f ll lr rl rr lh rh h ih a lt =
      let right = node f rl rr rh in
      let same = get_height-set_min d right in
      Returns-bind (λ _. Unit) _ (min_node right) _ (min_node-Returns f rl rr rh)
        λ keep _.
          Returns-bind (Shrunk rh) _ (delete_loop fuel (set_min d right) (o.tunnel_id d)) _
            (rw same at (
              ih (set_min d right) (o.tunnel_id d) (set_min-IsAvl d right a.1)
                (omega (arith, same))))
            λ r' s.
              rebalance_delete-Shrunk keep (node e ll lr lh) r' h lh rh
                (a.0, omega arith, omega arith) s a.3 a.4

  -- With the node's own data gone, its place is taken by a child or by the least message on the
  -- right.
  delete_here-Shrunk :
      (fuel k : ℕ) (d : A) (l r : Tree A) (h : ℕ)
      → Works A fuel
      → IsAvl (node d l r h)
      → h < suc fuel
      → k ≡ o.tunnel_id d
      → Returns (Shrunk h) (delete_loop (suc fuel) (node d l r h) k)
  delete_here-Shrunk fuel k d null r h ih a lt e =
      rw (delete_loop-no_left fuel k d r h e, rebalance_delete-IsAvl r a.1)
        (a.1, omega arith, omega arith)
  delete_here-Shrunk fuel k d (node e ll lr lh) null h ih a lt eq =
      rw
        (
          delete_loop-no_right fuel k d e ll lr lh h eq,
          rebalance_delete-IsAvl (node e ll lr lh) a.0,
        )
        (a.0, omega arith, omega arith)
  delete_here-Shrunk fuel k d (node e ll lr lh) (node f rl rr rh) h ih a lt eq =
      rw (delete_loop-swap fuel k d e f ll lr rl rr lh rh h eq) (
        subst (λ n. Returns (Shrunk n) (delete_swap fuel d (node e ll lr lh) (node f rl rr rh) h))
          (sym a.2) (delete_swap-Shrunk fuel d e f ll lr rl rr lh rh h ih a lt))

  pub delete_loop-Shrunk :
      (fuel : ℕ) (t : Tree A) (k : ℕ)
      → IsAvl t
      → get_height t < fuel
      → Returns (Shrunk (get_height t)) (delete_loop fuel t k)
  unfolding delete_loop
  delete_loop-Shrunk zero t k a lt = elim lt [ ]
  delete_loop-Shrunk (suc fuel) null k a lt = (tt, omega arith, omega arith)
  delete_loop-Shrunk (suc fuel) (node d l r h) k a lt =
      let ih : Works A fuel = delete_loop-Shrunk fuel in
      elim (lt_cases k (o.tunnel_id d)) [
        | inl less ↦ rw (delete_loop-less fuel k d l r h less) (
            subst
              (λ n.
                Returns (Shrunk n)
                  (delete_loop fuel l k >>= λ l'. rebalance_delete (node d l' r h)))
              (sym a.2)
              (Returns-bind (Shrunk (get_height l)) _ (delete_loop fuel l k) _
                (ih l k a.0 (omega arith))
                λ l' s.
                  rebalance_delete-Shrunk d l' r h (get_height l) (get_height r) s
                    (a.1, omega arith, omega arith) a.3 a.4))
        | inr (inl more) ↦ rw (delete_loop-more fuel k d l r h more) (
            subst
              (λ n.
                Returns (Shrunk n)
                  (delete_loop fuel r k >>= λ r'. rebalance_delete (node d l r' h)))
              (sym a.2)
              (Returns-bind (Shrunk (get_height r)) _ (delete_loop fuel r k) _
                (ih r k a.1 (omega arith))
                λ r' s.
                  rebalance_delete-Shrunk d l r' h (get_height l) (get_height r)
                    (a.0, omega arith, omega arith) s a.3 a.4))
        | inr (inr same) ↦ delete_here-Shrunk fuel k d l r h ih a lt same
      ]
