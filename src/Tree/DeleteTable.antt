-- ===== src/Tree/DeleteTable.antt =====
-- `delete_node` of rsvp_db.c deletes from the table.
use socket.Base.{
  ℕ, zero, suc, ◌≡◌, refl, ◌∙◌, ap, sym, subst, inl, inr, List, ◌∷◌, ◌++◌, arith, lt_cases,
  append-nil,
}
use socket.Base.Run.{Yields, Yields-bind, Yields-imp}
use socket.Tree.{Tree, null, node, TunnelOrder, min_node, set_min, delete_loop}
use socket.Tree.Contents.{to_list, Lists, rebalance_delete-Lists}
use socket.Tree.Delete.{
  delete_swap, delete_loop-less, delete_loop-more, delete_loop-no_left, delete_loop-no_right,
  delete_loop-swap,
}
use socket.Tree.Table.{Within, Within-append, Within-weaken, delete_list}
use socket.Tree.Table.Split.{delete_list-less, delete_list-more, delete_list-same}

module _ {A : Type 0} where
  -- The least message stands in front, and `set_min` replaces it.
  abbrev Least : A → Tree A → A → Type 0
  Least x t keep = (rest : List A) × (to_list t ≡ keep ∷ rest) × (to_list (set_min x t) ≡ x ∷ rest)

  min_node-Least : (x : A) (t : Tree A) → Yields (Least x t) (min_node t)
  unfolding min_node set_min
  min_node-Least x null = tt
  min_node-Least x (node d null r h) = (to_list r, refl, refl)
  min_node-Least x (node d (node e ll lr lh) r h) =
      Yields-imp (Least x (node e ll lr lh)) _ (min_node (node e ll lr lh))
        (min_node-Least x (node e ll lr lh))
        λ keep (rest, p, q). (
          rest ++ d ∷ to_list r,
          ap (λ ds. ds ++ d ∷ to_list r) p,
          ap (λ ds. ds ++ d ∷ to_list r) q,
        )

module _ {A : Type 0} ⦃o : TunnelOrder A⦄ where
  abbrev pub Deleted : ℕ → Tree A → Tree A → Type 0
  Deleted k t = Lists (delete_list k (to_list t))

  -- The message that changes places with the least one on the right is the first of what is left
  -- to search.
  delete_first :
      (hi : ℕ) (d keep : A) (es : List A)
      → Within (suc (o.tunnel_id d)) hi (keep ∷ es)
      → Within (o.tunnel_id d) hi (d ∷ es) × (delete_list (o.tunnel_id d) (d ∷ es) ≡ es)
  unfolding delete_list
  delete_first hi d keep es w = (
    (
      omega arith,
      Within-weaken (suc (o.tunnel_id d)) (suc (o.tunnel_id keep)) hi es (omega arith) w.1,
    ),
    ground arith,
  )

  delete_swap-Deleted :
      (fuel lo hi : ℕ) (d : A) (l r : Tree A) (h : ℕ)
      → ((t : Tree A) (low high j : ℕ)
          → Within low high (to_list t)
          → Yields (Deleted j t) (delete_loop fuel t j))
      → Within (suc (o.tunnel_id d)) hi (to_list r)
      → Yields (Lists (to_list l ++ to_list r)) (delete_swap fuel d l r h)
  delete_swap-Deleted fuel lo hi d l r h ih w =
      Yields-bind (Least d r) _ (min_node r) _ (min_node-Least d r) λ keep (rest, e, e').
        let (w', first) =
          delete_first hi d keep rest (subst (Within (suc (o.tunnel_id d)) hi) e w) in
        Yields-bind (Lists rest) _ (delete_loop fuel (set_min d r) (o.tunnel_id d)) _
          (Yields-imp _ (Lists rest) (delete_loop fuel (set_min d r) (o.tunnel_id d))
            (ih (set_min d r) (o.tunnel_id d) hi (o.tunnel_id d)
              (subst (Within (o.tunnel_id d) hi) (sym e') w'))
            λ t k. k ∙ ap (delete_list (o.tunnel_id d)) e' ∙ first)
          λ r' e''.
            rebalance_delete-Lists (node keep l r' h) _
              (ap (λ ds. to_list l ++ keep ∷ ds) e'' ∙ ap (λ ds. to_list l ++ ds) (sym e))

  delete_here-Deleted :
      (fuel lo hi k : ℕ) (d : A) (l r : Tree A) (h : ℕ)
      → ((t : Tree A) (low high j : ℕ)
          → Within low high (to_list t)
          → Yields (Deleted j t) (delete_loop fuel t j))
      → Within (suc (o.tunnel_id d)) hi (to_list r)
      → k ≡ o.tunnel_id d
      → Yields (Lists (to_list l ++ to_list r)) (delete_loop (suc fuel) (node d l r h) k)
  delete_here-Deleted fuel lo hi k d null r h ih w e =
      rw (delete_loop-no_left fuel k d r h e) (rebalance_delete-Lists r (to_list r) refl)
  delete_here-Deleted fuel lo hi k d (node f ll lr lh) null h ih w e =
      rw (delete_loop-no_right fuel k d f ll lr lh h e)
        (rebalance_delete-Lists (node f ll lr lh) _ (sym (append-nil (to_list (node f ll lr lh)))))
  delete_here-Deleted fuel lo hi k d (node f ll lr lh) (node g rl rr rh) h ih w e =
      rw (delete_loop-swap fuel k d f g ll lr rl rr lh rh h e)
        (delete_swap-Deleted fuel lo hi d (node f ll lr lh) (node g rl rr rh) h ih w)

  pub delete_loop-Deleted :
      (fuel : ℕ) (t : Tree A) (lo hi k : ℕ)
      → Within lo hi (to_list t)
      → Yields (Deleted k t) (delete_loop fuel t k)
  unfolding delete_loop delete_list
  delete_loop-Deleted zero t lo hi k w = tt
  delete_loop-Deleted (suc fuel) null lo hi k w = refl
  delete_loop-Deleted (suc fuel) (node d l r h) lo hi k w =
      let (below, above) = Within-append lo hi (to_list l) d (to_list r) w in
      elim (lt_cases k (o.tunnel_id d)) [
        | inl less ↦ rw (delete_loop-less fuel k d l r h less) (
            Yields-bind (Deleted k l) _ (delete_loop fuel l k) _
              (delete_loop-Deleted fuel l lo (o.tunnel_id d) k below)
              λ l' e. rebalance_delete-Lists (node d l' r h) _ (
                ap (λ ds. ds ++ d ∷ to_list r) e
                ∙ sym (delete_list-less hi k (to_list l) d (to_list r) less above)))
        | inr (inl more) ↦ rw (delete_loop-more fuel k d l r h more) (
            Yields-bind (Deleted k r) _ (delete_loop fuel r k) _
              (delete_loop-Deleted fuel r (suc (o.tunnel_id d)) hi k above)
              λ r' e. rebalance_delete-Lists (node d l r' h) _ (
                ap (λ ds. to_list l ++ d ∷ ds) e
                ∙ sym (delete_list-more lo k (to_list l) d (to_list r) below more)))
        | inr (inr same) ↦
            Yields-imp (Lists (to_list l ++ to_list r)) (Deleted k (node d l r h)) _
              (delete_here-Deleted fuel lo hi k d l r h (delete_loop-Deleted fuel) above same)
              λ t e. e ∙ sym (delete_list-same lo k (to_list l) d (to_list r) below same)
      ]
