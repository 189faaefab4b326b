-- ===== src/Tree/InsertTable.antt =====
-- `insert_node` of rsvp_db.c inserts into the table.
use socket.Base.{ℕ, suc, refl, ◌∙◌, ap, sym, inl, inr, Bool, true, false, ◌∷◌, ◌++◌, lt_cases}
use socket.Base.Run.{Yields, Yields-bind}
use socket.Tree.{Tree, null, node, TunnelOrder, create_node, insert_node}
use socket.Tree.Contents.{to_list, Lists, rebalance_insert-Lists}
use socket.Tree.Insert.{insert_node-less, insert_node-more, insert_node-same}
use socket.Tree.Table.{Within, Within-append, insert_list}
use socket.Tree.Table.Split.{insert_list-less, insert_list-more, insert_list-same}

module _ {A : Type 0} ⦃o : TunnelOrder A⦄ where
  abbrev pub Inserted : Bool → A → Tree A → Tree A → Type 0
  Inserted malloc x t = Lists (insert_list malloc x (to_list t))

  pub insert_node-Inserted :
      (malloc : Bool) (lo hi : ℕ) (t : Tree A) (x : A)
      → Within lo hi (to_list t)
      → Yields (Inserted malloc x t) (insert_node malloc t x)
  unfolding insert_node create_node insert_list
  insert_node-Inserted true lo hi null x w = refl
  insert_node-Inserted false lo hi null x w = refl
  insert_node-Inserted malloc lo hi (node d l r h) x w =
      let (below, above) = Within-append lo hi (to_list l) d (to_list r) w in
      elim (lt_cases (o.tunnel_id x) (o.tunnel_id d)) [
        | inl less ↦ rw (insert_node-less malloc x d l r h less) (
            Yields-bind (Inserted malloc x l) _ (insert_node malloc l x) _
              (insert_node-Inserted malloc lo (o.tunnel_id d) l x below)
              λ l' e. rebalance_insert-Lists x (node d l' r h) _ (
                ap (λ ds. ds ++ d ∷ to_list r) e
                ∙ sym (insert_list-less malloc x (to_list l) d (to_list r) less)))
        | inr (inl more) ↦ rw (insert_node-more malloc x d l r h more) (
            Yields-bind (Inserted malloc x r) _ (insert_node malloc r x) _
              (insert_node-Inserted malloc (suc (o.tunnel_id d)) hi r x above)
              λ r' e. rebalance_insert-Lists x (node d l r' h) _ (
                ap (λ ds. to_list l ++ d ∷ ds) e
                ∙ sym (insert_list-more malloc lo x (to_list l) d (to_list r) below more)))
        | inr (inr same) ↦
            rw (insert_node-same malloc x d l r h same)
              (sym (insert_list-same malloc lo x (to_list l) d (to_list r) below same))
      ]
