-- ===== src/Tree/Search.antt =====
-- `search_node` of rsvp_db.c against the search in the table.
use socket.Base.{ℕ, suc, ◌<◌, ◌≡◌, refl, inl, inr, Option, none, some, arith, lt_cases}
use socket.Tree.{Tree, null, node, TunnelOrder, search_node}
use socket.Tree.Contents.{to_list}
use socket.Tree.Table.{Within, Within-append, find_list}
use socket.Tree.Table.Split.{find_list-less, find_list-more, find_list-same}

-- What a caller reads from the node that `search_node` returns.
abbrev pub data_of : {A : Type 0} → Tree A → Option A
data_of null = none
data_of (node d l r h) = some d

pub null-data_of : {A : Type 0} (n : Tree A) → data_of n ≡ none → n ≡ null
null-data_of null e = refl
null-data_of (node d l r h) e = cc

module _ {A : Type 0} ⦃o : TunnelOrder A⦄ where
  module _ (k : ℕ) (d : A) (l r : Tree A) (h : ℕ) where
    search_node-less : k < o.tunnel_id d → search_node (node d l r h) k ≡ search_node l k
    unfolding search_node
    search_node-less lt = ground (arith, o.cmp_lem k d)

    search_node-more : o.tunnel_id d < k → search_node (node d l r h) k ≡ search_node r k
    unfolding search_node
    search_node-more lt = ground (arith, o.cmp_lem k d)

    search_node-same : k ≡ o.tunnel_id d → search_node (node d l r h) k ≡ node d l r h
    unfolding search_node
    search_node-same e = ground (arith, o.cmp_lem k d)

  pub data_of-search_node :
      (lo hi k : ℕ) (t : Tree A)
      → Within lo hi (to_list t)
      → data_of (search_node t k) ≡ find_list k (to_list t)
  unfolding search_node find_list
  data_of-search_node lo hi k null w = refl
  data_of-search_node lo hi k (node d l r h) w =
      let (below, above) = Within-append lo hi (to_list l) d (to_list r) w in
      elim (lt_cases k (o.tunnel_id d)) [
        | inl less ↦
            rw
              (
                search_node-less k d l r h less,
                find_list-less hi k (to_list l) d (to_list r) less above,
              )
              (data_of-search_node lo (o.tunnel_id d) k l below)
        | inr (inl more) ↦
            rw
              (
                search_node-more k d l r h more,
                find_list-more lo k (to_list l) d (to_list r) below more,
              )
              (data_of-search_node (suc (o.tunnel_id d)) hi k r above)
        | inr (inr same) ↦ rw (
          search_node-same k d l r h same,
          find_list-same lo k (to_list l) d (to_list r) below same,
        )
      ]
