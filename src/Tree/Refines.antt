-- ===== src/Tree/Refines.antt =====
-- The tree functions of rsvp_db.c against the table: `insert_node`, `delete_node` and `search_node`
-- on a valid tree, with no read through a NULL pointer.
use socket.Base.{
  ℕ, suc, ◌<◌, ◌≡◌, ◌∙◌, sym, ap, Bool, true, none, some, refl, ==_iff, arith, ◌==◌, if◌then◌else◌,
}
use socket.Base.Run.{ok, Returns-and, Returns-eq, ok-injective}
use socket.Tree.{
  Tree, get_height, TunnelOrder, depth, insert_node, delete_loop, delete_node, search_node,
}
use socket.Tree.Balance.{IsAvl}
use socket.Tree.Contents.{to_list}
use socket.Tree.Delete.{delete_loop-Shrunk, depth-IsAvl}
use socket.Tree.DeleteTable.{Deleted, delete_loop-Deleted}
use socket.Tree.Insert.{insert_node-Grown}
use socket.Tree.InsertTable.{Inserted, insert_node-Inserted}
use socket.Tree.Rebalance.{Grown}
use socket.Tree.Search.{data_of, data_of-search_node}
use socket.Tree.Shrink.{Shrunk}
use socket.Tree.Table.{
  Within, insert_list, delete_list, find_list, insert_list-Within, delete_list-Within,
}
use socket.Tree.Table.Find.{or_else, find_list-insert_list, find_list-delete_list}

-- A tunnel id is a `uint16_t`.
abbrev pub id_limit : ℕ
id_limit = 65536

module _ {A : Type 0} ⦃o : TunnelOrder A⦄ where
  -- An AVL tree whose ids grow from left to right.
  pub record IsTable (t : Tree A) : Type 0 where
    pub balanced : IsAvl t
    pub ordered : Within 0 id_limit (to_list t)

  -- On a valid tree `insert_node` returns a valid tree with the message put in its place among the
  -- others. An id that is there keeps its message, and a failing `malloc` changes nothing.
  pub insert_node_refines :
      (malloc : Bool) (t : Tree A) (x : A)
      → IsTable t
      → o.tunnel_id x < id_limit
      → (t' : Tree A) × (insert_node malloc t x ≡ ok t')
        × IsTable t'
        × (to_list t' ≡ insert_list malloc x (to_list t))
  insert_node_refines malloc t x v lt =
      let both =
        Returns-and (Grown x (get_height t)) (Inserted malloc x t) (insert_node malloc t x)
          (insert_node-Grown malloc t x v.balanced)
          (insert_node-Inserted malloc 0 id_limit t x v.ordered) in
      let (t', e, (grown, listed)) = Returns-eq _ (insert_node malloc t x) both in
      (
        t',
        e,
        record {
          balanced = grown.0;
          ordered =
              rw listed
                (insert_list-Within malloc 0 id_limit x (to_list t) (omega arith) lt v.ordered);
        },
        listed,
      )

  -- On a valid tree `delete_node` returns a valid tree without the message of that id, and with
  -- all the others in their order; its recursion ends.
  pub delete_node_refines :
      (t : Tree A) (k : ℕ)
      → IsTable t
      → (t' : Tree A) × (delete_node t k ≡ ok t')
        × IsTable t'
        × (to_list t' ≡ delete_list k (to_list t))
  unfolding delete_node
  delete_node_refines t k v =
      let fuel = suc (depth t) in
      let both =
        Returns-and (Shrunk (get_height t)) (Deleted k t) (delete_loop fuel t k)
          (delete_loop-Shrunk fuel t k v.balanced (omega (arith, depth-IsAvl t v.balanced)))
          (delete_loop-Deleted fuel t 0 id_limit k v.ordered) in
      let (t', e, (shrunk, listed)) = Returns-eq _ (delete_loop fuel t k) both in
      (
        t',
        e,
        record {
          balanced = shrunk.0;
          ordered = rw listed (delete_list-Within 0 id_limit k (to_list t) v.ordered);
        },
        listed,
      )

  -- What a search reads on a valid tree is the table's message of that id.
  pub search-IsTable :
      (t : Tree A) (k : ℕ) → IsTable t → data_of (search_node t k) ≡ find_list k (to_list t)
  search-IsTable t k v = data_of-search_node 0 id_limit k t v.ordered

  -- After an insertion into a valid tree a search for the message's id finds the message that was
  -- there before, or else the new one; a search for any other id finds what it found before.
  pub search-insert_node :
      (t t' : Tree A) (x : A) (k : ℕ)
      → IsTable t
      → o.tunnel_id x < id_limit
      → insert_node true t x ≡ ok t'
      → data_of (search_node t' k) ≡ (
          if k == o.tunnel_id x
          then or_else (data_of (search_node t k)) x
          else data_of (search_node t k))
  search-insert_node t t' x k v lt e =
      let (u, e', v', listed) = insert_node_refines true t x v lt in
      let same : t' ≡ u = ok-injective (sym e ∙ e') in
      rw (same, search-IsTable t k v)
        (search-IsTable u k v'
          ∙ ap (find_list k) listed
          ∙ find_list-insert_list 0 id_limit k x (to_list t) v.ordered)

  -- A message that is put into a valid tree without its id is found there.
  pub insert_node-new :
      (t : Tree A) (x : A)
      → IsTable t
      → o.tunnel_id x < id_limit
      → data_of (search_node t (o.tunnel_id x)) ≡ none
      → (t' : Tree A) × (insert_node true t x ≡ ok t')
        × IsTable t'
        × (data_of (search_node t' (o.tunnel_id x)) ≡ some x)
  insert_node-new t x v lt absent =
      let (t', e, v', listed) = insert_node_refines true t x v lt in
      (
        t',
        e,
        v',
        rw
            (
              search-insert_node t t' x (o.tunnel_id x) v lt e,
              absent,
              (==_iff (o.tunnel_id x) (o.tunnel_id x)).1 refl,
            )
            refl,
      )

  -- After a deletion from a valid tree a search for that id finds nothing, and a search for any
  -- other id finds what it found before.
  pub search-delete_node :
      (t t' : Tree A) (j k : ℕ)
      → IsTable t
      → delete_node t j ≡ ok t'
      → data_of (search_node t' k) ≡ (if k == j then none else data_of (search_node t k))
  search-delete_node t t' j k v e =
      let (u, e', v', listed) = delete_node_refines t j v in
      let same : t' ≡ u = ok-injective (sym e ∙ e') in
      rw (same, search-IsTable t k v)
        (search-IsTable u k v'
          ∙ ap (find_list k) listed
          ∙ find_list-delete_list 0 id_limit j k (to_list t) v.ordered)
