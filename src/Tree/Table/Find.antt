-- ===== src/Tree/Table/Find.antt =====
-- Searching a table after an insertion or a deletion.
use socket.Base.{ℕ, suc, ◌≡◌, true, Option, none, some, List, [], ◌∷◌, arith, ◌==◌, if◌then◌else◌}
use socket.Tree.Order.{TunnelOrder}
use socket.Tree.Table.{Within, insert_list, delete_list, find_list}
use socket.Tree.Table.Split.{find_list-below}

-- The message that is there, or else this one.
abbrev pub or_else : {A : Type 0} → Option A → A → Option A
or_else none x = some x
or_else (some y) x = some y

module _ {A : Type 0} ⦃o : TunnelOrder A⦄ where
  pub find_list-insert_list :
      (lo hi k : ℕ) (x : A) (ds : List A)
      → Within lo hi ds
      → find_list k (insert_list true x ds)
        ≡ (if k == o.tunnel_id x then or_else (find_list k ds) x else find_list k ds)
  unfolding find_list insert_list
  find_list-insert_list lo hi k x [] w = ground arith
  find_list-insert_list lo hi k x (d ∷ ds) w = ground (
    arith,
    find_list-insert_list (suc (o.tunnel_id d)) hi k x ds w.1,
    find_list-below (suc (o.tunnel_id d)) hi k ds w.1,
  )

  pub find_list-delete_list :
      (lo hi j k : ℕ) (ds : List A)
      → Within lo hi ds
      → find_list k (delete_list j ds) ≡ (if k == j then none else find_list k ds)
  unfolding find_list delete_list
  find_list-delete_list lo hi j k [] w = ground arith
  find_list-delete_list lo hi j k (d ∷ ds) w = ground (
    arith,
    find_list-delete_list (suc (o.tunnel_id d)) hi j k ds w.1,
    find_list-below (suc (o.tunnel_id d)) hi k ds w.1,
  )
