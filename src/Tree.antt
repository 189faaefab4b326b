-- ===== src/Tree.antt =====
-- The AVL tree of rsvp_db.c that holds the Path and the Resv table: `db_node` and the functions
-- `get_height`, `get_balance`, `right_rotate`, `left_rotate`, `create_node`, `insert_node`,
-- `min_node`, `delete_node` and `search_node`.
-- A tree owns its nodes, so a function that relinks nodes in place and returns the root is a
-- function from trees to trees. A read through a NULL pointer is `fault`. `malloc` is an argument:
-- whether it gives a node.
pub mod Balance
pub mod Delete
pub mod DeleteTable
pub mod Contents
pub mod Display
pub mod Debug
pub mod Height
pub mod Insert
pub mod InsertTable
pub mod Rebalance
pub mod Refines
pub mod Search
pub mod Shrink
pub mod Table
mod Order
use socket.Base.{ℕ, zero, suc, ◌+◌, max, Bool, true, false, if◌then◌else◌, not, ◌||◌}
use socket.Base.Int.{ℤ, pos, negsuc, sub_ℕ, ltz, eqz}
use socket.Base.Run.{Run, ok, fault, out_of_fuel, branch, ◌>>=◌}
pub use Order.{TunnelOrder}

-- `struct db_node *`: `null`, or a node with its data, left, right and height.
pub data Tree (A : Type 0) : Type 0 where
  null : Tree A
  node : A → Tree A → Tree A → ℕ → Tree A

-- `a && b`, where evaluating `b` may fault.
abbrev pub and_then : Bool → Run Bool → Run Bool
and_then a b = if a then b else ok false

module _ {A : Type 0} where
  abbrev pub get_height : Tree A → ℕ
  get_height null = 0
  get_height (node d l r h) = h

  abbrev pub get_balance : Tree A → ℤ
  get_balance null = pos 0
  get_balance (node d l r h) = sub_ℕ (get_height l) (get_height r)

  unfoldable pub right_rotate : Tree A → Run (Tree A)
  right_rotate null = fault
  right_rotate (node y null r h) = fault
  right_rotate (node y (node x xl t2 xh) yr yh) =
      let y' = node y t2 yr (max (get_height t2) (get_height yr) + 1) in
      ok (node x xl y' (max (get_height xl) (get_height y') + 1))

  unfoldable pub left_rotate : Tree A → Run (Tree A)
  left_rotate null = fault
  left_rotate (node x l null h) = fault
  left_rotate (node x xl (node y t2 yr yh) xh) =
      let x' = node x xl t2 (max (get_height xl) (get_height t2) + 1) in
      ok (node y x' yr (max (get_height x') (get_height yr) + 1))

  -- The two lines `node->left = left_rotate(node->left); return right_rotate(node);`.
  unfoldable pub left_right_rotate : Tree A → Run (Tree A)
  unfolding right_rotate left_rotate
  left_right_rotate null = fault
  left_right_rotate (node d l r h) = do l' ← left_rotate l; right_rotate (node d l' r h)

  -- The two lines `node->right = right_rotate(node->right); return left_rotate(node);`.
  unfoldable pub right_left_rotate : Tree A → Run (Tree A)
  unfolding right_rotate left_rotate
  right_left_rotate null = fault
  right_left_rotate (node d l r h) = do r' ← right_rotate r; left_rotate (node d l r' h)

  unfoldable pub create_node : Bool → A → Tree A
  create_node malloc d = if malloc then node d null null 1 else null

  -- `node->data`.
  abbrev pub get_data : Tree A → Run A
  get_data null = fault
  get_data (node d l r h) = ok d

  abbrev pub is_null : Tree A → Bool
  is_null null = true
  is_null (node d l r h) = false

  -- The leftmost node's data, by the loop of `min_node`.
  unfoldable pub min_node : Tree A → Run A
  min_node null = fault
  min_node (node d null r h) = ok d
  min_node (node d (node ld ll lr lh) r h) = min_node (node ld ll lr lh)

  -- `temp->data = data_remove` for the leftmost node `temp`.
  unfoldable pub set_min : A → Tree A → Tree A
  set_min x null = null
  set_min x (node d null r h) = node x null r h
  set_min x (node d (node ld ll lr lh) r h) = node d (set_min x (node ld ll lr lh)) r h

  -- The number of calls that the recursion on a tree can nest.
  unfoldable pub depth : Tree A → ℕ
  depth null = 0
  depth (node d l r h) = suc (max (depth l) (depth r))

  -- The end of `delete_node`.
  unfoldable pub rebalance_delete : Tree A → Run (Tree A)
  rebalance_delete null = ok null
  rebalance_delete (node d l r _) =
      let n = node d l r (1 + max (get_height l) (get_height r)) in
      let balance = get_balance n in
      if ltz (pos 1) balance
      then (if not (ltz (get_balance l) (pos 0)) then right_rotate n else left_right_rotate n)
      else if ltz balance (negsuc 0)
      then (if not (ltz (pos 0) (get_balance r)) then left_rotate n else right_left_rotate n)
      else ok n

module _ {A : Type 0} ⦃o : TunnelOrder A⦄ where
  -- `cmp1(data, child->data) < 0` and `cmp1(data, child->data) > 0`.
  abbrev pub is_less_than : A → Tree A → Run Bool
  is_less_than x child = do d ← get_data child; ok (ltz (o.cmp1 x d) (pos 0))

  abbrev pub is_more_than : A → Tree A → Run Bool
  is_more_than x child = do d ← get_data child; ok (ltz (pos 0) (o.cmp1 x d))

  -- The end of `insert_node`: the height is updated and the node rebalanced.
  unfoldable pub rebalance_insert : A → Tree A → Run (Tree A)
  rebalance_insert x null = fault
  rebalance_insert x (node d l r _) =
      let n = node d l r (1 + max (get_height l) (get_height r)) in
      let balance = get_balance n in
      branch (and_then (ltz (pos 1) balance) (is_less_than x l)) (right_rotate n) (
        branch (and_then (ltz balance (negsuc 0)) (is_more_than x r)) (left_rotate n) (
          branch (and_then (ltz (pos 1) balance) (is_more_than x l)) (left_right_rotate n) (
            branch (and_then (ltz balance (negsuc 0)) (is_less_than x r)) (right_left_rotate n)
              (ok n))))

  unfoldable pub insert_node : Bool → Tree A → A → Run (Tree A)
  unfolding create_node
  insert_node malloc null x = ok (create_node malloc x)
  insert_node malloc (node d l r h) x =
      let to_left = (do l' ← insert_node malloc l x; rebalance_insert x (node d l' r h)) in
      let to_right = (do r' ← insert_node malloc r x; rebalance_insert x (node d l r' h)) in
      if ltz (o.cmp1 x d) (pos 0)
      then to_left
      else if ltz (pos 0) (o.cmp1 x d)
      then to_right
      else ok (node d l r h)

  -- The case of `delete_node` where the node itself goes, and has two children: the data of the
  -- node and of the least node on the right change places, and the call goes on to the right.
  unfoldable pub delete_loop : ℕ → Tree A → ℕ → Run (Tree A)
  unfolding min_node set_min
  delete_loop zero t k = out_of_fuel
  delete_loop (suc fuel) null k = ok null
  delete_loop (suc fuel) (node d l r h) k =
      let to_left = (do l' ← delete_loop fuel l k; rebalance_delete (node d l' r h)) in
      let to_right = (do r' ← delete_loop fuel r k; rebalance_delete (node d l r' h)) in
      let swap = (do
        keep ← min_node r
        r' ← delete_loop fuel (set_min d r) (o.tunnel_id d)
        rebalance_delete (node keep l r' h)) in
      if ltz (o.cmp k d) (pos 0)
      then to_left
      else if ltz (pos 0) (o.cmp k d)
      then to_right
      else if is_null l || is_null r
      then rebalance_delete (if is_null l then r else l)
      else swap

  -- Every recursive call is on a tree of a smaller depth, so the depth is fuel enough.
  unfoldable pub delete_node : Tree A → ℕ → Run (Tree A)
  unfolding delete_loop depth
  delete_node t k = delete_loop (suc (depth t)) t k

  unfoldable pub search_node : Tree A → ℕ → Tree A
  search_node null k = null
  search_node (node d l r h) k =
      let to_left = search_node l k in
      let to_right = search_node r k in
      if eqz (o.cmp k d) (pos 0)
      then node d l r h
      else if ltz (o.cmp k d) (pos 0)
      then to_left
      else to_right
