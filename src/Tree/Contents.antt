-- ===== src/Tree/Contents.antt =====
-- The messages of a tree from left to right, and that the rotations and the rebalancing of
-- rsvp_db.c leave them as they are.
use socket.Base.{
  ◌+◌, max, ◌≡◌, refl, ap, ◌∙◌, List, [], ◌∷◌, ◌++◌, append_assoc, if◌then◌else◌, not,
}
use socket.Base.Int.{pos, negsuc, ltz}
use socket.Base.Run.{ok, branch, Yields, Yields-bind, Yields-imp, Yields-branch, Yields-if}
use socket.Tree.{
  Tree, null, node, get_height, get_balance, TunnelOrder, right_rotate, left_rotate,
  left_right_rotate, right_left_rotate, rebalance_insert, rebalance_delete, is_less_than,
  is_more_than, and_then,
}

module _ {A : Type 0} where
  abbrev pub to_list : Tree A → List A
  to_list null = []
  to_list (node d l r h) = to_list l ++ d ∷ to_list r

  -- The tree holds these messages, from left to right.
  abbrev pub Lists : List A → Tree A → Type 0
  Lists ds t = to_list t ≡ ds

  abbrev pub Keeps : Tree A → Tree A → Type 0
  Keeps t t' = to_list t' ≡ to_list t

  right_rotate-Keeps : (t : Tree A) → Yields (Keeps t) (right_rotate t)
  unfolding right_rotate
  right_rotate-Keeps null = tt
  right_rotate-Keeps (node y null r h) = tt
  right_rotate-Keeps (node y (node x xl t2 xh) yr yh) = simp append_assoc

  left_rotate-Keeps : (t : Tree A) → Yields (Keeps t) (left_rotate t)
  unfolding left_rotate
  left_rotate-Keeps null = tt
  left_rotate-Keeps (node x l null h) = tt
  left_rotate-Keeps (node x xl (node y t2 yr yh) xh) = simp append_assoc

  left_right_rotate-Keeps : (t : Tree A) → Yields (Keeps t) (left_right_rotate t)
  unfolding left_right_rotate
  left_right_rotate-Keeps null = tt
  left_right_rotate-Keeps (node d l r h) =
      Yields-bind (Keeps l) (Keeps (node d l r h)) (left_rotate l) _ (left_rotate-Keeps l) λ l' e.
        Yields-imp (Keeps (node d l' r h)) (Keeps (node d l r h)) _
          (right_rotate-Keeps (node d l' r h)) λ t k. k ∙ ap (λ ds. ds ++ d ∷ to_list r) e

  right_left_rotate-Keeps : (t : Tree A) → Yields (Keeps t) (right_left_rotate t)
  unfolding right_left_rotate
  right_left_rotate-Keeps null = tt
  right_left_rotate-Keeps (node d l r h) =
      Yields-bind (Keeps r) (Keeps (node d l r h)) (right_rotate r) _ (right_rotate-Keeps r) λ r' e.
        Yields-imp (Keeps (node d l r' h)) (Keeps (node d l r h)) _
          (left_rotate-Keeps (node d l r' h)) λ t k. k ∙ ap (λ ds. to_list l ++ d ∷ ds) e

  rebalance_delete-Keeps : (t : Tree A) → Yields (Keeps t) (rebalance_delete t)
  unfolding rebalance_delete
  rebalance_delete-Keeps null = refl
  rebalance_delete-Keeps (node d l r h) =
      let n = node d l r (1 + max (get_height l) (get_height r)) in
      let to_right : Yields (Keeps n)
          (if not (ltz (get_balance l) (pos 0)) then right_rotate n else left_right_rotate n) =
        Yields-if (Keeps n) (not (ltz (get_balance l) (pos 0))) (right_rotate n)
          (left_right_rotate n) (right_rotate-Keeps n) (left_right_rotate-Keeps n) in
      let to_left : Yields (Keeps n)
          (if not (ltz (pos 0) (get_balance r)) then left_rotate n else right_left_rotate n) =
        Yields-if (Keeps n) (not (ltz (pos 0) (get_balance r))) (left_rotate n)
          (right_left_rotate n) (left_rotate-Keeps n) (right_left_rotate-Keeps n) in
      let light =
        if not (ltz (get_balance l) (pos 0)) then right_rotate n else left_right_rotate n in
      let heavy =
        if not (ltz (pos 0) (get_balance r)) then left_rotate n else right_left_rotate n in
      Yields-if (Keeps n) (ltz (pos 1) (get_balance n)) light
        (if ltz (get_balance n) (negsuc 0) then heavy else ok n) to_right
        (Yields-if (Keeps n) (ltz (get_balance n) (negsuc 0)) heavy (ok n) to_left refl)

  pub rebalance_delete-Lists :
      (t : Tree A) (ds : List A) → to_list t ≡ ds → Yields (Lists ds) (rebalance_delete t)
  rebalance_delete-Lists t ds e =
      Yields-imp (Keeps t) (Lists ds) (rebalance_delete t) (rebalance_delete-Keeps t) λ t' k. k ∙ e

module _ {A : Type 0} ⦃o : TunnelOrder A⦄ where
  rebalance_insert-Keeps : (x : A) (t : Tree A) → Yields (Keeps t) (rebalance_insert x t)
  unfolding rebalance_insert
  rebalance_insert-Keeps x null = tt
  rebalance_insert-Keeps x (node d l r h) =
      let n = node d l r (1 + max (get_height l) (get_height r)) in
      let left = ltz (pos 1) (get_balance n) in
      let right = ltz (get_balance n) (negsuc 0) in
      let fourth = branch (and_then right (is_less_than x r)) (right_left_rotate n) (ok n) in
      let third = branch (and_then left (is_more_than x l)) (left_right_rotate n) fourth in
      let second = branch (and_then right (is_more_than x r)) (left_rotate n) third in
      Yields-branch (Keeps n) (and_then left (is_less_than x l)) (right_rotate n) second
        (right_rotate-Keeps n)
        (Yields-branch (Keeps n) (and_then right (is_more_than x r)) (left_rotate n) third
          (left_rotate-Keeps n)
          (Yields-branch (Keeps n) (and_then left (is_more_than x l)) (left_right_rotate n) fourth
            (left_right_rotate-Keeps n)
            (Yields-branch (Keeps n) (and_then right (is_less_than x r)) (right_left_rotate n)
              (ok n) (right_left_rotate-Keeps n) refl)))

  pub rebalance_insert-Lists :
      (x : A) (t : Tree A) (ds : List A) → to_list t ≡ ds → Yields (Lists ds) (rebalance_insert x t)
  rebalance_insert-Lists x t ds e =
      Yields-imp (Keeps t) (Lists ds) (rebalance_insert x t) (rebalance_insert-Keeps x t)
        λ t' k. k ∙ e
