-- ===== src/Tree/Table.antt =====
-- What a table of rsvp_db.c promises: a list of messages in the order of their tunnel ids, with one
-- message for each id. Insertion, deletion and search on that list are the specification of the
-- AVL tree's.
pub mod Find
pub mod Split
use socket.Base.{
  ℕ, suc, ◌+◌, ◌≤◌, ◌<◌, Bool, true, false, Option, none, some, List, [], ◌∷◌, ◌++◌, arith, ltb,
  ◌==◌, if◌then◌else◌, length,
}
use socket.Tree.{TunnelOrder}

module _ {A : Type 0} ⦃o : TunnelOrder A⦄ where
  -- The ids grow strictly, from `lo` to below `hi`.
  abbrev pub Within : ℕ → ℕ → List A → Type 0
  Within lo hi [] = lo ≤ hi
  Within lo hi (d ∷ ds) = (lo ≤ o.tunnel_id d) × Within (suc (o.tunnel_id d)) hi ds

  -- An id that is there keeps its message; a failing `malloc` adds nothing.
  unfoldable pub insert_list : Bool → A → List A → List A
  insert_list malloc x [] = if malloc then x ∷ [] else []
  insert_list malloc x (d ∷ ds) =
      let rest = insert_list malloc x ds in
      if ltb (o.tunnel_id x) (o.tunnel_id d)
      then (if malloc then x ∷ d ∷ ds else d ∷ ds)
      else if ltb (o.tunnel_id d) (o.tunnel_id x)
      then d ∷ rest
      else d ∷ ds

  unfoldable pub delete_list : ℕ → List A → List A
  delete_list k [] = []
  delete_list k (d ∷ ds) =
      let rest = delete_list k ds in if k == o.tunnel_id d then ds else d ∷ rest

  unfoldable pub find_list : ℕ → List A → Option A
  find_list k [] = none
  find_list k (d ∷ ds) = if k == o.tunnel_id d then some d else find_list k ds

  pub Within-le : (lo hi : ℕ) (ds : List A) → Within lo hi ds → lo ≤ hi
  Within-le lo hi [] w = w
  Within-le lo hi (d ∷ ds) w = omega (arith, Within-le (suc (o.tunnel_id d)) hi ds w.1)

  pub Within-append :
      (lo hi : ℕ) (ds : List A) (d : A) (es : List A)
      → Within lo hi (ds ++ d ∷ es)
      → Within lo (o.tunnel_id d) ds × Within (suc (o.tunnel_id d)) hi es
  Within-append lo hi [] d es w = w
  Within-append lo hi (c ∷ ds) d es w =
      let (below, above) = Within-append (suc (o.tunnel_id c)) hi ds d es w.1 in
      ((w.0, below), above)

  pub append-Within :
      (lo hi : ℕ) (ds : List A) (d : A) (es : List A)
      → Within lo (o.tunnel_id d) ds
      → Within (suc (o.tunnel_id d)) hi es
      → Within lo hi (ds ++ d ∷ es)
  append-Within lo hi [] d es below above = (below, above)
  append-Within lo hi (c ∷ ds) d es below above =
      (below.0, append-Within (suc (o.tunnel_id c)) hi ds d es below.1 above)

  -- A list of ids below `hi` has `hi` messages at most.
  pub Within-length : (lo hi : ℕ) (ds : List A) → Within lo hi ds → lo + length ds ≤ hi
  Within-length lo hi [] w = omega arith
  Within-length lo hi (d ∷ ds) w = omega (arith, Within-length (suc (o.tunnel_id d)) hi ds w.1)

  pub insert_list-Within :
      (malloc : Bool) (lo hi : ℕ) (x : A) (ds : List A)
      → lo ≤ o.tunnel_id x
      → o.tunnel_id x < hi
      → Within lo hi ds
      → Within lo hi (insert_list malloc x ds)
  unfolding insert_list
  insert_list-Within true lo hi x [] p q w = ground arith
  insert_list-Within false lo hi x [] p q w = ground arith
  insert_list-Within true lo hi x (d ∷ ds) p q w =
      ground (arith, insert_list-Within true (suc (o.tunnel_id d)) hi x ds)
  insert_list-Within false lo hi x (d ∷ ds) p q w =
      ground (arith, insert_list-Within false (suc (o.tunnel_id d)) hi x ds)

  pub Within-weaken : (lo low hi : ℕ) (ds : List A) → lo ≤ low → Within low hi ds → Within lo hi ds
  Within-weaken lo low hi [] p w = omega arith
  Within-weaken lo low hi (d ∷ ds) p w = (omega arith, w.1)

  pub delete_list-Within :
      (lo hi k : ℕ) (ds : List A) → Within lo hi ds → Within lo hi (delete_list k ds)
  unfolding delete_list
  delete_list-Within lo hi k [] w = w
  delete_list-Within lo hi k (d ∷ ds) w = ground (
    arith,
    delete_list-Within (suc (o.tunnel_id d)) hi k ds,
    Within-weaken lo (suc (o.tunnel_id d)) hi ds,
  )
