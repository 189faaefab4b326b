-- ===== src/Tree/Table/Split.antt =====
-- Insertion, deletion and search in a table that is split at a message, as a tree is at its root.
use socket.Base.{ℕ, suc, ◌<◌, ◌≡◌, refl, Bool, true, false, none, some, List, [], ◌∷◌, ◌++◌, arith}
use socket.Tree.{TunnelOrder}
use socket.Tree.Table.{Within, Within-le, insert_list, delete_list, find_list}

module _ {A : Type 0} ⦃o : TunnelOrder A⦄ where
  pub insert_list-less :
      (malloc : Bool) (x : A) (ds : List A) (d : A) (es : List A)
      → o.tunnel_id x < o.tunnel_id d
      → insert_list malloc x (ds ++ d ∷ es) ≡ insert_list malloc x ds ++ d ∷ es
  unfolding insert_list
  insert_list-less true x [] d es lt = ground arith
  insert_list-less false x [] d es lt = ground arith
  insert_list-less true x (c ∷ ds) d es lt = ground (arith, insert_list-less true x ds d es lt)
  insert_list-less false x (c ∷ ds) d es lt = ground (arith, insert_list-less false x ds d es lt)

  pub insert_list-more :
      (malloc : Bool) (lo : ℕ) (x : A) (ds : List A) (d : A) (es : List A)
      → Within lo (o.tunnel_id d) ds
      → o.tunnel_id d < o.tunnel_id x
      → insert_list malloc x (ds ++ d ∷ es) ≡ ds ++ d ∷ insert_list malloc x es
  unfolding insert_list
  insert_list-more malloc lo x [] d es w lt = ground arith
  insert_list-more malloc lo x (c ∷ ds) d es w lt = ground (
    arith,
    insert_list-more malloc (suc (o.tunnel_id c)) x ds d es w.1 lt,
    Within-le (suc (o.tunnel_id c)) (o.tunnel_id d) ds w.1,
  )

  pub insert_list-same :
      (malloc : Bool) (lo : ℕ) (x : A) (ds : List A) (d : A) (es : List A)
      → Within lo (o.tunnel_id d) ds
      → o.tunnel_id x ≡ o.tunnel_id d
      → insert_list malloc x (ds ++ d ∷ es) ≡ ds ++ d ∷ es
  unfolding insert_list
  insert_list-same malloc lo x [] d es w e = ground arith
  insert_list-same malloc lo x (c ∷ ds) d es w e = ground (
    arith,
    insert_list-same malloc (suc (o.tunnel_id c)) x ds d es w.1 e,
    Within-le (suc (o.tunnel_id c)) (o.tunnel_id d) ds w.1,
  )

  delete_list-below : (lo hi k : ℕ) (ds : List A) → Within lo hi ds → k < lo → delete_list k ds ≡ ds
  unfolding delete_list
  delete_list-below lo hi k [] w lt = refl
  delete_list-below lo hi k (d ∷ ds) w lt =
      ground (arith, delete_list-below (suc (o.tunnel_id d)) hi k ds w.1)

  pub delete_list-less :
      (hi k : ℕ) (ds : List A) (d : A) (es : List A)
      → k < o.tunnel_id d
      → Within (suc (o.tunnel_id d)) hi es
      → delete_list k (ds ++ d ∷ es) ≡ delete_list k ds ++ d ∷ es
  unfolding delete_list
  delete_list-less hi k [] d es lt w =
      ground (arith, delete_list-below (suc (o.tunnel_id d)) hi k es w)
  delete_list-less hi k (c ∷ ds) d es lt w = ground (arith, delete_list-less hi k ds d es lt w)

  pub delete_list-more :
      (lo k : ℕ) (ds : List A) (d : A) (es : List A)
      → Within lo (o.tunnel_id d) ds
      → o.tunnel_id d < k
      → delete_list k (ds ++ d ∷ es) ≡ ds ++ d ∷ delete_list k es
  unfolding delete_list
  delete_list-more lo k [] d es w lt = ground arith
  delete_list-more lo k (c ∷ ds) d es w lt = ground (
    arith,
    delete_list-more (suc (o.tunnel_id c)) k ds d es w.1 lt,
    Within-le (suc (o.tunnel_id c)) (o.tunnel_id d) ds w.1,
  )

  pub delete_list-same :
      (lo k : ℕ) (ds : List A) (d : A) (es : List A)
      → Within lo (o.tunnel_id d) ds
      → k ≡ o.tunnel_id d
      → delete_list k (ds ++ d ∷ es) ≡ ds ++ es
  unfolding delete_list
  delete_list-same lo k [] d es w e = ground arith
  delete_list-same lo k (c ∷ ds) d es w e = ground (
    arith,
    delete_list-same (suc (o.tunnel_id c)) k ds d es w.1 e,
    Within-le (suc (o.tunnel_id c)) (o.tunnel_id d) ds w.1,
  )

  pub find_list-below :
      (lo hi k : ℕ) (ds : List A) → Within lo hi ds → k < lo → find_list k ds ≡ none
  unfolding find_list
  find_list-below lo hi k [] w lt = refl
  find_list-below lo hi k (d ∷ ds) w lt =
      ground (arith, find_list-below (suc (o.tunnel_id d)) hi k ds w.1)

  pub find_list-less :
      (hi k : ℕ) (ds : List A) (d : A) (es : List A)
      → k < o.tunnel_id d
      → Within (suc (o.tunnel_id d)) hi es
      → find_list k (ds ++ d ∷ es) ≡ find_list k ds
  unfolding find_list
  find_list-less hi k [] d es lt w = ground (arith, find_list-below (suc (o.tunnel_id d)) hi k es w)
  find_list-less hi k (c ∷ ds) d es lt w = ground (arith, find_list-less hi k ds d es lt w)

  pub find_list-more :
      (lo k : ℕ) (ds : List A) (d : A) (es : List A)
      → Within lo (o.tunnel_id d) ds
      → o.tunnel_id d < k
      → find_list k (ds ++ d ∷ es) ≡ find_list k es
  unfolding find_list
  find_list-more lo k [] d es w lt = ground arith
  find_list-more lo k (c ∷ ds) d es w lt = ground (
    arith,
    find_list-more (suc (o.tunnel_id c)) k ds d es w.1 lt,
    Within-le (suc (o.tunnel_id c)) (o.tunnel_id d) ds w.1,
  )

  pub find_list-same :
      (lo k : ℕ) (ds : List A) (d : A) (es : List A)
      → Within lo (o.tunnel_id d) ds
      → k ≡ o.tunnel_id d
      → find_list k (ds ++ d ∷ es) ≡ some d
  unfolding find_list
  find_list-same lo k [] d es w e = ground arith
  find_list-same lo k (c ∷ ds) d es w e = ground (
    arith,
    find_list-same (suc (o.tunnel_id c)) k ds d es w.1 e,
    Within-le (suc (o.tunnel_id c)) (o.tunnel_id d) ds w.1,
  )
