-- ===== src/Session/Remove.antt =====
-- `delete_session` of rsvp_db.c as a deletion from the list of sessions.
use socket.Base.{◌≡◌, refl, true, arith, ap, ◌⊎◌, inl, inr, List, [], ◌∷◌, ◌++◌, append_assoc}
use socket.Base.Run.{Returns, Returns-imp}
use socket.Session.{Ptr, nil, Entry, Heap, delete_session}
use socket.Session.Chain.{Cells, entries, has, Chain, Outside}
use socket.Session.Split.{has-append}
use socket.Session.Delete.{delete_session-head, delete_session-last, delete_session-inner}

-- The list holds these entries, in this order.
abbrev pub Holds : List Entry → Ptr × Heap → Type 0
Holds es (r, g) = (cs : Cells) × Chain g r cs × (entries cs ≡ es)

-- And it has no session that was not on the list `cs`, and no other session has changed.
abbrev pub Drops : Heap → Cells → List Entry → Ptr × Heap → Type 0
Drops h cs es (r, g) =
    (ds : Cells) × Chain g r ds
    × (entries ds ≡ es)
    × ((a : Ptr) → has a ds ≡ true → has a cs ≡ true)
    × Outside cs h g

-- What a walk along the list keeps in `prev`.
unfoldable pub last_ptr : Cells → Ptr
last_ptr [] = nil
last_ptr ((a, _) ∷ []) = a
last_ptr (_ ∷ b ∷ cs) = last_ptr (b ∷ cs)

Ends : Cells → Type 0
Ends xs =
    (xs ≡ [])
    ⊎ ((zs : Cells) × (q : Ptr) × (d : Entry) × (xs ≡ zs ++ (q, d) ∷ []) × (last_ptr xs ≡ q))

ends : (xs : Cells) → Ends xs
unfolding last_ptr Ends
ends [] = inl refl
ends ((a, d) ∷ []) = inr ([], a, d, refl, refl)
ends (a ∷ b ∷ cs) = elim (ends (b ∷ cs)) [
  | inl none_left ↦ cc
  | inr (zs, q, d, e, l) ↦ inr (a ∷ zs, q, d, ap (λ ds. a ∷ ds) e, l)
]

pub entries-append : (xs ys : Cells) → entries (xs ++ ys) ≡ entries xs ++ entries ys
entries-append [] ys = refl
entries-append ((a, e) ∷ xs) ys = ap (λ es. e ∷ es) (entries-append xs ys)

module _ (h : Heap) (head s : Ptr) (e : Entry) where
  drop_after :
      (zs : Cells) (q : Ptr) (d : Entry) (ys : Cells)
      → Chain h head (zs ++ (q, d) ∷ (s, e) ∷ ys)
      → Returns
          (Drops h (zs ++ (q, d) ∷ (s, e) ∷ ys) (entries zs ++ d ∷ entries ys))
          (delete_session head s q h)
  drop_after zs q d [] c =
      let old = (q, d) ∷ (s, e) ∷ [] in
      Returns-imp _ (Drops h (zs ++ old) (entries zs ++ d ∷ [])) (delete_session head s q h)
        (delete_session-last h head q s zs d e c)
        λ (r, g) (chain, gone, same). (
          zs ++ (q, d) ∷ [],
          chain,
          entries-append zs ((q, d) ∷ []),
          (λ a i. ground (arith, has-append a zs ((q, d) ∷ []), has-append a zs old)),
          (λ a out. same a (ground (arith, has-append a zs old))),
        )
  drop_after zs q d ((b, f) ∷ ys) c =
      let old = (q, d) ∷ (s, e) ∷ (b, f) ∷ ys in
      let new = (q, d) ∷ (s, f) ∷ ys in
      Returns-imp _ (Drops h (zs ++ old) (entries zs ++ d ∷ f ∷ entries ys))
        (delete_session head s q h) (delete_session-inner h head q s zs d e b f ys c)
        λ (r, g) (_, _, chain, gone, same). (
          zs ++ new,
          chain,
          entries-append zs new,
          (λ a i. ground (arith, has-append a zs new, has-append a zs old)),
          (λ a out. same a (ground (arith, has-append a zs old))),
        )

  drop_first :
      (prev : Ptr) (ys : Cells)
      → Chain h head ((s, e) ∷ ys)
      → Returns (Drops h ((s, e) ∷ ys) (entries ys)) (delete_session head s prev h)
  drop_first prev ys c = rw c.0 (
      Returns-imp _ (Drops h ((s, e) ∷ ys) (entries ys)) (delete_session s s prev h)
        (delete_session-head h s prev e ys (refl, c.1, c.2, c.3))
        λ (r, g) (chain, gone, same). (ys, chain, refl, (λ a i. ground arith), same))

  -- `delete_session`, wherever on the list the session stands.
  pub delete_session-Drops :
      (prev : Ptr) (xs ys : Cells)
      → Chain h head (xs ++ (s, e) ∷ ys)
      → prev ≡ last_ptr xs
      → Returns
          (Drops h (xs ++ (s, e) ∷ ys) (entries xs ++ entries ys))
          (delete_session head s prev h)
  unfolding Ends
  delete_session-Drops prev xs ys c p = elim (ends xs) [
    | inl none_before ↦ rw none_before (drop_first prev ys (rw none_before at c))
    | inr (zs, q, d, split, l) ↦
        rw (p, l, split, entries-append zs ((q, d) ∷ []), append_assoc, append_assoc)
          (drop_after zs q d ys (rw (split, append_assoc) at c))
  ]

  -- Given the session's address and that of the one before it, `delete_session` returns with no
  -- memory fault a list of the same entries in the same order without the entry of that session,
  -- wherever on the list it stands.
  pub delete_session_lem :
      (prev : Ptr) (xs ys : Cells)
      → Chain h head (xs ++ (s, e) ∷ ys)
      → prev ≡ last_ptr xs
      → Returns (Holds (entries xs ++ entries ys)) (delete_session head s prev h)
  delete_session_lem prev xs ys c p =
      Returns-imp _ (Holds (entries xs ++ entries ys)) (delete_session head s prev h)
        (delete_session-Drops prev xs ys c p) λ (r, g) (ds, chain, same, _, _). (ds, chain, same)
