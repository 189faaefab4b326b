-- ===== src/Session/Delete.antt =====
-- `delete_session` of rsvp_db.c: it takes out the session that it is given, by one of three ways.
use socket.Base.{
  ◌≡◌, ◌≢◌, refl, subst, ◌∙◌, true, false, none, some, Option, [], ◌∷◌, ◌++◌, arith, ◌==◌,
}
use socket.Base.Run.{Returns}
use socket.Session.{Ptr, nil, Entry, Session, session, Heap, write, delete_session}
use socket.Session.Split.{part, apart, replace, head_before}
use socket.Session.Chain.{
  Cells, has, Chain, Outside, frame-write, not_nil, load-ok, store-ok, free-ok, write_self,
  write-ne,
}

-- The session at the head of the list.
pub delete_session-head :
    (h : Heap) (s prev : Ptr) (e : Entry) (cs : Cells)
    → Chain h s ((s, e) ∷ cs)
    → Returns
        (λ (r, g). Chain g r cs × (g s ≡ none) × Outside ((s, e) ∷ cs) h g)
        (delete_session s s prev h)
unfolding delete_session
delete_session-head h s prev e cs (here, real, fresh, (n, holds, rest)) =
    let it = session e n in
    let same : (s == s) ≡ true = ground arith in
    rw (not_nil h s it real holds, same, load-ok h s it real holds, free-ok h s it real holds)
      (
        frame-write h n s none cs rest fresh,
        write_self h s none,
        λ a out. write-ne h s a none (ground arith),
      )

-- Two writes to sessions of the back part leave the front part alone.
unwritten :
    (h : Heap) (head : Ptr) (xs back : Cells)
    → Chain h head (xs ++ back)
    → (b c : Ptr) (t u : Option Session) (a : Ptr) → has b back ≡ true
    → has c back ≡ true
    → has a xs ≡ true
    → write (write h b t) c u a ≡ h a
unfolding write
unwritten h head xs back k b c t u a ib ic i = ground (arith, apart h head a xs back k)

module _ (h : Heap) (head q s : Ptr) (xs : Cells) (d e : Entry) where
  -- The last session of the list: its predecessor `q` becomes the last one.
  pub delete_session-last :
      Chain h head (xs ++ (q, d) ∷ (s, e) ∷ [])
      → Returns
          (λ (r, g).
            Chain g r (xs ++ (q, d) ∷ []) × (g s ≡ none) × Outside ((q, d) ∷ (s, e) ∷ []) h g)
          (delete_session head s q h)
  unfolding delete_session
  delete_session-last c =
      let (not_null, not_head) = head_before h head q s xs d e [] c in
      let (_, real_q, fresh_q, (n, holds_q, behind)) = part h head q xs d ((s, e) ∷ []) c in
      let (_, real, _, (m, holds, end)) = behind in
      let at_end : (m == nil) ≡ true = ground arith in
      let h1 = write h q (some (session d nil)) in
      let g = write h1 s none in
      let spared : h1 s ≡ some (session e m) =
        write-ne h q s (some (session d nil)) (ground arith) ∙ holds in
      let last : g q ≡ some (session d nil) =
        write-ne h1 s q none (ground arith) ∙ write_self h q (some (session d nil)) in
      let same : (a : Ptr) → has a xs ≡ true → g a ≡ h a = λ a i.
        unwritten h head xs ((q, d) ∷ (s, e) ∷ []) c q s _ none a (ground arith) (ground arith) i in
      rw
        (
          not_null,
          not_head,
          load-ok h s (session e m) real holds,
          at_end,
          load-ok h q (session d n) real_q holds_q,
          store-ok h q (session d n) real_q holds_q (session d nil),
          free-ok h1 s (session e m) real spared,
        )
        (
          replace h g head q xs d d ((s, e) ∷ []) [] c (refl, real_q, refl, (nil, last, refl))
              (λ a i. ground arith) same,
          write_self h1 s none,
          λ a out.
              write-ne h1 s a none (ground arith)
              ∙ write-ne h q a (some (session d nil)) (ground arith),
        )

  -- A session with another one behind it: that one's contents move here.
  pub delete_session-inner :
      (b : Ptr) (f : Entry) (zs : Cells)
      → Chain h head (xs ++ (q, d) ∷ (s, e) ∷ (b, f) ∷ zs)
      → Returns
          (λ (r, g).
            (r ≡ head)
            × Chain g s ((s, f) ∷ zs)
            × Chain g r (xs ++ (q, d) ∷ (s, f) ∷ zs)
            × (g b ≡ none)
            × Outside ((s, e) ∷ (b, f) ∷ zs) h g)
          (delete_session head s q h)
  unfolding delete_session
  delete_session-inner b f zs c =
      let ys = (b, f) ∷ zs in
      let back = (q, d) ∷ (s, e) ∷ ys in
      let (not_null, not_head) = head_before h head q s xs d e ys c in
      let (_, real_q, fresh_q, (n, holds_q, behind)) = part h head q xs d ((s, e) ∷ ys) c in
      let (at_s, real, fresh, (b', holds, (at_b, real_b, fresh_b, (m, holds_b, rest)))) = behind in
      let inside : (b' == nil) ≡ false = ground arith in
      let holds_b' : h b' ≡ some (session f m) = rw at_b holds_b in
      let real_b' : b' ≢ nil = rw at_b real_b in
      let t = some (session f m) in
      let h1 = write h s t in
      let g = write h1 b' none in
      let spared : h1 b' ≡ t = write-ne h s b' t (ground arith) ∙ holds_b' in
      let at_q : g q ≡ some (session d n) =
        write-ne h1 b' q none (ground arith) ∙ write-ne h s q t (ground arith) ∙ holds_q in
      let moved : g s ≡ t = write-ne h1 b' s none (ground arith) ∙ write_self h s t in
      let tail : Chain g m zs =
        frame-write h1 m b' none zs (frame-write h m s t zs rest (ground arith)) (ground arith) in
      let new_back : Chain g q ((q, d) ∷ (s, f) ∷ zs) =
        (refl, real_q, ground arith, (n, at_q, (at_s, real, ground arith, (m, moved, tail)))) in
      rw
        (
          not_null,
          not_head,
          load-ok h s (session e b') real holds,
          inside,
          load-ok h b' (session f m) real_b' holds_b',
          store-ok h s (session e b') real holds (session f m),
          free-ok h1 b' (session f m) real_b' spared,
        )
        (
          refl,
          (refl, real, ground arith, (m, moved, tail)),
          replace h g head q xs d d ((s, e) ∷ ys) ((s, f) ∷ zs) c new_back (λ a i. ground arith)
              (λ a i. unwritten h head xs back c s b' t none a (ground arith) (ground arith) i),
          subst (λ a. g a ≡ none) at_b (write_self h1 b' none),
          λ a out. write-ne h1 b' a none (ground arith) ∙ write-ne h s a t (ground arith),
        )
