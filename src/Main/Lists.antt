-- ===== src/Main/Lists.antt =====
-- Two session lists in one heap, when a session is inserted into one of them.
use socket.Base.{ℕ, ◌≡◌, ◌∙◌, sym, ap, true, false, none, List, inl, inr, Bool-cases, ◌==◌, arith}
use socket.Base.Int.{ℤ, pos, negsuc}
use socket.Message.{path_order, resv_order}
use socket.Session.{Ptr, nil, Heap}
use socket.Session.Chain.{Apart, Apart-sym, Cells, Chain, has, frame}
use socket.Session.Insert.{has_of_none}
use socket.Session.Join.{inserted, Joined}
use socket.Session.Search.{find_cell, has-touch}

module _ (now malloc k : ℕ) (sender receiver : List ℕ) (h : Heap) (p q : Ptr) (cs ds : Cells)
    (c : Chain h p cs) (e : Chain h q ds) (apart : Apart cs ds) (unused : h malloc ≡ none) where
  has-inserted :
      (n : ℤ) (a : Ptr)
      → has a (inserted now malloc k sender receiver cs n) ≡ true
      → has a ds ≡ false
  has-inserted (negsuc n) a i = apart a i
  has-inserted (pos n) a i = elim (Bool-cases (find_cell k cs == nil)) [
    | inl new ↦
        ground
          (arith, has_of_none h malloc q ds e unused, apart a, has-touch a now k cs, rw new at i)
    | inr old ↦ apart a (sym (has-touch a now k cs) ∙ rw old at i)
  ]

  -- The other list outlives the insertion.
  pub Joined-Apart :
      (n : ℤ) (r : Ptr) (f : Heap)
      → Joined now malloc k sender receiver h cs n (r, f)
      → Chain f q ds × Apart (inserted now malloc k sender receiver cs n) ds
  Joined-Apart n r f (chain, spared) = (
    frame h f q ds e (λ a i.
        let out = has_of_none h malloc q ds e unused in
        spared a (Apart-sym cs ds apart a i) (λ same. ground (arith, ap (λ b. has b ds) same))),
    has-inserted n,
  )
