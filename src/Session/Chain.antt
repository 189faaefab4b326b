-- ===== src/Session/Chain.antt =====
-- The lists of sessions in the heap of rsvp_db.c.
use socket.Base.{
  refl, sym, ap, ◌∙◌, some-injective, ◌≡◌, ◌≢◌, Bool, true, false, ◌||◌, some, none, Option, List,
  [], ◌∷◌, arith, ◌==◌, inl, inr, Bool-cases,
}
use socket.Base.Run.{ok}
use socket.Session.{Ptr, nil, Entry, Session, session, Heap, write, load, store, free}

-- What a list stands for: the address and the contents of each session, in order.
abbrev pub Cells : Type 0
Cells = List (Ptr × Entry)

abbrev pub has : Ptr → Cells → Bool
has a [] = false
has a ((b, _) ∷ cs) = (a == b) || has a cs

abbrev pub entries : Cells → List Entry
entries [] = []
entries ((_, e) ∷ cs) = e ∷ entries cs

-- From `p` the links lead through the distinct sessions `cs` to `NULL`.
abbrev pub Chain : Heap → Ptr → Cells → Type 0
Chain h p [] = p ≡ nil
Chain h p ((a, e) ∷ cs) =
    (p ≡ a)
    × (a ≢ nil)
    × (has a cs ≡ false)
    × ((n : Ptr) × (h a ≡ some (session e n)) × Chain h n cs)

-- Nothing but sessions of `cs` is written or freed.
abbrev pub Outside : Cells → Heap → Heap → Type 0
Outside cs h g = (a : Ptr) → has a cs ≡ false → g a ≡ h a

-- A list outlives any change that spares its sessions.
pub frame :
    (h g : Heap) (p : Ptr) (cs : Cells)
    → Chain h p cs
    → ((a : Ptr) → has a cs ≡ true → g a ≡ h a)
    → Chain g p cs
frame h g p [] c same = c
frame h g p ((a, e) ∷ cs) (here, real, fresh, (n, holds, rest)) same = (
  here,
  real,
  fresh,
  (n, ground (arith, same a), frame h g n cs rest λ b i. same b (ground arith)),
)

pub frame-write :
    (h : Heap) (p a : Ptr) (c : Option Session) (cs : Cells)
    → Chain h p cs
    → has a cs ≡ false
    → Chain (write h a c) p cs
unfolding write
frame-write h p a c cs k out = frame h (write h a c) p cs k λ b i. ground arith

module _ (h : Heap) (a : Ptr) (s : Session) (real : a ≢ nil) (holds : h a ≡ some s) where
  pub not_nil : (a == nil) ≡ false
  not_nil = ground arith

  pub load-ok : load a h ≡ ok (s, h)
  unfolding load
  load-ok = rw (not_nil, holds)

  pub store-ok : (t : Session) → store a t h ≡ ok (tt, write h a (some t))
  unfolding store
  store-ok t = rw load-ok

  pub free-ok : free a h ≡ ok (tt, write h a none)
  unfolding free
  free-ok = rw load-ok

pub write_self : (h : Heap) (a : Ptr) (c : Option Session) → write h a c a ≡ c
unfolding write
write_self h a c = ground arith

pub write-ne : (h : Heap) (a b : Ptr) (c : Option Session) → b ≢ a → write h a c b ≡ h b
unfolding write
write-ne h a b c ne = ground arith

-- What a cell holds, from two readings of it.
same_cell :
    (h : Heap) (a b : Ptr) (e f : Entry) (n m : Ptr)
    → a ≡ b
    → h a ≡ some (session e n)
    → h b ≡ some (session f m)
    → (e ≡ f) × (n ≡ m)
same_cell h a b e f n m at holds holds' =
    let same : session e n ≡ session f m = some-injective (sym holds ∙ ap h at ∙ holds') in
    (ap (λ s. s.entry) same, ap (λ s. s.next) same)

-- A head leads through one list only.
pub Chain-unique :
    (h : Heap) (p q : Ptr) (cs ds : Cells) → p ≡ q → Chain h p cs → Chain h q ds → cs ≡ ds
Chain-unique h p q [] [] at c d = refl
Chain-unique h p q [] ((b, f) ∷ ds) at c (here, real, _, _) = absurd (real (sym here ∙ sym at ∙ c))
Chain-unique h p q ((a, e) ∷ cs) [] at (here, real, _, _) d = absurd (real (sym here ∙ at ∙ d))
Chain-unique h p q ((a, e) ∷ cs) ((b, f) ∷ ds) at (here, _, _, (n, holds, c))
      (there, _, _, (m, holds', d)) =
    let same : a ≡ b = sym here ∙ at ∙ there in
    let (entry, next) = same_cell h a b e f n m same holds holds' in
    rw (same, entry) (ap (λ cs'. (b, f) ∷ cs') (Chain-unique h n m cs ds next c d))

-- The lists have no session in common.
abbrev pub Apart : Cells → Cells → Type 0
Apart cs ds = (a : Ptr) → has a cs ≡ true → has a ds ≡ false

pub Apart-sym : (cs ds : Cells) → Apart cs ds → Apart ds cs
Apart-sym cs ds apart a i = elim (Bool-cases (has a cs)) [
  | inl here ↦ ground (arith, apart a here)
  | inr there ↦ there
]
