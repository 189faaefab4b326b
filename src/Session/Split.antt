-- ===== src/Session/Split.antt =====
-- A list of sessions split at one of them, and what may be changed from there on.
use socket.Base.{◌≡◌, refl, true, false, ◌||◌, [], ◌∷◌, ◌++◌, arith, ◌==◌}
use socket.Session.{Ptr, nil, Entry, Heap}
use socket.Session.Chain.{Cells, has, Chain}

pub has-append :
    (b : Ptr) (front back : Cells) → has b (front ++ back) ≡ (has b front || has b back)
has-append b [] back = refl
has-append b ((a, e) ∷ front) back = ground (arith, has-append b front back)

-- The part of the list that begins with its session `s`.
pub part :
    (h : Heap) (p s : Ptr) (xs : Cells) (e : Entry) (ys : Cells)
    → Chain h p (xs ++ (s, e) ∷ ys)
    → Chain h s ((s, e) ∷ ys)
part h p s [] e ys (here, real, fresh, rest) = (refl, real, fresh, rest)
part h p s ((a, d) ∷ xs) e ys (here, real, fresh, (n, holds, rest)) = part h n s xs e ys rest

-- The sessions of the two parts are different ones.
pub apart :
    (h : Heap) (p a : Ptr) (xs ys : Cells)
    → Chain h p (xs ++ ys)
    → has a ys ≡ true
    → has a xs ≡ false
apart h p a [] ys c i = refl
apart h p a ((b, d) ∷ xs) ys (here, real, fresh, (n, holds, rest)) i =
    ground (arith, apart h n a xs ys rest i, has-append b xs ys)

-- The part from `s` on is replaced by another one over some of the same addresses.
pub replace :
    (h g : Heap) (p s : Ptr) (xs : Cells) (e e' : Entry) (ys ys' : Cells)
    → Chain h p (xs ++ (s, e) ∷ ys)
    → Chain g s ((s, e') ∷ ys')
    → ((a : Ptr) → has a ((s, e') ∷ ys') ≡ true → has a ((s, e) ∷ ys) ≡ true)
    → ((a : Ptr) → has a xs ≡ true → g a ≡ h a)
    → Chain g p (xs ++ (s, e') ∷ ys')
replace h g p s [] e e' ys ys' (here, _, _, _) (_, real, fresh, rest) sub same =
    (here, real, fresh, rest)
replace h g p s ((a, d) ∷ xs) e e' ys ys' (here, real, fresh, (n, holds, rest)) c sub same = (
  here,
  real,
  ground (arith, has-append a xs ((s, e') ∷ ys'), has-append a xs ((s, e) ∷ ys), sub a),
  (
    n,
    ground (arith, same a),
    replace h g n s xs e e' ys ys' rest c sub λ b i. same b (ground arith),
  ),
)

-- The head of the list is a session before `s`.
pub head_before :
    (h : Heap) (p q s : Ptr) (xs : Cells) (d e : Entry) (ys : Cells)
    → Chain h p (xs ++ (q, d) ∷ (s, e) ∷ ys)
    → ((p == nil) ≡ false) × ((p == s) ≡ false)
head_before h p q s [] d e ys c = ground arith
head_before h p q s ((a, f) ∷ xs) d e ys (here, real, fresh, rest) =
    ground (arith, has-append a xs ((q, d) ∷ (s, e) ∷ ys))
