-- ===== src/Route/Attributes.antt =====
-- `parse_rtattr` of route_dump.c against the list of attributes.
use socket.Base.{ℕ, ◌≡◌, Option, none, some, List, [], ◌∷◌, leb, ◌==◌, ◌&&◌, if◌then◌else◌, arith}
use socket.Route.Dump.{parse_loop, parse_rtattr}

-- The value of the last attribute of the type.
abbrev pub last : ℕ → List (ℕ × ℕ) → Option ℕ → Option ℕ
last i [] before = before
last i ((t, value) ∷ rtas) before = last i rtas (if i == t then some value else before)

parse_loop-last :
    (max i : ℕ) (tb : ℕ → Option ℕ) (rtas : List (ℕ × ℕ))
    → parse_loop max tb rtas i ≡ (if leb i max then last i rtas (tb i) else tb i)
unfolding parse_loop
parse_loop-last max i tb [] = ground arith
parse_loop-last max i tb ((t, value) ∷ rtas) =
    ground
      (arith, parse_loop-last max i (λ j. if leb t max && j == t then some value else tb j) rtas)

-- For a type up to the greatest one `parse_rtattr` keeps the last attribute of this type, or NULL
-- where there is none; it keeps nothing of a greater type.
pub parse_rtattr_lem :
    (max i : ℕ) (rtas : List (ℕ × ℕ))
    → parse_rtattr max rtas i ≡ (if leb i max then last i rtas none else none)
unfolding parse_rtattr
parse_rtattr_lem max i rtas = parse_loop-last max i (λ j. none) rtas
