-- ===== src/Base/Take.antt =====
-- The first elements of a list, counted by a native number.
use socket.Base.{ℕ, zero, suc, ◌-◌, ◌≤◌, ◌≡◌, refl, ap, ◌∙◌, List, [], ◌∷◌, ◌++◌, length, arith}

module _ {ℓ} {A : Type ℓ} where
  unfoldable pub take : ℕ → List A → List A
  take zero xs = []
  take (suc n) [] = []
  take (suc n) (x ∷ xs) = x ∷ take n xs

  pub length-take : (n : ℕ) (xs : List A) → length (take n xs) ≤ n
  unfolding take
  length-take zero xs = omega arith
  length-take (suc n) [] = omega arith
  length-take (suc n) (x ∷ xs) = omega (arith, length-take n xs)

  pub take-all : (n : ℕ) (xs : List A) → length xs ≤ n → take n xs ≡ xs
  unfolding take
  take-all zero [] le = refl
  take-all zero (x ∷ xs) le = absurd (omega arith)
  take-all (suc n) [] le = refl
  take-all (suc n) (x ∷ xs) le = ap (λ ys. x ∷ ys) (take-all n xs (omega arith))

  -- What is cut off makes no difference to what is appended after it and cut off again.
  pub take-take-append : (n : ℕ) (xs ys : List A) → take n (take n xs ++ ys) ≡ take n (xs ++ ys)
  unfolding take
  take-take-append zero xs ys = refl
  take-take-append (suc n) [] ys = refl
  take-take-append (suc n) (x ∷ xs) ys = ap (λ zs. x ∷ zs) (take-take-append n xs ys)

  pub append-take :
      (n : ℕ) (xs ys : List A) → length xs ≤ n → xs ++ take (n - length xs) ys ≡ take n (xs ++ ys)
  unfolding take
  append-take n [] ys le = ap (λ k. take k ys) (omega arith)
  append-take zero (x ∷ xs) ys le = absurd (omega arith)
  append-take (suc n) (x ∷ xs) ys le =
      let fewer : suc n - length (x ∷ xs) ≡ n - length xs = omega arith in
      ap (λ k. x ∷ xs ++ take k ys) fewer ∙ ap (λ zs. x ∷ zs) (append-take n xs ys (omega arith))

  -- A list that is full takes nothing more.
  pub take-full : (n : ℕ) (xs ys : List A) → length (take n xs) ≡ n → take n (xs ++ ys) ≡ take n xs
  unfolding take
  take-full zero xs ys full = refl
  take-full (suc n) [] ys full = absurd (omega arith)
  take-full (suc n) (x ∷ xs) ys full = ap (λ zs. x ∷ zs) (take-full n xs ys (omega arith))
