-- ===== src/Prelude/Sequence.antt =====
-- Prefixes, sums and filters over lists, measured by native numbers.
use Prim.Native.Nat.{ℕ, zero, suc, ◌+◌, ◌-◌, ◌≤◌, min}
use mathlib.Core.Path.{◌≡◌, refl}
use mathlib.Core.List.{List, [], ◌∷◌, ◌++◌}
use mathlib.Core.Bool.{false}
use mathlib.Core.Option.{Option, none, some}
use falda.Prelude.Tests.{◌==◌}
use native.Mathlib.Omega.{arith}
use falda.Prelude.Lists.{length}

module _ {ℓ} {A : Type ℓ} where
  abbrev pub take : ℕ → List A → List A
  take zero xs = []
  take (suc n) [] = []
  take (suc n) (x ∷ xs) = x ∷ take n xs

  abbrev pub drop : ℕ → List A → List A
  drop zero xs = xs
  drop (suc n) [] = []
  drop (suc n) (x ∷ xs) = drop n xs

  pub length-take : (n : ℕ) (xs : List A) → length (take n xs) ≡ min n (length xs)
  length-take zero xs = omega arith
  length-take (suc n) [] = omega arith
  length-take (suc n) (x ∷ xs) = omega (arith, length-take n xs)

  pub length-drop : (n : ℕ) (xs : List A) → length (drop n xs) ≡ length xs - n
  length-drop zero xs = omega arith
  length-drop (suc n) [] = omega arith
  length-drop (suc n) (x ∷ xs) = omega (arith, length-drop n xs)

  pub take-append-drop : (n : ℕ) (xs : List A) → take n xs ++ drop n xs ≡ xs
  take-append-drop zero xs = refl
  take-append-drop (suc n) [] = refl
  take-append-drop (suc n) (x ∷ xs) = rw (take-append-drop n xs)

  -- The sum of a measure over a list.
  abbrev pub sum_of : (A → ℕ) → List A → ℕ
  sum_of f [] = 0
  sum_of f (x ∷ xs) = f x + sum_of f xs

  pub sum_of-append : (f : A → ℕ) (xs ys : List A) → sum_of f (xs ++ ys) ≡ sum_of f xs + sum_of f ys
  sum_of-append f [] ys = omega arith
  sum_of-append f (x ∷ xs) ys = omega (arith, sum_of-append f xs ys)

module _ {ℓ} {A : Type ℓ} where
  abbrev pub get_elem? : List A → ℕ → Option A
  get_elem? [] n = none
  get_elem? (x ∷ xs) zero = some x
  get_elem? (x ∷ xs) (suc n) = get_elem? xs n

  -- xs[n] = f(xs[n]), where there is such an element.
  abbrev pub update_at : ℕ → (A → A) → List A → List A
  update_at n f [] = []
  update_at zero f (x ∷ xs) = f x ∷ xs
  update_at (suc n) f (x ∷ xs) = x ∷ update_at n f xs

  pub get_elem?-update_at :
      (n : ℕ) (f : A → A) (xs : List A) (x : A)
      → get_elem? xs n ≡ some x
      → get_elem? (update_at n f xs) n ≡ some (f x)
  get_elem?-update_at n f [] x h = cc
  get_elem?-update_at zero f (y ∷ ys) x h = ground arith
  get_elem?-update_at (suc n) f (y ∷ ys) x h = get_elem?-update_at n f ys x h

  pub get_elem?-update_at_ne :
      (n k : ℕ) (f : A → A) (xs : List A)
      → (n == k) ≡ false
      → get_elem? (update_at n f xs) k ≡ get_elem? xs k
  get_elem?-update_at_ne n k f [] h = refl
  get_elem?-update_at_ne zero zero f (y ∷ ys) h = cc
  get_elem?-update_at_ne zero (suc k) f (y ∷ ys) h = refl
  get_elem?-update_at_ne (suc n) zero f (y ∷ ys) h = refl
  get_elem?-update_at_ne (suc n) (suc k) f (y ∷ ys) h =
      get_elem?-update_at_ne n k f ys (ground arith)

  pub length-update_at : (n : ℕ) (f : A → A) (xs : List A) → length (update_at n f xs) ≡ length xs
  length-update_at n f [] = refl
  length-update_at zero f (x ∷ xs) = refl
  length-update_at (suc n) f (x ∷ xs) = omega (arith, length-update_at n f xs)

  pub update_at_beyond : (n : ℕ) (f : A → A) (xs : List A) → length xs ≤ n → update_at n f xs ≡ xs
  update_at_beyond n f [] h = refl
  update_at_beyond zero f (x ∷ xs) h = ground (arith, h)
  update_at_beyond (suc n) f (x ∷ xs) h = rw (update_at_beyond n f xs (omega (arith, h)))
