-- ===== src/Prelude/Sort.antt =====
-- ORDER BY on a number, ascending; rows that tie keep their order.
use Prim.Native.Nat.{ℕ}
use mathlib.Core.Path.{◌≡◌, refl, ap}
use mathlib.Core.Bool.{Bool}
use mathlib.Core.Logic.{inl, inr}
use mathlib.Core.List.{List, [], ◌∷◌}
use falda.Prelude.Tests.{if◌then◌else◌, leb, Bool-cases}
use falda.Prelude.Table.{update_where}

module _ {ℓ} {A : Type ℓ} (key : A → ℕ) where
  unfoldable pub insert_by : A → List A → List A
  insert_by x [] = x ∷ []
  insert_by x (y ∷ ys) =
      let rest = insert_by x ys in if leb (key x) (key y) then x ∷ y ∷ ys else y ∷ rest

  unfoldable pub sort_by : List A → List A
  unfolding insert_by
  sort_by [] = []
  sort_by (x ∷ xs) = insert_by x (sort_by xs)

  module _ (p : A → Bool) (f : A → A) (same : (x : A) → key (f x) ≡ key x) where
    step : A → A
    step x = if p x then f x else x

    key-step : (x : A) → key (step x) ≡ key x
    unfolding step
    key-step x = elim (Bool-cases (p x)) [ inl t ↦ rw t (same x) | inr n ↦ rw n ]

    insert_by-update_where :
        (x : A) (ys : List A)
        → insert_by (step x) (update_where p f ys) ≡ update_where p f (insert_by x ys)
    unfolding insert_by step
    insert_by-update_where x [] = refl
    insert_by-update_where x (y ∷ ys) = elim (Bool-cases (leb (key x) (key y))) [
      | inl t ↦ rw t (rw (key-step x, key-step y, t))
      | inr n ↦
          rw n (rw (key-step x, key-step y, n) (ap (◌∷◌ (step y)) (insert_by-update_where x ys)))
    ]

    -- An UPDATE that leaves the key alone commutes with the order.
    pub sort_by-update_where :
        (xs : List A) → sort_by (update_where p f xs) ≡ update_where p f (sort_by xs)
    unfolding sort_by step
    sort_by-update_where [] = refl
    sort_by-update_where (x ∷ xs) =
        rw (sort_by-update_where xs) (insert_by-update_where x (sort_by xs))
