-- ===== src/Prelude/Table.antt =====
-- What the source asks of SQLite tables, over a list of rows in rowid order.

use mathlib.Core.Path.{◌≡◌, refl}
use Prim.Native.Nat.{◌≤◌}
use mathlib.Core.Bool.{Bool, true, false}
use mathlib.Core.Option.{Option, none, some}
use mathlib.Core.List.{List, [], ◌∷◌, ◌++◌, Memᴰ}
use native.Mathlib.Omega.{arith}
use falda.Prelude.Tests.{if◌then◌else◌, Bool-cases}
use falda.Prelude.Lists.{All, count_where, length}
use mathlib.Core.Logic.{inl, inr}

module _ {ℓ} {A : Type ℓ} where
  -- UPDATE ... SET f WHERE p
  abbrev pub update_where : (A → Bool) → (A → A) → List A → List A
  update_where p f [] = []
  update_where p f (x ∷ xs) = (if p x then f x else x) ∷ update_where p f xs

  -- DELETE ... WHERE p
  abbrev pub delete_where : (A → Bool) → List A → List A
  delete_where p [] = []
  delete_where p (x ∷ xs) = let rest = delete_where p xs in if p x then rest else x ∷ rest

  -- SELECT ... WHERE p
  abbrev pub select_where : (A → Bool) → List A → List A
  select_where p [] = []
  select_where p (x ∷ xs) = let rest = select_where p xs in if p x then x ∷ rest else rest

  -- SELECT ... WHERE p LIMIT 1
  abbrev pub select_one : (A → Bool) → List A → Option A
  select_one p [] = none
  select_one p (x ∷ xs) = let rest = select_one p xs in if p x then some x else rest

  pub select_one-eq-some :
      (p : A → Bool) (xs : List A) {x : A} → select_one p xs ≡ some x → Memᴰ x xs × (p x ≡ true)
  select_one-eq-some p [] h = cc
  select_one-eq-some p (y ∷ ys) {x} h = elim (Bool-cases (p y)) [
    | inl t ↦ let e : x ≡ y = ground arith in (Memᴰ.head e, rw e t)
    | inr f ↦ let (m, t) = select_one-eq-some p ys (rw f at h) in (Memᴰ.tail m, t)
  ]

  pub select_one-eq-none :
      (p : A → Bool) (xs : List A) → select_one p xs ≡ none → All (λ x. p x ≡ false) xs
  select_one-eq-none p [] h = tt
  select_one-eq-none p (y ∷ ys) h = elim (Bool-cases (p y)) [
    | inl t ↦ ground arith
    | inr f ↦ (f, select_one-eq-none p ys (rw f at h))
  ]

  pub All-update_where {κ} :
      (P : A → Type κ) (p : A → Bool) (f : A → A)
      → ((x : A) → p x ≡ true → P x → P (f x))
      → (xs : List A) → All P xs
      → All P (update_where p f xs)
  All-update_where P p f keep [] h = tt
  All-update_where P p f keep (x ∷ xs) h = (
    elim (Bool-cases (p x)) [ inl t ↦ rw t (keep x t h.0) | inr n ↦ rw n h.0 ],
    All-update_where P p f keep xs h.1,
  )

  -- An UPDATE that a test does not notice keeps the count of the rows that pass it.
  pub count_where-update_where :
      (q p : A → Bool) (f : A → A)
      → ((x : A) → p x ≡ true → q (f x) ≡ q x)
      → (xs : List A) → count_where q (update_where p f xs) ≡ count_where q xs
  count_where-update_where q p f same [] = refl
  count_where-update_where q p f same (x ∷ xs) = elim (Bool-cases (p x)) [
    | inl t ↦ rw (t, same x t, count_where-update_where q p f same xs)
    | inr n ↦ rw (n, count_where-update_where q p f same xs)
  ]

  pub mem-update_where :
      (p : A → Bool) (f : A → A) {x : A} (xs : List A)
      → Memᴰ x xs
      → p x ≡ true
      → Memᴰ (f x) (update_where p f xs)
  mem-update_where p f [] m t = elim m [ ]
  mem-update_where p f (y ∷ ys) (Memᴰ.head e) t = Memᴰ.head (rw (← e, t))
  mem-update_where p f (y ∷ ys) (Memᴰ.tail m) t = Memᴰ.tail (mem-update_where p f ys m t)

  pub mem-append_right : (xs : List A) (x : A) → Memᴰ x (xs ++ x ∷ [])
  mem-append_right [] x = Memᴰ.head refl
  mem-append_right (y ∷ ys) x = Memᴰ.tail (mem-append_right ys x)

  pub count_where-eq-zero :
      (p : A → Bool) (xs : List A) → All (λ x. p x ≡ false) xs → count_where p xs ≡ 0
  count_where-eq-zero p [] h = refl
  count_where-eq-zero p (x ∷ xs) h = rw (h.0, count_where-eq-zero p xs h.1)

  pub count_where-pos :
      (p : A → Bool) {x : A} (xs : List A) → Memᴰ x xs → p x ≡ true → 1 ≤ count_where p xs
  count_where-pos p [] m t = elim m [ ]
  count_where-pos p (y ∷ ys) (Memᴰ.head e) t = let h : p y ≡ true = rw (← e) t in rw h (omega arith)
  count_where-pos p (y ∷ ys) (Memᴰ.tail m) t = let h = count_where-pos p ys m t in omega (arith, h)

  -- A DELETE leaves only rows that fail its test, and keeps what holds of all rows.
  pub delete_where-All : (p : A → Bool) (xs : List A) → All (λ x. p x ≡ false) (delete_where p xs)
  delete_where-All p [] = tt
  delete_where-All p (x ∷ xs) = elim (Bool-cases (p x)) [
    | inl t ↦ rw t (delete_where-All p xs)
    | inr n ↦ rw n (n, delete_where-All p xs)
  ]

  pub All-delete_where {κ} :
      (P : A → Type κ) (p : A → Bool) (xs : List A) → All P xs → All P (delete_where p xs)
  All-delete_where P p [] h = tt
  All-delete_where P p (x ∷ xs) h = elim (Bool-cases (p x)) [
    | inl t ↦ rw t (All-delete_where P p xs h.1)
    | inr n ↦ rw n (h.0, All-delete_where P p xs h.1)
  ]

  pub length-select_where :
      (p : A → Bool) (xs : List A) → length (select_where p xs) ≡ count_where p xs
  length-select_where p [] = refl
  length-select_where p (x ∷ xs) = elim (Bool-cases (p x)) [
    | inl t ↦ rw t (omega (arith, length-select_where p xs))
    | inr n ↦ rw n (omega (arith, length-select_where p xs))
  ]
