-- ===== src/Prelude/Keys.antt =====
-- Rows of a table with a text as their PRIMARY KEY.
use Prim.Native.String.{String}
use mathlib.Core.Path.{◌≡◌, refl, ap}
use mathlib.Core.Logic.{inl, inr}
use mathlib.Core.Bool.{Bool, true, false}
use mathlib.Core.Option.{none, some}
use mathlib.Core.List.{List, [], ◌∷◌, ◌++◌, Memᴰ}
use native.Mathlib.Omega.{arith}
use falda.Prelude.Tests.{str_eq, str_eq_iff, str_eq_refl, str_ne_sym, Bool-cases}
use falda.Prelude.Lists.{All, All-append, All-mem}
use falda.Prelude.Table.{update_where, select_one, select_where}

module _ {A : Type 0} (key : A → String) where
  abbrev pub keyed : String → A → Bool
  keyed k x = str_eq (key x) k

  -- No two rows have one key.
  abbrev pub HasUniqueKeys : List A → Type 0
  HasUniqueKeys [] = Unit
  HasUniqueKeys (x ∷ xs) = All (λ y. keyed (key x) y ≡ false) xs × HasUniqueKeys xs

  lacks-update_where :
      (p : A → Bool) (f : A → A)
      → ((x : A) → key (f x) ≡ key x)
      → (k : String) (xs : List A) → All (λ y. keyed k y ≡ false) xs
      → All (λ y. keyed k y ≡ false) (update_where p f xs)
  lacks-update_where p f same k [] h = tt
  lacks-update_where p f same k (x ∷ xs) h = (
    elim (Bool-cases (p x)) [ inl t ↦ rw (t, same x) h.0 | inr n ↦ rw n h.0 ],
    lacks-update_where p f same k xs h.1,
  )

  pub update_where-HasUniqueKeys :
      (p : A → Bool) (f : A → A)
      → ((x : A) → key (f x) ≡ key x)
      → (xs : List A) → HasUniqueKeys xs
      → HasUniqueKeys (update_where p f xs)
  update_where-HasUniqueKeys p f same [] h = tt
  update_where-HasUniqueKeys p f same (x ∷ xs) h = (
    elim (Bool-cases (p x)) [
      | inl t ↦ rw (t, same x) (lacks-update_where p f same (key x) xs h.0)
      | inr n ↦ rw n (lacks-update_where p f same (key x) xs h.0)
    ],
    update_where-HasUniqueKeys p f same xs h.1,
  )

  lacks-of_none :
      (k : String) (xs : List A) → select_one (keyed k) xs ≡ none → All (λ y. keyed k y ≡ false) xs
  lacks-of_none k [] h = tt
  lacks-of_none k (x ∷ xs) h = elim (Bool-cases (keyed k x)) [
    | inl t ↦ ground (arith, h, t)
    | inr n ↦ (n, lacks-of_none k xs (rw n at h))
  ]

  append_unique :
      (x : A) (xs : List A)
      → All (λ y. keyed (key x) y ≡ false) xs
      → HasUniqueKeys xs
      → HasUniqueKeys (xs ++ x ∷ [])
  append_unique x [] h u = (tt, tt)
  append_unique x (y ∷ ys) h u = (
    All-append (λ z. keyed (key y) z ≡ false) ys (x ∷ []) u.0 (str_ne_sym (key y) (key x) h.0, tt),
    append_unique x ys h.1 u.1,
  )

  pub append-HasUniqueKeys :
      (x : A) (xs : List A)
      → select_one (keyed (key x)) xs ≡ none
      → HasUniqueKeys xs
      → HasUniqueKeys (xs ++ x ∷ [])
  append-HasUniqueKeys x xs h u = append_unique x xs (lacks-of_none (key x) xs h) u

  -- After an UPDATE by key, the row with that key is the updated one, and others are as before.
  pub select_one-update_keyed :
      (f : A → A)
      → ((x : A) → key (f x) ≡ key x)
      → (k : String) (xs : List A) {x : A} → select_one (keyed k) xs ≡ some x
      → select_one (keyed k) (update_where (keyed k) f xs) ≡ some (f x)
  select_one-update_keyed f same k [] h = cc
  select_one-update_keyed f same k (y ∷ ys) {x} h = elim (Bool-cases (keyed k y)) [
    | inl t ↦
        let e : y ≡ x = ground (arith, h, t) in simp (t, same y) (ap (λ (z : A). some (f z)) e)
    | inr n ↦ rw (n) (rw n (select_one-update_keyed f same k ys (rw n at h)))
  ]

  pub select_one-update_keyed_ne :
      (f : A → A)
      → ((x : A) → key (f x) ≡ key x)
      → (k j : String) → str_eq k j ≡ false
      → (xs : List A) → select_one (keyed j) (update_where (keyed k) f xs) ≡ select_one (keyed j) xs
  select_one-update_keyed_ne f same k j ne [] = refl
  select_one-update_keyed_ne f same k j ne (x ∷ xs) = elim (Bool-cases (keyed k x)) [
    | inl t ↦
        let miss : str_eq (key x) j ≡ false = rw ((str_eq_iff (key x) k).0 t) ne in
        simp (t, same x, miss) (select_one-update_keyed_ne f same k j ne xs)
    | inr n ↦ rw n (rw (select_one-update_keyed_ne f same k j ne xs))
  ]

  pub select_one-append_ne :
      (k : String) (x : A) (xs : List A)
      → str_eq (key x) k ≡ false
      → select_one (keyed k) (xs ++ x ∷ []) ≡ select_one (keyed k) xs
  select_one-append_ne k x [] h = rw h
  select_one-append_ne k x (y ∷ ys) h = rw (select_one-append_ne k x ys h)

  select_one-append_lacking :
      (x : A) (xs : List A)
      → All (λ y. keyed (key x) y ≡ false) xs
      → select_one (keyed (key x)) (xs ++ x ∷ []) ≡ some x
  select_one-append_lacking x [] h = rw (str_eq_refl (key x))
  select_one-append_lacking x (y ∷ ys) h = rw h.0 (select_one-append_lacking x ys h.1)

  pub select_one-append_self :
      (x : A) (xs : List A)
      → select_one (keyed (key x)) xs ≡ none
      → select_one (keyed (key x)) (xs ++ x ∷ []) ≡ some x
  select_one-append_self x xs h = select_one-append_lacking x xs (lacks-of_none (key x) xs h)

  pub select_one-mem :
      (x : A) (xs : List A) → HasUniqueKeys xs → Memᴰ x xs → select_one (keyed (key x)) xs ≡ some x
  select_one-mem x [] u m = elim m [ ]
  select_one-mem x (y ∷ ys) u (Memᴰ.head e) = rw (← e) (rw (str_eq_refl (key x)))
  select_one-mem x (y ∷ ys) u (Memᴰ.tail m) =
      let other : keyed (key y) x ≡ false = All-mem (λ z. keyed (key y) z ≡ false) u.0 m in
      rw (str_ne_sym (key x) (key y) other) (select_one-mem x ys u.1 m)

  lacks-select_where :
      (p : A → Bool) (k : String) (xs : List A)
      → All (λ y. keyed k y ≡ false) xs
      → All (λ y. keyed k y ≡ false) (select_where p xs)
  lacks-select_where p k [] h = tt
  lacks-select_where p k (x ∷ xs) h = elim (Bool-cases (p x)) [
    | inl t ↦ rw t (h.0, lacks-select_where p k xs h.1)
    | inr n ↦ rw n (lacks-select_where p k xs h.1)
  ]

  pub select_where-HasUniqueKeys :
      (p : A → Bool) (xs : List A) → HasUniqueKeys xs → HasUniqueKeys (select_where p xs)
  select_where-HasUniqueKeys p [] u = tt
  select_where-HasUniqueKeys p (x ∷ xs) u = elim (Bool-cases (p x)) [
    | inl t ↦ rw t (lacks-select_where p (key x) xs u.0, select_where-HasUniqueKeys p xs u.1)
    | inr n ↦ rw n (select_where-HasUniqueKeys p xs u.1)
  ]

  -- Every row that is selected is found by its key.
  pub select_where-found :
      (p : A → Bool) (xs : List A)
      → HasUniqueKeys xs
      → All (λ x. (select_one (keyed (key x)) xs ≡ some x) × (p x ≡ true)) (select_where p xs)
  select_where-found p xs u = go xs (λ x m. select_one-mem x xs u m)
    where
      go :
          (ys : List A)
          → ((y : A) → Memᴰ y ys → select_one (keyed (key y)) xs ≡ some y)
          → All (λ x. (select_one (keyed (key x)) xs ≡ some x) × (p x ≡ true)) (select_where p ys)
      go [] found = tt
      go (y ∷ ys) found = elim (Bool-cases (p y)) [
        | inl t ↦ rw t ((found y (Memᴰ.head refl), t), go ys (λ z m. found z (Memᴰ.tail m)))
        | inr n ↦ rw n (go ys (λ z m. found z (Memᴰ.tail m)))
      ]
