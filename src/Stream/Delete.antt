-- ===== src/Stream/Delete.antt =====
-- What `deleteStream` takes away: of the turns that it removes, no table keeps a row.
pub mod Erased
use falda.Prelude.{
  ℕ, zero, suc, ◌+◌, String, Bool, true, false, not, ◌||◌, Option, none, some, List, [], ◌∷◌, map,
  ◌≡◌, refl, sym, ap, ◌∙◌, subst, arith, inl, inr, if◌then◌else◌, str_eq, str_eq_iff, str_eq_refl,
  length, select_one, select_where, delete_where, count_where, All, All-mem, Memᴰ, Bool-cases,
  HasUniqueKeys, select_one-mem, select_where-found, keyed,
}
use falda.Distill.Decision.{contains}
use falda.Distill.Store.{EvidenceEdge}
use falda.Distill.Commit.{unique}
use falda.Stream.{Turn, StreamDb, turn_key, has_turn}
use falda.Stream.Deletion.{
  Retraction, Deleted, edge_turn, edge_atom, is_in, itself, remove_index_and_evidence, delete_turns,
  in_session, delete_run, mark_affected, delete_stream,
}

module _ {A : Type 0} (key : A → String) where
  -- `after` is `before` without the rows of the ids.
  pub record Without (ids : List String) (before after : List A) : Type 0 where
    pub gone : All (λ x. contains (key x) ids ≡ false) after
    pub kept : (x : A) → Memᴰ x before → contains (key x) ids ≡ false → Memᴰ x after
    pub old : (x : A) → Memᴰ x after → Memᴰ x before

  mem-delete_where :
      (p : A → Bool) (x : A) (xs : List A) → Memᴰ x xs → p x ≡ false → Memᴰ x (delete_where p xs)
  mem-delete_where p x [] m n = elim m [ ]
  mem-delete_where p x (y ∷ ys) (Memᴰ.head e) n = rw ((ap p (sym e) ∙ n)) (Memᴰ.head e)
  mem-delete_where p x (y ∷ ys) (Memᴰ.tail m) n = elim (Bool-cases (p y)) [
    | inl t ↦ rw t (mem-delete_where p x ys m n)
    | inr f ↦ rw f (Memᴰ.tail (mem-delete_where p x ys m n))
  ]

  mem-of_delete_where :
      (p : A → Bool) (x : A) (xs : List A) → Memᴰ x (delete_where p xs) → Memᴰ x xs × (p x ≡ false)
  mem-of_delete_where p x [] m = elim m [ ]
  mem-of_delete_where p x (y ∷ ys) m = elim (Bool-cases (p y)) [
    | inl t ↦ let (r, n) = mem-of_delete_where p x ys (rw t at m) in (Memᴰ.tail r, n)
    | inr f ↦ go (mem-of_delete_where p x ys) (rw f at m) f
  ]
    where
      go :
          (Memᴰ x (delete_where p ys) → Memᴰ x ys × (p x ≡ false))
          → Memᴰ x (y ∷ delete_where p ys)
          → p y ≡ false
          → Memᴰ x (y ∷ ys) × (p x ≡ false)
      go rest (Memᴰ.head e) f = (Memᴰ.head e, ap p e ∙ f)
      go rest (Memᴰ.tail r) f = let (s, n) = rest r in (Memᴰ.tail s, n)

  All-of_mem : (P : A → Type 0) (xs : List A) → ((x : A) → Memᴰ x xs → P x) → All P xs
  All-of_mem P [] h = tt
  All-of_mem P (x ∷ xs) h = (h x (Memᴰ.head refl), All-of_mem P xs (λ y m. h y (Memᴰ.tail m)))

  -- A DELETE by any test that picks the rows of the ids.
  pub delete_where-Without :
      (ids : List String) (p : A → Bool) (xs : List A)
      → ((x : A) → Memᴰ x xs → p x ≡ contains (key x) ids)
      → Without ids xs (delete_where p xs)
  delete_where-Without ids p xs same = record {
    gone =
        All-of_mem (λ x. contains (key x) ids ≡ false) (delete_where p xs)
          (λ x m. let (r, n) = mem-of_delete_where p x xs m in sym (same x r) ∙ n);
    kept = λ x m n. mem-delete_where p x xs m (same x m ∙ n);
    old = λ x m. (mem-of_delete_where p x xs m).0;
  }

  mem-select_where :
      (p : A → Bool) (x : A) (xs : List A) → Memᴰ x xs → p x ≡ true → Memᴰ x (select_where p xs)
  mem-select_where p x [] m t = elim m [ ]
  mem-select_where p x (y ∷ ys) (Memᴰ.head e) t = rw (ap p (sym e) ∙ t) (Memᴰ.head e)
  mem-select_where p x (y ∷ ys) (Memᴰ.tail m) t = elim (Bool-cases (p y)) [
    | inl s ↦ rw s (Memᴰ.tail (mem-select_where p x ys m t))
    | inr n ↦ rw n (mem-select_where p x ys m t)
  ]

  contains-of_mem : (x : A) (xs : List A) → Memᴰ x xs → contains (key x) (map key xs) ≡ true
  contains-of_mem x [] m = elim m [ ]
  contains-of_mem x (y ∷ ys) (Memᴰ.head e) = rw (← e) (rw (str_eq_refl (key x)))
  contains-of_mem x (y ∷ ys) (Memᴰ.tail m) = elim (Bool-cases (str_eq (key y) (key x))) [
    | inl t ↦ rw t
    | inr n ↦ rw n (contains-of_mem x ys m)
  ]

  contains-key :
      (P : A → Type 0) (k : String) (xs : List A)
      → All P xs
      → contains k (map key xs) ≡ true
      → (x : A) × (P x × (key x ≡ k))
  contains-key P k [] h c = cc
  contains-key P k (x ∷ xs) h c = elim (Bool-cases (str_eq (key x) k)) [
    | inl t ↦ (x, (h.0, (str_eq_iff (key x) k).0 t))
    | inr n ↦ contains-key P k xs h.1 (rw n at c)
  ]

  -- A row whose key is that of a selected row is selected, where the keys are unique.
  pub contains-selected :
      (p : A → Bool) (xs : List A)
      → HasUniqueKeys key xs
      → (x : A) → Memᴰ x xs
      → p x ≡ contains (key x) (map key (select_where p xs))
  contains-selected p xs u x m = elim (Bool-cases (p x)) [
    | inl t ↦ rw (t, contains-of_mem x (select_where p xs) (mem-select_where p x xs m t))
    | inr n ↦ elim (Bool-cases (contains (key x) (map key (select_where p xs)))) [
      | inr none_has ↦ n ∙ sym none_has
      | inl has ↦
          let (y, ((found, t), same)) =
            contains-key (λ y. (select_one (keyed key (key y)) xs ≡ some y) × (p y ≡ true)) (key x)
              (select_where p xs) (select_where-found key p xs u) has in
          let here = select_one-mem key x xs u m in
          let found' : select_one (keyed key (key x)) xs ≡ some y = rw same at found in
          let e : some x ≡ some y = sym here ∙ found' in
          let e' : x ≡ y = ground (arith, e) in ground (arith, n, ap p e', t)
    ]
  ]

delete_where-delete_where :
    {A : Type 0} (p q r : A → Bool)
    → ((x : A) → r x ≡ (p x || q x))
    → (xs : List A) → delete_where q (delete_where p xs) ≡ delete_where r xs
delete_where-delete_where p q r both [] = refl
delete_where-delete_where p q r both (x ∷ xs) = elim (Bool-cases (p x)) [
  | inl t ↦ rw (both x, t) (delete_where-delete_where p q r both xs)
  | inr n ↦ rw (both x, n) (rw (delete_where-delete_where p q r both xs))
]

str_eq_comm : (a b : String) → str_eq a b ≡ str_eq b a
str_eq_comm a b = ground (arith, str_eq_iff a b, str_eq_iff b a)

delete_turns-rows :
    (ids : List String) (rows : List Turn)
    → (delete_turns ids rows).0 ≡ delete_where (is_in turn_key ids) rows
unfolding delete_turns
delete_turns-rows [] rows = sym (delete_none rows)
  where
    delete_none : (xs : List Turn) → delete_where (is_in turn_key []) xs ≡ xs
    delete_none [] = refl
    delete_none (x ∷ xs) = rw (delete_none xs)
delete_turns-rows (id ∷ ids) rows =
    delete_turns-rows ids (delete_where (has_turn id) rows)
    ∙ delete_where-delete_where (has_turn id) (is_in turn_key ids) (is_in turn_key (id ∷ ids))
        (λ t. rw (str_eq_comm id t.id)) rows

length-delete_where :
    {A : Type 0} (p : A → Bool) (xs : List A)
    → length (delete_where p xs) + count_where p xs ≡ length xs
length-delete_where p [] = refl
length-delete_where p (x ∷ xs) = elim (Bool-cases (p x)) [
  | inl t ↦ rw t (omega (arith, length-delete_where p xs))
  | inr n ↦ rw n (omega (arith, length-delete_where p xs))
]

length-delete_turns :
    (ids : List String) (rows : List Turn)
    → length (delete_turns ids rows).0 + (delete_turns ids rows).1 ≡ length rows
unfolding delete_turns
length-delete_turns [] rows = omega arith
length-delete_turns (id ∷ ids) rows =
    let head = length-delete_where (has_turn id) rows in
    let tail = length-delete_turns ids (delete_where (has_turn id) rows) in
    omega (arith, head, tail)
