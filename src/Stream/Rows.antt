-- ===== src/Stream/Rows.antt =====
-- What a turn that is appended to the stream changes for the checks of addStream.
use falda.Prelude.{
  ℕ, String, Bool, true, false, Option, none, some, List, [], ◌∷◌, ◌++◌, ◌≡◌, refl, arith, inl, inr,
  str_eq, select_one, select_one-eq-some, select_one-eq-none, All-mem, Bool-cases, Option-cases,
  ==_iff, str_eq_refl,
}
use falda.Stream.{
  Turn, StreamItem, Check, duplicate, fresh, check_turn, at_index, at_turn_id, same_content,
  same_index, or_check, new_turn, has_index, has_turn_id, is_at, index_eq,
}

pub select_one-append {ℓ} :
    {A : Type ℓ} (p : A → Bool) (xs ys : List A) {x : A}
    → select_one p xs ≡ some x
    → select_one p (xs ++ ys) ≡ some x
select_one-append p [] ys h = cc
select_one-append p (y ∷ xs) ys h = elim (Bool-cases (p y)) [
  | inl t ↦ ground (arith, h, t)
  | inr n ↦ rw n (select_one-append p xs ys (rw n at h))
]

pub select_one-append_none {ℓ} :
    {A : Type ℓ} (p : A → Bool) (xs ys : List A)
    → select_one p xs ≡ none
    → select_one p (xs ++ ys) ≡ select_one p ys
select_one-append_none p [] ys h = refl
select_one-append_none p (y ∷ xs) ys h = elim (Bool-cases (p y)) [
  | inl t ↦ ground (arith, h, t)
  | inr n ↦ rw n (select_one-append_none p xs ys (rw n at h))
]

pub data IsKeyed : Option ℕ → Option String → Type 0 where
  by_index : {i : ℕ} {k : Option String} → IsKeyed (some i) k
  by_turn_id : {k : String} → IsKeyed none (some k)

at_index-append :
    (session : String) (i : Option ℕ) (rows more : List Turn) {t : Turn}
    → at_index session i rows ≡ some t
    → at_index session i (rows ++ more) ≡ some t
unfolding at_index
at_index-append session none rows more h = cc
at_index-append session (some i) rows more h = select_one-append (has_index session i) rows more h

at_turn_id-append :
    (session : String) (k : Option String) (rows more : List Turn) {t : Turn}
    → at_turn_id session k rows ≡ some t
    → at_turn_id session k (rows ++ more) ≡ some t
unfolding at_turn_id
at_turn_id-append session none rows more h = cc
at_turn_id-append session (some k) rows more h =
    select_one-append (has_turn_id session k) rows more h

is_at-of_eq : (o : Option ℕ) (i : ℕ) → index_eq o (some i) ≡ true → is_at i o ≡ true
is_at-of_eq none i h = cc
is_at-of_eq (some j) i h = h

-- A row that the turn id finds at the index of the item is a row at that index.
at_index-of_same :
    (session : String) (i : Option ℕ) (k : Option String) (rows : List Turn) {t : Turn}
    → at_turn_id session k rows ≡ some t
    → index_eq t.turn_index i ≡ true
    → at_index session i rows ≡ none
    → i ≡ none
unfolding at_index at_turn_id
at_index-of_same session none k rows h e n = refl
at_index-of_same session (some i) none rows h e n = cc
at_index-of_same session (some i) (some k) rows {t} h e n =
    let (m, named) = select_one-eq-some (has_turn_id session k) rows h in
    let miss =
      All-mem (λ r. has_index session i r ≡ false) (select_one-eq-none (has_index session i) rows n)
        m in
    let at = is_at-of_eq t.turn_index i e in ground (arith, miss, named, at)

at_index-none :
    (session : String) (i : Option ℕ) (rows : List Turn) → i ≡ none → at_index session i rows ≡ none
unfolding at_index
at_index-none session none rows h = refl
at_index-none session (some i) rows h = cc

or_check-placed :
    (content : String) (t : Turn) (c c' : Check) {id : String}
    → or_check (same_content content (some t)) c ≡ duplicate id
    → or_check (same_content content (some t)) c' ≡ duplicate id
or_check-placed content t c c' h = elim (Bool-cases (str_eq t.content content)) [
  | inl e ↦ rw e (rw e at h)
  | inr n ↦ ground (arith, h, n)
]

pub check_turn-append :
    (session : String) (m : StreamItem) (rows more : List Turn) {id : String}
    → check_turn session m rows ≡ duplicate id
    → check_turn session m (rows ++ more) ≡ duplicate id
unfolding check_turn
check_turn-append session m rows more h = elim (Option-cases (at_index session m.turn_index rows)) [
  | inr (t, f) ↦
      rw (at_index-append session m.turn_index rows more f)
        (or_check-placed m.content t _ _ (rw f at h))
  | inl n ↦ elim (Option-cases (at_turn_id session m.turn_id rows)) [
    | inl n' ↦ ground (arith, h, n, n')
    | inr (t, f) ↦
        let e : same_index m.turn_index (some t) ≡ duplicate _ = rw (n, f) at h in
        let same : index_eq t.turn_index m.turn_index ≡ true = ground (arith, e) in
        let unplaced = at_index-of_same session m.turn_index m.turn_id rows f same n in
        rw
          (
            at_turn_id-append session m.turn_id rows more f,
            at_index-none session m.turn_index (rows ++ more) unplaced,
          )
          e
  ]
]

-- An item that was new is a duplicate of its row, once the row is there.
pub check_turn-new_turn :
    (session uuid : String) (now : ℕ) (m : StreamItem) (rows : List Turn)
    → IsKeyed m.turn_index m.turn_id
    → check_turn session m rows ≡ fresh
    → check_turn session m (rows ++ new_turn session uuid now m rows ∷ [])
      ≡ duplicate (new_turn session uuid now m rows).id
unfolding check_turn new_turn at_index at_turn_id
check_turn-new_turn session uuid now m rows keyed h = go m.turn_index m.turn_id keyed refl refl h
  where
    t : Turn
    t = new_turn session uuid now m rows

    placed :
        (i : ℕ) (o : Option Turn) (c : Check)
        → or_check (same_content m.content o) c ≡ fresh
        → o ≡ none
    placed i none c e = refl
    placed i (some r) c e = elim (Bool-cases (str_eq r.content m.content)) [
      | inl y ↦ ground (arith, e, y)
      | inr n ↦ ground (arith, e, n)
    ]

    named : (i : Option ℕ) (o : Option Turn) → same_index i o ≡ fresh → o ≡ none
    named i none e = refl
    named i (some r) e = elim (Bool-cases (index_eq r.turn_index i)) [
      | inl y ↦ ground (arith, e, y)
      | inr n ↦ ground (arith, e, n)
    ]

    go :
        (i : Option ℕ) (k : Option String)
        → IsKeyed i k
        → m.turn_index ≡ i
        → m.turn_id ≡ k
        → or_check
            (same_content m.content (at_index session i rows))
            (same_index i (at_turn_id session k rows))
          ≡ fresh
        → or_check
            (same_content m.content (at_index session i (rows ++ t ∷ [])))
            (same_index i (at_turn_id session k (rows ++ t ∷ [])))
          ≡ duplicate t.id
    go none none keyed' at name e = elim keyed' [ ]
    go (some i) k by_index at name e =
        let n = placed i (select_one (has_index session i) rows) _ e in
        let new : has_index session i t ≡ true =
          rw (at, str_eq_refl session) ((==_iff i i).1 refl) in
        rw (select_one-append_none (has_index session i) rows (t ∷ []) n, new)
          (rw (str_eq_refl m.content) refl)
    go none (some k) by_turn_id at name e =
        let n = named none (select_one (has_turn_id session k) rows) e in
        let new : has_turn_id session k t ≡ true = rw (name, str_eq_refl session) (str_eq_refl k) in
        rw (select_one-append_none (has_turn_id session k) rows (t ∷ []) n, new) (rw at refl)
