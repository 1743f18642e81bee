-- ===== src/Recall/Traces/Laws.antt =====
-- A trace that was written is read back whole, by its own store alone.
use mathlib.Core.List.{append-nil, append_assoc}
use falda.Prelude.{
  ℕ, suc, ◌≤◌, String, Bool, true, false, none, some, List, [], ◌∷◌, ◌++◌, ◌≡◌, ◌≢◌, refl, sym, ◌∙◌,
  ap, subst, inl, inr, arith, ltb, if◌then◌else◌, str_eq, str_eq_iff, str_eq_refl, Bool-cases,
  Option-cases, All, All-imp, Memᴰ, select_one, select_where, sort_by, insert_by,
}
use falda.Recall.Types.{
  RecallItem, RecallTrace, RecallTraceItemRow, TraceDb, RecallTraceView, CreateRecallTraceInput,
}
use falda.Recall.Traces.{
  has_recall_id, of_recall, item_row, key_taken, insert_items, new_trace, create_recall_trace,
  items_of, row_to_trace_view, get_recall_trace_authorized, latest_of,
  get_latest_recall_trace_for_store,
}

-- The rows of a trace's items, numbered from `ordinal` in rank order.
unfoldable pub item_rows : String → ℕ → List RecallItem → List RecallTraceItemRow
item_rows recall_id ordinal [] = []
item_rows recall_id ordinal (item ∷ items) =
    item_row recall_id ordinal item ∷ item_rows recall_id (suc ordinal) items

insert_items-eq-some :
    (id : String) (n : ℕ) (items : List RecallItem) (rows rows' : List RecallTraceItemRow)
    → insert_items id n items rows ≡ some rows'
    → rows' ≡ rows ++ item_rows id n items
unfolding insert_items item_rows
insert_items-eq-some id n [] rows rows' h = cc (append-nil rows)
insert_items-eq-some id n (i ∷ is) rows rows' h = elim (Bool-cases (key_taken id n rows)) [
  | inl t ↦ ground arith
  | inr f ↦
      insert_items-eq-some id (suc n) is (rows ++ item_row id n i ∷ []) rows' (rw f at h)
      ∙ append_assoc rows (item_row id n i ∷ []) (item_rows id (suc n) is)
]

select_where-append {ℓ} :
    {A : Type ℓ} (p : A → Bool) (xs ys : List A)
    → select_where p (xs ++ ys) ≡ select_where p xs ++ select_where p ys
select_where-append p [] ys = refl
select_where-append p (x ∷ xs) ys = elim (Bool-cases (p x)) [
  | inl t ↦ rw (t, select_where-append p xs ys)
  | inr n ↦ rw (n, select_where-append p xs ys)
]

select_where-item_rows :
    (id : String) (n : ℕ) (items : List RecallItem)
    → select_where (of_recall id) (item_rows id n items) ≡ item_rows id n items
unfolding item_rows item_row
select_where-item_rows id n [] = refl
select_where-item_rows id n (i ∷ is) = simp (str_eq_refl id, select_where-item_rows id (suc n) is)

select_where-item_rows_ne :
    (id other : String) (n : ℕ) (items : List RecallItem)
    → str_eq id other ≡ false
    → select_where (of_recall other) (item_rows id n items) ≡ []
unfolding item_rows item_row
select_where-item_rows_ne id other n [] ne = refl
select_where-item_rows_ne id other n (i ∷ is) ne =
    simp (ne, select_where-item_rows_ne id other (suc n) is ne)

sort_by-item_rows :
    (id : String) (n : ℕ) (items : List RecallItem)
    → sort_by (λ r. r.ordinal) (item_rows id n items) ≡ item_rows id n items
unfolding item_rows sort_by
sort_by-item_rows id n [] = refl
sort_by-item_rows id n (i ∷ is) = rw (sort_by-item_rows id (suc n) is) (front is)
  where
    front :
        (js : List RecallItem)
        → insert_by
            (λ (r : RecallTraceItemRow). r.ordinal)
            (item_row id n i)
            (item_rows id (suc n) js)
          ≡ item_row id n i ∷ item_rows id (suc n) js
    front [] = unfold insert_by item_rows in refl
    front (j ∷ js) = unfold insert_by item_rows item_row in ground arith

select_one-append_absent {ℓ} :
    {A : Type ℓ} (p : A → Bool) (xs : List A) (x : A)
    → select_one p xs ≡ none
    → p x ≡ true
    → select_one p (xs ++ x ∷ []) ≡ some x
select_one-append_absent p [] x h t = rw t
select_one-append_absent p (y ∷ ys) x h t = elim (Bool-cases (p y)) [
  | inl u ↦ ground arith
  | inr n ↦ rw n (select_one-append_absent p ys x (rw n at h) t)
]

module _ (id : String) (now : ℕ) (input : CreateRecallTraceInput) (db db' : TraceDb) where
  -- What the transaction has written when it commits.
  record Written : Type 0 where
    unused_id : select_one (has_recall_id id) db.traces ≡ none
    traces : db'.traces ≡ db.traces ++ new_trace id now input ∷ []
    items : db'.items ≡ db.items ++ item_rows id 0 input.items

  written : create_recall_trace id now input db ≡ some db' → Written
  unfolding create_recall_trace
  written h = elim (Option-cases (select_one (has_recall_id id) db.traces)) [
    | inr (t, e) ↦ ground arith
    | inl e ↦ elim (Option-cases (insert_items id 0 input.items db.items)) [
      | inl f ↦ ground arith
      | inr (rows, f) ↦
          let same : db'
              ≡ record { traces = db.traces ++ new_trace id now input ∷ []; items = rows } =
            ground arith in
          record {
            unused_id = e;
            traces = ap (λ (d : TraceDb). d.traces) same;
            items =
                ap (λ (d : TraceDb). d.items) same
                ∙ insert_items-eq-some id 0 input.items db.items rows f;
          }
    ]
  ]

  module _ (w : Written) where
    read_trace : select_one (has_recall_id id) db'.traces ≡ some (new_trace id now input)
    unfolding new_trace
    read_trace = rw (w.traces) (
        select_one-append_absent (has_recall_id id) db.traces (new_trace id now input) w.unused_id
          (str_eq_refl id))

    read_items :
        select_where (of_recall id) db.items ≡ [] → items_of id db' ≡ item_rows id 0 input.items
    unfolding items_of
    read_items fresh = rw (w.items) (
        rw
          (
            select_where-append (of_recall id) db.items (item_rows id 0 input.items),
            fresh,
            select_where-item_rows id 0 input.items,
          )
          (sort_by-item_rows id 0 input.items))

    read_other : (other : String) → str_eq id other ≡ false → items_of other db' ≡ items_of other db
    unfolding items_of
    read_other other ne = rw (w.items) (
        rw
          (
            select_where-append (of_recall other) db.items (item_rows id 0 input.items),
            select_where-item_rows_ne id other 0 input.items ne,
          )
          (rw (append-nil (select_where (of_recall other) db.items))))

    authorized :
        (key : String)
        → get_recall_trace_authorized db' id key ≡ (
            if str_eq input.store_key key
            then some (row_to_trace_view db' (new_trace id now input))
            else none)
    unfolding get_recall_trace_authorized
    authorized key = unfold new_trace in rw (read_trace, get_recall_trace_authorized)

  -- A trace that is written under an id with no rows yet is read back by its store with the fields
  -- of the request and with its items in rank order, each of unknown usage; a caller of another
  -- store reads nothing; and the items of every other recall are as before.
  pub create_recall_trace_lem :
      create_recall_trace id now input db ≡ some db'
      → select_where (of_recall id) db.items ≡ []
      → (get_recall_trace_authorized db' id input.store_key
          ≡ some (record { trace = new_trace id now input; items = item_rows id 0 input.items }))
        × ((key : String) → key ≢ input.store_key → get_recall_trace_authorized db' id key ≡ none)
        × ((other : String) → str_eq id other ≡ false → items_of other db' ≡ items_of other db)
  create_recall_trace_lem h fresh = let w = written h in (own w, hidden w, read_other w)
    where
      own :
          (w : Written)
          → get_recall_trace_authorized db' id input.store_key
            ≡ some (record { trace = new_trace id now input; items = item_rows id 0 input.items })
      own w =
          rw (authorized w input.store_key, str_eq_refl input.store_key)
            (unfold row_to_trace_view new_trace in rw (read_items w fresh))

      hidden :
          (w : Written) (key : String)
          → key ≢ input.store_key
          → get_recall_trace_authorized db' id key ≡ none
      hidden w key ne = elim (Bool-cases (str_eq input.store_key key)) [
        | inl t ↦ absurd (ne (sym ((str_eq_iff input.store_key key).0 t)))
        | inr f ↦ rw (authorized w key, f)
      ]

none_of-key :
    (key : String) (ts : List RecallTrace)
    → latest_of key ts ≡ none
    → All (λ u. str_eq u.store_key key ≡ false) ts
unfolding latest_of
none_of-key key [] h = tt
none_of-key key (x ∷ xs) h = elim (Bool-cases (str_eq x.store_key key)) [
  | inl t ↦ ground arith
  | inr n ↦ (n, none_of-key key xs (rw n at h))
]

abbrev pub IsLatest : String → List RecallTrace → RecallTrace → Type 0
IsLatest key ts t =
    Memᴰ t ts
    × (str_eq t.store_key key ≡ true)
    × All (λ u. str_eq u.store_key key ≡ true → u.created_at ≤ t.created_at) ts

latest_of-eq-some :
    (key : String) (ts : List RecallTrace) (t : RecallTrace)
    → latest_of key ts ≡ some t
    → IsLatest key ts t
unfolding latest_of
latest_of-eq-some key [] t h = cc
latest_of-eq-some key (x ∷ xs) t h = elim (Bool-cases (str_eq x.store_key key)) [
  | inr n ↦
      let (m, own, newest) = latest_of-eq-some key xs t (rw n at h) in
      (Memᴰ.tail m, own, ((λ y. cc), newest))
  | inl y ↦ elim (Option-cases (latest_of key xs)) [
    | inl e ↦ subst (IsLatest key (x ∷ xs)) (ground arith) (
      Memᴰ.head refl,
      y,
      (
        (λ _. omega arith),
        All-imp (λ u. str_eq u.store_key key ≡ false)
            (λ u. str_eq u.store_key key ≡ true → u.created_at ≤ x.created_at) (λ u n z. cc) xs
            (none_of-key key xs e),
      ),
    )
    | inr (b, e) ↦
        let (m, own, newest) = latest_of-eq-some key xs b e in
        elim (Bool-cases (ltb x.created_at b.created_at)) [
          | inl newer ↦
              subst (IsLatest key (x ∷ xs)) (ground arith)
                (Memᴰ.tail m, own, ((λ _. ground arith), newest))
          | inr older ↦ subst (IsLatest key (x ∷ xs)) (ground arith) (
            Memᴰ.head refl,
            y,
            (
              (λ _. omega arith),
              All-imp (λ u. str_eq u.store_key key ≡ true → u.created_at ≤ b.created_at)
                  (λ u. str_eq u.store_key key ≡ true → u.created_at ≤ x.created_at)
                  (λ u f z. ground (arith, f z)) xs newest,
            ),
          )
        ]
  ]
]

-- The latest trace that a store reads is a trace of its own, with its items, and no trace of the
-- store was created later; nothing is read exactly when the store has no trace.
pub get_latest_recall_trace_for_store_lem :
    (db : TraceDb) (key : String)
    → ((v : RecallTraceView)
        → get_latest_recall_trace_for_store db key ≡ some v
        → IsLatest key db.traces v.trace × (v.items ≡ items_of v.trace.recall_id db))
      × (get_latest_recall_trace_for_store db key ≡ none
          → All (λ u. str_eq u.store_key key ≡ false) db.traces)
unfolding get_latest_recall_trace_for_store
get_latest_recall_trace_for_store_lem db key = (found, missing)
  where
    found :
        (v : RecallTraceView)
        → get_latest_recall_trace_for_store db key ≡ some v
        → IsLatest key db.traces v.trace × (v.items ≡ items_of v.trace.recall_id db)
    found v h = elim (Option-cases (latest_of key db.traces)) [
      | inl e ↦ ground arith
      | inr (t, e) ↦
          let same : record { trace = t; items = items_of t.recall_id db } ≡ v = ground arith in
          subst
            (λ (w : RecallTraceView).
              IsLatest key db.traces w.trace × (w.items ≡ items_of w.trace.recall_id db))
            same (latest_of-eq-some key db.traces t e, refl)
    ]

    missing :
        get_latest_recall_trace_for_store db key ≡ none
        → All (λ u. str_eq u.store_key key ≡ false) db.traces
    missing h = none_of-key key db.traces (ground arith)
