-- ===== src/Recall/Retention/Laws.antt =====
-- What pruning removes, and that it removes nothing else.
use mathlib.Core.Bool.{false≢true}
use falda.Prelude.{
  ℕ, ◌<◌, String, Bool, true, false, ◌||◌, List, [], ◌∷◌, ◌≡◌, refl, ◌∙◌, sym, inl, inr, arith,
  str_eq, str_eq_iff, str_eq_refl, Bool-cases, All, str_ne_sym, sort_by, ap, ◌==◌, All-imp,
  All-both, subst, length, count_where, length-select_where, select_one, select_where, delete_where,
  All-delete_where, delete_where-All,
}
use falda.Recall.Types.{RecallTrace, RecallTraceItemRow, TraceDb}
use falda.Recall.Traces.{has_recall_id, of_recall, items_of}
use falda.Recall.Retention.{created_before, delete_traces, prune_recall_traces}

-- Whether a trace of the list has the id.
abbrev pub among : List RecallTrace → String → Bool
among [] id = false
among (t ∷ ts) id = str_eq t.recall_id id || among ts id

select_where-delete_where_ne :
    (a b : String) (rows : List RecallTraceItemRow)
    → str_eq a b ≡ false
    → select_where (of_recall b) (delete_where (of_recall a) rows) ≡ select_where (of_recall b) rows
select_where-delete_where_ne a b [] ne = refl
select_where-delete_where_ne a b (r ∷ rs) ne = elim (Bool-cases (str_eq r.recall_id a)) [
  | inl y ↦
      let miss : str_eq r.recall_id b ≡ false = rw ((str_eq_iff r.recall_id a).0 y) ne in
      rw (y, miss) (select_where-delete_where_ne a b rs ne)
  | inr n ↦ rw (n, select_where-delete_where_ne a b rs ne)
]

select_where-delete_where_self :
    (a : String) (rows : List RecallTraceItemRow)
    → select_where (of_recall a) (delete_where (of_recall a) rows) ≡ []
select_where-delete_where_self a [] = refl
select_where-delete_where_self a (r ∷ rs) = elim (Bool-cases (str_eq r.recall_id a)) [
  | inl y ↦ rw y (select_where-delete_where_self a rs)
  | inr n ↦ rw (n, select_where-delete_where_self a rs) (rw n)
]

select_one-delete_where_ne :
    (a b : String) (ts : List RecallTrace)
    → str_eq a b ≡ false
    → select_one (has_recall_id b) (delete_where (has_recall_id a) ts)
      ≡ select_one (has_recall_id b) ts
select_one-delete_where_ne a b [] ne = refl
select_one-delete_where_ne a b (t ∷ ts) ne = elim (Bool-cases (str_eq t.recall_id a)) [
  | inl y ↦
      let miss : str_eq t.recall_id b ≡ false = rw ((str_eq_iff t.recall_id a).0 y) ne in
      rw (y, miss) (select_one-delete_where_ne a b ts ne)
  | inr n ↦ rw (n, select_one-delete_where_ne a b ts ne)
]

select_where-of-nil :
    (a b : String) (rows : List RecallTraceItemRow)
    → select_where (of_recall b) rows ≡ []
    → select_where (of_recall b) (delete_where (of_recall a) rows) ≡ []
select_where-of-nil a b rows h = elim (Bool-cases (str_eq a b)) [
  | inl y ↦ rw (sym ((str_eq_iff a b).0 y)) (select_where-delete_where_self a rows)
  | inr n ↦ select_where-delete_where_ne a b rows n ∙ h
]

-- A trace and its items stay if its id is not among the deleted ones.
delete_traces_kept :
    (ts : List RecallTrace) (db : TraceDb) (id : String)
    → among ts id ≡ false
    → (select_one (has_recall_id id) (delete_traces ts db).traces
        ≡ select_one (has_recall_id id) db.traces)
      × (select_where (of_recall id) (delete_traces ts db).items
          ≡ select_where (of_recall id) db.items)
unfolding delete_traces
delete_traces_kept [] db id h = (refl, refl)
delete_traces_kept (t ∷ ts) db id h =
    let n : str_eq t.recall_id id ≡ false = ground arith in
    let (a, b) =
      delete_traces_kept ts
        (record {
          traces = delete_where (has_recall_id t.recall_id) db.traces;
          items = delete_where (of_recall t.recall_id) db.items;
        })
        id (ground arith) in
    (
      a ∙ select_one-delete_where_ne t.recall_id id db.traces n,
      b ∙ select_where-delete_where_ne t.recall_id id db.items n,
    )

nil_stays :
    (ts : List RecallTrace) (db : TraceDb) (id : String)
    → select_where (of_recall id) db.items ≡ []
    → select_where (of_recall id) (delete_traces ts db).items ≡ []
unfolding delete_traces
nil_stays [] db id h = h
nil_stays (t ∷ ts) db id h = nil_stays ts _ id (select_where-of-nil t.recall_id id db.items h)

-- The items of a deleted trace go.
delete_traces_gone :
    (ts : List RecallTrace) (db : TraceDb) (id : String)
    → among ts id ≡ true
    → select_where (of_recall id) (delete_traces ts db).items ≡ []
unfolding delete_traces
delete_traces_gone [] db id h = cc
delete_traces_gone (t ∷ ts) db id h = elim (Bool-cases (str_eq t.recall_id id)) [
  | inl y ↦ nil_stays ts _ id (
      rw (sym ((str_eq_iff t.recall_id id).0 y))
        (select_where-delete_where_self t.recall_id db.items))
  | inr n ↦ delete_traces_gone ts _ id (rw n at h)
]

-- The traces that are left have none of the deleted ids, and what held of all still does.
delete_traces_left {κ} :
    (P : RecallTrace → Type κ) (ts : List RecallTrace) (db : TraceDb)
    → All P db.traces
    → All P (delete_traces ts db).traces
      × All (λ t. among ts t.recall_id ≡ false) (delete_traces ts db).traces
unfolding delete_traces
delete_traces_left P [] db h = (h, All-imp P _ (λ t _. refl) db.traces h)
delete_traces_left P (t ∷ ts) db h =
    let Stays = λ (x : RecallTrace). P x × (has_recall_id t.recall_id x ≡ false) in
    let rest = delete_where (has_recall_id t.recall_id) db.traces in
    let (kept, others) =
      delete_traces_left Stays ts
        (record { traces = rest; items = delete_where (of_recall t.recall_id) db.items })
        (All-both P (λ x. has_recall_id t.recall_id x ≡ false) rest
          (All-delete_where P (has_recall_id t.recall_id) db.traces h)
          (delete_where-All (has_recall_id t.recall_id) db.traces)) in
    let left = (delete_traces (t ∷ ts) db).traces in
    (
      All-imp Stays P (λ x s. s.0) left kept,
      All-imp (λ x. Stays x × (among ts x.recall_id ≡ false))
          (λ x. among (t ∷ ts) x.recall_id ≡ false)
          (λ x b. rw (str_ne_sym x.recall_id t.recall_id b.0.1) b.1) left
          (All-both Stays (λ x. among ts x.recall_id ≡ false) left kept others),
    )

-- A selected trace is among the selected.
selected_among :
    (p : RecallTrace → Bool) (ts : List RecallTrace)
    → All (λ t. p t ≡ true → among (select_where p ts) t.recall_id ≡ true) ts
selected_among p [] = tt
selected_among p (t ∷ ts) = elim (Bool-cases (p t)) [
  | inl y ↦
      let chosen : t ∷ select_where p ts ≡ select_where p (t ∷ ts) = rw y in
      subst (λ (l : List RecallTrace). All (λ u. p u ≡ true → among l u.recall_id ≡ true) (t ∷ ts))
        chosen
        (
          (λ _. rw (str_eq_refl t.recall_id)),
          All-imp (λ u. p u ≡ true → among (select_where p ts) u.recall_id ≡ true)
              (λ u. p u ≡ true → among (t ∷ select_where p ts) u.recall_id ≡ true)
              (λ u f z. ground (arith, f z)) ts (selected_among p ts),
        )
  | inr n ↦
      let same : select_where p ts ≡ select_where p (t ∷ ts) = rw n in
      subst (λ (l : List RecallTrace). All (λ u. p u ≡ true → among l u.recall_id ≡ true) (t ∷ ts))
        same ((λ z. cc), selected_among p ts)
]

-- The traces of the table that are older than the retention allows.
abbrev pub old_traces : ℕ → ℕ → TraceDb → List RecallTrace
old_traces now days db = select_where (created_before now days) db.traces

module _ (now days : ℕ) (db : TraceDb) (positive : 0 < days) where
  pruned :
      prune_recall_traces now days db
      ≡ (delete_traces (old_traces now days db) db, length (old_traces now days db))
  unfolding prune_recall_traces
  pruned = let e : (days == 0) ≡ false = ground arith in rw (e, prune_recall_traces)

  -- With a positive retention no trace older than the cutoff is left; the items of a recall that had
  -- such a trace are gone; every other recall keeps its trace and all of its items; and the result
  -- counts the traces that were too old.
  pub prune_recall_traces_lem :
      let (db', n) = prune_recall_traces now days db in
      All (λ t. created_before now days t ≡ false) db'.traces
      × ((id : String) → among (old_traces now days db) id ≡ true → items_of id db' ≡ [])
      × ((id : String)
          → among (old_traces now days db) id ≡ false
          → (select_one (has_recall_id id) db'.traces ≡ select_one (has_recall_id id) db.traces)
            × (items_of id db' ≡ items_of id db))
      × (n ≡ count_where (created_before now days) db.traces)
  unfolding items_of sort_by
  prune_recall_traces_lem = rw pruned (
    young,
    λ id o. ap (sort_by (λ (r : RecallTraceItemRow). r.ordinal)) (delete_traces_gone old db id o),
    λ id y.
        let (a, b) = delete_traces_kept old db id y in
        (a, ap (sort_by (λ (r : RecallTraceItemRow). r.ordinal)) b),
    length-select_where (created_before now days) db.traces,
  )
    where
      old : List RecallTrace
      old = old_traces now days db

      Doomed : RecallTrace → Type 0
      Doomed t = created_before now days t ≡ true → among old t.recall_id ≡ true

      young : All (λ t. created_before now days t ≡ false) (delete_traces old db).traces
      young =
          let (kept, left) =
            delete_traces_left Doomed old db (selected_among (created_before now days) db.traces) in
          All-imp (λ t. Doomed t × (among old t.recall_id ≡ false))
            (λ t. created_before now days t ≡ false)
            (λ t b. elim (Bool-cases (created_before now days t)) [
              | inl y ↦ absurd (false≢true (sym b.1 ∙ b.0 y))
              | inr n ↦ n
            ])
            (delete_traces old db).traces
            (All-both Doomed (λ t. among old t.recall_id ≡ false) (delete_traces old db).traces kept
              left)
