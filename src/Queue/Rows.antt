-- ===== src/Queue/Rows.antt =====
-- Rows of `distill_jobs` told apart by their primary key, and what an UPDATE by id leaves.
use mathlib.Core.Bool.{false≢true}
use falda.Prelude.{
  String, Bool, true, false, none, some, [], ◌∷◌, ◌≡◌, refl, sym, ◌∙◌, ap, inl, inr, Memᴰ, arith,
  if◌then◌else◌, str_eq, str_eq_iff, str_eq_refl, Bool-cases, All, All-mem, All-append, ◌++◌,
  str_ne_sym, update_where, select_one,
}
use falda.Queue.{DistillJob, Jobs, has_id, insert_job}

-- No two rows have one id: the PRIMARY KEY of the table.
abbrev pub HasDistinctIds : Jobs → Type 0
HasDistinctIds [] = Unit
HasDistinctIds (j ∷ js) = All (λ k. str_eq k.id j.id ≡ false) js × HasDistinctIds js

-- An UPDATE that leaves ids alone keeps them distinct.
pub All-ids-update_where :
    (p : DistillJob → Bool) (f : DistillJob → DistillJob)
    → ((x : DistillJob) → (f x).id ≡ x.id)
    → (id : String) (db : Jobs) → All (λ k. str_eq k.id id ≡ false) db
    → All (λ k. str_eq k.id id ≡ false) (update_where p f db)
All-ids-update_where p f same id [] h = tt
All-ids-update_where p f same id (x ∷ xs) h = (
  elim (Bool-cases (p x)) [ inl t ↦ rw (t, same x) h.0 | inr n ↦ rw n h.0 ],
  All-ids-update_where p f same id xs h.1,
)

pub update_where-HasDistinctIds :
    (p : DistillJob → Bool) (f : DistillJob → DistillJob)
    → ((x : DistillJob) → (f x).id ≡ x.id)
    → (db : Jobs) → HasDistinctIds db
    → HasDistinctIds (update_where p f db)
update_where-HasDistinctIds p f same [] h = tt
update_where-HasDistinctIds p f same (x ∷ xs) h = (
  elim (Bool-cases (p x)) [
    | inl t ↦ rw (t, same x) (All-ids-update_where p f same x.id xs h.0)
    | inr n ↦ rw n (All-ids-update_where p f same x.id xs h.0)
  ],
  update_where-HasDistinctIds p f same xs h.1,
)

-- With distinct ids, the row with a given id is the one that was selected.
pub only_row :
    (db : Jobs) (job : DistillJob)
    → HasDistinctIds db
    → Memᴰ job db
    → All (λ x. has_id job.id x ≡ true → x ≡ job) db
only_row [] job d m = elim m [ ]
only_row (x ∷ xs) job d (Memᴰ.head e) = (λ _. sym e, later xs (rw e d.0))
  where
    later :
        (ys : Jobs)
        → All (λ k. str_eq k.id job.id ≡ false) ys
        → All (λ y. has_id job.id y ≡ true → y ≡ job) ys
    later [] h = tt
    later (y ∷ ys) h = (λ t. cc, later ys h.1)
only_row (x ∷ xs) job d (Memᴰ.tail m) =
    (λ t. absurd (false≢true (sym (other t) ∙ str_eq_refl job.id)), only_row xs job d.1 m)
  where
    other : has_id job.id x ≡ true → str_eq job.id job.id ≡ false
    other t = rw ((str_eq_iff x.id job.id).0 t) at (All-mem (λ k. str_eq k.id x.id ≡ false) d.0 m)

-- After an UPDATE by id, the row selected by that id is the updated one.
pub select_one-update_where :
    (f : DistillJob → DistillJob)
    → ((x : DistillJob) → (f x).id ≡ x.id)
    → (id : String) (db : Jobs) {job : DistillJob} → select_one (has_id id) db ≡ some job
    → select_one (has_id id) (update_where (has_id id) f db) ≡ some (f job)
select_one-update_where f same id [] h = cc
select_one-update_where f same id (x ∷ xs) {job} h = elim (Bool-cases (has_id id x)) [
  | inl t ↦
      let e : x ≡ job = ground arith in simp (t, same x) (ap (λ (y : DistillJob). some (f y)) e)
  | inr n ↦ rw (n) (rw n (select_one-update_where f same id xs (rw n at h)))
]

-- A row with another id is selected as before.
pub select_one-update_where_ne :
    (f : DistillJob → DistillJob)
    → ((x : DistillJob) → (f x).id ≡ x.id)
    → (id other : String) → str_eq id other ≡ false
    → (db : Jobs)
    → select_one (has_id other) (update_where (has_id id) f db) ≡ select_one (has_id other) db
select_one-update_where_ne f same id other ne [] = refl
select_one-update_where_ne f same id other ne (x ∷ xs) = elim (Bool-cases (has_id id x)) [
  | inl t ↦
      let miss : str_eq x.id other ≡ false = rw ((str_eq_iff x.id id).0 t) ne in
      simp (t, same x, miss) (select_one-update_where_ne f same id other ne xs)
  | inr n ↦ rw n (rw (select_one-update_where_ne f same id other ne xs))
]

-- Whether some row has the id.
abbrev pub id_taken : String → Jobs → Bool
id_taken id [] = false
id_taken id (k ∷ ks) = if str_eq k.id id then true else id_taken id ks

-- The INSERT is refused exactly when the id is taken, and appends the row otherwise.
pub insert_job_lem :
    (j : DistillJob) (db : Jobs)
    → insert_job j db ≡ (if id_taken j.id db then none else some (db ++ j ∷ []))
unfolding insert_job
insert_job_lem j [] = refl
insert_job_lem j (k ∷ ks) = ground (arith, insert_job_lem j ks)

pub not-id_taken :
    (id : String) (db : Jobs) → id_taken id db ≡ false → All (λ k. str_eq k.id id ≡ false) db
not-id_taken id [] h = tt
not-id_taken id (k ∷ ks) h = elim (Bool-cases (str_eq k.id id)) [
  | inl t ↦ ground arith
  | inr n ↦ (n, not-id_taken id ks (rw n at h))
]

pub append-HasDistinctIds :
    (db : Jobs) (j : DistillJob)
    → HasDistinctIds db
    → All (λ k. str_eq k.id j.id ≡ false) db
    → HasDistinctIds (db ++ j ∷ [])
append-HasDistinctIds [] j d h = (tt, tt)
append-HasDistinctIds (k ∷ ks) j d h = (
  All-append (λ x. str_eq x.id k.id ≡ false) ks (j ∷ []) d.0 (str_ne_sym k.id j.id h.0, tt),
  append-HasDistinctIds ks j d.1 h.1,
)
