-- ===== src/Queue/Access.antt =====
-- Reads of the queue: `get_job_authorized` and `list_jobs`.
use falda.Prelude.{
  ◌≤◌, String, Bool, ◌&&◌, Option, none, some, [], ◌∷◌, ◌≡◌, ◌≢◌, ◌↔◌, ◌∙◌, refl, inl, inr, arith,
  leb, leb→le, str_eq, str_eq_iff, Bool-cases, Option-cases, All, All-imp, select_one, select_where,
  delete_where, count_where,
}
use falda.Queue.{
  JobStatus, DistillJob, Jobs, has_id, get_job, get_job_authorized, matches_filters, insert_newest,
  newest_first, list_jobs,
}

select_one-delete_where :
    (p : DistillJob → Bool) (db : Jobs) → select_one p (delete_where p db) ≡ none
select_one-delete_where p [] = refl
select_one-delete_where p (x ∷ xs) = elim (Bool-cases (p x)) [
  | inl t ↦ rw t (select_one-delete_where p xs)
  | inr n ↦ rw n (rw n (select_one-delete_where p xs))
]

module _ (job_id key : String) (db : Jobs) where
  -- A caller is given a job exactly when the table has that job under the caller's own store key.
  pub get_job_authorized-eq-some_iff :
      (job : DistillJob)
      → (get_job_authorized job_id key db ≡ some job)
        ↔ ((get_job job_id db ≡ some job) × (job.store_key ≡ key))
  unfolding get_job_authorized
  get_job_authorized-eq-some_iff job = (given, gives)
    where
      given :
          get_job_authorized job_id key db ≡ some job
          → (get_job job_id db ≡ some job) × (job.store_key ≡ key)
      given h = elim (Option-cases (get_job job_id db)) [
        | inl e ↦ ground arith
        | inr (j, e) ↦ elim (Bool-cases (str_eq j.store_key key)) [
          | inl t ↦
              let same : j ≡ job = ground arith in
              (ground arith, rw (← same) ((str_eq_iff j.store_key key).0 t))
          | inr n ↦ ground arith
        ]
      ]

      gives :
          (get_job job_id db ≡ some job) × (job.store_key ≡ key)
          → get_job_authorized job_id key db ≡ some job
      gives (e, k) = ground (arith, (str_eq_iff job.store_key key).1 k)

  -- A job of another store and a job that does not exist are one to the caller: the answer is the
  -- answer for the table without that job.
  pub get_job_authorized-hides :
      (job : DistillJob)
      → get_job job_id db ≡ some job
      → job.store_key ≢ key
      → get_job_authorized job_id key db
        ≡ get_job_authorized job_id key (delete_where (has_id job_id) db)
  unfolding get_job_authorized
  get_job_authorized-hides job e other = elim (Bool-cases (str_eq job.store_key key)) [
    | inl t ↦ absurd (other ((str_eq_iff job.store_key key).0 t))
    | inr n ↦ ground (arith, select_one-delete_where (has_id job_id) db)
  ]

-- Newest first: no row is older than a row behind it.
abbrev pub IsNewestFirst : Jobs → Type 0
IsNewestFirst [] = Unit
IsNewestFirst (j ∷ js) = All (λ k. k.created_at ≤ j.created_at) js × IsNewestFirst js

All-insert_newest {κ} :
    (P : DistillJob → Type κ) (j : DistillJob) (js : Jobs)
    → P j
    → All P js
    → All P (insert_newest j js)
unfolding insert_newest
All-insert_newest P j [] p h = (p, tt)
All-insert_newest P j (k ∷ ks) p h = elim (Bool-cases (leb k.created_at j.created_at)) [
  | inl t ↦ rw t (p, h)
  | inr n ↦ rw n (h.0, All-insert_newest P j ks p h.1)
]

insert_newest-IsNewestFirst :
    (j : DistillJob) (js : Jobs) → IsNewestFirst js → IsNewestFirst (insert_newest j js)
unfolding insert_newest
insert_newest-IsNewestFirst j [] h = (tt, tt)
insert_newest-IsNewestFirst j (k ∷ ks) h = elim (Bool-cases (leb k.created_at j.created_at)) [
  | inl t ↦
      let le = leb→le k.created_at j.created_at t in
      rw t (
        (
          le,
          All-imp (λ x. x.created_at ≤ k.created_at) (λ x. x.created_at ≤ j.created_at)
              (λ x l. omega arith) ks h.0,
        ),
        h,
      )
  | inr n ↦ rw n (
    All-insert_newest (λ x. x.created_at ≤ k.created_at) j ks (ground arith) h.0,
    insert_newest-IsNewestFirst j ks h.1,
  )
]

newest_first-IsNewestFirst : (db : Jobs) → IsNewestFirst (newest_first db)
unfolding newest_first
newest_first-IsNewestFirst [] = tt
newest_first-IsNewestFirst (j ∷ js) =
    insert_newest-IsNewestFirst j (newest_first js) (newest_first-IsNewestFirst js)

count_where-insert_newest :
    (p : DistillJob → Bool) (j : DistillJob) (js : Jobs)
    → count_where p (insert_newest j js) ≡ count_where p (j ∷ js)
unfolding insert_newest
count_where-insert_newest p j [] = refl
count_where-insert_newest p j (k ∷ ks) = elim (Bool-cases (leb k.created_at j.created_at)) [
  | inl t ↦ rw t
  | inr n ↦ rw n (omega (arith, count_where-insert_newest p j ks))
]

count_where-newest_first :
    (p : DistillJob → Bool) (db : Jobs) → count_where p (newest_first db) ≡ count_where p db
unfolding newest_first
count_where-newest_first p [] = refl
count_where-newest_first p (j ∷ js) =
    omega (arith, count_where-insert_newest p j (newest_first js), count_where-newest_first p js)

count_where-select_where :
    (p q : DistillJob → Bool) (db : Jobs)
    → count_where p (select_where q db) ≡ count_where (λ j. q j && p j) db
count_where-select_where p q [] = refl
count_where-select_where p q (x ∷ xs) = elim (Bool-cases (q x)) [
  | inl t ↦ rw (t, count_where-select_where p q xs)
  | inr n ↦ rw (n, count_where-select_where p q xs) (omega arith)
]

-- A listing holds exactly the rows that pass both filters, each as often as the table does, and
-- the newest come first.
pub list_jobs_lem :
    (store_key : Option String) (status : Option JobStatus) (db : Jobs)
    → IsNewestFirst (list_jobs store_key status db)
      × ((p : DistillJob → Bool)
          → count_where p (list_jobs store_key status db)
            ≡ count_where (λ j. matches_filters store_key status j && p j) db)
unfolding list_jobs
list_jobs_lem store_key status db =
    let rows = select_where (matches_filters store_key status) db in
    (
      newest_first-IsNewestFirst rows,
      λ p.
          count_where-newest_first p rows
          ∙ count_where-select_where p (matches_filters store_key status) db,
    )
