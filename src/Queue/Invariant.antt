-- ===== src/Queue/Invariant.antt =====
-- What holds of `distill_jobs` between two calls, whatever the calls are.
use falda.Prelude.{
  ltb, leb→le, str_eq_iff, subst, ℕ, ◌+◌, ◌≤◌, String, Bool, true, false, Option, none, some, [],
  ◌∷◌, ◌++◌, ◌≡◌, refl, inl, inr, arith, leb, str_eq, Bool-cases, Option-cases, All, All-append,
  update_where, All-update_where, select_one, select_one-eq-some,
}
use falda.Queue.{
  backoff_ms, default_lease_ms, JobOrigin, dead, DistillJob, Jobs, EnqueueOptions, ClaimOptions,
  is_running, has_id, is_stale, upgrade, new_job, enqueue, claimed, claim_next, completed,
  complete_job, buried, rescheduled, fail_job, max_attempts, recovered, recover_stale_jobs,
  is_claimable, select_first, is_pending_of, new_job_id, or_default, priority_passive, sweep,
}
use falda.Queue.Enqueue.{enqueue-new, enqueue-coalesced}
use falda.Queue.Rows.{
  HasDistinctIds, update_where-HasDistinctIds, only_row, not-id_taken, append-HasDistinctIds,
  id_taken,
}

abbrev pub is_some {ℓ} : {A : Type ℓ} → Option A → Bool
is_some none = false
is_some (some a) = true

-- A row's lease and its count of attempts fit its status.
pub record IsSound (j : DistillJob) : Type 0 where
  pub leased : is_some j.lease_until ≡ is_running j.status
  pub tried : is_running j.status ≡ true → 1 ≤ j.attempts
  pub exhausted : j.status ≡ dead → max_attempts ≤ j.attempts

pub record IsWellFormed (db : Jobs) : Type 0 where
  pub distinct : HasDistinctIds db
  pub sound : All IsSound db

-- Each call of the module that writes, with the clock readings and arguments it may have.
pub data Step : Jobs → Jobs → Type 0 where
  enqueued :
      (id_now now : ℕ) (store_key : String) (opts : EnqueueOptions) (db : Jobs) {db' : Jobs}
      {id : String}
      → enqueue id_now now store_key opts db ≡ some (db', id)
      → Step db db'
  claims :
      (now lease_now : ℕ) (opts : ClaimOptions) (db : Jobs)
      → Step db (claim_next now lease_now opts db).0
  completes : (now : ℕ) (id : String) (db : Jobs) → Step db (complete_job now id db)
  fails :
      (now retry_now : ℕ) (id error : String) (db : Jobs)
      → Step db (fail_job now retry_now id error db)
  recovers : (now : ℕ) (db : Jobs) → Step db (recover_stale_jobs now db).0

pub data Reach : Jobs → Type 0 where
  start : Reach []
  next : {db db' : Jobs} → Reach db → Step db db' → Reach db'

-- An UPDATE of any rows keeps the table well formed if it keeps ids and leaves each row sound.
update-IsWellFormed :
    (p : DistillJob → Bool) (f : DistillJob → DistillJob)
    → ((x : DistillJob) → (f x).id ≡ x.id)
    → ((x : DistillJob) → IsSound x → IsSound (f x))
    → (db : Jobs) → IsWellFormed db
    → IsWellFormed (update_where p f db)
update-IsWellFormed p f same keep db w = record {
  distinct = update_where-HasDistinctIds p f same db w.distinct;
  sound = All-update_where IsSound p f (λ x _ s. keep x s) db w.sound;
}

module _ (id_now now : ℕ) (store_key : String) (opts : EnqueueOptions) (db : Jobs) where
  pub enqueue-IsWellFormed :
      (db' : Jobs) (id : String)
      → enqueue id_now now store_key opts db ≡ some (db', id)
      → IsWellFormed db
      → IsWellFormed db'
  unfolding upgrade new_job
  enqueue-IsWellFormed db' id h w = elim (Option-cases (select_one (is_pending_of store_key) db)) [
    | inl e ↦ elim (Bool-cases (id_taken (new_job_id store_key id_now) db)) [
      | inl t ↦ cc (enqueue-new id_now now store_key opts db e, t)
      | inr n ↦
          subst IsWellFormed (ground (arith, enqueue-new id_now now store_key opts db e))
            (appended (not-id_taken (new_job_id store_key id_now) db n))
    ]
    | inr (x, e) ↦ elim (Bool-cases (ltb x.priority priority)) [
      | inl t ↦
          subst IsWellFormed (ground (arith, enqueue-coalesced id_now now store_key opts db x e)) (
            update-IsWellFormed (has_id x.id) (upgrade priority origin now) (λ y. refl)
              (λ y s. record { leased = s.leased; tried = s.tried; exhausted = s.exhausted }) db w)
      | inr n ↦
          subst IsWellFormed (ground (arith, enqueue-coalesced id_now now store_key opts db x e)) w
    ]
  ]
    where
      priority : ℕ
      priority = or_default opts.priority priority_passive

      origin : JobOrigin
      origin = or_default opts.origin sweep

      row : DistillJob
      row = new_job (new_job_id store_key id_now) store_key now priority origin

      appended : All (λ k. str_eq k.id row.id ≡ false) db → IsWellFormed (db ++ row ∷ [])
      appended fresh = record {
        distinct = append-HasDistinctIds db row w.distinct fresh;
        sound =
            All-append IsSound db (row ∷ []) w.sound
              (record { leased = refl; tried = λ d. cc; exhausted = λ d. cc }, tt);
      }

pub claim_next-IsWellFormed :
    (now lease_now : ℕ) (opts : ClaimOptions) (db : Jobs)
    → IsWellFormed db
    → IsWellFormed (claim_next now lease_now opts db).0
unfolding claim_next claimed
claim_next-IsWellFormed now lease_now opts db w =
    elim (Option-cases (select_first (is_claimable now opts.min_priority) db)) [
      | inl e ↦ rw (e, claim_next) w
      | inr (job, e) ↦
          rw (e, claim_next)
            (update-IsWellFormed (has_id job.id)
              (claimed now (lease_now + or_default opts.lease_ms default_lease_ms) opts.worker_id)
              (λ x. refl)
              (λ x s. record { leased = refl; tried = λ _. omega arith; exhausted = λ d. cc }) db w)
    ]

pub complete_job-IsWellFormed :
    (now : ℕ) (id : String) (db : Jobs) → IsWellFormed db → IsWellFormed (complete_job now id db)
unfolding complete_job
complete_job-IsWellFormed now id db w =
    update-IsWellFormed (has_id id) (completed now) (λ x. refl)
      (λ x s. record { leased = refl; tried = λ d. cc; exhausted = λ d. cc }) db w

pub recover_stale_jobs-IsWellFormed :
    (now : ℕ) (db : Jobs) → IsWellFormed db → IsWellFormed (recover_stale_jobs now db).0
unfolding recover_stale_jobs
recover_stale_jobs-IsWellFormed now db w =
    update-IsWellFormed (is_stale now) (recovered now) (λ x. refl)
      (λ x s. record { leased = refl; tried = λ d. cc; exhausted = λ d. cc }) db w

-- The row that is buried is the selected one, which has used up its attempts.
buried-All-IsSound :
    (now : ℕ) (id error : String) (db : Jobs) (job : DistillJob)
    → max_attempts ≤ job.attempts
    → All (λ x. has_id id x ≡ true → x ≡ job) db
    → All IsSound db
    → All IsSound (update_where (has_id id) (buried error now) db)
unfolding buried
buried-All-IsSound now id error [] job n only s = tt
buried-All-IsSound now id error (x ∷ xs) job n only s = (
  elim (Bool-cases (has_id id x)) [
    | inl t ↦ rw t (record { leased = refl; tried = λ d. cc; exhausted = λ _. rw (only.0 t) n })
    | inr f ↦ rw f s.0
  ],
  buried-All-IsSound now id error xs job n only.1 s.1,
)

pub fail_job-IsWellFormed :
    (now retry_now : ℕ) (id error : String) (db : Jobs)
    → IsWellFormed db
    → IsWellFormed (fail_job now retry_now id error db)
unfolding fail_job
fail_job-IsWellFormed now retry_now id error db w =
    elim (Option-cases (select_one (has_id id) db)) [
      | inl e ↦ rw (e, fail_job) w
      | inr (job, e) ↦ elim (Bool-cases (leb max_attempts job.attempts)) [
        | inl t ↦
            let (m, named) = select_one-eq-some (has_id id) db e in
            let only : All (λ x. has_id id x ≡ true → x ≡ job) db =
              subst (λ i. All (λ x. has_id i x ≡ true → x ≡ job) db)
                ((str_eq_iff job.id id).0 named) (only_row db job w.distinct m) in
            rw (e, t, fail_job)
              (record {
                distinct =
                    update_where-HasDistinctIds (has_id id) (buried error now) (λ x. refl) db
                      w.distinct;
                sound = buried-All-IsSound now id error db job (leb→le _ _ t) only w.sound;
              })
        | inr f ↦
            rw (e, f, fail_job)
              (update-IsWellFormed (has_id id)
                (rescheduled error (retry_now + backoff_ms job.attempts) now) (λ x. refl)
                (λ x s. record { leased = refl; tried = λ d. cc; exhausted = λ d. cc }) db w)
      ]
    ]

Step-IsWellFormed : {db db' : Jobs} → Step db db' → IsWellFormed db → IsWellFormed db'
Step-IsWellFormed (enqueued id_now now key opts db {db' = db'} {id = id} h) w =
    enqueue-IsWellFormed id_now now key opts db db' id h w
Step-IsWellFormed (claims now lease_now opts db) w = claim_next-IsWellFormed now lease_now opts db w
Step-IsWellFormed (completes now id db) w = complete_job-IsWellFormed now id db w
Step-IsWellFormed (fails now retry_now id error db) w =
    fail_job-IsWellFormed now retry_now id error db w
Step-IsWellFormed (recovers now db) w = recover_stale_jobs-IsWellFormed now db w

-- In every table that calls of the module reach from the empty one, no two rows share an id,
-- exactly the running rows hold a lease, a running row counts at least one attempt, and a dead row
-- at least `max_attempts`.
pub Reach-IsWellFormed : {db : Jobs} → Reach db → IsWellFormed db
Reach-IsWellFormed start = record { distinct = tt; sound = tt }
Reach-IsWellFormed (next r s) = Step-IsWellFormed s (Reach-IsWellFormed r)
