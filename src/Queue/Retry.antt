-- ===== src/Queue/Retry.antt =====
-- Failures, backoff, crash recovery: `fail_job`, `complete_job`, `recover_stale_jobs`.
use native.Mathlib.Nat.{pow-suc}
use falda.Prelude.{
  ℕ, zero, suc, ◌+◌, ◌-◌, ◌*◌, ◌^◌, ◌≤◌, min, String, true, false, none, some, [], ◌∷◌, ◌≡◌, refl,
  inl, inr, arith, if◌then◌else◌, leb, str_eq, Bool-cases, Option-cases, All, select_one,
  count_where,
}
use falda.Queue.{
  pending, done, dead, DistillJob, Jobs, has_id, is_running, is_pending, is_ready, is_stale,
  lease_expired, backoff_ms, max_backoff_ms, max_attempts, buried, rescheduled, fail_job, get_job,
  recover_stale_jobs, status_eq,
}
use falda.Queue.Rows.{select_one-update_where, select_one-update_where_ne}

power_doubles : (k : ℕ) → 2 ^ suc k ≡ 2 * 2 ^ k
power_doubles k = omega (arith, pow-suc 2 k)

power_pos : (k : ℕ) → 1 ≤ 2 ^ k
power_pos zero = omega arith
power_pos (suc k) = omega (arith, power_pos k, pow-suc 2 k)

power_large : (k : ℕ) → 32 ≤ 2 ^ (5 + k)
power_large zero = omega arith
power_large (suc k) =
    let e : 5 + suc k ≡ suc (5 + k) = omega arith in
    rw e (omega (arith, power_large k, power_doubles (5 + k)))

backoff_ms-suc : (k : ℕ) → backoff_ms (suc k) ≡ min (30_000 * 2 ^ k) 900_000
unfolding backoff_ms
backoff_ms-suc k = let e : suc k - 1 ≡ k = omega arith in ground (arith, e)

-- Every backoff lies between half the base and the cap. From the first attempt on it doubles with
-- each attempt until it meets the cap, and from the sixth it is the cap.
pub backoff_ms_bounds :
    (attempts : ℕ)
    → (15_000 ≤ backoff_ms attempts)
      × (backoff_ms attempts ≤ max_backoff_ms)
      × (1 ≤ attempts → backoff_ms (suc attempts) ≡ min (2 * backoff_ms attempts) max_backoff_ms)
      × (6 ≤ attempts → backoff_ms attempts ≡ max_backoff_ms)
backoff_ms_bounds zero = unfold backoff_ms in ground arith
backoff_ms_bounds (suc k) =
    rw (backoff_ms-suc k, backoff_ms-suc (suc k))
      (
        omega (arith, power_pos k),
        omega arith,
        λ _. omega (arith, power_doubles k),
        λ h. let e : 5 + (k - 5) ≡ k = omega arith in omega (arith, rw e at (power_large (k - 5))),
      )

-- What becomes of the failed row: dead with its attempts used up, and otherwise due again after
-- the backoff of its attempts.
abbrev pub after_failure : ℕ → ℕ → String → DistillJob → DistillJob
after_failure now retry_now error job = record job {
  status = if leb max_attempts job.attempts then dead else pending;
  error = some error;
  next_attempt_at =
      if leb max_attempts job.attempts
      then job.next_attempt_at
      else retry_now + backoff_ms job.attempts;
  updated_at = now;
  lease_until = none;
  worker_id = none;
}

module _ (now retry_now : ℕ) (id error : String) (db : Jobs) where
  -- A failure of a known job buries or reschedules its row, by its count of attempts, and releases
  -- the lease; every other job reads as before.
  pub fail_job_lem :
      (job : DistillJob)
      → get_job id db ≡ some job
      → (get_job id (fail_job now retry_now id error db)
          ≡ some (after_failure now retry_now error job))
        × ((other : String)
            → str_eq id other ≡ false
            → get_job other (fail_job now retry_now id error db) ≡ get_job other db)
  unfolding fail_job get_job
  fail_job_lem job e = (known job e, others)
    where
      known :
          (job : DistillJob)
          → select_one (has_id id) db ≡ some job
          → select_one (has_id id) (fail_job now retry_now id error db)
            ≡ some (after_failure now retry_now error job)
      known job e = elim (Bool-cases (leb max_attempts job.attempts)) [
        | inl t ↦
            rw (e, t, fail_job)
              (rw (select_one-update_where (buried error now) (λ x. refl) id db e) refl)
        | inr f ↦
            rw (e, f, fail_job)
              (rw
                (select_one-update_where
                  (rescheduled error (retry_now + backoff_ms job.attempts) now) (λ x. refl) id db e)
                refl)
      ]

      others :
          (other : String)
          → str_eq id other ≡ false
          → select_one (has_id other) (fail_job now retry_now id error db)
            ≡ select_one (has_id other) db
      others other ne = elim (Option-cases (select_one (has_id id) db)) [
        | inl e ↦ rw (e, fail_job)
        | inr (job, e) ↦ elim (Bool-cases (leb max_attempts job.attempts)) [
          | inl t ↦
              rw (e, t, fail_job)
                (select_one-update_where_ne (buried error now) (λ x. refl) id other ne db)
          | inr f ↦
              rw (e, f, fail_job)
                (select_one-update_where_ne
                  (rescheduled error (retry_now + backoff_ms job.attempts) now) (λ x. refl) id other
                  ne db)
        ]
      ]

-- What recovery changes: nothing stays stale, each stale row becomes one pending row, which is what
-- the call counts, and rows of the other statuses are as many as before.
pub recover_stale_jobs_lem :
    (now : ℕ) (db : Jobs)
    → let (db', recovered_count) = recover_stale_jobs now db in
      (count_where (is_stale now) db' ≡ 0)
      × (recovered_count ≡ count_where (is_stale now) db)
      × (count_where (λ j. is_pending j.status) db'
          ≡ count_where (λ j. is_pending j.status) db + recovered_count)
      × (count_where (λ j. is_running j.status) db' + recovered_count
          ≡ count_where (λ j. is_running j.status) db)
      × (count_where (λ j. status_eq j.status done) db'
          ≡ count_where (λ j. status_eq j.status done) db)
      × (count_where (λ j. status_eq j.status dead) db'
          ≡ count_where (λ j. status_eq j.status dead) db)
unfolding recover_stale_jobs
recover_stale_jobs_lem now [] = (refl, refl, refl, refl, refl, refl)
recover_stale_jobs_lem now (x ∷ xs) = ground (arith, recover_stale_jobs_lem now xs)

-- Recovery and reclaiming agree: where every running row had been due when it was claimed, the
-- rows that `claim_next` may hand out are as many after recovery as before.
pub count_ready-recover :
    (now : ℕ) (db : Jobs)
    → All (λ j. is_running j.status ≡ true → j.next_attempt_at ≤ now) db
    → count_where (is_ready now) (recover_stale_jobs now db).0 ≡ count_where (is_ready now) db
unfolding recover_stale_jobs is_ready lease_expired
count_ready-recover now [] h = refl
count_ready-recover now (x ∷ xs) h = ground (arith, count_ready-recover now xs h.1, h.0)
