-- ===== src/Queue/Examples.antt =====
-- The queue on small tables: a store's job is enqueued, claimed, fails, and is recovered.
use mathlib.Core.Bool.{false≢true}
use falda.Prelude.{
  decimal, ℕ, String, true, false, Option, none, some, List, [], ◌∷◌, ◌≡◌, ◌≢◌, ◌↔◌, refl, arith,
  sym, All, map, ◌∙◌, str_eq, str_eq_iff, delete_where, select_one,
}
use falda.Queue.{
  JobStatus, pending, running, sweep, http, DistillJob, Jobs, EnqueueOptions, ClaimOptions, enqueue,
  claim_next, complete_job, fail_job, recover_stale_jobs, get_job, get_job_authorized, list_jobs,
  is_pending_of, is_ready, new_job_id, has_id, select_first, is_claimable, backoff_ms, new_job,
  insert_job, precedes, claimed, lease_expired, newest_first, insert_newest,
}
use falda.Queue.Rows.{id_taken}
use falda.Queue.Invariant.{IsWellFormed, start, next, claims, enqueued, Reach-IsWellFormed}
use falda.Queue.Enqueue.{Queued, enqueue-Queued, enqueue-eq-none_iff}
use falda.Queue.Claim.{IsBest, handed_out, ClaimCall, claim_all, claim_next-IsBest, claim_exclusive}
use falda.Queue.Retry.{after_failure}
use falda.Queue.Access.{get_job_authorized-eq-some_iff, get_job_authorized-hides}

abbrev passive : EnqueueOptions
passive = record { priority = none; origin = none }

abbrev explicit : EnqueueOptions
explicit = record { priority = some 10; origin = some http }

abbrev any_job : ClaimOptions
any_job = record { min_priority = none; lease_ms = none; worker_id = some "w1" }

abbrev row : String → String → JobStatus → ℕ → ℕ → ℕ → Option ℕ → DistillJob
row id key status attempts due priority lease = record {
  id = id;
  store_key = key;
  status = status;
  attempts = attempts;
  next_attempt_at = due;
  error = none;
  created_at = due;
  updated_at = due;
  priority = priority;
  origin = sweep;
  lease_until = lease;
  worker_id = none;
}

abbrev waiting_a : DistillJob
waiting_a = row "job-a:self-5" "a:self" pending 0 5 0 none

abbrev waiting_b : DistillJob
waiting_b = row "job-b:self-7" "b:self" pending 0 7 10 none

abbrev crashed_c : DistillJob
crashed_c = row "job-c:self-3" "c:self" running 2 3 0 (some 90)

abbrev table : Jobs
table = waiting_a ∷ waiting_b ∷ crashed_c ∷ []

program : Unit {0}
unfolding enqueue new_job_id new_job insert_job claim_next select_first is_ready lease_expired
    precedes claimed fail_job complete_job recover_stale_jobs get_job get_job_authorized list_jobs
    newest_first backoff_ms insert_newest decimal
program = tt

id_text : new_job_id "a:self" 1205 ≡ "job-a:self-1205"
unfolding program
id_text = refl

-- The explicit job goes first, then the older of the passive ones.
claim_order :
    (claim_next 100 100 any_job table).1 ≡ some (handed_out 100 100 any_job table waiting_b)
unfolding program
claim_order = refl

upgrade_in_place :
    enqueue 100 100 "a:self" explicit table
    ≡ some (
      record waiting_a { priority = 10; origin = http; updated_at = 100 }
          ∷ waiting_b
          ∷ crashed_c
          ∷ [],
      "job-a:self-5",
    )
unfolding program
upgrade_in_place = refl

abbrev enqueued_a : Jobs
enqueued_a = new_job "job-a:self-5" "a:self" 5 0 sweep ∷ []

enqueue_first : enqueue 5 5 "a:self" passive [] ≡ some (enqueued_a, "job-a:self-5")
unfolding program
enqueue_first = refl

Reach-IsWellFormed_example : IsWellFormed (claim_next 9 9 any_job enqueued_a).0
Reach-IsWellFormed_example = Reach-IsWellFormed (
    next (next start (enqueued 5 5 "a:self" passive [] enqueue_first))
      (claims 9 9 any_job enqueued_a))

enqueue-Queued_example : Queued "a:self" 0 [] enqueued_a "job-a:self-5"
enqueue-Queued_example =
    enqueue-Queued 5 5 "a:self" passive [] enqueued_a "job-a:self-5" enqueue_first

-- A store whose job was claimed in the millisecond that created it cannot be enqueued again then.
enqueue-eq-none_iff_example :
    (enqueue 5 5 "a:self" passive (claim_next 5 5 any_job enqueued_a).0 ≡ none) ↔ (
      (select_one (is_pending_of "a:self") (claim_next 5 5 any_job enqueued_a).0 ≡ none)
      × (id_taken (new_job_id "a:self" 5) (claim_next 5 5 any_job enqueued_a).0 ≡ true))
enqueue-eq-none_iff_example =
    enqueue-eq-none_iff 5 5 "a:self" passive (claim_next 5 5 any_job enqueued_a).0

enqueue_same_millisecond : enqueue 5 5 "a:self" passive (claim_next 5 5 any_job enqueued_a).0 ≡ none
unfolding program
enqueue_same_millisecond = refl

claim_next-IsBest_example :
    (r : DistillJob) × IsBest (is_claimable 100 none) table r
    × (handed_out 100 100 any_job table waiting_b ≡ handed_out 100 100 any_job table r)
claim_next-IsBest_example =
    claim_next-IsBest 100 100 any_job table (handed_out 100 100 any_job table waiting_b) claim_order

-- Three more claims while the lease of the first job runs: two of them hand out other jobs.
abbrev three_claims : List ClaimCall
three_claims =
    record { now = 101; lease_now = 101; opts = any_job }
    ∷ record { now = 102; lease_now = 102; opts = any_job }
    ∷ record { now = 103; lease_now = 103; opts = any_job }
    ∷ []

three_claims_hand_out :
    map (λ (j : DistillJob). j.id) (claim_all three_claims (claim_next 100 100 any_job table).0)
    ≡ "job-c:self-3" ∷ ("job-a:self-5" ∷ [])
unfolding program claim_all
three_claims_hand_out = refl

claim_exclusive_example :
    All
      (λ (j : DistillJob). j.id ≢ (handed_out 100 100 any_job table waiting_b).id)
      (claim_all three_claims (claim_next 100 100 any_job table).0)
claim_exclusive_example =
    claim_exclusive 100 100 any_job table (handed_out 100 100 any_job table waiting_b) three_claims
      claim_order (omega arith, (omega arith, (omega arith, tt)))

found_c : get_job "job-c:self-3" table ≡ some crashed_c
unfolding program
found_c = refl

fail_twice_tried : (after_failure 100 101 "timeout" crashed_c).next_attempt_at ≡ 60_101
unfolding program
fail_twice_tried = refl

get_job_authorized-eq-some_iff_example :
    (get_job_authorized "job-a:self-5" "a:self" table ≡ some waiting_a)
    ↔ ((get_job "job-a:self-5" table ≡ some waiting_a) × (waiting_a.store_key ≡ "a:self"))
get_job_authorized-eq-some_iff_example =
    get_job_authorized-eq-some_iff "job-a:self-5" "a:self" table waiting_a

found_a : get_job "job-a:self-5" table ≡ some waiting_a
unfolding program
found_a = refl

differs : waiting_a.store_key ≢ "b:self"
differs e =
    let f : str_eq "a:self" "b:self" ≡ false = refl in
    false≢true (sym f ∙ (str_eq_iff "a:self" "b:self").1 e)

get_job_authorized-hides_example :
    get_job_authorized "job-a:self-5" "b:self" table
    ≡ get_job_authorized "job-a:self-5" "b:self" (delete_where (has_id "job-a:self-5") table)
get_job_authorized-hides_example =
    get_job_authorized-hides "job-a:self-5" "b:self" table waiting_a found_a differs

list_pending : list_jobs none (some pending) table ≡ waiting_b ∷ waiting_a ∷ []
unfolding program
list_pending = refl
