-- ===== src/Queue.antt =====
-- The distillation job queue: `src/distill/queue.ts`. The table `distill_jobs` is the list of its
-- rows in rowid order; an ISO timestamp is its number of milliseconds.
pub mod Rows
pub mod Invariant
pub mod Claim
pub mod Enqueue
pub mod Retry
pub mod Access
mod Examples
use Prim.Native.String.{◌++◌}
use falda.Prelude.{
  ℕ, ◌+◌, ◌-◌, ◌*◌, ◌/◌, ◌^◌, min, String, Bool, true, false, ◌&&◌, ◌||◌, Option, none, some, List,
  [], ◌∷◌, ltb, leb, ◌==◌, if◌then◌else◌, str_eq, update_where, select_where, select_one,
  count_where, decimal,
}

pub data JobStatus : Type 0 where
  pending running done dead : JobStatus

pub data JobOrigin : Type 0 where
  sweep http mcp : JobOrigin

pub record DistillJob : Type 0 where
  pub id : String
  pub store_key : String
  pub status : JobStatus
  pub attempts : ℕ
  pub next_attempt_at : ℕ
  pub error : Option String
  pub created_at : ℕ
  pub updated_at : ℕ
  pub priority : ℕ
  pub origin : JobOrigin
  pub lease_until : Option ℕ
  pub worker_id : Option String

abbrev pub Jobs : Type 0
Jobs = List DistillJob

abbrev pub base_backoff_ms : ℕ
base_backoff_ms = 30_000

abbrev pub max_backoff_ms : ℕ
max_backoff_ms = 900_000

abbrev pub max_attempts : ℕ
max_attempts = 8

abbrev pub default_lease_ms : ℕ
default_lease_ms = 600_000

abbrev pub priority_passive : ℕ
priority_passive = 0

abbrev pub priority_explicit : ℕ
priority_explicit = 10

abbrev pub is_pending : JobStatus → Bool
is_pending pending = true
is_pending _ = false

abbrev pub is_running : JobStatus → Bool
is_running running = true
is_running _ = false

abbrev pub status_eq : JobStatus → JobStatus → Bool
status_eq pending pending = true
status_eq running running = true
status_eq done done = true
status_eq dead dead = true
status_eq _ _ = false

-- WHERE id=?
abbrev pub has_id : String → DistillJob → Bool
has_id id j = str_eq j.id id

abbrev pub or_default {ℓ} : {A : Type ℓ} → Option A → A → A
or_default none d = d
or_default (some a) d = a

pub record EnqueueOptions : Type 0 where
  pub priority : Option ℕ
  pub origin : Option JobOrigin

-- WHERE store_key=? AND status='pending'
abbrev pub is_pending_of : String → DistillJob → Bool
is_pending_of store_key j = str_eq j.store_key store_key && is_pending j.status

unfoldable pub new_job_id : String → ℕ → String
new_job_id store_key now = "job-" ++ (store_key ++ ("-" ++ decimal now))

unfoldable pub new_job : String → String → ℕ → ℕ → JobOrigin → DistillJob
new_job id store_key now priority origin = record {
  id = id;
  store_key = store_key;
  status = pending;
  attempts = 0;
  next_attempt_at = now;
  error = none;
  created_at = now;
  updated_at = now;
  priority = priority;
  origin = origin;
  lease_until = none;
  worker_id = none;
}

-- INSERT appends the row; a second row with its primary key is refused, and `enqueue` throws.
unfoldable pub insert_job : DistillJob → Jobs → Option Jobs
insert_job j [] = some (j ∷ [])
insert_job j (k ∷ ks) =
    let rest = insert_job j ks in
    if str_eq k.id j.id then none else elim rest [ none ↦ none | some js ↦ some (k ∷ js) ]

unfoldable pub upgrade : ℕ → JobOrigin → ℕ → DistillJob → DistillJob
upgrade priority origin now j = record j { priority = priority; origin = origin; updated_at = now }

-- The clock is read twice: `id_now` goes into a new row's id, `now` into its timestamps.
unfoldable pub enqueue : ℕ → ℕ → String → EnqueueOptions → Jobs → Option (Jobs × String)
unfolding upgrade
enqueue id_now now store_key opts db =
    let priority = or_default opts.priority priority_passive in
    let origin = or_default opts.origin sweep in
    elim (select_one (is_pending_of store_key) db) [
      | some existing ↦ some (
        if ltb existing.priority priority
            then update_where (has_id existing.id) (upgrade priority origin now) db
            else db,
        existing.id,
      )
      | none ↦
          let id = new_job_id store_key id_now in
          elim (insert_job (new_job id store_key now priority origin) db) [
            | none ↦ none
            | some db' ↦ some (db', id)
          ]
    ]

pub record ClaimOptions : Type 0 where
  pub min_priority : Option ℕ
  pub lease_ms : Option ℕ
  pub worker_id : Option String

-- lease_until IS NULL OR lease_until<?
unfoldable pub lease_expired : ℕ → Option ℕ → Bool
lease_expired now none = true
lease_expired now (some t) = ltb t now

unfoldable pub is_ready : ℕ → DistillJob → Bool
is_ready now j =
    is_pending j.status && leb j.next_attempt_at now
    || is_running j.status && lease_expired now j.lease_until

abbrev pub meets_floor : Option ℕ → DistillJob → Bool
meets_floor none j = true
meets_floor (some floor) j = leb floor j.priority

abbrev pub is_claimable : ℕ → Option ℕ → DistillJob → Bool
is_claimable now floor j = is_ready now j && meets_floor floor j

-- ORDER BY priority DESC, next_attempt_at ASC
unfoldable pub precedes : DistillJob → DistillJob → Bool
precedes a b =
    ltb b.priority a.priority || a.priority == b.priority && ltb a.next_attempt_at b.next_attempt_at

-- The better of a row and what the rows behind it offer; the row itself on a tie (rowid ASC).
abbrev pub first_of_two : DistillJob → Option DistillJob → DistillJob
first_of_two j none = j
first_of_two j (some k) = if precedes k j then k else j

unfoldable pub select_first : (DistillJob → Bool) → Jobs → Option DistillJob
select_first p [] = none
select_first p (j ∷ js) =
    let rest = select_first p js in if p j then some (first_of_two j rest) else rest

unfoldable pub claimed : ℕ → ℕ → Option String → DistillJob → DistillJob
claimed now lease_until worker_id j = record j {
  status = running;
  attempts = j.attempts + 1;
  updated_at = now;
  lease_until = some lease_until;
  worker_id = worker_id;
}

-- `lease_now` is the second reading of the clock. The returned row is the selected one with the
-- claim's fields; `updated_at` is left as it was read.
unfoldable pub claim_next : ℕ → ℕ → ClaimOptions → Jobs → Jobs × Option DistillJob
claim_next now lease_now opts db =
    let lease_until = lease_now + or_default opts.lease_ms default_lease_ms in
    elim (select_first (is_claimable now opts.min_priority) db) [
      | none ↦ (db, none)
      | some job ↦ (
        update_where (has_id job.id) (claimed now lease_until opts.worker_id) db,
        some (record job {
          status = running;
          attempts = job.attempts + 1;
          lease_until = some lease_until;
          worker_id = opts.worker_id;
        }),
      )
    ]

completed : ℕ → DistillJob → DistillJob
completed now j = record j { status = done; updated_at = now; lease_until = none; worker_id = none }

unfoldable pub complete_job : ℕ → String → Jobs → Jobs
unfolding completed
complete_job now job_id db = update_where (has_id job_id) (completed now) db

-- `BASE * Math.pow(2, attempts - 1)`, capped; at `attempts = 0` the power is a half.
unfoldable pub backoff_ms : ℕ → ℕ
backoff_ms attempts =
    if attempts == 0
    then min (base_backoff_ms / 2) max_backoff_ms
    else min (base_backoff_ms * 2 ^ (attempts - 1)) max_backoff_ms

buried : String → ℕ → DistillJob → DistillJob
buried error now j = record j {
  status = dead;
  error = some error;
  updated_at = now;
  lease_until = none;
  worker_id = none;
}

rescheduled : String → ℕ → ℕ → DistillJob → DistillJob
rescheduled error next_attempt_at now j = record j {
  status = pending;
  error = some error;
  next_attempt_at = next_attempt_at;
  updated_at = now;
  lease_until = none;
  worker_id = none;
}

unfoldable pub fail_job : ℕ → ℕ → String → String → Jobs → Jobs
unfolding buried rescheduled
fail_job now retry_now job_id error db = elim (select_one (has_id job_id) db) [
  | none ↦ db
  | some job ↦
      if leb max_attempts job.attempts
      then update_where (has_id job_id) (buried error now) db
      else update_where (has_id job_id)
          (rescheduled error (retry_now + backoff_ms job.attempts) now) db
]

abbrev pub is_stale : ℕ → DistillJob → Bool
is_stale now j = is_running j.status && lease_expired now j.lease_until

recovered : ℕ → DistillJob → DistillJob
recovered now j = record j {
  status = pending;
  updated_at = now;
  lease_until = none;
  worker_id = none;
}

unfoldable pub recover_stale_jobs : ℕ → Jobs → Jobs × ℕ
unfolding recovered
recover_stale_jobs now db =
    (update_where (is_stale now) (recovered now) db, count_where (is_stale now) db)

unfoldable pub get_job : String → Jobs → Option DistillJob
get_job job_id db = select_one (has_id job_id) db

unfoldable pub store_key_for : String → Option String → String
store_key_for tenant pool = tenant ++ (":" ++ or_default pool "self")

unfoldable pub get_job_authorized : String → String → Jobs → Option DistillJob
unfolding get_job
get_job_authorized job_id caller_store_key db = elim (get_job job_id db) [
  | none ↦ none
  | some job ↦ if str_eq job.store_key caller_store_key then some job else none
]

-- ORDER BY created_at DESC, ties in rowid order.
unfoldable pub insert_newest : DistillJob → Jobs → Jobs
insert_newest j [] = j ∷ []
insert_newest j (k ∷ ks) =
    let rest = insert_newest j ks in if leb k.created_at j.created_at then j ∷ k ∷ ks else k ∷ rest

unfoldable pub newest_first : Jobs → Jobs
unfolding insert_newest
newest_first [] = []
newest_first (j ∷ js) = insert_newest j (newest_first js)

-- An absent filter and an empty store key are the same: the source tests truth.
abbrev pub matches_filters : Option String → Option JobStatus → DistillJob → Bool
matches_filters store_key status j =
    elim store_key [ none ↦ true | some k ↦ if str_eq k "" then true else str_eq j.store_key k ]
    && elim status [ none ↦ true | some s ↦ status_eq j.status s ]

unfoldable pub list_jobs : Option String → Option JobStatus → Jobs → Jobs
unfolding newest_first
list_jobs store_key status db = newest_first (select_where (matches_filters store_key status) db)
