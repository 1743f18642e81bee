-- ===== src/Worker/Examples.antt =====
-- The worker on a queue of two explicit jobs: a wake that arrives during the first is served behind it.
use falda.Prelude.{String, true, false, none, some, List, [], ◌∷◌, ◌≡◌, refl, inr, count_where}
use falda.Queue.{
  store_key_for, pending, http, DistillJob, Jobs, claim_next, select_first, precedes, is_ready,
  claimed, lease_expired, complete_job, fail_job, backoff_ms, recover_stale_jobs,
}
use falda.Distill.Watermark.{get_watermark, is_dirty}
use falda.Worker.{
  timed, idle, busy, is_idle, Entry, claimed_job, finished_job, Worker, WorkerOptions, Event,
  ticked, woken, distilled, resumed, run, step, start_distiller, claim, wake_round, drain, wake,
  finish, release, continue_lane, stop,
}
use falda.Worker.Exclusive.{IsSound, run-IsSound, Served, busy_wake-Served}
use falda.Worker.Stop.{is_claim, stopped_claims_nothing, stopped_lane_ends}
use falda.Worker.Sweep.{
  SelfStore, IsUpToDate, enqueue_all, enqueue_all-of-IsUpToDate, processed_seq, needs_pass,
}

abbrev waiting : String → String → DistillJob
waiting id key = record {
  id = id;
  store_key = key;
  status = pending;
  attempts = 0;
  next_attempt_at = 1;
  error = none;
  created_at = 1;
  updated_at = 1;
  priority = 10;
  origin = http;
  lease_until = none;
  worker_id = none;
}

abbrev opts : WorkerOptions
opts = record { lease_ms = 1000; worker_id = "w" }

abbrev queue : Jobs
queue = waiting "j1" "a:self" ∷ (waiting "j2" "b:self" ∷ [])

abbrev morning : List Event
morning = ticked 5 5 ∷ (woken 6 6 ∷ (distilled 7 7 none ∷ (resumed 8 8 ∷ [])))

abbrev ids : List Entry → List String
ids [] = []
ids (claimed_job d j ∷ log) = j.id ∷ ids log
ids (finished_job j ∷ log) = "done" ∷ ids log

wake_served : ids (run opts morning (start_distiller 4 queue)).log ≡ "j2" ∷ ("done" ∷ ("j1" ∷ []))
unfolding run step start_distiller claim wake_round drain wake finish release continue_lane stop
    claim_next select_first precedes is_ready claimed lease_expired complete_job fail_job backoff_ms
    recover_stale_jobs
wake_served = refl

run-IsSound_example : IsSound (run opts morning (start_distiller 4 queue))
run-IsSound_example = run-IsSound opts 4 queue morning

-- The wake comes while the first job runs.
abbrev first_running : Worker
first_running = run opts (ticked 5 5 ∷ []) (start_distiller 4 queue)

first_is_running : (first_running.stopping ≡ false) × (is_idle first_running.lane ≡ false)
unfolding run step start_distiller claim drain claim_next select_first precedes is_ready claimed
    lease_expired recover_stale_jobs
first_is_running = (refl, refl)

busy_wake-Served_example :
    Served opts (distilled 7 7 none ∷ (resumed 8 8 ∷ [])) (step opts (woken 6 6) first_running)
busy_wake-Served_example =
    busy_wake-Served opts 6 6 first_running (distilled 7 7 none ∷ (resumed 8 8 ∷ []))
      first_is_running.0 first_is_running.1

abbrev halted : Worker
halted = record {
  stopping = true;
  lane = busy timed (waiting "j1" "a:self");
  wake_requested = true;
  db = queue;
  log = claimed_job timed (waiting "j1" "a:self") ∷ [];
}

stopped_claims_nothing_example :
    ((run opts morning halted).stopping ≡ true)
    × (count_where is_claim (run opts morning halted).log ≡ count_where is_claim halted.log)
stopped_claims_nothing_example = stopped_claims_nothing opts morning halted refl

stopped_lane_ends_example :
    (run opts (distilled 7 8 (some "timeout") ∷ (resumed 7 8 ∷ (resumed 7 8 ∷ []))) halted).lane
    ≡ idle
stopped_lane_ends_example = stopped_lane_ends opts 7 8 (some "timeout") halted refl

abbrev quiet : SelfStore
quiet = record {
  tenant = "a";
  store = some (
      some (record { head = 0; state = record { watermarks = []; core_states = []; dirty = [] } }));
}

quiet-IsUpToDate : IsUpToDate quiet
unfolding get_watermark is_dirty processed_seq
quiet-IsUpToDate = inr (_, refl, refl, refl)

quiet_not_queued : enqueue_all 9 (quiet ∷ []) (queue, 0) ≡ (queue, 0)
quiet_not_queued = enqueue_all-of-IsUpToDate 9 (quiet ∷ []) queue 0 (quiet-IsUpToDate, tt)

-- A store whose tables cannot be read.
abbrev broken : SelfStore
broken = record { tenant = "c"; store = some none }

broken_needs_pass : needs_pass (store_key_for "c" none) none ≡ true
unfolding needs_pass
broken_needs_pass = refl
