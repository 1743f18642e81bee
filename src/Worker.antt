-- ===== src/Worker.antt =====
-- The distillation worker, `startDistiller` in `src/distill/worker.ts`: timed drains, wake passes and
-- the exclusive lane that they share. What happens between two awaits is one step; a run is a list of
-- events in the order in which the event loop delivers them.
pub mod Exclusive
pub mod Stop
pub mod Sweep
mod Examples
use falda.Prelude.{
  ℕ, zero, suc, ◌+◌, String, Bool, true, false, not, ◌&&◌, ◌||◌, Option, none, some, List, [], ◌∷◌,
  ltb, if◌then◌else◌,
}
use falda.Queue.{
  DistillJob, Jobs, ClaimOptions, EnqueueOptions, claim_next, complete_job, fail_job, enqueue,
  priority_explicit, recover_stale_jobs,
}

abbrev pub max_wake_drain_per_call : ℕ
max_wake_drain_per_call = 50

-- Whose job it is that runs: a timed drain's, or that of a wake pass in its `i`-th round.
pub data Drain : Type 0 where
  timed : Drain
  waking : ℕ → Drain

-- What the promise in `inFlight` is waiting for: a job's distillation, the loop head of a wake pass
-- behind a job, or the `finally` block. `idle` is null.
pub data Lane : Type 0 where
  idle : Lane
  busy : Drain → DistillJob → Lane
  at_loop_head : ℕ → Lane
  finishing : Lane

abbrev pub is_idle : Lane → Bool
is_idle idle = true
is_idle _ = false

-- What the worker has done with jobs, the latest first.
pub data Entry : Type 0 where
  claimed_job : Drain → DistillJob → Entry
  finished_job : DistillJob → Entry

pub record Worker : Type 0 where
  pub stopping : Bool
  pub lane : Lane
  pub wake_requested : Bool
  pub db : Jobs
  pub log : List Entry

pub record WorkerOptions : Type 0 where
  pub lease_ms : ℕ
  pub worker_id : String

abbrev pub drain_options : WorkerOptions → Drain → ClaimOptions
drain_options opts timed = record {
  min_priority = none;
  lease_ms = some opts.lease_ms;
  worker_id = some opts.worker_id;
}
drain_options opts (waking i) = record {
  min_priority = some priority_explicit;
  lease_ms = some opts.lease_ms;
  worker_id = some opts.worker_id;
}

-- Jobs that a crash has left running are recovered before anything else.
unfoldable pub start_distiller : ℕ → Jobs → Worker
start_distiller now db = record {
  stopping = false;
  lane = idle;
  wake_requested = false;
  db = (recover_stale_jobs now db).0;
  log = [];
}

unfoldable pub stop : Worker → Worker
stop w = record w { stopping = true }

-- Another part of the program enqueues; a call that throws writes nothing.
unfoldable pub enqueue_outside : ℕ → ℕ → String → EnqueueOptions → Worker → Worker
enqueue_outside id_now now key options w = elim (enqueue id_now now key options w.db) [
  | none ↦ w
  | some (db, id) ↦ record w { db = db }
]

pub data Event : Type 0 where
  ticked : ℕ → ℕ → Event
  woken : ℕ → ℕ → Event
  distilled : ℕ → ℕ → Option String → Event
  resumed : ℕ → ℕ → Event
  stopped : Event
  enqueued : ℕ → ℕ → String → EnqueueOptions → Event

module _ (opts : WorkerOptions) where
  -- A claim: with a job the lane waits for its distillation, without one it is at its end.
  unfoldable pub claim : ℕ → ℕ → Drain → Worker → Worker
  claim now lease_now drain w =
      let (db, job) = claim_next now lease_now (drain_options opts drain) w.db in
      elim job [
        | none ↦ record w { db = db; lane = finishing }
        | some j ↦ record w { db = db; lane = busy drain j; log = claimed_job drain j ∷ w.log }
      ]

  -- The head of the loop in `runWakePass`.
  unfoldable pub wake_round : ℕ → ℕ → ℕ → Worker → Worker
  wake_round now lease_now i w =
      if ltb i max_wake_drain_per_call
      then if w.stopping then record w { lane = finishing } else claim now lease_now (waking i) w
      else record w { lane = finishing }

  -- The interval's callback.
  unfoldable pub drain : ℕ → ℕ → Worker → Worker
  drain now lease_now w =
      if w.stopping || not (is_idle w.lane) then w else claim now lease_now timed w

  unfoldable pub wake : ℕ → ℕ → Worker → Worker
  wake now lease_now w =
      if w.stopping
      then w
      else if is_idle w.lane
      then wake_round now lease_now 0 w
      else record w { wake_requested = true }

  -- The end of `runJob`: `error` is what the distillation has thrown, if it has.
  unfoldable pub finish : ℕ → ℕ → Option String → Worker → Worker
  finish now retry_now error w = elim w.lane [
    | busy drain job ↦ record w {
      db = elim error [
        | none ↦ complete_job now job.id w.db
        | some e ↦ fail_job now retry_now job.id e w.db
      ];
      lane = elim drain [ timed ↦ finishing | waking i ↦ at_loop_head (suc i) ];
      log = finished_job job ∷ w.log;
    }
    | _ ↦ w
  ]

  -- The `finally` block.
  unfoldable pub release : ℕ → ℕ → Worker → Worker
  release now lease_now w =
      if w.wake_requested && not w.stopping
      then wake_round now lease_now 0 (record w { lane = idle; wake_requested = false })
      else record w { lane = idle }

  -- What runs when a wait that is over gets its turn.
  unfoldable pub continue_lane : ℕ → ℕ → Worker → Worker
  continue_lane now lease_now w = elim w.lane [
    | at_loop_head i ↦ wake_round now lease_now i w
    | finishing ↦ release now lease_now w
    | _ ↦ w
  ]

  unfoldable pub step : Event → Worker → Worker
  step (ticked now lease_now) w = drain now lease_now w
  step (woken now lease_now) w = wake now lease_now w
  step (distilled now retry_now error) w = finish now retry_now error w
  step (resumed now lease_now) w = continue_lane now lease_now w
  step stopped w = stop w
  step (enqueued id_now now key options) w = enqueue_outside id_now now key options w

  unfoldable pub run : List Event → Worker → Worker
  run [] w = w
  run (e ∷ es) w = run es (step e w)
