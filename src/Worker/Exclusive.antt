-- ===== src/Worker/Exclusive.antt =====
-- The lane of `src/distill/worker.ts`: one job at a time, and what becomes of a wake that comes while it
-- is busy.
use falda.Prelude.{
  ℕ, ◌≤◌, ◌<◌, String, true, false, not, ◌&&◌, ◌||◌, Option, none, some, List, [], ◌∷◌, ◌≡◌, ◌⊎◌,
  refl, ◌∙◌, subst, inl, inr, arith, ltb, All, Bool-cases, Option-cases,
}
use falda.Queue.{DistillJob, Jobs, EnqueueOptions, claim_next, enqueue, priority_explicit}
use falda.Queue.Claim.{claim_next-IsBest}
use falda.Worker.{
  Drain, timed, waking, Lane, idle, busy, at_loop_head, finishing, is_idle, Entry, claimed_job,
  finished_job, Worker, WorkerOptions, drain_options, claim, wake_round, drain, wake, finish,
  release, continue_lane, stop, enqueue_outside, Event, ticked, woken, distilled, resumed, stopped,
  enqueued, step, run, start_distiller, max_wake_drain_per_call,
}

abbrev pub in_flight : Lane → Option DistillJob
in_flight (busy drain job) = some job
in_flight _ = none

-- Read from the latest entry back: each job is finished before the next is claimed, and the one that
-- is claimed last is in flight until then.
abbrev pub Alternates : Option DistillJob → List Entry → Type 0
Alternates none [] = Unit
Alternates none (claimed_job d j ∷ log) = ⊥
Alternates none (finished_job j ∷ log) = Alternates (some j) log
Alternates (some j) [] = ⊥
Alternates (some j) (claimed_job d k ∷ log) = (j ≡ k) × Alternates none log
Alternates (some j) (finished_job k ∷ log) = ⊥

-- A wake pass claims in one of its fifty rounds, and only explicit jobs.
abbrev pub IsInBounds : Entry → Type 0
IsInBounds (claimed_job timed j) = Unit
IsInBounds (claimed_job (waking i) j) =
    (i < max_wake_drain_per_call) × (priority_explicit ≤ j.priority)
IsInBounds (finished_job j) = Unit

pub record IsSound (w : Worker) : Type 0 where
  pub latch : w.wake_requested ≡ true → (w.stopping ≡ true) ⊎ (is_idle w.lane ≡ false)
  pub alternates : Alternates (in_flight w.lane) w.log
  pub bounds : All IsInBounds w.log

abbrev IsRound : Drain → Type 0
IsRound timed = Unit
IsRound (waking i) = i < max_wake_drain_per_call

idle-in_flight : (l : Lane) → is_idle l ≡ true → in_flight l ≡ none
idle-in_flight idle t = refl
idle-in_flight (busy d j) t = cc
idle-in_flight (at_loop_head i) t = refl
idle-in_flight finishing t = refl

idle-Alternates :
    (w : Worker)
    → is_idle w.lane ≡ true
    → Alternates (in_flight w.lane) w.log
    → Alternates none w.log
idle-Alternates w t a =
    subst (λ (o : Option DistillJob). Alternates o w.log) (idle-in_flight w.lane t) a

in_lane :
    (w : Worker) (l : Lane)
    → w.lane ≡ l
    → Alternates (in_flight w.lane) w.log
    → Alternates (in_flight l) w.log
in_lane w l e a = subst (λ (k : Lane). Alternates (in_flight k) w.log) e a

module _ (opts : WorkerOptions) where
  claimed-IsInBounds :
      (now lease_now : ℕ) (d : Drain) (db : Jobs) (j : DistillJob)
      → IsRound d
      → (claim_next now lease_now (drain_options opts d) db).1 ≡ some j
      → IsInBounds (claimed_job d j)
  claimed-IsInBounds now lease_now timed db j r h = tt
  claimed-IsInBounds now lease_now (waking i) db j r h =
      let (row, (m, t, _), e) =
        claim_next-IsBest now lease_now (drain_options opts (waking i)) db j h in
      (r, ground (arith, t, e))

  claim-IsSound :
      (now lease_now : ℕ) (d : Drain) (w : Worker)
      → IsRound d
      → Alternates none w.log
      → All IsInBounds w.log
      → IsSound (claim opts now lease_now d w)
  unfolding claim
  claim-IsSound now lease_now d w r a b =
      elim (Option-cases (claim_next now lease_now (drain_options opts d) w.db).1) [
        | inl e ↦ simp (e, claim) (record { latch = λ _. inr refl; alternates = a; bounds = b })
        | inr (j, e) ↦
            simp (e, claim)
              (record {
                latch = λ _. inr refl;
                alternates = (refl, a);
                bounds = (claimed-IsInBounds now lease_now d w.db j r e, b);
              })
      ]

  wake_round-IsSound :
      (now lease_now i : ℕ) (w : Worker)
      → Alternates none w.log
      → All IsInBounds w.log
      → IsSound (wake_round opts now lease_now i w)
  unfolding wake_round
  wake_round-IsSound now lease_now i w a b = elim (Bool-cases (ltb i max_wake_drain_per_call)) [
    | inr n ↦ rw n (record { latch = λ _. inr refl; alternates = a; bounds = b })
    | inl t ↦ elim (Bool-cases w.stopping) [
      | inl s ↦ simp (t, s) (record { latch = λ _. inr refl; alternates = a; bounds = b })
      | inr m ↦ simp (t, m) (claim-IsSound now lease_now (waking i) w (ground (arith, t)) a b)
    ]
  ]

  drain-IsSound :
      (now lease_now : ℕ) (w : Worker) → IsSound w → IsSound (drain opts now lease_now w)
  unfolding drain
  drain-IsSound now lease_now w s = elim (Bool-cases (w.stopping || not (is_idle w.lane))) [
    | inl t ↦ simp t s
    | inr n ↦ simp n (
        claim-IsSound now lease_now timed w tt (idle-Alternates w (ground (arith, n)) s.alternates)
          s.bounds)
  ]

  wake-IsSound : (now lease_now : ℕ) (w : Worker) → IsSound w → IsSound (wake opts now lease_now w)
  unfolding wake
  wake-IsSound now lease_now w s = elim (Bool-cases w.stopping) [
    | inl t ↦ simp t s
    | inr n ↦ elim (Bool-cases (is_idle w.lane)) [
      | inl t ↦
          simp (n, t)
            (wake_round-IsSound now lease_now 0 w (idle-Alternates w t s.alternates) s.bounds)
      | inr m ↦
          simp (n, m) (record { latch = λ _. inr m; alternates = s.alternates; bounds = s.bounds })
    ]
  ]

  finish_at :
      (now retry_now : ℕ) (error : Option String) (w : Worker) (l : Lane)
      → w.lane ≡ l
      → IsSound w
      → IsSound (finish opts now retry_now error w)
  unfolding finish
  finish_at now retry_now error w idle e s = simp (e, finish) s
  finish_at now retry_now error w (at_loop_head i) e s = simp (e, finish) s
  finish_at now retry_now error w finishing e s = simp (e, finish) s
  finish_at now retry_now error w (busy timed job) e s =
      simp (e, finish)
        (record {
          latch = λ _. inr refl;
          alternates = in_lane w (busy timed job) e s.alternates;
          bounds = (tt, s.bounds);
        })
  finish_at now retry_now error w (busy (waking i) job) e s =
      simp (e, finish)
        (record {
          latch = λ _. inr refl;
          alternates = in_lane w (busy (waking i) job) e s.alternates;
          bounds = (tt, s.bounds);
        })

  release-IsSound :
      (now lease_now : ℕ) (w : Worker)
      → w.lane ≡ finishing
      → IsSound w
      → IsSound (release opts now lease_now w)
  unfolding release
  release-IsSound now lease_now w e s = elim (Bool-cases (w.wake_requested && not w.stopping)) [
    | inl t ↦
        simp t (wake_round-IsSound now lease_now 0 _ (in_lane w finishing e s.alternates) s.bounds)
    | inr n ↦ simp n (record {
      latch = λ r. inl (ground (arith, n, r));
      alternates = in_lane w finishing e s.alternates;
      bounds = s.bounds;
    })
  ]

  continue_at :
      (now lease_now : ℕ) (w : Worker) (l : Lane)
      → w.lane ≡ l
      → IsSound w
      → IsSound (continue_lane opts now lease_now w)
  unfolding continue_lane
  continue_at now lease_now w idle e s = simp (e, continue_lane) s
  continue_at now lease_now w (busy d j) e s = simp (e, continue_lane) s
  continue_at now lease_now w (at_loop_head i) e s =
      simp (e, continue_lane)
        (wake_round-IsSound now lease_now i w (in_lane w (at_loop_head i) e s.alternates) s.bounds)
  continue_at now lease_now w finishing e s =
      simp (e, continue_lane) (release-IsSound now lease_now w e s)

  enqueue_outside-IsSound :
      (id_now now : ℕ) (key : String) (options : EnqueueOptions) (w : Worker)
      → IsSound w
      → IsSound (enqueue_outside id_now now key options w)
  unfolding enqueue_outside
  enqueue_outside-IsSound id_now now key options w s =
      elim (Option-cases (enqueue id_now now key options w.db)) [
        | inl e ↦ simp (e, enqueue_outside) s
        | inr ((db, id), e) ↦
            simp (e, enqueue_outside)
              (record { latch = s.latch; alternates = s.alternates; bounds = s.bounds })
      ]

  step-IsSound : (e : Event) (w : Worker) → IsSound w → IsSound (step opts e w)
  unfolding step stop
  step-IsSound (ticked now lease_now) w s = drain-IsSound now lease_now w s
  step-IsSound (woken now lease_now) w s = wake-IsSound now lease_now w s
  step-IsSound (distilled now retry_now error) w s = finish_at now retry_now error w w.lane refl s
  step-IsSound (resumed now lease_now) w s = continue_at now lease_now w w.lane refl s
  step-IsSound stopped w s = record {
    latch = λ _. inl refl;
    alternates = s.alternates;
    bounds = s.bounds;
  }
  step-IsSound (enqueued id_now now key options) w s =
      enqueue_outside-IsSound id_now now key options w s

  run-IsSound_from : (es : List Event) (w : Worker) → IsSound w → IsSound (run opts es w)
  unfolding run
  run-IsSound_from [] w s = s
  run-IsSound_from (e ∷ es) w s = run-IsSound_from es (step opts e w) (step-IsSound e w s)

-- The wake pass that a latched wake is owed: the latch is taken off, and the loop starts at its head.
abbrev pub wake_pass : WorkerOptions → ℕ → ℕ → Worker → Worker
wake_pass opts now lease_now w =
    wake_round opts now lease_now 0 (record w { lane = idle; wake_requested = false })

-- What becomes of a wake that is latched in `w`, over the events that follow: the latch is still on and
-- the lane busy, the worker is told to stop, or the job in the lane has come to its end and the event
-- there starts a wake pass.
pub data Served (opts : WorkerOptions) : List Event → Worker → Type 0 where
  waits : {w : Worker} → w.wake_requested ≡ true → is_idle w.lane ≡ false → Served opts [] w
  keeps :
      {e : Event} {es : List Event} {w : Worker}
      → (step opts e w).wake_requested ≡ true
      → is_idle (step opts e w).lane ≡ false
      → Served opts es (step opts e w)
      → Served opts (e ∷ es) w
  stops :
      {e : Event} {es : List Event} {w : Worker}
      → (step opts e w).stopping ≡ true
      → Served opts (e ∷ es) w
  serves :
      (now lease_now : ℕ) {es : List Event} {w : Worker}
      → w.lane ≡ finishing
      → step opts (resumed now lease_now) w ≡ wake_pass opts now lease_now w
      → Served opts (resumed now lease_now ∷ es) w

-- A worker that is not stopping, with a latched wake behind a busy lane.
record IsOwed (w : Worker) : Type 0 where
  latched : w.wake_requested ≡ true
  is_busy : is_idle w.lane ≡ false
  runs : w.stopping ≡ false

data Next (opts : WorkerOptions) : Event → Worker → Type 0 where
  kept :
      {e : Event} {w : Worker}
      → (step opts e w).wake_requested ≡ true
      → is_idle (step opts e w).lane ≡ false
      → Next opts e w
  halts : {e : Event} {w : Worker} → (step opts e w).stopping ≡ true → Next opts e w
  passes :
      (now lease_now : ℕ) {w : Worker}
      → w.lane ≡ finishing
      → step opts (resumed now lease_now) w ≡ wake_pass opts now lease_now w
      → Next opts (resumed now lease_now) w

module _ (opts : WorkerOptions) where
  abbrev IsKept : Worker → Worker → Type 0
  IsKept w w' = (w'.wake_requested ≡ w.wake_requested) × (is_idle w'.lane ≡ false)

  claim-IsKept :
      (now lease_now : ℕ) (d : Drain) (w : Worker) → IsKept w (claim opts now lease_now d w)
  unfolding claim
  claim-IsKept now lease_now d w =
      elim (Option-cases (claim_next now lease_now (drain_options opts d) w.db).1) [
        | inl e ↦ simp (e, claim) (refl, refl)
        | inr (j, e) ↦ simp (e, claim) (refl, refl)
      ]

  wake_round-IsKept :
      (now lease_now i : ℕ) (w : Worker) → IsKept w (wake_round opts now lease_now i w)
  unfolding wake_round
  wake_round-IsKept now lease_now i w = elim (Bool-cases (ltb i max_wake_drain_per_call)) [
    | inr n ↦ rw n (refl, refl)
    | inl t ↦ elim (Bool-cases w.stopping) [
      | inl s ↦ simp (t, s) (refl, refl)
      | inr m ↦ simp (t, m) (claim-IsKept now lease_now (waking i) w)
    ]
  ]

  finish-IsKept :
      (now retry_now : ℕ) (error : Option String) (w : Worker) (l : Lane)
      → w.lane ≡ l
      → is_idle l ≡ false
      → IsKept w (finish opts now retry_now error w)
  unfolding finish
  finish-IsKept now retry_now error w idle e b = cc
  finish-IsKept now retry_now error w (at_loop_head i) e b = simp (e, finish) (refl, refl)
  finish-IsKept now retry_now error w finishing e b = simp (e, finish) (refl, refl)
  finish-IsKept now retry_now error w (busy timed job) e b = simp (e, finish) (refl, refl)
  finish-IsKept now retry_now error w (busy (waking i) job) e b = simp (e, finish) (refl, refl)

  resumed-Next :
      (now lease_now : ℕ) (w : Worker) (l : Lane)
      → w.lane ≡ l
      → IsOwed w
      → Next opts (resumed now lease_now) w
  unfolding step continue_lane release
  resumed-Next now lease_now w idle e o = let z = o.is_busy in cc
  resumed-Next now lease_now w (busy d j) e o =
      kept (simp (e, continue_lane) o.latched) (simp (e, continue_lane) refl)
  resumed-Next now lease_now w (at_loop_head i) e o =
      let k = wake_round-IsKept now lease_now i w in
      kept (simp (e, continue_lane) (k.0 ∙ o.latched)) (simp (e, continue_lane) k.1)
  resumed-Next now lease_now w finishing e o =
      let due : (w.wake_requested && not w.stopping) ≡ true = rw (o.latched, o.runs) refl in
      passes now lease_now e (simp (e, continue_lane, due) refl)

  step-Next : (e : Event) (w : Worker) → IsOwed w → Next opts e w
  unfolding step drain wake stop enqueue_outside
  step-Next (ticked now lease_now) w o =
      let same : (w.stopping || not (is_idle w.lane)) ≡ true = rw (o.runs, o.is_busy) refl in
      kept (simp (same) o.latched) (simp (same) o.is_busy)
  step-Next (woken now lease_now) w o =
      kept (simp (o.runs, o.is_busy) refl) (simp (o.runs, o.is_busy) refl)
  step-Next (distilled now retry_now error) w o =
      let k = finish-IsKept now retry_now error w w.lane refl o.is_busy in
      kept (k.0 ∙ o.latched) k.1
  step-Next (resumed now lease_now) w o = resumed-Next now lease_now w w.lane refl o
  step-Next stopped w o = halts refl
  step-Next (enqueued id_now now key options) w o =
      elim (Option-cases (enqueue id_now now key options w.db)) [
        | inl e ↦ kept (simp (e, enqueue_outside) o.latched) (simp (e, enqueue_outside) o.is_busy)
        | inr ((db, id), e) ↦
            kept (simp (e, enqueue_outside) o.latched) (simp (e, enqueue_outside) o.is_busy)
      ]

  Next-Served :
      {e : Event} {w : Worker} (es : List Event)
      → ((v : Worker) → IsOwed v → Served opts es v)
      → Next opts e w
      → Served opts (e ∷ es) w
  Next-Served es rest (halts s) = stops s
  Next-Served es rest (passes now lease_now l p) = serves now lease_now l p
  Next-Served es rest (kept {e} {w} l b) = elim (Bool-cases (step opts e w).stopping) [
    | inl s ↦ stops s
    | inr n ↦ keeps l b (rest (step opts e w) (record { latched = l; is_busy = b; runs = n }))
  ]

  owed-Served : (es : List Event) (w : Worker) → IsOwed w → Served opts es w
  owed-Served [] w o = waits o.latched o.is_busy
  owed-Served (e ∷ es) w o = Next-Served es (owed-Served es) (step-Next e w o)

-- In whatever order ticks, wakes, ends of distillations, resumptions, enqueues and a stop arrive: each
-- job is finished before the next one is claimed, a wake that is latched finds the lane busy unless
-- the worker is stopping, and a wake pass claims only explicit jobs, in at most fifty rounds.
pub run-IsSound :
    (opts : WorkerOptions) (now : ℕ) (db : Jobs) (es : List Event)
    → IsSound (run opts es (start_distiller now db))
unfolding start_distiller
run-IsSound opts now db es =
    run-IsSound_from opts es (start_distiller now db)
      (record { latch = λ h. cc; alternates = tt; bounds = tt })

-- A wake that comes while the lane is busy, to a worker that is not stopping, is not lost. Over any
-- events that follow, its latch stays on and the lane busy, until the worker is told to stop or the
-- event at the end of the lane starts a new wake pass, from the head of its loop.
pub busy_wake-Served :
    (opts : WorkerOptions) (now lease_now : ℕ) (w : Worker) (later : List Event)
    → w.stopping ≡ false
    → is_idle w.lane ≡ false
    → Served opts later (step opts (woken now lease_now) w)
unfolding step wake
busy_wake-Served opts now lease_now w later runs busy_lane =
    owed-Served opts later (wake opts now lease_now w) (record {
      latched = simp (runs, busy_lane) refl;
      is_busy = simp (runs, busy_lane) refl;
      runs = simp (runs, busy_lane) refl;
    })
