-- ===== src/Worker/Stop.antt =====
-- A worker that is stopping claims nothing, and its lane becomes free.
use falda.Prelude.{
  ℕ, suc, String, Bool, true, false, Option, List, [], ◌∷◌, ◌≡◌, refl, ◌∙◌, inl, inr, arith,
  Option-cases, count_where,
}
use falda.Queue.{EnqueueOptions, enqueue}
use falda.Worker.{
  timed, waking, Lane, idle, busy, at_loop_head, finishing, Entry, claimed_job, finished_job,
  Worker, WorkerOptions, wake_round, drain, wake, finish, release, continue_lane, stop,
  enqueue_outside, Event, ticked, woken, distilled, resumed, stopped, enqueued, step, run,
}

abbrev pub is_claim : Entry → Bool
is_claim (claimed_job d j) = true
is_claim (finished_job j) = false

-- Still stopping, with no claim more.
abbrev Rests : Worker → Worker → Type 0
Rests w w' = (w'.stopping ≡ true) × (count_where is_claim w'.log ≡ count_where is_claim w.log)

module _ (opts : WorkerOptions) where
  stopped_round :
      (now lease_now i : ℕ) (w : Worker)
      → w.stopping ≡ true
      → wake_round opts now lease_now i w ≡ record w { lane = finishing }
  unfolding wake_round
  stopped_round now lease_now i w s = ground (arith, s)

  stopped_release :
      (now lease_now : ℕ) (w : Worker)
      → w.stopping ≡ true
      → release opts now lease_now w ≡ record w { lane = idle }
  unfolding release
  stopped_release now lease_now w s = ground (arith, s)

  finish-Rests :
      (now retry_now : ℕ) (error : Option String) (w : Worker) (l : Lane)
      → w.lane ≡ l
      → w.stopping ≡ true
      → Rests w (finish opts now retry_now error w)
  unfolding finish
  finish-Rests now retry_now error w idle e s = simp (e, finish) (s, refl)
  finish-Rests now retry_now error w (at_loop_head i) e s = simp (e, finish) (s, refl)
  finish-Rests now retry_now error w finishing e s = simp (e, finish) (s, refl)
  finish-Rests now retry_now error w (busy d job) e s = simp (e, finish) (s, omega arith)

  continue-Rests :
      (now lease_now : ℕ) (w : Worker) (l : Lane)
      → w.lane ≡ l
      → w.stopping ≡ true
      → Rests w (continue_lane opts now lease_now w)
  unfolding continue_lane
  continue-Rests now lease_now w idle e s = simp (e, continue_lane) (s, refl)
  continue-Rests now lease_now w (busy d j) e s = simp (e, continue_lane) (s, refl)
  continue-Rests now lease_now w (at_loop_head i) e s =
      simp (e, continue_lane, stopped_round now lease_now i w s) (s, refl)
  continue-Rests now lease_now w finishing e s =
      simp (e, continue_lane, stopped_release now lease_now w s) (s, refl)

  outside-Rests :
      (id_now now : ℕ) (key : String) (options : EnqueueOptions) (w : Worker)
      → w.stopping ≡ true
      → Rests w (enqueue_outside id_now now key options w)
  unfolding enqueue_outside
  outside-Rests id_now now key options w s =
      elim (Option-cases (enqueue id_now now key options w.db)) [
        | inl e ↦ simp (e, enqueue_outside) (s, refl)
        | inr (r, e) ↦ simp (e, enqueue_outside) (s, refl)
      ]

  step-Rests : (e : Event) (w : Worker) → w.stopping ≡ true → Rests w (step opts e w)
  unfolding step stop drain wake
  step-Rests (ticked now lease_now) w s = simp s (refl, refl)
  step-Rests (woken now lease_now) w s = simp s (refl, refl)
  step-Rests (distilled now retry_now error) w s = finish-Rests now retry_now error w w.lane refl s
  step-Rests (resumed now lease_now) w s = continue-Rests now lease_now w w.lane refl s
  step-Rests stopped w s = (refl, refl)
  step-Rests (enqueued id_now now key options) w s = outside-Rests id_now now key options w s

-- After `stop` no event makes the worker claim a job.
pub stopped_claims_nothing :
    (opts : WorkerOptions) (es : List Event) (w : Worker)
    → w.stopping ≡ true
    → ((run opts es w).stopping ≡ true)
      × (count_where is_claim (run opts es w).log ≡ count_where is_claim w.log)
unfolding run
stopped_claims_nothing opts [] w s = (s, refl)
stopped_claims_nothing opts (e ∷ es) w s =
    let (still, same) = step-Rests opts e w s in
    let (last, rest) = stopped_claims_nothing opts es (step opts e w) still in (last, rest ∙ same)

abbrev lane_behind : Lane → Lane
lane_behind (busy timed j) = finishing
lane_behind (busy (waking i) j) = at_loop_head (suc i)
lane_behind l = l

abbrev next_lane : Lane → Lane
next_lane (at_loop_head i) = finishing
next_lane finishing = idle
next_lane l = l

module _ (opts : WorkerOptions) where
  lane-finish :
      (now retry_now : ℕ) (error : Option String) (w : Worker) (l : Lane)
      → w.lane ≡ l
      → (finish opts now retry_now error w).lane ≡ lane_behind l
  unfolding finish
  lane-finish now retry_now error w idle e = simp (e, finish) refl
  lane-finish now retry_now error w (at_loop_head i) e = simp (e, finish) refl
  lane-finish now retry_now error w finishing e = simp (e, finish) refl
  lane-finish now retry_now error w (busy timed job) e = simp (e, finish) refl
  lane-finish now retry_now error w (busy (waking i) job) e = simp (e, finish) refl

  lane-continue_lane :
      (now lease_now : ℕ) (w : Worker) (l : Lane)
      → w.lane ≡ l
      → w.stopping ≡ true
      → (continue_lane opts now lease_now w).lane ≡ next_lane l
  unfolding continue_lane
  lane-continue_lane now lease_now w idle e s = simp (e, continue_lane) refl
  lane-continue_lane now lease_now w (busy d j) e s = simp (e, continue_lane) refl
  lane-continue_lane now lease_now w (at_loop_head i) e s =
      simp (e, continue_lane, stopped_round opts now lease_now i w s)
  lane-continue_lane now lease_now w finishing e s =
      simp (e, continue_lane, stopped_release opts now lease_now w s)

ends_idle : (l : Lane) → next_lane (next_lane (lane_behind l)) ≡ idle
ends_idle idle = refl
ends_idle (busy timed j) = refl
ends_idle (busy (waking i) j) = refl
ends_idle (at_loop_head i) = refl
ends_idle finishing = refl

-- When a stopping worker's job has ended, with or without an error, and the lane has had its turn
-- twice, the lane is free.
pub stopped_lane_ends :
    (opts : WorkerOptions) (now retry_now : ℕ) (error : Option String) (w : Worker)
    → w.stopping ≡ true
    → (run opts
        (distilled now retry_now error ∷ (resumed now retry_now ∷ (resumed now retry_now ∷ [])))
        w).lane
      ≡ idle
unfolding run step
stopped_lane_ends opts now retry_now error w s =
    let w1 = finish opts now retry_now error w in
    let w2 = continue_lane opts now retry_now w1 in
    let s1 = (step-Rests opts (distilled now retry_now error) w s).0 in
    let s2 = (step-Rests opts (resumed now retry_now) w1 s1).0 in
    let a = lane-finish opts now retry_now error w w.lane refl in
    let b = lane-continue_lane opts now retry_now w1 (lane_behind w.lane) a s1 in
    lane-continue_lane opts now retry_now w2 (next_lane (lane_behind w.lane)) b s2
    ∙ ends_idle w.lane
