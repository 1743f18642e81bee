-- ===== src/Capture/Delivery.antt =====
-- However the plugin's events and the outcomes of `send` interleave, no message is delivered twice.
use falda.Prelude.{
  ◌+◌, ◌≤◌, String, Bool, true, false, none, some, List, [], ◌∷◌, ◌++◌, ◌≡◌, refl, ap, inl, inr,
  arith, if◌then◌else◌, str_eq, str_eq_iff, Bool-cases, count_where, count_where-append,
}
use falda.Capture.{
  Text, CaptureFlushQueue, put, record_part, set_settled_role, InFlight, begin_flush, fail_flush,
}
use falda.Capture.Flush.{begin_flush-Begun}

-- The queue, the flushes that await `send`, and the message ids that `send` has delivered.
pub record Session : Type 0 where
  pub queue : CaptureFlushQueue
  pub in_flight : List InFlight
  pub delivered : List String

-- The environment chooses which event comes next, and which `send` ends and how.
pub data Step : Session → Session → Type 0 where
  part :
      (s : Session) (id session_id : String) (text : Text)
      → Step s (record s { queue = record_part id session_id text s.queue })
  settle :
      (s : Session) (id role : String)
      → Step s (record s { queue = set_settled_role id role s.queue })
  begin :
      (s : Session) (id role : String) (q : CaptureFlushQueue) (f : InFlight)
      → begin_flush id role s.queue ≡ some (q, f)
      → Step s (record s { queue = q; in_flight = f ∷ s.in_flight })
  succeed :
      (s : Session) (before after : List InFlight) (f : InFlight)
      → s.in_flight ≡ before ++ f ∷ after
      → Step s (record s { in_flight = before ++ after; delivered = f.message_id ∷ s.delivered })
  fail :
      (s : Session) (before after : List InFlight) (f : InFlight)
      → s.in_flight ≡ before ++ f ∷ after
      → Step s (record s { queue = fail_flush f s.queue; in_flight = before ++ after })

pub data Reach (s : Session) : Session → Type 0 where
  here : Reach s s
  next : {t u : Session} → Reach s t → Step t u → Reach s u

abbrev pub is_for : String → InFlight → Bool
is_for id f = str_eq id f.message_id

-- A message is flushed exactly when one `send` of it is under way or has succeeded.
abbrev pub IsOnce : Session → Type 0
IsOnce s =
    (id : String)
    → count_where (is_for id) s.in_flight + count_where (str_eq id) s.delivered
      ≡ (if s.queue.flushed_ids id then 1 else 0)

begin-IsOnce :
    (s : Session) (id role : String) (q : CaptureFlushQueue) (f : InFlight)
    → begin_flush id role s.queue ≡ some (q, f)
    → IsOnce s
    → IsOnce (record s { queue = q; in_flight = f ∷ s.in_flight })
begin-IsOnce s id role q f e once j =
    let b = begin_flush-Begun id role s.queue q f e in
    let flushed : q.flushed_ids j ≡ put id true s.queue.flushed_ids j =
      ap (λ (m : String → Bool). m j) b.flushed_ids in
    elim (Bool-cases (str_eq j id)) [
      | inl t ↦
          let clear : s.queue.flushed_ids j ≡ false = rw ((str_eq_iff j id).0 t) b.not_flushed in
          let before = rw clear at (once j) in rw (flushed, b.named, t) (omega (arith, before))
      | inr n ↦ rw (flushed, b.named, n) (omega (arith, once j))
    ]

removed :
    (id : String) (before after : List InFlight) (f : InFlight)
    → count_where (is_for id) (before ++ f ∷ after)
      ≡ (if is_for id f then 1 else 0) + count_where (is_for id) (before ++ after)
removed id before after f = omega (
  arith,
  count_where-append (is_for id) before (f ∷ after),
  count_where-append (is_for id) before after,
)

Step-IsOnce : {s t : Session} → Step s t → IsOnce s → IsOnce t
Step-IsOnce (part s id session_id text) once j = unfold record_part in once j
Step-IsOnce (settle s id role) once j = unfold set_settled_role in once j
Step-IsOnce (begin s id role q f e) once j = begin-IsOnce s id role q f e once j
Step-IsOnce (succeed s before after f e) once j =
    let o = rw e at (once j) in omega (arith, removed j before after f)
Step-IsOnce (fail s before after f e) once j =
    let o = rw e at (once j) in
    elim (Bool-cases (str_eq j f.message_id)) [
      | inl t ↦ unfold fail_flush in rw t (ground (arith, removed j before after f))
      | inr n ↦ unfold fail_flush in rw n (ground (arith, removed j before after f))
    ]

Reach-IsOnce : {s t : Session} → IsOnce s → Reach s t → IsOnce t
Reach-IsOnce h here = h
Reach-IsOnce h (next r st) = Step-IsOnce st (Reach-IsOnce h r)

abbrev pub fresh : Session
fresh = record {
  queue = record { pending = λ id. none; settled_role = λ id. none; flushed_ids = λ id. false };
  in_flight = [];
  delivered = [];
}

-- In every session that starts fresh, each message is delivered at most once; and one that was
-- delivered has no other `send` under way and stays marked as flushed.
pub delivered_at_most_once :
    (s : Session) (id : String)
    → Reach fresh s
    → (count_where (str_eq id) s.delivered ≤ 1)
      × (1 ≤ count_where (str_eq id) s.delivered
          → (count_where (is_for id) s.in_flight ≡ 0) × (s.queue.flushed_ids id ≡ true))
delivered_at_most_once s id r = let once = Reach-IsOnce (λ j. refl) r id in ground arith
