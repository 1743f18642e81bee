-- ===== src/Worker/Sweep.antt =====
-- The sweep of `src/distill/worker.ts`: which stores it enqueues, and what it leaves in the queue.
use mathlib.Core.Bool.{false≢true}
use falda.Prelude.{
  ℕ, ◌+◌, ◌≤◌, String, Bool, true, false, ◌||◌, Option, none, some, List, [], ◌∷◌, ◌++◌, ◌≡◌, ◌⊎◌,
  refl, sym, ap, ◌∙◌, subst, inl, inr, arith, ltb, if◌then◌else◌, str_eq, str_eq_iff, All, Memᴰ,
  Bool-cases, Option-cases, count_where, select_one,
}
use falda.Queue.{
  DistillJob, Jobs, EnqueueOptions, enqueue, store_key_for, is_pending_of, new_job_id, new_job,
  or_default, priority_passive, sweep,
}
use falda.Queue.Rows.{id_taken}
use falda.Queue.Enqueue.{enqueue-Queued, enqueue-eq-none_iff, enqueue-new, enqueue-coalesced}
use falda.Distill.Watermark.{Watermark, DistillState, get_watermark, is_dirty}

-- What the gate reads of one store: the last sequence number of its stream and its tables.
pub record Reading : Type 0 where
  pub head : ℕ
  pub state : DistillState

-- A self-store on disk. `store` is `none` when it cannot be opened; `some none` when it can, but
-- reading it throws.
pub record SelfStore : Type 0 where
  pub tenant : String
  pub store : Option (Option Reading)

-- wm?.last_processed_seq ?? 0
unfoldable pub processed_seq : Option Watermark → ℕ
processed_seq none = 0
processed_seq (some w) = elim w.last_processed_seq [ none ↦ 0 | some n ↦ n ]

-- A store that cannot be read is enqueued to be on the safe side.
unfoldable pub needs_pass : String → Option Reading → Bool
needs_pass store_key none = true
needs_pass store_key (some r) =
    ltb (processed_seq (get_watermark store_key r.state)) r.head || is_dirty store_key r.state

abbrev pub passive : EnqueueOptions
passive = record { priority = none; origin = none }

-- One store of the loop, with the number of those enqueued; what throws is logged and passed over.
unfoldable pub sweep_store : ℕ → SelfStore → Jobs × ℕ → Jobs × ℕ
sweep_store now t (db, n) =
    let store_key = store_key_for t.tenant none in
    elim t.store [
      | none ↦ (db, n)
      | some reading ↦
          if needs_pass store_key reading
          then elim (enqueue now now store_key passive db) [
            | none ↦ (db, n)
            | some (db', id) ↦ (db', n + 1)
          ]
          else (db, n)
    ]

unfoldable pub enqueue_all : ℕ → List SelfStore → Jobs × ℕ → Jobs × ℕ
enqueue_all now [] s = s
enqueue_all now (t ∷ ts) s = enqueue_all now ts (sweep_store now t s)

-- Every turn is processed and nothing is marked dirty, or the store cannot be opened.
abbrev pub IsUpToDate : SelfStore → Type 0
IsUpToDate t =
    (t.store ≡ none)
    ⊎ ((r : Reading) × (t.store ≡ some (some r))
        × (ltb (processed_seq (get_watermark (store_key_for t.tenant none) r.state)) r.head ≡ false)
        × (is_dirty (store_key_for t.tenant none) r.state ≡ false))

swept-IsUpToDate :
    (now : ℕ) (t : SelfStore) (db : Jobs) (n : ℕ)
    → IsUpToDate t
    → sweep_store now t (db, n) ≡ (db, n)
unfolding sweep_store needs_pass
swept-IsUpToDate now t db n (inl e) = ground (arith, e)
swept-IsUpToDate now t db n (inr (r, e, f, g)) = ground (arith, e, f, g)

-- A sweep over stores that are up to date leaves the queue as it is and counts none.
pub enqueue_all-of-IsUpToDate :
    (now : ℕ) (ts : List SelfStore) (db : Jobs) (n : ℕ)
    → All IsUpToDate ts
    → enqueue_all now ts (db, n) ≡ (db, n)
unfolding enqueue_all
enqueue_all-of-IsUpToDate now [] db n h = refl
enqueue_all-of-IsUpToDate now (t ∷ ts) db n h =
    ap (enqueue_all now ts) (swept-IsUpToDate now t db n h.0)
    ∙ enqueue_all-of-IsUpToDate now ts db n h.1

-- A pending row of the store waits, or a job that has the id of this millisecond is there already, on
-- which `enqueue` throws.
abbrev pub IsQueued : ℕ → String → Jobs → Type 0
IsQueued now store_key db =
    (1 ≤ count_where (is_pending_of store_key) db) ⊎ (id_taken (new_job_id store_key now) db ≡ true)

-- Neither pending rows nor ids are lost.
record Grows (db db' : Jobs) : Type 0 where
  pending :
      (key : String) → count_where (is_pending_of key) db ≤ count_where (is_pending_of key) db'
  ids : (id : String) → id_taken id db ≡ true → id_taken id db' ≡ true

Grows-refl : (db : Jobs) → Grows db db
Grows-refl db = record { pending = λ key. omega arith; ids = λ id h. h }

Grows-trans : (db mid db' : Jobs) → Grows db mid → Grows mid db' → Grows db db'
Grows-trans db mid db' a b = record {
  pending = λ key. omega (arith, a.pending key, b.pending key);
  ids = λ id h. b.ids id (a.ids id h);
}

still-IsQueued :
    (now : ℕ) (key : String) (db db' : Jobs)
    → Grows db db'
    → IsQueued now key db
    → IsQueued now key db'
still-IsQueued now key db db' g (inl h) = inl (omega (arith, h, g.pending key))
still-IsQueued now key db db' g (inr h) = inr (g.ids (new_job_id key now) h)

id_taken-append :
    (id : String) (db : Jobs) (j : DistillJob)
    → id_taken id db ≡ true
    → id_taken id (db ++ j ∷ []) ≡ true
id_taken-append id [] j h = cc
id_taken-append id (k ∷ ks) j h = ground (arith, h, id_taken-append id ks j)

enqueued_passively :
    (now : ℕ) (key : String) (db db' : Jobs) (job : String)
    → enqueue now now key passive db ≡ some (db', job)
    → (db' ≡ db) ⊎ ((j : DistillJob) × (db' ≡ db ++ j ∷ []))
enqueued_passively now key db db' job h = elim (Option-cases (select_one (is_pending_of key) db)) [
  | inr (x, e) ↦ inl (ground (arith, enqueue-coalesced now now key passive db x e, h))
  | inl e ↦ elim (Bool-cases (id_taken (new_job_id key now) db)) [
    | inl t ↦ ground (arith, enqueue-new now now key passive db e, t, h)
    | inr n ↦ inr (
      new_job (new_job_id key now) key now (or_default passive.priority priority_passive)
          (or_default passive.origin sweep),
      ground (arith, enqueue-new now now key passive db e, n, h),
    )
  ]
]

enqueued-Grows :
    (now : ℕ) (key : String) (db db' : Jobs) (job : String)
    → enqueue now now key passive db ≡ some (db', job)
    → Grows db db'
enqueued-Grows now key db db' job h =
    let q = enqueue-Queued now now key passive db db' job h in
    record {
      pending = λ other. elim (Bool-cases (str_eq key other)) [
        | inl t ↦
            let same = (str_eq_iff key other).0 t in
            subst
              (λ (k : String). count_where (is_pending_of k) db ≤ count_where (is_pending_of k) db')
              same (omega (arith, q.one_pending))
        | inr n ↦ omega (arith, q.others other n)
      ];
      ids = λ id t. elim (enqueued_passively now key db db' job h) [
        | inl same ↦ rw same t
        | inr (j, e) ↦ rw e (id_taken-append id db j t)
      ];
    }

-- One store of the sweep.
swept :
    (now : ℕ) (t : SelfStore) (db : Jobs) (n : ℕ)
    → Grows db (sweep_store now t (db, n)).0
      × ((reading : Option Reading)
          → t.store ≡ some reading
          → needs_pass (store_key_for t.tenant none) reading ≡ true
          → IsQueued now (store_key_for t.tenant none) (sweep_store now t (db, n)).0)
unfolding sweep_store
swept now t db n =
    let key = store_key_for t.tenant none in
    elim (Option-cases t.store) [
      | inl e ↦ (simp (e, sweep_store) (Grows-refl db), λ reading f need. cc)
      | inr (r, e) ↦ elim (Bool-cases (needs_pass key r)) [
        | inr m ↦ (
          simp (e, m, sweep_store) (Grows-refl db),
          λ reading f need.
              let same : r ≡ reading = ground (arith, e, f) in
              absurd (false≢true (sym m ∙ ap (needs_pass key) same ∙ need)),
        )
        | inl p ↦ elim (Option-cases (enqueue now now key passive db)) [
          | inl f ↦ (
            simp (e, p, f, sweep_store) (Grows-refl db),
            λ reading g need.
                simp (e, p, f, sweep_store)
                  (inr ((enqueue-eq-none_iff now now key passive db).0 f).1),
          )
          | inr ((db', id), f) ↦ (
            simp (e, p, f, sweep_store) (enqueued-Grows now key db db' id f),
            λ reading g need.
                simp (e, p, f, sweep_store)
                  (inl
                    (omega (arith, (enqueue-Queued now now key passive db db' id f).one_pending))),
          )
        ]
      ]
    ]

swept_all :
    (now : ℕ) (ts : List SelfStore) (db : Jobs) (n : ℕ) → Grows db (enqueue_all now ts (db, n)).0
unfolding enqueue_all
swept_all now [] db n = Grows-refl db
swept_all now (t ∷ ts) db n =
    let (mid, k) = sweep_store now t (db, n) in
    Grows-trans db mid (enqueue_all now ts (mid, k)).0 (swept now t db n).0 (swept_all now ts mid k)

-- After a sweep every store that could be opened and has turns behind its watermark, is dirty, or could
-- not be read has a pending job, unless the table has a job with the id of this millisecond for it.
pub enqueue_all-IsQueued :
    (now : ℕ) (ts : List SelfStore) (db : Jobs) (n : ℕ) (t : SelfStore) (reading : Option Reading)
    → Memᴰ t ts
    → t.store ≡ some reading
    → needs_pass (store_key_for t.tenant none) reading ≡ true
    → IsQueued now (store_key_for t.tenant none) (enqueue_all now ts (db, n)).0
unfolding enqueue_all
enqueue_all-IsQueued now [] db n t reading m e p = elim m [ ]
enqueue_all-IsQueued now (u ∷ ts) db n t reading (Memᴰ.head same) e p =
    let (mid, k) = sweep_store now u (db, n) in
    let here : IsQueued now (store_key_for u.tenant none) mid =
      (swept now u db n).1 reading (rw (← same) e) (rw (← same) p) in
    still-IsQueued now (store_key_for t.tenant none) mid (enqueue_all now ts (mid, k)).0
      (swept_all now ts mid k) (rw same here)
enqueue_all-IsQueued now (u ∷ ts) db n t reading (Memᴰ.tail m) e p =
    let (mid, k) = sweep_store now u (db, n) in enqueue_all-IsQueued now ts mid k t reading m e p
