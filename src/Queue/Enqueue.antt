-- ===== src/Queue/Enqueue.antt =====
-- `enqueue`: a request for a store that waits already joins the waiting row.
use falda.Prelude.{
  ℕ, String, true, false, none, some, [], ◌∷◌, ◌++◌, ◌≡◌, refl, max, subst, ◌↔◌, inl, inr, Memᴰ,
  arith, if◌then◌else◌, ltb, str_eq, Bool-cases, Option-cases, update_where, select_one,
  select_one-eq-some, select_one-eq-none, count_where, count_where-append, count_where-eq-zero,
  count_where-pos, mem-append_right, mem-update_where, count_where-update_where, ◌≤◌, str_eq_refl,
}
use falda.Queue.{
  JobOrigin, DistillJob, Jobs, EnqueueOptions, has_id, upgrade, new_job, enqueue, is_pending_of,
  new_job_id, or_default, priority_passive, sweep,
}
use falda.Queue.Rows.{insert_job_lem, id_taken}

module _ (id_now now : ℕ) (store_key : String) (opts : EnqueueOptions) (db : Jobs) where
  -- What `enqueue` does when the store has no pending row.
  pub enqueue-new :
      select_one (is_pending_of store_key) db ≡ none
      → enqueue id_now now store_key opts db ≡ (
          if id_taken (new_job_id store_key id_now) db
          then none
          else some (
            db
                ++ new_job
                    (new_job_id store_key id_now)
                    store_key
                    now
                    (or_default opts.priority priority_passive)
                    (or_default opts.origin sweep)
                  ∷ [],
            new_job_id store_key id_now,
          ))
  unfolding enqueue new_job
  enqueue-new e =
      rw (e, enqueue)
        (rw
          (insert_job_lem
            (new_job (new_job_id store_key id_now) store_key now
              (or_default opts.priority priority_passive) (or_default opts.origin sweep))
            db)
          (ground arith))

  -- What it does when there is one.
  pub enqueue-coalesced :
      (x : DistillJob)
      → select_one (is_pending_of store_key) db ≡ some x
      → enqueue id_now now store_key opts db
        ≡ some (
          if ltb x.priority (or_default opts.priority priority_passive)
              then update_where
                  (has_id x.id)
                  (upgrade
                    (or_default opts.priority priority_passive)
                    (or_default opts.origin sweep)
                    now)
                  db
              else db,
          x.id,
        )
  unfolding enqueue
  enqueue-coalesced x e = rw (e, enqueue)

is_pending_of-upgrade :
    (key : String) (priority now : ℕ) (origin : JobOrigin) (x : DistillJob)
    → is_pending_of key (upgrade priority origin now x) ≡ is_pending_of key x
unfolding upgrade
is_pending_of-upgrade key priority now origin x = refl

-- What a successful call promises of the table and of the id that it returns.
pub record Queued (store_key : String) (priority : ℕ) (db db' : Jobs) (id : String) : Type 0 where
  pub one_pending :
      count_where (is_pending_of store_key) db' ≡ max 1 (count_where (is_pending_of store_key) db)
  pub others :
      (other : String)
      → str_eq store_key other ≡ false
      → count_where (is_pending_of other) db' ≡ count_where (is_pending_of other) db
  pub job : DistillJob
  pub listed : Memᴰ job db'
  pub named : job.id ≡ id
  pub waiting : is_pending_of store_key job ≡ true
  pub urgent : priority ≤ job.priority

module _ (id_now now : ℕ) (store_key : String) (opts : EnqueueOptions) (db : Jobs) where
  priority : ℕ
  priority = or_default opts.priority priority_passive

  new-Queued :
      select_one (is_pending_of store_key) db ≡ none
      → let id = new_job_id store_key id_now in
        let row = new_job id store_key now priority (or_default opts.origin sweep) in
        Queued store_key priority db (db ++ row ∷ []) id
  unfolding new_job priority
  new-Queued e =
      let id = new_job_id store_key id_now in
      let row = new_job id store_key now priority (or_default opts.origin sweep) in
      record {
        one_pending = rw (
          count_where-append (is_pending_of store_key) db (row ∷ []),
          str_eq_refl store_key,
          count_where-eq-zero (is_pending_of store_key) db (select_one-eq-none _ db e),
        );
        others = λ other ne.
            rw (count_where-append (is_pending_of other) db (row ∷ []), ne) (omega arith);
        job = row;
        listed = mem-append_right db row;
        named = refl;
        waiting = rw (str_eq_refl store_key);
        urgent = omega arith;
      }

  old-Queued :
      (x : DistillJob)
      → select_one (is_pending_of store_key) db ≡ some x
      → ltb x.priority priority ≡ false
      → Queued store_key priority db db x.id
  unfolding priority
  old-Queued x e enough =
      let (m, t) = select_one-eq-some (is_pending_of store_key) db e in
      record {
        one_pending = omega (arith, count_where-pos (is_pending_of store_key) db m t);
        others = λ other ne. refl;
        job = x;
        listed = m;
        named = refl;
        waiting = t;
        urgent = ground arith;
      }

  upgraded-Queued :
      (x : DistillJob)
      → select_one (is_pending_of store_key) db ≡ some x
      → ltb x.priority priority ≡ true
      → let f = upgrade priority (or_default opts.origin sweep) now in
        Queued store_key priority db (update_where (has_id x.id) f db) x.id
  unfolding priority upgrade
  upgraded-Queued x e more =
      let (m, t) = select_one-eq-some (is_pending_of store_key) db e in
      let f = upgrade priority (or_default opts.origin sweep) now in
      record {
        one_pending =
            rw (count_where-update_where (is_pending_of store_key) (has_id x.id) f (λ y _. refl) db)
              (omega (arith, count_where-pos (is_pending_of store_key) db m t));
        others = λ other ne.
            count_where-update_where (is_pending_of other) (has_id x.id) f (λ y _. refl) db;
        job = f x;
        listed = mem-update_where (has_id x.id) f db m (str_eq_refl x.id);
        named = refl;
        waiting = t;
        urgent = omega arith;
      }

  -- A successful call leaves exactly one pending row for the store if there was none, and as many
  -- as before otherwise; it changes no other store's count; and the id that it returns names a
  -- pending row of the store whose priority is at least the requested one.
  pub enqueue-Queued :
      (db' : Jobs) (id : String)
      → enqueue id_now now store_key opts db ≡ some (db', id)
      → Queued store_key (or_default opts.priority priority_passive) db db' id
  unfolding priority
  enqueue-Queued db' id h = elim (Option-cases (select_one (is_pending_of store_key) db)) [
    | inl e ↦ elim (Bool-cases (id_taken (new_job_id store_key id_now) db)) [
      | inl t ↦ cc (enqueue-new id_now now store_key opts db e, t)
      | inr n ↦
          subst (λ (r : Jobs × String). Queued store_key priority db r.0 r.1)
            (ground (arith, enqueue-new id_now now store_key opts db e)) (new-Queued e)
    ]
    | inr (x, e) ↦ elim (Bool-cases (ltb x.priority priority)) [
      | inl t ↦
          subst (λ (r : Jobs × String). Queued store_key priority db r.0 r.1)
            (ground (arith, enqueue-coalesced id_now now store_key opts db x e))
            (upgraded-Queued x e t)
      | inr n ↦
          subst (λ (r : Jobs × String). Queued store_key priority db r.0 r.1)
            (ground (arith, enqueue-coalesced id_now now store_key opts db x e)) (old-Queued x e n)
    ]
  ]

  -- The call throws, on the primary key, exactly when the store has no pending row and a row of
  -- any status already carries the id made of the store key and the clock's millisecond.
  pub enqueue-eq-none_iff : (enqueue id_now now store_key opts db ≡ none) ↔ (
      (select_one (is_pending_of store_key) db ≡ none)
      × (id_taken (new_job_id store_key id_now) db ≡ true))
  enqueue-eq-none_iff = (thrown, throws)
    where
      thrown :
          enqueue id_now now store_key opts db ≡ none
          → (select_one (is_pending_of store_key) db ≡ none)
            × (id_taken (new_job_id store_key id_now) db ≡ true)
      thrown h = elim (Option-cases (select_one (is_pending_of store_key) db)) [
        | inl e ↦ (e, ground (arith, enqueue-new id_now now store_key opts db e))
        | inr (x, e) ↦ ground (arith, enqueue-coalesced id_now now store_key opts db x e)
      ]

      throws :
          (select_one (is_pending_of store_key) db ≡ none)
            × (id_taken (new_job_id store_key id_now) db ≡ true)
          → enqueue id_now now store_key opts db ≡ none
      throws (e, t) = rw (enqueue-new id_now now store_key opts db e) (rw t)
