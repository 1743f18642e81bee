-- ===== src/Queue/Claim.antt =====
-- `claim_next`: which row it hands out, and that a lease keeps others away from it.
use falda.Prelude.{
  ℕ, ◌+◌, ◌≤◌, String, Bool, true, false, Option, none, some, List, [], ◌∷◌, ◌≡◌, ◌≢◌, ◌↔◌, refl,
  inl, inr, Memᴰ, arith, str_eq, str_eq_iff, Bool-cases, Option-cases, All, All-mem, All-imp, subst,
  update_where,
}
use falda.Queue.{
  running, DistillJob, Jobs, ClaimOptions, has_id, is_ready, is_claimable, precedes, select_first,
  claimed, claim_next, or_default, default_lease_ms, lease_expired,
}

precedes_irrefl : (a : DistillJob) → precedes a a ≡ false
unfolding precedes
precedes_irrefl a = ground arith

precedes_asymm : (a b : DistillJob) → precedes a b ≡ true → precedes b a ≡ false
unfolding precedes
precedes_asymm a b h = ground arith

not-precedes_trans :
    (a b c : DistillJob) → precedes a b ≡ false → precedes b c ≡ false → precedes a c ≡ false
unfolding precedes
not-precedes_trans a b c h k = ground arith

-- No row that passes the test comes before `k`.
abbrev IsFirst : (DistillJob → Bool) → DistillJob → Jobs → Type 0
IsFirst p k = All (λ j. p j ≡ true → precedes j k ≡ false)

pub select_first-eq-none :
    (p : DistillJob → Bool) (db : Jobs) → select_first p db ≡ none → All (λ j. p j ≡ false) db
unfolding select_first
select_first-eq-none p [] h = tt
select_first-eq-none p (j ∷ js) h = elim (Bool-cases (p j)) [
  | inl t ↦ ground arith
  | inr n ↦ (n, select_first-eq-none p js (rw n at h))
]

none_of_All :
    (p : DistillJob → Bool) (db : Jobs) → All (λ j. p j ≡ false) db → select_first p db ≡ none
unfolding select_first
none_of_All p [] h = refl
none_of_All p (j ∷ js) h = rw h.0 (none_of_All p js h.1)

vacuous :
    (p : DistillJob → Bool) (k : DistillJob) (db : Jobs)
    → All (λ j. p j ≡ false) db
    → IsFirst p k db
vacuous p k db = All-imp _ _ (λ j n t. cc) db

-- The row is in the table, passes the test, and no row that passes comes before it.
abbrev IsUnpreceded : (DistillJob → Bool) → Jobs → DistillJob → Type 0
IsUnpreceded p db k = Memᴰ k db × (p k ≡ true) × IsFirst p k db

select_first-eq-some :
    (p : DistillJob → Bool) (db : Jobs) (k : DistillJob)
    → select_first p db ≡ some k
    → IsUnpreceded p db k
unfolding select_first
select_first-eq-some p [] k h = cc
select_first-eq-some p (j ∷ js) k h = elim (Bool-cases (p j)) [
  | inr n ↦
      let (m, t, first) = select_first-eq-some p js k (rw n at h) in
      (Memᴰ.tail m, t, ((λ u. cc), first))
  | inl t ↦ elim (Option-cases (select_first p js)) [
    | inl e ↦ subst (IsUnpreceded p (j ∷ js)) (ground arith) (
      Memᴰ.head refl,
      t,
      ((λ _. precedes_irrefl j), vacuous p j js (select_first-eq-none p js e)),
    )
    | inr (b, e) ↦
        let (m, u, first) = select_first-eq-some p js b e in
        elim (Bool-cases (precedes b j)) [
          | inl better ↦
              subst (IsUnpreceded p (j ∷ js)) (ground arith)
                (Memᴰ.tail m, u, ((λ _. precedes_asymm b j better), first))
          | inr worse ↦ subst (IsUnpreceded p (j ∷ js)) (ground arith) (
            Memᴰ.head refl,
            t,
            (
              (λ _. precedes_irrefl j),
              All-imp (λ i. p i ≡ true → precedes i b ≡ false)
                  (λ i. p i ≡ true → precedes i j ≡ false)
                  (λ i f v. not-precedes_trans i b j (f v) worse) js first,
            ),
          )
        ]
  ]
]

-- The row is in the table and passes the test; no row that passes has a higher priority, and none of
-- the same priority is due earlier.
abbrev pub IsBest : (DistillJob → Bool) → Jobs → DistillJob → Type 0
IsBest p db k =
    Memᴰ k db
    × (p k ≡ true)
    × All
        (λ j.
          p j ≡ true
          → (j.priority ≤ k.priority)
            × (j.priority ≡ k.priority → k.next_attempt_at ≤ j.next_attempt_at))
        db

not-precedes_order :
    (j k : DistillJob)
    → precedes j k ≡ false
    → (j.priority ≤ k.priority) × (j.priority ≡ k.priority → k.next_attempt_at ≤ j.next_attempt_at)
unfolding precedes
not-precedes_order j k h = (ground arith, λ e. ground arith)

select_first-IsBest :
    (p : DistillJob → Bool) (db : Jobs) (k : DistillJob)
    → select_first p db ≡ some k
    → IsBest p db k
select_first-IsBest p db k h =
    let (m, t, first) = select_first-eq-some p db k h in
    (
      m,
      t,
      All-imp (λ j. p j ≡ true → precedes j k ≡ false) _ (λ j f u. not-precedes_order j k (f u)) db
          first,
    )

module _ (now lease_now : ℕ) (opts : ClaimOptions) (db : Jobs) where
  lease_until : ℕ
  lease_until = lease_now + or_default opts.lease_ms default_lease_ms

  -- The row that is handed out, with the claim's fields.
  abbrev pub handed_out : DistillJob → DistillJob
  handed_out row = record row {
    status = running;
    attempts = row.attempts + 1;
    lease_until = some (lease_now + or_default opts.lease_ms default_lease_ms);
    worker_id = opts.worker_id;
  }

  claim_next-of-some :
      (row : DistillJob)
      → select_first (is_claimable now opts.min_priority) db ≡ some row
      → claim_next now lease_now opts db ≡ (
        update_where (has_id row.id) (claimed now lease_until opts.worker_id) db,
        some (handed_out row),
      )
  unfolding claim_next lease_until
  claim_next-of-some row e = rw (e, claim_next)

  claim_next-of-none :
      select_first (is_claimable now opts.min_priority) db ≡ none
      → claim_next now lease_now opts db ≡ (db, none)
  unfolding claim_next
  claim_next-of-none e = rw (e, claim_next)

  -- The job handed out is a row that is ready and meets the priority floor. No such row has a higher
  -- priority, and none of the same priority is due earlier. The job is that row, running under a new
  -- lease with one more attempt counted.
  pub claim_next-IsBest :
      (job : DistillJob)
      → (claim_next now lease_now opts db).1 ≡ some job
      → (row : DistillJob) × IsBest (is_claimable now opts.min_priority) db row
        × (job ≡ handed_out row)
  claim_next-IsBest job h =
      elim (Option-cases (select_first (is_claimable now opts.min_priority) db)) [
        | inl e ↦ cc (claim_next-of-none e)
        | inr (row, e) ↦ (
          row,
          select_first-IsBest (is_claimable now opts.min_priority) db row e,
          ground (arith, claim_next-of-some row e),
        )
      ]

  -- Nothing is handed out exactly when no row is claimable, and then the table stays as it is.
  pub claim_next-eq-none_iff :
      (claim_next now lease_now opts db ≡ (db, none))
      ↔ All (λ j. is_claimable now opts.min_priority j ≡ false) db
  claim_next-eq-none_iff =
      (idle, λ h. claim_next-of-none (none_of_All (is_claimable now opts.min_priority) db h))
    where
      idle :
          claim_next now lease_now opts db ≡ (db, none)
          → All (λ j. is_claimable now opts.min_priority j ≡ false) db
      idle h = elim (Option-cases (select_first (is_claimable now opts.min_priority) db)) [
        | inl e ↦ select_first-eq-none (is_claimable now opts.min_priority) db e
        | inr (row, e) ↦ ground (arith, claim_next-of-some row e)
      ]

-- Every row with the id runs under a lease until `t`.
abbrev IsHeld : String → ℕ → Jobs → Type 0
IsHeld id t = All (λ x. has_id id x ≡ true → (x.status ≡ running) × (x.lease_until ≡ some t))

claimed-IsHeld :
    (id : String) (now t : ℕ) (worker : Option String) (db : Jobs)
    → IsHeld id t (update_where (has_id id) (claimed now t worker) db)
unfolding claimed
claimed-IsHeld id now t worker [] = tt
claimed-IsHeld id now t worker (x ∷ xs) = (
  elim (Bool-cases (has_id id x)) [ inl y ↦ simp y (λ _. (refl, refl)) | inr n ↦ rw n (λ y. cc) ],
  claimed-IsHeld id now t worker xs,
)

held-not_claimable :
    (now t : ℕ) (floor : Option ℕ) (x : DistillJob)
    → now ≤ t
    → x.status ≡ running
    → x.lease_until ≡ some t
    → is_claimable now floor x ≡ false
unfolding is_ready lease_expired
held-not_claimable now t floor x h r l = rw (r, l) (ground arith)

-- A claim of another row leaves a held row as it is.
other-IsHeld :
    (id other : String) (now t end : ℕ) (worker : Option String) (db : Jobs)
    → str_eq other id ≡ false
    → IsHeld id t db
    → IsHeld id t (update_where (has_id other) (claimed now end worker) db)
unfolding claimed
other-IsHeld id other now t end worker [] n h = tt
other-IsHeld id other now t end worker (x ∷ xs) n h = (
  elim (Bool-cases (has_id other x)) [
    | inr f ↦ rw f h.0
    | inl y ↦ let miss : has_id id x ≡ false = rw ((str_eq_iff x.id other).0 y) n in rw y (λ z. cc)
  ],
  other-IsHeld id other now t end worker xs n h.1,
)

-- The row that a claim picks before `t` is not a held one.
picked_other :
    (id : String) (now t : ℕ) (floor : Option ℕ) (db : Jobs) (row : DistillJob)
    → IsHeld id t db
    → now ≤ t
    → select_first (is_claimable now floor) db ≡ some row
    → str_eq row.id id ≡ false
picked_other id now t floor db row held early e = elim (Bool-cases (str_eq row.id id)) [
  | inr n ↦ n
  | inl y ↦
      let (m, ready, _) = select_first-eq-some (is_claimable now floor) db row e in
      let (r, l) =
        All-mem (λ x. has_id id x ≡ true → (x.status ≡ running) × (x.lease_until ≡ some t)) held m
          y in
      cc (held-not_claimable now t floor row early r l)
]

pub record ClaimCall : Type 0 where
  pub now : ℕ
  pub lease_now : ℕ
  pub opts : ClaimOptions

-- What a row of claims hands out, one claim after the other.
abbrev pub hands_out : Option DistillJob → List DistillJob → List DistillJob
hands_out none jobs = jobs
hands_out (some j) jobs = j ∷ jobs

unfoldable pub claim_all : List ClaimCall → Jobs → List DistillJob
claim_all [] db = []
claim_all (c ∷ cs) db =
    let r = claim_next c.now c.lease_now c.opts db in hands_out r.1 (claim_all cs r.0)

held-claim_all :
    (id : String) (t : ℕ) (calls : List ClaimCall) (db : Jobs)
    → IsHeld id t db
    → All (λ (c : ClaimCall). c.now ≤ t) calls
    → All (λ (j : DistillJob). j.id ≢ id) (claim_all calls db)
unfolding claim_all
held-claim_all id t [] db held early = tt
held-claim_all id t (c ∷ cs) db held early =
    elim (Option-cases (select_first (is_claimable c.now c.opts.min_priority) db)) [
      | inl e ↦
          rw (claim_next-of-none c.now c.lease_now c.opts db e)
            (held-claim_all id t cs db held early.1)
      | inr (row, e) ↦
          let n = picked_other id c.now t c.opts.min_priority db row held early.0 e in
          rw (claim_next-of-some c.now c.lease_now c.opts db row e) (
            (λ same. let y = (str_eq_iff row.id id).1 same in cc),
            held-claim_all id t cs _ (other-IsHeld id row.id c.now t _ c.opts.worker_id db n held)
                early.1,
          )
    ]

-- A claim has handed out a job. Of any number of claims that follow one another on the table, each
-- made before the lease of that job ends, none hands out the job again, whatever their priority floors
-- and their own leases are.
pub claim_exclusive :
    (now lease_now : ℕ) (opts : ClaimOptions) (db : Jobs) (job : DistillJob)
    (calls : List ClaimCall)
    → (claim_next now lease_now opts db).1 ≡ some job
    → All (λ (c : ClaimCall). c.now ≤ lease_now + or_default opts.lease_ms default_lease_ms) calls
    → All (λ (j : DistillJob). j.id ≢ job.id) (claim_all calls (claim_next now lease_now opts db).0)
unfolding lease_until
claim_exclusive now lease_now opts db job calls h early =
    elim (Option-cases (select_first (is_claimable now opts.min_priority) db)) [
      | inl e ↦ cc (claim_next-of-none now lease_now opts db e)
      | inr (row, e) ↦
          let t = lease_now + or_default opts.lease_ms default_lease_ms in
          let after = (claim_next now lease_now opts db).0 in
          let held : IsHeld row.id t after =
            subst (IsHeld row.id t) (ground (arith, claim_next-of-some now lease_now opts db row e))
              (claimed-IsHeld row.id now t opts.worker_id db) in
          let named : row.id ≡ job.id =
            ground (arith, claim_next-of-some now lease_now opts db row e) in
          held-claim_all job.id t calls after (subst (λ i. IsHeld i t after) named held) early
    ]
