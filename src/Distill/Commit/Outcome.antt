-- ===== src/Distill/Commit/Outcome.antt =====
-- The transaction as a whole: which atoms are active when it has committed, and its watermark.
use falda.Prelude.{
  ℕ, String, Bool, true, false, not, ◌||◌, Option, none, some, List, [], ◌∷◌, ◌++◌, ◌≡◌, refl, ap,
  ◌∙◌, subst, arith, inl, inr, if◌then◌else◌, All, Bool-cases, Option-cases, List-cases,
}
use falda.Distill.Decision.{Action, store, update, merge, skip, contains}
use falda.Distill.Watermark.{Watermark, get_watermark, set_watermark, select_one-upsert}
use falda.Distill.Plan.{consumed_by_decision}
use falda.Distill.Store.{Atom, StoreDb, is_active_status, get_atom}
use falda.Distill.Commit.{
  L1WriteOp, Pass, Tx, Counts, LastTurn, is_active, prepare, prepared_ids, revalidate, ensure_atoms,
  losers_of, apply_op, apply_skip, apply_ops, advance, begin_tx, commit_l1, decision_row,
}
use falda.Distill.Commit.Ensure.{ensured_all}
use falda.Distill.Commit.Ops.{
  Applied, op_losers, store_applied, update_applied, merge_applied, recorded,
}
use falda.Distill.Commit.Prepared.{IsPrepared, All-IsPrepared}

abbrev pub all_losers : List L1WriteOp → List String
all_losers [] = []
all_losers (op ∷ ops) = op_losers op ++ all_losers ops

pub op_applied_of :
    (action : Action) (pass : Pass) (prepared : List String) (op : L1WriteOp) (tx tx' : Tx)
    → op.action ≡ action
    → IsPrepared prepared op
    → apply_op pass prepared op tx ≡ some tx'
    → Applied (op_losers op) tx.db tx'.db
unfolding apply_op consumed_by_decision losers_of apply_skip
op_applied_of store pass prepared op tx tx' e p h =
    rw e (store_applied pass prepared op tx tx' (p (rw e)) (ground (arith, e, h)))
op_applied_of update pass prepared op tx tx' e p h = elim (List-cases op.target_ids) [
  | inl f ↦ ground (arith, e, f, h)
  | inr (old_id, ids, f) ↦
      rw (e, f)
        (update_applied pass prepared op tx tx' old_id (p (rw e)) (ground (arith, e, f, h))).1
]
op_applied_of merge pass prepared op tx tx' e p h =
    rw e (merge_applied pass prepared op tx tx' (p (rw e)) (ground (arith, e, h))).1
op_applied_of skip pass prepared op tx tx' e p h =
    let same : apply_skip pass op tx ≡ tx' = ground (arith, e, h) in
    rw e (
      subst (λ (t : Tx). Applied [] tx.db t.db) same
        (recorded (decision_row pass op none none) tx.db))

pub contains-append :
    (i : String) (xs ys : List String) → contains i (xs ++ ys) ≡ (contains i xs || contains i ys)
contains-append i [] ys = refl
contains-append i (x ∷ xs) ys = ground (arith, contains-append i xs ys)

applied_twice :
    (xs ys : List String) (db mid db' : StoreDb)
    → Applied xs db mid
    → Applied ys mid db'
    → Applied (xs ++ ys) db db'
applied_twice xs ys db mid db' a b = record {
  status = λ i. ground (arith, contains-append i xs ys, a.status i, b.status i);
  watermarks = b.watermarks ∙ a.watermarks;
}

applied_all :
    (pass : Pass) (prepared : List String) (ops : List L1WriteOp) (tx tx' : Tx)
    → All (IsPrepared prepared) ops
    → apply_ops pass prepared ops tx ≡ some tx'
    → Applied (all_losers ops) tx.db tx'.db
unfolding apply_ops
applied_all pass prepared [] tx tx' p h =
    let same : tx ≡ tx' = ground (arith, h) in
    record { status = λ i. rw same; watermarks = rw same }
applied_all pass prepared (op ∷ ops) tx tx' p h =
    elim (Option-cases (apply_op pass prepared op tx)) [
      | inl e ↦ ground (arith, e, h)
      | inr (mid, e) ↦
          applied_twice (op_losers op) (all_losers ops) tx.db mid.db tx'.db
            (op_applied_of op.action pass prepared op tx mid refl p.0 e)
            (applied_all pass prepared ops mid tx' p.1 (ground (arith, e, h)))
    ]

-- The watermark is that of the last turn, and stays if there is none.
abbrev pub Watermarked : String → Option LastTurn → ℕ → StoreDb → StoreDb → Type 0
Watermarked store_key none now db db' = db'.state.watermarks ≡ db.state.watermarks
Watermarked store_key (some t) now db db' =
    get_watermark store_key db'.state
    ≡ some (record {
      store_key = store_key;
      last_processed_id = some t.id;
      last_processed_ts = some t.timestamp;
      last_processed_seq = some t.seq;
      updated_at = now;
    })

-- The store when the transaction has committed. An atom that was there is active exactly when it was
-- active and no operation has consumed it; an id that is new and prepared has an active atom unless it
-- is consumed. The watermark is that of the last turn, and stays if there is none.
pub record Outcome (store_key : String) (last : Option LastTurn) (now : ℕ) (ops : List L1WriteOp)
    (db db' : StoreDb) : Type 0 where
  pub old_atoms :
      (id : String) (a : Atom)
      → get_atom id db ≡ some a
      → is_active db' id
        ≡ (if contains id (all_losers ops) then false else is_active_status a.status)
  pub new_atoms :
      (id : String)
      → get_atom id db ≡ none
      → contains id (prepared_ids (prepare [] ops)) ≡ true
      → is_active db' id ≡ not (contains id (all_losers ops))
  pub watermark : Watermarked store_key last now db db'

advance-atoms :
    (pass : Pass) (store_key : String) (last : Option LastTurn) (db : StoreDb) (id : String)
    → is_active (advance pass store_key last db) id ≡ is_active db id
unfolding advance is_active get_atom
advance-atoms pass store_key none db id = refl
advance-atoms pass store_key (some t) db id = refl

advance-Watermarked :
    (pass : Pass) (store_key : String) (last : Option LastTurn) (db db' : StoreDb)
    → db'.state.watermarks ≡ db.state.watermarks
    → Watermarked store_key last pass.now db (advance pass store_key last db')
unfolding advance get_watermark set_watermark
advance-Watermarked pass store_key none db db' e = e
advance-Watermarked pass store_key (some t) db db' e =
    select_one-upsert (λ (w : Watermark). w.store_key) _ db'.state.watermarks

active_of :
    (db : StoreDb) (id : String) (a : Atom)
    → get_atom id db ≡ some a
    → is_active db id ≡ is_active_status a.status
unfolding is_active
active_of db id a e = rw (e, is_active)

unless : (b : Bool) → (if b then false else true) ≡ not b
unless true = refl
unless false = refl

committed :
    (pass : Pass) (store_key : String) (last : Option LastTurn) (ops : List L1WriteOp)
    (db mid db' : StoreDb) (tx : Tx)
    → ensure_atoms pass.now (prepare [] ops) db ≡ some mid
    → apply_ops pass (prepared_ids (prepare [] ops)) ops (begin_tx mid) ≡ some tx
    → advance pass store_key last tx.db ≡ db'
    → Outcome store_key last pass.now ops db db'
committed pass store_key last ops db mid db' tx e f g =
    let (kept, created, state) = ensured_all pass.now (prepare [] ops) db mid e in
    let applied =
      applied_all pass (prepared_ids (prepare [] ops)) ops (begin_tx mid) tx (All-IsPrepared ops)
        f in
    let final : (id : String) → is_active db' id ≡ is_active tx.db id = λ id.
      subst (λ (d : StoreDb). is_active d id ≡ is_active tx.db id) g
        (advance-atoms pass store_key last tx.db id) in
    record {
      old_atoms = λ id a h.
          final id
          ∙ applied.status id
          ∙ ap (λ (b : Bool). if contains id (all_losers ops) then false else b)
              (active_of mid id a (kept id a h));
      new_atoms = λ id h m.
          final id
          ∙ applied.status id
          ∙ ap (λ (b : Bool). if contains id (all_losers ops) then false else b) (created id h m)
          ∙ unless (contains id (all_losers ops));
      watermark =
          subst (λ (d : StoreDb). Watermarked store_key last pass.now db d) g
            (advance-Watermarked pass store_key last db tx.db
              (applied.watermarks ∙ ap (λ s. s.watermarks) state));
    }

-- A transaction that commits leaves each atom that was there active exactly when it was active and no
-- operation consumed it: an update consumes its target and a merge all of its targets, save the
-- operation's own atom. The atoms that are new are active unless they are consumed. The watermark
-- becomes that of the last turn, and stays when there was no turn.
pub commit_l1-Outcome :
    (pass : Pass) (store_key : String) (last : Option LastTurn) (ops : List L1WriteOp)
    (db db' : StoreDb) (counts : Counts)
    → commit_l1 pass store_key last ops db ≡ some (db', counts)
    → Outcome store_key last pass.now ops db db'
unfolding commit_l1
commit_l1-Outcome pass store_key last ops db db' counts h = elim (Bool-cases (revalidate db ops)) [
  | inr n ↦ ground (arith, n, h)
  | inl t ↦ elim (Option-cases (ensure_atoms pass.now (prepare [] ops) db)) [
    | inl e ↦ ground (arith, t, e, h)
    | inr (mid, e) ↦
        elim (Option-cases (apply_ops pass (prepared_ids (prepare [] ops)) ops (begin_tx mid))) [
          | inl f ↦ ground (arith, t, e, f, h)
          | inr (tx, f) ↦
              committed pass store_key last ops db mid db' tx e f (ground (arith, t, e, f, h))
        ]
  ]
]
