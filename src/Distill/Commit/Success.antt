-- ===== src/Distill/Commit/Success.antt =====
-- A reconciled plan whose targets are active when the transaction begins commits: the check that is
-- made again for each operation never fails.
use falda.Prelude.{
  ◌+◌, String, true, false, none, some, List, [], ◌∷◌, ◌++◌, ◌≡◌, refl, sym, ◌∙◌, subst, arith, inl,
  inr, str_eq, All, All-append, Bool-cases, List-cases, length,
}
use falda.Distill.Decision.{Action, store, update, merge, skip, contains}
use falda.Distill.Decision.Laws.{HasCount}
use falda.Distill.Plan.{takes_targets}
use falda.Distill.Store.{
  StoreDb, has_atom_id, any, evidence_for_atom, record_decision, supersede_atom, merge_atoms,
}
use falda.Distill.Store.Keys.{
  HasStreams, Keeps, Keeps-trans, add_evidence-Keeps, record_decision-Keeps, supersede_atom-Keeps,
  merge_atoms-Keeps, evidence_for_atom-HasStreams,
}
use falda.Distill.Commit.{
  L1WriteOp, Pass, Tx, is_active, is_skip, targets_active, unique, inherited, losers_of, apply_op,
  apply_store, apply_update, apply_merge, apply_skip, apply_ops, decision_row, count_stored,
  with_db,
}
use falda.Distill.Commit.Ops.{Applied, op_losers, count_stored-db}
use falda.Distill.Commit.Prepared.{IsPrepared}
use falda.Distill.Commit.Outcome.{op_applied_of, contains-append}

abbrev pub Turns : StoreDb → List String → Type 0
Turns db ss = All (λ s. contains s db.stream ≡ true) ss

unique-Turns : (db : StoreDb) (seen ss : List String) → Turns db ss → Turns db (unique seen ss)
unfolding unique
unique-Turns db seen [] h = tt
unique-Turns db seen (s ∷ ss) h = elim (Bool-cases (contains s seen)) [
  | inl t ↦ rw t (unique-Turns db seen ss h.1)
  | inr n ↦ rw n (h.0, unique-Turns db (s ∷ seen) ss h.1)
]

inherited-Turns : (db : StoreDb) (ids : List String) → HasStreams db → Turns db (inherited db ids)
inherited-Turns db [] h = tt
inherited-Turns db (id ∷ ids) h =
    All-append _ (evidence_for_atom id db) (inherited db ids) (evidence_for_atom-HasStreams id db h)
      (inherited-Turns db ids h)

-- The operation goes through and keeps what the next ones need.
abbrev Succeeds : Pass → List String → L1WriteOp → Tx → Type 0
Succeeds pass prepared op tx =
    (tx' : Tx) × (apply_op pass prepared op tx ≡ some tx') × Keeps tx.db tx'.db

module _ (pass : Pass) (prepared : List String) (op : L1WriteOp) (tx : Tx) where
  store_succeeds :
      contains op.new_id prepared ≡ true
      → any (has_atom_id op.new_id) tx.db.atoms ≡ true
      → Turns tx.db pass.stream_ids
      → (tx' : Tx) × (apply_store pass prepared op tx ≡ some tx') × Keeps tx.db tx'.db
  unfolding apply_store
  store_succeeds p r t =
      let row = decision_row pass op (some op.new_id) none in
      let (mid, e, k) = add_evidence-Keeps pass.now op.new_id pass.stream_ids tx.db r t in
      let last = with_db tx (record_decision row mid) in
      (
        count_stored op.new_id last,
        simp (p, e) refl,
        subst (λ (d : StoreDb). Keeps tx.db d) (sym (count_stored-db op.new_id last))
            (Keeps-trans tx.db mid (record_decision row mid) k (record_decision-Keeps row mid)),
      )

  update_succeeds :
      (old_id : String)
      → contains op.new_id prepared ≡ true
      → is_active tx.db old_id ≡ true
      → any (has_atom_id op.new_id) tx.db.atoms ≡ true
      → Turns tx.db pass.stream_ids
      → HasStreams tx.db
      → (tx' : Tx) × (apply_update pass prepared op old_id tx ≡ some tx') × Keeps tx.db tx'.db
  unfolding apply_update
  update_succeeds old_id p live r t h =
      let row = decision_row pass op (some op.new_id) (some (old_id ∷ [])) in
      let edges = unique [] (evidence_for_atom old_id tx.db ++ pass.stream_ids) in
      let known : Turns tx.db edges = unique-Turns tx.db [] _ (
        All-append _ (evidence_for_atom old_id tx.db) pass.stream_ids
          (evidence_for_atom-HasStreams old_id tx.db h) t) in
      let (mid, e, k) = add_evidence-Keeps pass.now op.new_id edges tx.db r known in
      let changed = supersede_atom pass.now old_id op.new_id mid in
      elim (Bool-cases (str_eq op.new_id old_id)) [
        | inl y ↦ (
          with_db tx (record_decision row mid),
          simp (p, live, e, y) refl,
          Keeps-trans tx.db mid (record_decision row mid) k (record_decision-Keeps row mid),
        )
        | inr n ↦ (
          record tx {
            db = record_decision row changed;
            counts = record tx.counts { updated = tx.counts.updated + 1 };
          },
          simp (p, live, e, n) refl,
          Keeps-trans tx.db mid (record_decision row changed) k (
              Keeps-trans mid changed (record_decision row changed)
                (supersede_atom-Keeps pass.now old_id op.new_id mid)
                (record_decision-Keeps row changed)),
        )
      ]

  merge_succeeds :
      contains op.new_id prepared ≡ true
      → targets_active tx.db op.target_ids ≡ true
      → any (has_atom_id op.new_id) tx.db.atoms ≡ true
      → Turns tx.db pass.stream_ids
      → HasStreams tx.db
      → (tx' : Tx) × (apply_merge pass prepared op tx ≡ some tx') × Keeps tx.db tx'.db
  unfolding apply_merge
  merge_succeeds p live r t h =
      let row = decision_row pass op (some op.new_id) (some op.target_ids) in
      let edges = unique [] (inherited tx.db op.target_ids ++ pass.stream_ids) in
      let known : Turns tx.db edges = unique-Turns tx.db [] _ (
        All-append _ (inherited tx.db op.target_ids) pass.stream_ids
          (inherited-Turns tx.db op.target_ids h) t) in
      let (mid, e, k) = add_evidence-Keeps pass.now op.new_id edges tx.db r known in
      elim (List-cases (losers_of op)) [
        | inl f ↦ (
          with_db tx (record_decision row mid),
          simp (p, live, e, f) refl,
          Keeps-trans tx.db mid (record_decision row mid) k (record_decision-Keeps row mid),
        )
        | inr (l, ls, f) ↦
            let changed = merge_atoms pass.now (l ∷ ls) op.new_id mid in
            (
              record tx {
                db = record_decision row changed;
                counts = record tx.counts { merged = tx.counts.merged + 1 };
              },
              simp (p, live, e, f) refl,
              Keeps-trans tx.db mid (record_decision row changed) k (
                  Keeps-trans mid changed (record_decision row changed)
                    (merge_atoms-Keeps pass.now (l ∷ ls) op.new_id mid)
                    (record_decision-Keeps row changed)),
            )
      ]

first_active :
    (db : StoreDb) (id : String) (ids : List String)
    → targets_active db (id ∷ ids) ≡ true
    → is_active db id ≡ true
unfolding targets_active
first_active db id ids h = ground (arith, h)

op-Succeeds :
    (action : Action) (pass : Pass) (prepared : List String) (op : L1WriteOp) (tx : Tx)
    → op.action ≡ action
    → IsPrepared prepared op
    → HasCount op.action (length op.target_ids)
    → (takes_targets op.action ≡ true → targets_active tx.db op.target_ids ≡ true)
    → (is_skip op.action ≡ false → any (has_atom_id op.new_id) tx.db.atoms ≡ true)
    → Turns tx.db pass.stream_ids
    → HasStreams tx.db
    → Succeeds pass prepared op tx
unfolding apply_op apply_skip
op-Succeeds store pass prepared op tx a p c live r t h =
    let (tx', e, k) = store_succeeds pass prepared op tx (p (rw a)) (r (rw a)) t in
    (tx', ground (arith, a, e), k)
op-Succeeds update pass prepared op tx a p c live r t h = elim (List-cases op.target_ids) [
  | inl f ↦ cc (rw (a, f) at c)
  | inr (old_id, ids, f) ↦
      let on : is_active tx.db old_id ≡ true =
        first_active tx.db old_id ids (rw f at live (rw a)) in
      let (tx', e, k) = update_succeeds pass prepared op tx old_id (p (rw a)) on (r (rw a)) t h in
      (tx', ground (arith, a, f, e), k)
]
op-Succeeds merge pass prepared op tx a p c live r t h =
    let (tx', e, k) = merge_succeeds pass prepared op tx (p (rw a)) (live (rw a)) (r (rw a)) t h in
    (tx', ground (arith, a, e), k)
op-Succeeds skip pass prepared op tx a p c live r t h =
    let row = decision_row pass op none none in
    (apply_skip pass op tx, ground (arith, a), record_decision-Keeps row tx.db)

-- Each update or merge has its targets, and none that an operation before it has consumed.
abbrev pub IsConflictFree : List String → List L1WriteOp → Type 0
IsConflictFree consumed [] = Unit
IsConflictFree consumed (op ∷ ops) =
    HasCount op.action (length op.target_ids)
    × All (λ id. contains id consumed ≡ false) op.target_ids
    × IsConflictFree (op_losers op ++ consumed) ops

-- What the rest of the operations need of the store, compared with the store `mid` that they began
-- with and what has been consumed since.
pub record Awaits (consumed prepared : List String) (mid db : StoreDb) : Type 0 where
  pub live :
      (id : String)
      → is_active mid id ≡ true
      → contains id consumed ≡ false
      → is_active db id ≡ true
  pub stream : db.stream ≡ mid.stream
  pub edges : HasStreams db
  pub rows : (id : String) → contains id prepared ≡ true → any (has_atom_id id) db.atoms ≡ true

abbrev pub HasLiveTargets : StoreDb → L1WriteOp → Type 0
HasLiveTargets mid op =
    takes_targets op.action ≡ true → All (λ id. is_active mid id ≡ true) op.target_ids

targets_still_active :
    (consumed prepared : List String) (mid db : StoreDb) (ids : List String)
    → Awaits consumed prepared mid db
    → All (λ id. is_active mid id ≡ true) ids
    → All (λ id. contains id consumed ≡ false) ids
    → targets_active db ids ≡ true
unfolding targets_active
targets_still_active consumed prepared mid db [] w a f = refl
targets_still_active consumed prepared mid db (id ∷ ids) w a f =
    rw (w.live id a.0 f.0) (targets_still_active consumed prepared mid db ids w a.1 f.1)

Awaits-next :
    (losers consumed prepared : List String) (mid db db' : StoreDb)
    → Awaits consumed prepared mid db
    → Applied losers db db'
    → Keeps db db'
    → Awaits (losers ++ consumed) prepared mid db'
Awaits-next losers consumed prepared mid db db' w a k = record {
  live = λ id on free.
      let both = contains-append id losers consumed in
      let m : contains id losers ≡ false = ground (arith, both, free) in
      let n : contains id consumed ≡ false = ground (arith, both, free) in
      ground (arith, a.status id, m, w.live id on n);
  stream = k.stream ∙ w.stream;
  edges = k.edges w.edges;
  rows = λ id h. k.rows id (w.rows id h);
}

pub ops_succeed :
    (pass : Pass) (prepared consumed : List String) (ops : List L1WriteOp) (mid : StoreDb) (tx : Tx)
    → All (IsPrepared prepared) ops
    → All (HasLiveTargets mid) ops
    → IsConflictFree consumed ops
    → Turns mid pass.stream_ids
    → Awaits consumed prepared mid tx.db
    → (tx' : Tx) × (apply_ops pass prepared ops tx ≡ some tx')
unfolding apply_ops
ops_succeed pass prepared consumed [] mid tx p l c t w = (tx, refl)
ops_succeed pass prepared consumed (op ∷ ops) mid tx p l (count, free, rest) t w =
    let here : Turns tx.db pass.stream_ids =
      subst (λ (s : List String). All (λ id. contains id s ≡ true) pass.stream_ids) (sym w.stream)
        t in
    let (next, e, k) =
      op-Succeeds op.action pass prepared op tx refl p.0 count
        (λ takes. targets_still_active consumed prepared mid tx.db op.target_ids w (l.0 takes) free)
        (λ n. w.rows op.new_id (p.0 n)) here w.edges in
    let applied = op_applied_of op.action pass prepared op tx next refl p.0 e in
    let (tx', f) =
      ops_succeed pass prepared (op_losers op ++ consumed) ops mid next p.1 l.1 rest t
        (Awaits-next (op_losers op) consumed prepared mid tx.db next.db w applied k) in
    (tx', ground (arith, e, f))
