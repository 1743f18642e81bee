-- ===== src/Distill/Commit/Ops.antt =====
-- Phase B of the transaction: what one operation does to the status of the atoms.
use falda.Prelude.{
  ℕ, String, true, false, none, some, List, [], ◌∷◌, ◌++◌, ◌≡◌, refl, sym, ap, ◌∙◌, subst, arith,
  inl, inr, if◌then◌else◌, str_eq, str_eq_iff, Bool-cases, Option-cases, List-cases, str_ne_sym,
}
use falda.Distill.Decision.{contains}
use falda.Distill.Watermark.{mark_dirty}
use falda.Distill.Plan.{consumed_by_decision}
use falda.Distill.Store.{
  AtomStatus, StoreDb, DecisionRow, get_atom, mark_store_dirty, supersede_atom, merge_atoms,
  add_evidence, evidence_for_atom, record_decision,
}
use falda.Distill.Store.Rows.{
  active_in-set_status, active_in-set_merged, add_evidence-atoms, record_decision-atoms,
}
use falda.Distill.Commit.{
  L1WriteOp, Pass, Tx, is_active, losers_of, apply_store, apply_update, apply_merge, with_db,
  decision_row, targets_active, unique, inherited, count_stored,
}

-- Phase B and one operation: the targets that it consumes stop being active, and no other atom
-- changes; the watermarks stay.
abbrev pub op_losers : L1WriteOp → List String
op_losers op =
    consumed_by_decision
      (record { action = op.action; target_ids = op.target_ids; rationale = op.rationale })
      op.new_id

pub record Applied (losers : List String) (db db' : StoreDb) : Type 0 where
  pub status :
      (i : String) → is_active db' i ≡ (if contains i losers then false else is_active db i)
  pub watermarks : db'.state.watermarks ≡ db.state.watermarks

unchanged :
    (db db' : StoreDb)
    → db'.atoms ≡ db.atoms
    → db'.state.watermarks ≡ db.state.watermarks
    → Applied [] db db'
unfolding is_active get_atom
unchanged db db' rows marks = record { status = λ i. rw rows; watermarks = marks }

superseded :
    (now : ℕ) (old_id new_id : String) (db : StoreDb)
    → Applied (old_id ∷ []) db (supersede_atom now old_id new_id db)
unfolding is_active get_atom supersede_atom mark_store_dirty mark_dirty
superseded now old_id new_id db = record {
  status = λ i.
      active_in-set_status now AtomStatus.superseded old_id i db.atoms refl
      ∙ elim (Bool-cases (str_eq old_id i)) [ inl t ↦ rw t | inr n ↦ rw n ];
  watermarks = refl;
}

merged :
    (now : ℕ) (l : String) (ls : List String) (winner : String) (db : StoreDb)
    → Applied (l ∷ ls) db (merge_atoms now (l ∷ ls) winner db)
unfolding is_active get_atom merge_atoms mark_store_dirty mark_dirty
merged now l ls winner db = record {
  status = λ i. active_in-set_merged now (l ∷ ls) db.atoms i;
  watermarks = refl;
}

then_applied :
    (losers : List String) (db mid db' : StoreDb)
    → mid.atoms ≡ db.atoms
    → mid.state.watermarks ≡ db.state.watermarks
    → Applied losers mid db'
    → Applied losers db db'
unfolding is_active get_atom
then_applied losers db mid db' rows marks a = record {
  status = λ i. rw rows at a.status i;
  watermarks = a.watermarks ∙ marks;
}

applied_then :
    (losers : List String) (db mid db' : StoreDb)
    → db'.atoms ≡ mid.atoms
    → db'.state.watermarks ≡ mid.state.watermarks
    → Applied losers db mid
    → Applied losers db db'
unfolding is_active get_atom
applied_then losers db mid db' rows marks a = record {
  status = λ i. rw rows (a.status i);
  watermarks = marks ∙ a.watermarks;
}

-- A decision row that is written behind new evidence.
evidenced :
    (now : ℕ) (id : String) (edges : List String) (row : DecisionRow) (db mid : StoreDb)
    → add_evidence now id edges db ≡ some mid
    → Applied [] db (record_decision row mid)
evidenced now id edges row db mid e =
    let (rows, state) = add_evidence-atoms now id edges db mid e in
    let (rows', state') = record_decision-atoms row mid in
    unchanged db (record_decision row mid) (rows' ∙ rows) (ap (λ s. s.watermarks) (state' ∙ state))

pub recorded : (row : DecisionRow) (db : StoreDb) → Applied [] db (record_decision row db)
recorded row db =
    let (rows, state) = record_decision-atoms row db in
    unchanged db (record_decision row db) rows (ap (λ s. s.watermarks) state)

pub count_stored-db : (id : String) (tx : Tx) → (count_stored id tx).db ≡ tx.db
count_stored-db id tx = elim (Bool-cases (contains id tx.counted)) [ inl t ↦ rw t | inr n ↦ rw n ]

-- Evidence, a lifecycle change and a decision row.
retired :
    (now : ℕ) (id : String) (edges losers : List String) (row : DecisionRow)
    (db mid changed : StoreDb)
    → add_evidence now id edges db ≡ some mid
    → Applied losers mid changed
    → Applied losers db (record_decision row changed)
retired now id edges losers row db mid changed e a =
    let (rows, state) = add_evidence-atoms now id edges db mid e in
    let (rows', state') = record_decision-atoms row changed in
    applied_then losers db changed (record_decision row changed) rows'
      (ap (λ s. s.watermarks) state')
      (then_applied losers db mid changed rows (ap (λ s. s.watermarks) state) a)

module _ (pass : Pass) (prepared : List String) (op : L1WriteOp) (tx tx' : Tx) where
  pub store_applied :
      contains op.new_id prepared ≡ true
      → apply_store pass prepared op tx ≡ some tx'
      → Applied [] tx.db tx'.db
  unfolding apply_store
  store_applied p h =
      let row = decision_row pass op (some op.new_id) none in
      elim (Option-cases (add_evidence pass.now op.new_id pass.stream_ids tx.db)) [
        | inl e ↦ ground (arith, p, e, h)
        | inr (mid, e) ↦
            let counted = count_stored op.new_id (with_db tx (record_decision row mid)) in
            let same : counted ≡ tx' = ground (arith, p, e, h) in
            let here : record_decision row mid ≡ tx'.db =
              sym (count_stored-db op.new_id (with_db tx (record_decision row mid)))
              ∙ ap (λ t. t.db) same in
            subst (Applied [] tx.db) here
              (evidenced pass.now op.new_id pass.stream_ids row tx.db mid e)
      ]

  abbrev pub update_losers : String → List String
  update_losers old_id = if str_eq old_id op.new_id then [] else old_id ∷ []

  pub update_applied :
      (old_id : String)
      → contains op.new_id prepared ≡ true
      → apply_update pass prepared op old_id tx ≡ some tx'
      → (is_active tx.db old_id ≡ true) × Applied (update_losers old_id) tx.db tx'.db
  unfolding apply_update
  update_applied old_id p h =
      let row = decision_row pass op (some op.new_id) (some (old_id ∷ [])) in
      let edges = unique [] (evidence_for_atom old_id tx.db ++ pass.stream_ids) in
      elim (Bool-cases (is_active tx.db old_id)) [
        | inr n ↦ ground (arith, n, h)
        | inl live ↦ elim (Option-cases (add_evidence pass.now op.new_id edges tx.db)) [
          | inl e ↦ ground (arith, p, live, e, h)
          | inr (mid, e) ↦ elim (Bool-cases (str_eq op.new_id old_id)) [
            | inl t ↦
                let own : str_eq old_id op.new_id ≡ true =
                  (str_eq_iff old_id op.new_id).1 (sym ((str_eq_iff op.new_id old_id).0 t)) in
                let here : record_decision row mid ≡ tx'.db = ground (arith, p, live, e, t, h) in
                (
                  live,
                  rw own (
                      subst (Applied [] tx.db) here
                        (evidenced pass.now op.new_id edges row tx.db mid e)),
                )
            | inr n ↦
                let other = str_ne_sym op.new_id old_id n in
                let changed = supersede_atom pass.now old_id op.new_id mid in
                let here : record_decision row changed ≡ tx'.db =
                  ground (arith, p, live, e, n, h) in
                (
                  live,
                  rw other (
                      subst (Applied (old_id ∷ []) tx.db) here (
                        retired pass.now op.new_id edges (old_id ∷ []) row tx.db mid changed e
                          (superseded pass.now old_id op.new_id mid))),
                )
          ]
        ]
      ]

  pub merge_applied :
      contains op.new_id prepared ≡ true
      → apply_merge pass prepared op tx ≡ some tx'
      → (targets_active tx.db op.target_ids ≡ true) × Applied (losers_of op) tx.db tx'.db
  unfolding apply_merge
  merge_applied p h =
      let row = decision_row pass op (some op.new_id) (some op.target_ids) in
      let edges = unique [] (inherited tx.db op.target_ids ++ pass.stream_ids) in
      elim (Bool-cases (targets_active tx.db op.target_ids)) [
        | inr n ↦ ground (arith, n, h)
        | inl live ↦ elim (Option-cases (add_evidence pass.now op.new_id edges tx.db)) [
          | inl e ↦ ground (arith, p, live, e, h)
          | inr (mid, e) ↦ (
            live,
            elim (List-cases (losers_of op)) [
              | inl f ↦
                  let here : record_decision row mid ≡ tx'.db = ground (arith, p, live, e, f, h) in
                  rw f (
                    subst (Applied [] tx.db) here
                      (evidenced pass.now op.new_id edges row tx.db mid e))
              | inr (l, ls, f) ↦
                  let changed = merge_atoms pass.now (l ∷ ls) op.new_id mid in
                  let here : record_decision row changed ≡ tx'.db =
                    ground (arith, p, live, e, f, h) in
                  rw f (
                    subst (Applied (l ∷ ls) tx.db) here (
                      retired pass.now op.new_id edges (l ∷ ls) row tx.db mid changed e
                        (merged pass.now l ls op.new_id mid)))
            ],
          )
        ]
      ]
