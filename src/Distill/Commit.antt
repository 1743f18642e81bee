-- ===== src/Distill/Commit.antt =====
-- The first phase's transaction, `commitL1` in `src/distill/core.ts`: the atoms, evidence, lifecycle
-- changes, decisions and watermark of a pass. A throw rolls all of it back, so it returns `none`.
pub mod Ensure
pub mod Prepared
pub mod Ops
pub mod Outcome
pub mod Success
pub mod Planned
mod Examples
use Prim.Native.String.{◌++◌}
use falda.Prelude.{
  ℕ, zero, suc, ◌+◌, String, Bool, true, false, not, ◌&&◌, ◌||◌, Option, none, some, List, [], ◌∷◌,
  ◌++◌ as append, map, if◌then◌else◌, str_eq, length, select_where, decimal,
}
use falda.Distill.Decision.{Action, store, update, merge, skip, ConsolidationDecision, contains}
use falda.Distill.Plan.{CandidateAtom, Retrieved, atom_id_from_content, takes_targets}
use falda.Distill.Watermark.{set_watermark}
use falda.Distill.Store.{
  StoreDb, Atom, DecisionRow, is_active_status, get_atom, upsert_distilled_atom, supersede_atom,
  merge_atoms, add_evidence, evidence_for_atom, record_decision,
}

pub record L1WriteOp : Type 0 where
  pub action : Action
  pub candidate : CandidateAtom
  pub new_id : String
  pub target_ids : List String
  pub rationale : String
  pub dec_id : String

-- Phase 3: one operation for each candidate.
unfoldable pub write_ops :
    (String → String) → String → ℕ → List Retrieved → List ConsolidationDecision → List L1WriteOp
write_ops hash pid i [] ds = []
write_ops hash pid i (r ∷ rs) [] = []
write_ops hash pid i (r ∷ rs) (d ∷ ds) =
    record {
      action = d.action;
      candidate = r.candidate;
      new_id = atom_id_from_content hash r.candidate;
      target_ids = d.target_ids;
      rationale = d.rationale;
      dec_id = pid ++ ("-dec-" ++ decimal i);
    }
    ∷ write_ops hash pid (suc i) rs ds

abbrev pub is_skip : Action → Bool
is_skip skip = true
is_skip _ = false

-- `preparedAtoms`: the first operation for each id that is not skipped; `ids` are those seen.
unfoldable pub prepare : List String → List L1WriteOp → List L1WriteOp
prepare ids [] = []
prepare ids (op ∷ ops) =
    let without = prepare ids ops in
    let within = prepare (op.new_id ∷ ids) ops in
    if is_skip op.action || contains op.new_id ids then without else op ∷ within

abbrev pub prepared_ids : List L1WriteOp → List String
prepared_ids = map (λ op. op.new_id)

unfoldable pub is_active : StoreDb → String → Bool
is_active db id = elim (get_atom id db) [ none ↦ false | some a ↦ is_active_status a.status ]

-- Whether `assertTargetsActive` returns.
unfoldable pub targets_active : StoreDb → List String → Bool
targets_active db [] = true
targets_active db (id ∷ ids) = is_active db id && targets_active db ids

-- Phase 0.
unfoldable pub revalidate : StoreDb → List L1WriteOp → Bool
revalidate db [] = true
revalidate db (op ∷ ops) =
    (if takes_targets op.action then targets_active db op.target_ids else true) && revalidate db ops

-- Phase A.
unfoldable pub ensure_atoms : ℕ → List L1WriteOp → StoreDb → Option StoreDb
ensure_atoms now [] db = some db
ensure_atoms now (op ∷ ops) db = elim (upsert_distilled_atom now op.new_id op.candidate db) [
  | none ↦ none
  | some (db', inserted) ↦ ensure_atoms now ops db'
]

-- [...new Set(ids)]
unfoldable pub unique : List String → List String → List String
unique seen [] = []
unique seen (s ∷ ss) =
    let without = unique seen ss in
    let within = unique (s ∷ seen) ss in if contains s seen then without else s ∷ within

abbrev pub inherited : StoreDb → List String → List String
inherited db [] = []
inherited db (id ∷ ids) = append (evidence_for_atom id db) (inherited db ids)

pub record Counts : Type 0 where
  pub stored : ℕ
  pub updated : ℕ
  pub merged : ℕ
  pub skipped : ℕ

-- The store and the counters inside the transaction; `counted` is `countedStoredIds`.
pub record Tx : Type 0 where
  pub db : StoreDb
  pub counts : Counts
  pub counted : List String

pub record Pass : Type 0 where
  pub now : ℕ
  pub pass_id : String
  pub stream_ids : List String

abbrev pub decision_row : Pass → L1WriteOp → Option String → Option (List String) → DecisionRow
decision_row pass op atom_id target_ids = record {
  id = op.dec_id;
  pass_id = pass.pass_id;
  action = op.action;
  atom_id = atom_id;
  target_ids = target_ids;
  rationale = op.rationale;
  decided_at = pass.now;
  candidate = op.candidate;
}

abbrev pub count_stored : String → Tx → Tx
count_stored id tx = if contains id tx.counted then tx else record tx {
  counts = record tx.counts { stored = tx.counts.stored + 1 };
  counted = id ∷ tx.counted;
}

unfoldable pub losers_of : L1WriteOp → List String
losers_of op = select_where (λ id. not (str_eq id op.new_id)) op.target_ids

abbrev pub with_db : Tx → StoreDb → Tx
with_db tx db = record tx { db = db }

unfoldable pub apply_store : Pass → List String → L1WriteOp → Tx → Option Tx
apply_store pass prepared op tx =
    let row = decision_row pass op (some op.new_id) none in
    if contains op.new_id prepared
    then elim (add_evidence pass.now op.new_id pass.stream_ids tx.db) [
      | none ↦ none
      | some db ↦ some (count_stored op.new_id (with_db tx (record_decision row db)))
    ]
    else some (with_db tx (record_decision row tx.db))

unfoldable pub apply_update : Pass → List String → L1WriteOp → String → Tx → Option Tx
apply_update pass prepared op old_id tx =
    let row = decision_row pass op (some op.new_id) (some (old_id ∷ [])) in
    let edges = unique [] (append (evidence_for_atom old_id tx.db) pass.stream_ids) in
    if is_active tx.db old_id
    then if contains op.new_id prepared
      then elim (add_evidence pass.now op.new_id edges tx.db) [
        | none ↦ none
        | some db ↦
            if str_eq op.new_id old_id
            then some (with_db tx (record_decision row db))
            else some (record tx {
              db = record_decision row (supersede_atom pass.now old_id op.new_id db);
              counts = record tx.counts { updated = tx.counts.updated + 1 };
            })
      ]
      else some (with_db tx (record_decision row tx.db))
    else none

unfoldable pub apply_merge : Pass → List String → L1WriteOp → Tx → Option Tx
apply_merge pass prepared op tx =
    let row = decision_row pass op (some op.new_id) (some op.target_ids) in
    let edges = unique [] (append (inherited tx.db op.target_ids) pass.stream_ids) in
    if targets_active tx.db op.target_ids
    then if contains op.new_id prepared
      then elim (add_evidence pass.now op.new_id edges tx.db) [
        | none ↦ none
        | some db ↦ elim (losers_of op) [
          | [] ↦ some (with_db tx (record_decision row db))
          | l ∷ ls ↦ some (record tx {
            db = record_decision row (merge_atoms pass.now (l ∷ ls) op.new_id db);
            counts = record tx.counts { merged = tx.counts.merged + 1 };
          })
        ]
      ]
      else some (with_db tx (record_decision row tx.db))
    else none

unfoldable pub apply_skip : Pass → L1WriteOp → Tx → Tx
apply_skip pass op tx = record tx {
  db = record_decision (decision_row pass op none none) tx.db;
  counts = record tx.counts { skipped = tx.counts.skipped + 1 };
}

-- An update always has its one target; `target_ids[0]` of none would be no id at all.
unfoldable pub apply_op : Pass → List String → L1WriteOp → Tx → Option Tx
apply_op pass prepared op tx = elim op.action [
  | store ↦ apply_store pass prepared op tx
  | update ↦ elim op.target_ids [ [] ↦ none | old_id ∷ _ ↦ apply_update pass prepared op old_id tx ]
  | merge ↦ apply_merge pass prepared op tx
  | skip ↦ some (apply_skip pass op tx)
]

-- Phase B.
unfoldable pub apply_ops : Pass → List String → List L1WriteOp → Tx → Option Tx
apply_ops pass prepared [] tx = some tx
apply_ops pass prepared (op ∷ ops) tx = elim (apply_op pass prepared op tx) [
  | none ↦ none
  | some tx' ↦ apply_ops pass prepared ops tx'
]

pub record LastTurn : Type 0 where
  pub id : String
  pub timestamp : ℕ
  pub seq : ℕ

unfoldable pub advance : Pass → String → Option LastTurn → StoreDb → StoreDb
advance pass store_key none db = db
advance pass store_key (some t) db = record db {
  state = set_watermark pass.now store_key (some t.id) (some t.timestamp) (some t.seq) db.state;
}

abbrev pub begin_tx : StoreDb → Tx
begin_tx db = record {
  db = db;
  counts = record { stored = 0; updated = 0; merged = 0; skipped = 0 };
  counted = [];
}

unfoldable pub commit_l1 :
    Pass → String → Option LastTurn → List L1WriteOp → StoreDb → Option (StoreDb × Counts)
commit_l1 pass store_key last ops db =
    let prepared = prepare [] ops in
    if revalidate db ops
    then elim (ensure_atoms pass.now prepared db) [
      | none ↦ none
      | some db' ↦ elim (apply_ops pass (prepared_ids prepared) ops (begin_tx db')) [
        | none ↦ none
        | some tx ↦ some (advance pass store_key last tx.db, tx.counts)
      ]
    ]
    else none
