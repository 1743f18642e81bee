-- ===== src/Distill/Commit/Examples.antt =====
-- The transaction on a small store.
use falda.Prelude.{String, true, false, none, some, List, [], ◌∷◌, ◌≡◌, refl, Memᴰ}
use falda.Distill.Decision.{update, ConsolidationDecision}
use falda.Distill.Plan.{fact, high, Retrieved, atom_id_from_content}
use falda.Distill.Plan.Reconciled.{Planned}
use falda.Distill.Watermark.{upsert, set_watermark, mark_dirty}
use falda.Distill.Store.{
  AtomStatus, active, superseded, Atom, StoreDb, get_atom, write_atom, upsert_distilled_atom,
  reindex, normalized, new_atom, set_status, mark_store_dirty, supersede_atom, add_evidence,
  evidence_for_atom, record_decision,
}
use falda.Distill.Commit.{
  L1WriteOp, Pass, Counts, LastTurn, is_active, targets_active, revalidate, ensure_atoms, unique,
  apply_update, apply_op, apply_ops, advance, commit_l1, prepare, write_ops,
}
use falda.Distill.Commit.Outcome.{Outcome, commit_l1-Outcome}
use falda.Distill.Commit.Planned.{planned_commits}

abbrev atom : String → AtomStatus → Atom
atom id status = record {
  id = id;
  atom_type = fact;
  content = id;
  background = none;
  priority = 100;
  confidence = high;
  pinned = false;
  status = status;
  tags = "[]";
  created_at = 1;
  updated_at = 1;
}

-- `boston` was superseded by `nyc`.
abbrev moved : StoreDb
moved = record {
  store_key = "u:self";
  atoms = atom "boston" superseded ∷ (atom "nyc" active ∷ []);
  indexed = [];
  evidence = [];
  stream = "turn" ∷ [];
  decisions = [];
  state = record { watermarks = []; core_states = []; dirty = [] };
}

abbrev pass : Pass
pass = record { now = 9; pass_id = "pass-1"; stream_ids = "turn" ∷ [] }

abbrev back : L1WriteOp
back = record {
  action = update;
  candidate = record { atom_type = fact; content = "boston"; confidence = high };
  new_id = "boston";
  target_ids = "nyc" ∷ [];
  rationale = "moved back";
  dec_id = "pass-1-dec-0";
}

abbrev turn : LastTurn
turn = record { id = "turn"; timestamp = 8; seq = 3 }

abbrev one_update : Counts
one_update = record { stored = 0; updated = 1; merged = 0; skipped = 0 }

moved_back :
    (db' : StoreDb) × (commit_l1 pass "u:self" (some turn) (back ∷ []) moved
      ≡ some (db', one_update))
unfolding commit_l1 prepare revalidate targets_active is_active get_atom ensure_atoms
    upsert_distilled_atom write_atom reindex normalized new_atom apply_ops apply_op apply_update
    unique evidence_for_atom add_evidence record_decision supersede_atom set_status mark_store_dirty
    mark_dirty upsert advance set_watermark
moved_back = (_, refl)

commit_l1-Outcome_example : Outcome "u:self" (some turn) 9 (back ∷ []) moved moved_back.0
commit_l1-Outcome_example =
    commit_l1-Outcome pass "u:self" (some turn) (back ∷ []) moved moved_back.0 one_update
      moved_back.1

boston_row : get_atom "boston" moved ≡ some (atom "boston" superseded)
unfolding get_atom
boston_row = refl

nyc_row : get_atom "nyc" moved ≡ some (atom "nyc" active)
unfolding get_atom
nyc_row = refl

abbrev hash : String → String
hash s = s

abbrev to_paris : Retrieved
to_paris = record {
  candidate = record { atom_type = fact; content = "paris"; confidence = high };
  existing = record { id = "nyc"; atom_type = fact; content = "nyc"; confidence = high } ∷ [];
}

abbrev update_nyc : ConsolidationDecision
update_nyc = record { action = update; target_ids = "nyc" ∷ []; rationale = "" }

abbrev paris_ops : List L1WriteOp
paris_ops = write_ops hash "pass-1" 0 (to_paris ∷ []) (update_nyc ∷ [])

abbrev paris_plan : Planned hash [] (to_paris ∷ []) (update_nyc ∷ [])
paris_plan =
    (record { distinct = (refl, tt); shown = (Memᴰ.head refl, tt); counted = refl }, (refl, tt), tt)

paris_live : revalidate moved paris_ops ≡ true
unfolding revalidate targets_active is_active get_atom write_ops
paris_live = refl

paris_ensured : (mid : StoreDb) × (ensure_atoms 9 (prepare [] paris_ops) moved ≡ some mid)
unfolding prepare ensure_atoms upsert_distilled_atom write_atom reindex normalized new_atom get_atom
    write_ops atom_id_from_content
paris_ensured = (_, refl)

planned_commits_example :
    (r : StoreDb × Counts) × (commit_l1 pass "u:self" (some turn) paris_ops moved ≡ some r)
planned_commits_example =
    planned_commits hash "pass-1" pass "u:self" (some turn) (to_paris ∷ []) (update_nyc ∷ []) moved
      paris_ensured.0 paris_plan paris_live paris_ensured.1 (refl, tt) tt
