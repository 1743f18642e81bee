-- ===== src/Stream/Deletion.antt =====
-- deleteStream of `src/falda.ts`, over the tables of Stream.antt.
use Prim.Native.String.{◌++◌}
use falda.Prelude.{
  ℕ, ◌+◌, String, Bool, Option, none, some, List, [], ◌∷◌, map, if◌then◌else◌, str_eq, length,
  select_where, delete_where, count_where, decimal,
}
use falda.Distill.Decision.{contains}
use falda.Distill.Store.{EvidenceEdge}
use falda.Distill.Watermark.{DistillState, mark_dirty}
use falda.Distill.Commit.{unique}
use falda.Stream.{Turn, StreamDb, turn_key, has_turn}

pub record Retraction : Type 0 where
  pub ids : List String
  pub session_id : Option String

pub record Deleted : Type 0 where
  pub db : StreamDb
  pub deleted_count : ℕ
  pub affected_atom_ids : List String

abbrev pub edge_turn : EvidenceEdge → String
edge_turn e = e.stream_id

abbrev pub edge_atom : EvidenceEdge → String
edge_atom e = e.atom_id

-- key IN (ids)
abbrev pub is_in {ℓ} : {A : Type ℓ} → (A → String) → List String → A → Bool
is_in key ids x = contains (key x) ids

abbrev pub itself : String → String
itself s = s

-- The atoms, and the tables after the deletes.
unfoldable pub remove_index_and_evidence : List String → StreamDb → StreamDb × List String
remove_index_and_evidence ids db = (
  record db {
    evidence = delete_where (is_in edge_turn ids) db.evidence;
    fts = delete_where (is_in itself ids) db.fts;
    vec = delete_where (is_in itself ids) db.vec;
  },
  unique [] (map edge_atom (select_where (is_in edge_turn ids) db.evidence)),
)

unfoldable pub delete_turns : List String → List Turn → List Turn × ℕ
delete_turns [] rows = (rows, 0)
delete_turns (id ∷ ids) rows =
    let rest = delete_turns ids (delete_where (has_turn id) rows) in
    (rest.0, count_where (has_turn id) rows + rest.1)

abbrev pub in_session : String → Turn → Bool
in_session session t = str_eq t.session_id session

-- The body of the transaction; an empty text is no session.
unfoldable pub delete_run : Retraction → StreamDb → Deleted
delete_run p db = elim p.ids [
  | id ∷ ids ↦
      let r = remove_index_and_evidence (id ∷ ids) db in
      let rows = delete_turns (id ∷ ids) r.0.stream in
      record {
        db = record r.0 { stream = rows.0 };
        deleted_count = rows.1;
        affected_atom_ids = r.1;
      }
  | [] ↦ elim p.session_id [
    | none ↦ record { db = db; deleted_count = 0; affected_atom_ids = [] }
    | some session ↦
        if str_eq session ""
        then record { db = db; deleted_count = 0; affected_atom_ids = [] }
        else let r =
            remove_index_and_evidence (map turn_key (select_where (in_session session) db.stream))
              db in
          record {
            db = record r.0 { stream = delete_where (in_session session) r.0.stream };
            deleted_count = count_where (in_session session) r.0.stream;
            affected_atom_ids = r.1;
          }
  ]
]

unfoldable pub affected_state : ℕ → String → List String → DistillState → DistillState
affected_state now store_key [] state = state
affected_state now store_key (a ∷ more) state =
    mark_dirty now store_key
      ("deleteStream affected " ++ (decimal (length (a ∷ more)) ++ " atom(s)' evidence")) state

unfoldable pub mark_affected : ℕ → Deleted → Deleted
mark_affected now d = record d {
  db = record d.db { state = affected_state now d.db.store_key d.affected_atom_ids d.db.state };
}

unfoldable pub delete_stream : ℕ → Retraction → StreamDb → Deleted
delete_stream now p db = mark_affected now (delete_run p db)
