-- ===== src/Distill/Store.antt =====
-- What the first phase of a pass asks of the store, `src/falda.ts` and `src/store/distill-audit.ts`:
-- atoms, their evidence and the decisions. The clock is read once for a transaction. The columns that
-- repeat the evidence of an atom as JSON text are left out.
pub mod Rows
pub mod Keys
use Prim.Native.String.{◌++◌}
use falda.Prelude.{
  ℕ, zero, suc, String, Bool, true, false, not, ◌&&◌, ◌||◌, Option, none, some, List, [], ◌∷◌,
  ◌++◌ as append, map, if◌then◌else◌, str_eq, length, select_one, select_where, update_where,
  delete_where, count_where, decimal,
}
use falda.Distill.Decision.{Action, contains}
use falda.Distill.Plan.{
  AtomType, fact, pattern_kind, preference, constraint, instruction, AtomConfidence, CandidateAtom,
}
use falda.Distill.Watermark.{DistillState, mark_dirty}

pub data AtomStatus : Type 0 where
  active superseded merged archived : AtomStatus

pub record Atom : Type 0 where
  pub id : String
  pub atom_type : AtomType
  pub content : String
  pub background : Option String
  pub priority : ℕ
  pub confidence : AtomConfidence
  pub pinned : Bool
  pub status : AtomStatus
  pub tags : String
  pub created_at : ℕ
  pub updated_at : ℕ

pub record EvidenceEdge : Type 0 where
  pub atom_id : String
  pub stream_id : String
  pub added_at : ℕ

pub record DecisionRow : Type 0 where
  pub id : String
  pub pass_id : String
  pub action : Action
  pub atom_id : Option String
  pub target_ids : Option (List String)
  pub rationale : String
  pub decided_at : ℕ
  pub candidate : CandidateAtom

-- The tables. `stream` is the ids of the turns, `indexed` those of the rows of atoms_fts and atoms_vec,
-- which are always written together.
pub record StoreDb : Type 0 where
  pub store_key : String
  pub atoms : List Atom
  pub indexed : List String
  pub evidence : List EvidenceEdge
  pub stream : List String
  pub decisions : List DecisionRow
  pub state : DistillState

abbrev pub type_eq : AtomType → AtomType → Bool
type_eq fact fact = true
type_eq pattern_kind pattern_kind = true
type_eq preference preference = true
type_eq constraint constraint = true
type_eq instruction instruction = true
type_eq _ _ = false

abbrev pub is_active_status : AtomStatus → Bool
is_active_status active = true
is_active_status _ = false

abbrev pub has_atom_id : String → Atom → Bool
has_atom_id id a = str_eq a.id id

unfoldable pub get_atom : String → StoreDb → Option Atom
get_atom id db = select_one (has_atom_id id) db.atoms

pub data ExistingAtomPolicy : Type 0 where
  update preserve : ExistingAtomPolicy

pub record NormalizedAtomWrite : Type 0 where
  pub id : String
  pub atom_type : AtomType
  pub content : String
  pub background : Option String
  pub priority : ℕ
  pub confidence : AtomConfidence
  pub pinned : Bool
  pub tags : String

unfoldable pub new_atom : ℕ → NormalizedAtomWrite → Atom
new_atom now a = record {
  id = a.id;
  atom_type = a.atom_type;
  content = a.content;
  background = a.background;
  priority = a.priority;
  confidence = a.confidence;
  pinned = a.pinned;
  status = active;
  tags = a.tags;
  created_at = now;
  updated_at = now;
}

unfoldable pub overwrite : ℕ → NormalizedAtomWrite → Atom → Atom
overwrite now a b = record b {
  background = a.background;
  priority = a.priority;
  confidence = a.confidence;
  pinned = a.pinned;
  tags = a.tags;
  updated_at = now;
}

-- The index rows of an id are deleted and written again.
unfoldable pub reindex : String → List String → List String
reindex id ids = append (delete_where (λ i. str_eq i id) ids) (id ∷ [])

-- `none` is an AtomImmutabilityError. The flag tells an insert.
unfoldable pub write_atom :
    ℕ → ExistingAtomPolicy → NormalizedAtomWrite → StoreDb → Option (StoreDb × Bool)
write_atom now policy a db =
    let indexed = reindex a.id db.indexed in
    elim (get_atom a.id db) [
      | none ↦
          some
            (record db { atoms = append db.atoms (new_atom now a ∷ []); indexed = indexed }, true)
      | some b ↦
          if str_eq b.content a.content && type_eq b.atom_type a.atom_type
          then some (
            record db {
              atoms = elim policy [
                | update ↦ update_where (has_atom_id a.id) (overwrite now a) db.atoms
                | preserve ↦ db.atoms
              ];
              indexed = indexed;
            },
            false,
          )
          else none
    ]

-- `normalizeAtomWrite`, of a call that gives the type, the content and the confidence.
unfoldable pub normalized : String → CandidateAtom → NormalizedAtomWrite
normalized id c = record {
  id = id;
  atom_type = c.atom_type;
  content = c.content;
  background = none;
  priority = 100;
  confidence = c.confidence;
  pinned = false;
  tags = "[]";
}

unfoldable pub upsert_distilled_atom :
    ℕ → String → CandidateAtom → StoreDb → Option (StoreDb × Bool)
upsert_distilled_atom now id c db = write_atom now preserve (normalized id c) db

unfoldable pub set_status : ℕ → AtomStatus → Atom → Atom
set_status now status a = record a { status = status; updated_at = now }

unfoldable pub mark_store_dirty : ℕ → String → StoreDb → StoreDb
mark_store_dirty now reason db = record db { state = mark_dirty now db.store_key reason db.state }

unfoldable pub supersede_atom : ℕ → String → String → StoreDb → StoreDb
supersede_atom now old_id new_id db =
    mark_store_dirty now ("supersedeAtom " ++ (old_id ++ (" -> " ++ new_id)))
      (record db { atoms = update_where (has_atom_id old_id) (set_status now superseded) db.atoms })

unfoldable pub set_merged : ℕ → List String → List Atom → List Atom
set_merged now [] atoms = atoms
set_merged now (id ∷ ids) atoms =
    set_merged now ids (update_where (has_atom_id id) (set_status now merged) atoms)

unfoldable pub merge_atoms : ℕ → List String → String → StoreDb → StoreDb
merge_atoms now losers winner db =
    let db' = record db { atoms = set_merged now losers db.atoms } in
    elim losers [
      | [] ↦ db'
      | l ∷ ls ↦
          mark_store_dirty now
            ("mergeAtoms " ++ (decimal (length (l ∷ ls)) ++ (" loser(s) -> " ++ winner))) db'
    ]

abbrev active_with_id : String → Atom → Bool
active_with_id id a = str_eq a.id id && is_active_status a.status

-- The rows that the UPDATE changed, none or one.
unfoldable pub archive_atom : ℕ → String → StoreDb → StoreDb × ℕ
archive_atom now id db =
    let changes = count_where (active_with_id id) db.atoms in
    let db' = record db {
      atoms = update_where (active_with_id id) (set_status now archived) db.atoms;
    } in
    (elim changes [ zero ↦ db' | suc n ↦ mark_store_dirty now ("archiveAtom " ++ id) db' ], changes)

abbrev pub has_edge : String → String → EvidenceEdge → Bool
has_edge atom_id stream_id e = str_eq e.atom_id atom_id && str_eq e.stream_id stream_id

abbrev pub any {ℓ} : {A : Type ℓ} → (A → Bool) → List A → Bool
any p [] = false
any p (x ∷ xs) = p x || any p xs

-- INSERT OR IGNORE of the edges one by one. A foreign key that names no row is not ignored: `none`.
unfoldable pub add_evidence : ℕ → String → List String → StoreDb → Option StoreDb
add_evidence now atom_id [] db = some db
add_evidence now atom_id (s ∷ ss) db =
    if any (has_edge atom_id s) db.evidence
    then add_evidence now atom_id ss db
    else if any (has_atom_id atom_id) db.atoms && contains s db.stream
    then add_evidence now atom_id ss (record db {
      evidence =
          append db.evidence (record { atom_id = atom_id; stream_id = s; added_at = now } ∷ []);
    })
    else none

unfoldable pub evidence_for_atom : String → StoreDb → List String
evidence_for_atom atom_id db =
    map (λ (e : EvidenceEdge). e.stream_id)
      (select_where (λ (e : EvidenceEdge). str_eq e.atom_id atom_id) db.evidence)

-- INSERT OR IGNORE.
unfoldable pub record_decision : DecisionRow → StoreDb → StoreDb
record_decision d db =
    if any (λ (r : DecisionRow). str_eq r.id d.id) db.decisions
    then db
    else record db { decisions = append db.decisions (d ∷ []) }
