-- ===== src/Stream.antt =====
-- The stream of `src/falda.ts`, the turns of the conversations: StreamConflictError, addStream and
-- streamHeadSeq, over the tables stream, stream_fts, stream_vec and atom_evidence.
-- The texts of stream_fts and the vectors of stream_vec are left out of the rows. The clock and the
-- random ids are functions of the position of a turn in the call, and the embedder tells of each text
-- whether it returns a vector.
pub mod Rows
pub mod Deletion
pub mod Retry
pub mod Stuck
pub mod Gaps
pub mod Examples
pub mod Delete
use Prim.Native.String.{◌++◌}
use falda.Prelude.{
  ℕ, suc, ◌+◌, max, String, Bool, true, false, ◌&&◌, ◌||◌, Option, none, some, List, [], ◌∷◌,
  ◌++◌ as append, map, if◌then◌else◌, str_eq, ◌==◌, length, select_one, select_where, delete_where,
  count_where, decimal,
}
use falda.Distill.Decision.{contains}
use falda.Distill.Store.{EvidenceEdge}
use falda.Distill.Watermark.{DistillState, mark_dirty}
use falda.Distill.Commit.{unique}

pub record Turn : Type 0 where
  pub id : String
  pub session_id : String
  pub role : String
  pub content : String
  pub ts : ℕ
  pub turn_index : Option ℕ
  pub turn_id : Option String
  pub seq : ℕ

pub record StreamItem : Type 0 where
  pub id : Option String
  pub role : String
  pub content : String
  pub timestamp : Option ℕ
  pub turn_index : Option ℕ
  pub turn_id : Option String

pub record StreamDb : Type 0 where
  pub store_key : String
  pub stream : List Turn
  pub fts : List String
  pub vec : List String
  pub evidence : List EvidenceEdge
  pub state : DistillState

-- A throw of addStream: a conflict, a UNIQUE constraint of SQLite, or the embedder's.
pub data AddError : Type 0 where
  index_conflict turn_id_conflict constraint embed_failed : AddError

pub data Added : Type 0 where
  ok : String → Added
  thrown : AddError → Added

-- COALESCE(MAX(seq),0)
unfoldable pub head_seq : List Turn → ℕ
head_seq [] = 0
head_seq (t ∷ ts) = max t.seq (head_seq ts)

abbrev pub index_eq : Option ℕ → Option ℕ → Bool
index_eq none none = true
index_eq (some i) (some j) = i == j
index_eq _ _ = false

abbrev pub is_at : ℕ → Option ℕ → Bool
is_at i none = false
is_at i (some j) = j == i

abbrev pub is_named : String → Option String → Bool
is_named k none = false
is_named k (some j) = str_eq j k

-- WHERE session_id=? AND turn_index=?
abbrev pub has_index : String → ℕ → Turn → Bool
has_index session i t = str_eq t.session_id session && is_at i t.turn_index

-- WHERE session_id=? AND turn_id=?
abbrev pub has_turn_id : String → String → Turn → Bool
has_turn_id session k t = str_eq t.session_id session && is_named k t.turn_id

abbrev pub turn_key : Turn → String
turn_key t = t.id

abbrev pub has_turn : String → Turn → Bool
has_turn id t = str_eq (turn_key t) id

abbrev pub or_else {ℓ} : {A : Type ℓ} → Option A → A → A
or_else none y = y
or_else (some x) y = x

unfoldable pub new_turn : String → String → ℕ → StreamItem → List Turn → Turn
new_turn session uuid now m rows = record {
  id = or_else m.id uuid;
  session_id = session;
  role = m.role;
  content = m.content;
  ts = or_else m.timestamp now;
  turn_index = m.turn_index;
  turn_id = m.turn_id;
  seq = head_seq rows + 1;
}

-- What the two checks before the insert say of an item.
pub data Check : Type 0 where
  duplicate : String → Check
  conflict : AddError → Check
  fresh : Check

-- The row that `checkIdx` gets, where the item has an index.
unfoldable pub at_index : String → Option ℕ → List Turn → Option Turn
at_index session none rows = none
at_index session (some i) rows = select_one (has_index session i) rows

-- The row that `checkTid` gets, where the item has a turn id.
unfoldable pub at_turn_id : String → Option String → List Turn → Option Turn
at_turn_id session none rows = none
at_turn_id session (some k) rows = select_one (has_turn_id session k) rows

abbrev pub same_content : String → Option Turn → Check
same_content content none = fresh
same_content content (some t) =
    if str_eq t.content content then duplicate t.id else conflict index_conflict

abbrev pub same_index : Option ℕ → Option Turn → Check
same_index i none = fresh
same_index i (some t) =
    if index_eq t.turn_index i then duplicate t.id else conflict turn_id_conflict

abbrev pub or_check : Check → Check → Check
or_check fresh c = c
or_check (duplicate id) c = duplicate id
or_check (conflict e) c = conflict e

unfoldable pub check_turn : String → StreamItem → List Turn → Check
check_turn session m rows =
    or_check (same_content m.content (at_index session m.turn_index rows))
      (same_index m.turn_index (at_turn_id session m.turn_id rows))

abbrev pub insert_unless : Option Turn → Turn → StreamDb → Option StreamDb
insert_unless (some other) t db = none
insert_unless none t db =
    some (record db { stream = append db.stream (t ∷ []); fts = append db.fts (t.id ∷ []) })

-- `ins`, which the primary key may refuse, and `insF`.
unfoldable pub insert_turn : Turn → StreamDb → Option StreamDb
insert_turn t db = insert_unless (select_one (has_turn t.id) db.stream) t db

-- `insV`, after the embedder's answer.
unfoldable pub insert_vector : String → StreamDb → Option StreamDb
insert_vector id db =
    if contains id db.vec then none else some (record db { vec = append db.vec (id ∷ []) })

unfoldable pub finish_turn : Bool → String → StreamDb → StreamDb × Added
finish_turn embedded id db =
    if embedded
    then elim (insert_vector id db) [ none ↦ (db, thrown constraint) | some db' ↦ (db', ok id) ]
    else (db, thrown embed_failed)

abbrev pub after_insert : Bool → String → StreamDb → Option StreamDb → StreamDb × Added
after_insert embedded id db none = (db, thrown constraint)
after_insert embedded id db (some db') = finish_turn embedded id db'

abbrev pub after_check : Check → StreamDb → StreamDb × Added → StreamDb × Added
after_check (duplicate id) db inserted = (db, ok id)
after_check (conflict e) db inserted = (db, thrown e)
after_check fresh db inserted = inserted

-- One turn of the loop. Nothing is undone after a throw.
unfoldable pub add_turn :
    (String → Bool) → String → String → ℕ → StreamItem → StreamDb → StreamDb × Added
add_turn embeds session uuid now m db =
    let t = new_turn session uuid now m db.stream in
    after_check (check_turn session m db.stream) db
      (after_insert (embeds m.content) t.id db (insert_turn t db))

pub data AddedAll : Type 0 where
  all_ok : List String → AddedAll
  stopped : AddError → AddedAll

abbrev pub and_id : String → AddedAll → AddedAll
and_id id (all_ok ids) = all_ok (id ∷ ids)
and_id id (stopped e) = stopped e

-- A throw ends the loop.
abbrev pub and_then : StreamDb → Added → StreamDb × AddedAll → StreamDb × AddedAll
and_then db (thrown e) rest = (db, stopped e)
and_then db (ok id) rest = (rest.0, and_id id rest.1)

module _ (embeds : String → Bool) (session : String) (uuid : ℕ → String) (now : ℕ → ℕ) where
  unfoldable pub add_stream : ℕ → List StreamItem → StreamDb → StreamDb × AddedAll
  add_stream n [] db = (db, all_ok [])
  add_stream n (m ∷ ms) db =
      let r = add_turn embeds session (uuid n) (now n) m db in
      let rest = add_stream (suc n) ms r.0 in and_then r.0 r.1 rest
