-- ===== src/Distill/Scenes.antt =====
-- The second phase of a pass, `src/distill/core.ts`, and the scenes of `src/falda.ts`: the table of
-- scenes and its writes, and the projection of a session's atoms to its episode. The full-text index,
-- the copy of the members in scene_atoms, the mirror files and the log of effects are left out. The
-- phase awaits the model and the embedder many times; it is modelled as one step, in which no other call
-- changes the store between two of its statements.
pub mod Topics
pub mod Narrate
pub mod Organize
pub mod Laws
pub mod Rows
pub mod Current
pub mod Gate
pub mod Settled
pub mod Episodes
pub mod Members
pub mod Matching
mod Examples
use Prim.Native.Char.{code}
use Prim.Native.String.{◌++◌}
use falda.Prelude.{
  ℕ, suc, ◌+◌, String, Bool, true, false, not, ◌&&◌, ◌||◌, Option, none, some, List, [], ◌∷◌,
  ◌++◌ as append, if◌then◌else◌, str_eq, select_one, select_where, update_where, delete_where,
  decimal,
}
use falda.Context.{Text}
use falda.Distill.Decision.{contains}
use falda.Distill.Store.{StoreDb, Atom, EvidenceEdge, get_atom}
use falda.Distill.Commit.{is_active, unique}

pub data SceneKind : Type 0 where
  episode topic : SceneKind

pub data SceneStatus : Type 0 where
  active retired : SceneStatus

pub record Scene : Type 0 where
  pub scene_id : String
  pub scene_kind : SceneKind
  pub title : Text
  pub atom_ids : List String
  pub summary : Option Text
  pub content_hash : Option String
  pub render_hash : Option String
  pub status : SceneStatus
  pub derived_from : List String
  pub superseded_by : List String
  pub created_at : ℕ
  pub updated_at : ℕ

-- The argument of `upsertScene`; `none` is an omitted field, which keeps what the row has.
pub record SceneWrite : Type 0 where
  pub scene_kind : SceneKind
  pub title : Text
  pub atom_ids : List String
  pub summary : Option (Option Text)
  pub content_hash : Option (Option String)
  pub status : SceneStatus
  pub derived_from : Option (List String)
  pub superseded_by : Option (List String)

-- What the phase asks of the outside: the clock, SHA-256 as hexadecimal digits and its first 24, the
-- n-th random id, whether the embedder answers for a text, the session of a turn, and the replies of
-- the model to the prompts of a title, a summary and the core text (`none` is a throw), and whether
-- core.md can be unlinked.
pub record Outside : Type 0 where
  pub now : ℕ
  pub digest : Text → String
  pub short_digest : String → String
  pub uuid : ℕ → String
  pub embeds : Text → Bool
  pub session_of : String → String
  pub title_reply : SceneKind → List Atom → Option Text
  pub summary_reply : SceneKind → Text → List Atom → Option Text
  pub core_reply : List (SceneKind × Text × List Atom) → Option Text
  pub unlinks : Bool

-- The state of the phase: the store, its scenes, the ids in scenes_vec, how many random ids were
-- drawn, `scenes_derived`, `l2FailureCount`, and the core text.
pub record Organizer : Type 0 where
  pub store : StoreDb
  pub scenes : List Scene
  pub vectors : List String
  pub uuids : ℕ
  pub derived : ℕ
  pub failures : ℕ
  pub core : Text

-- A throw keeps what was written before it: the phase is no transaction.
pub data Progress : Type 0 where
  going : Organizer → Progress
  thrown : Organizer → Progress

infixl 5 ◌>>=◌
abbrev pub ◌>>=◌ : Progress → (Organizer → Progress) → Progress
going s >>= f = f s
thrown s >>= f = thrown s

abbrev pub codes : String → Text
codes String.[] = []
codes (String.◌∷◌ c s) = code c ∷ codes s

abbrev pub has_scene_id : String → Scene → Bool
has_scene_id id s = str_eq s.scene_id id

abbrev pub is_active_scene : Scene → Bool
is_active_scene s = elim s.status [ active ↦ true | retired ↦ false ]

abbrev pub is_topic : Scene → Bool
is_topic s = elim s.scene_kind [ topic ↦ true | episode ↦ false ]

unfoldable pub get_scene : String → List Scene → Option Scene
get_scene id rows = select_one (has_scene_id id) rows

abbrev pub or_keep {ℓ} : {A : Type ℓ} → Option A → A → A
or_keep none old = old
or_keep (some new) old = new

-- `syncSceneStructure`: the row that an UPDATE leaves, and the row that an INSERT adds.
abbrev pub updated_scene : ℕ → SceneWrite → Scene → Scene
updated_scene now w s = record s {
  scene_kind = w.scene_kind;
  title = w.title;
  atom_ids = w.atom_ids;
  summary = or_keep w.summary s.summary;
  content_hash = or_keep w.content_hash s.content_hash;
  status = w.status;
  derived_from = or_keep w.derived_from s.derived_from;
  superseded_by = or_keep w.superseded_by s.superseded_by;
  updated_at = now;
}

abbrev pub new_scene : ℕ → String → SceneWrite → Scene
new_scene now id w = record {
  scene_id = id;
  scene_kind = w.scene_kind;
  title = w.title;
  atom_ids = w.atom_ids;
  summary = or_keep w.summary none;
  content_hash = or_keep w.content_hash none;
  render_hash = none;
  status = w.status;
  derived_from = or_keep w.derived_from [];
  superseded_by = or_keep w.superseded_by [];
  created_at = now;
  updated_at = now;
}

-- The row as it is read back.
unfoldable pub persisted : ℕ → String → SceneWrite → List Scene → Scene
persisted now id w rows = elim (get_scene id rows) [
  | none ↦ new_scene now id w
  | some s ↦ updated_scene now w s
]

unfoldable pub sync_scene_structure : ℕ → String → SceneWrite → List Scene → List Scene
sync_scene_structure now id w rows = elim (get_scene id rows) [
  | none ↦ append rows (new_scene now id w ∷ [])
  | some s ↦ update_where (has_scene_id id) (updated_scene now w) rows
]

-- `computeRenderHash`
unfoldable pub compute_render_hash : Outside → Text → Option Text → String
compute_render_hash out title summary =
    out.digest (append title (0x0a ∷ elim summary [ none ↦ [] | some t ↦ t ]))

-- `summary ? title + "\n" + summary : title`
unfoldable pub embed_text : Text → Option Text → Text
embed_text title none = title
embed_text title (some s) = elim s [ [] ↦ title | c ∷ cs ↦ append title (0x0a ∷ (c ∷ cs)) ]

unfoldable pub needs_embed : Outside → Scene → List String → Bool
unfolding compute_render_hash
needs_embed out s vectors =
    not (contains s.scene_id vectors)
    || not (elim s.render_hash [
      | none ↦ false
      | some h ↦ str_eq h (compute_render_hash out s.title s.summary)
    ])

abbrev pub without : String → List String → List String
without id ids = delete_where (λ v. str_eq v id) ids

-- `syncSceneRendering`: the old vector is deleted before the embedder is asked.
unfoldable pub sync_scene_rendering : Outside → Scene → Organizer → Progress
sync_scene_rendering out s st =
    if needs_embed out s st.vectors
    then if out.embeds (embed_text s.title s.summary)
      then going (record st {
        vectors = s.scene_id ∷ without s.scene_id st.vectors;
        scenes =
            update_where (has_scene_id s.scene_id)
              (λ r. record r { render_hash = some (compute_render_hash out s.title s.summary) })
              st.scenes;
      })
      else thrown (record st { vectors = without s.scene_id st.vectors })
    else going st

unfoldable pub upsert_scene : Outside → String → SceneWrite → Organizer → Progress
upsert_scene out id w st =
    sync_scene_rendering out (persisted out.now id w st.scenes)
      (record st { scenes = sync_scene_structure out.now id w st.scenes })

abbrev pub structural : SceneKind → Text → List String → SceneStatus → SceneWrite
structural kind title ids status = record {
  scene_kind = kind;
  title = title;
  atom_ids = ids;
  summary = none;
  content_hash = none;
  status = status;
  derived_from = none;
  superseded_by = none;
}

-- SELECT DISTINCT ... FROM atom_evidence JOIN stream: an edge to a deleted turn has no session.
abbrev pub joined : StoreDb → List EvidenceEdge
joined db = select_where (λ e. contains e.stream_id db.stream) db.evidence

abbrev pub sessions_in : Outside → List EvidenceEdge → List String
sessions_in out [] = []
sessions_in out (e ∷ es) = out.session_of e.stream_id ∷ sessions_in out es

abbrev pub atoms_in : Outside → String → List EvidenceEdge → List String
atoms_in out session [] = []
atoms_in out session (e ∷ es) =
    let rest = atoms_in out session es in
    if str_eq (out.session_of e.stream_id) session then e.atom_id ∷ rest else rest

unfoldable pub atoms_from_session : Outside → String → StoreDb → List String
unfolding unique
atoms_from_session out session db = unique [] (atoms_in out session (joined db))

unfoldable pub session_rows : Outside → StoreDb → List String
unfolding unique
session_rows out db = unique [] (sessions_in out (joined db))

unfoldable pub episode_scene_id : Outside → String → String
episode_scene_id out session = "episode:" ++ out.short_digest session

unfoldable pub active_atoms : StoreDb → List String → List String
unfolding is_active
active_atoms db ids = select_where (is_active db) ids

abbrev pub title_or : Option Scene → Text → Text
title_or none text = text
title_or (some s) text = s.title

-- The episode of a session with these active atoms, which has this row so far.
unfoldable pub put_episode :
    Outside → String → String → List String → Option Scene → Organizer → Progress
put_episode out session id [] none st = going st
put_episode out session id [] (some s) st =
    upsert_scene out id (structural episode s.title [] retired) st
put_episode out session id (a ∷ as_more) existing st =
    upsert_scene out id
      (structural episode (title_or existing (append (codes "Session ") (codes session)))
        (a ∷ as_more) active)
      st
    >>= λ st'. going (record st' { derived = st'.derived + 1 })

-- One turn of the loop over the sessions.
unfoldable pub project_episode : Outside → String → Organizer → Progress
unfolding put_episode atoms_from_session episode_scene_id active_atoms get_scene
project_episode out session st =
    let id = episode_scene_id out session in
    put_episode out session id (active_atoms st.store (atoms_from_session out session st.store))
      (get_scene id st.scenes) st

unfoldable pub project_episodes : Outside → List String → Organizer → Progress
unfolding project_episode
project_episodes out [] st = going st
project_episodes out (s ∷ ss) st = project_episode out s st >>= project_episodes out ss
