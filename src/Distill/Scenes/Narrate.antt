-- ===== src/Distill/Scenes/Narrate.antt =====
-- The end of a pass, `src/distill/core.ts`: titles and summaries for the scenes whose members have
-- changed, the core text, and the gate that decides whether the store is left clean. Text is sorted by
-- code points. Nothing else changes the store while a reply is awaited.
use Prim.Native.String.{◌++◌, compare}
use Prim.Native.Nat.{Ordering}
use falda.Prelude.{
  ◌+◌, String, Bool, true, false, ◌||◌, Option, none, some, List, [], ◌∷◌, ◌++◌ as append,
  if◌then◌else◌, ltb, str_eq, select_where, decimal, take,
}
use falda.Context.{Text}
use falda.Capture.{trim_start, trim_end}
use falda.Distill.Store.{StoreDb, Atom, get_atom, is_active_status}
use falda.Distill.Watermark.{
  DistillState, CoreState, get_core_state, set_core_state, clear_core_state, mark_dirty,
  clear_dirty,
}
use falda.Distill.Scenes.{
  Scene, SceneKind, SceneWrite, Outside, Organizer, Progress, going, thrown, ◌>>=◌, episode, topic,
  active, upsert_scene, is_active_scene, codes,
}

abbrev pub text_leb : String → String → Bool
text_leb s t = elim (compare s t) [ Ordering.gt ↦ false | _ ↦ true ]

module _ {A : Type 0} (key : A → String) where
  unfoldable pub insert_text : A → List A → List A
  insert_text x [] = x ∷ []
  insert_text x (y ∷ ys) =
      let rest = insert_text x ys in if text_leb (key x) (key y) then x ∷ (y ∷ ys) else y ∷ rest

  unfoldable pub sort_text : List A → List A
  unfolding insert_text
  sort_text [] = []
  sort_text (x ∷ xs) = insert_text x (sort_text xs)

-- SELECT type, content FROM atoms WHERE id = ? AND status = 'active', for each id that has a row.
unfoldable pub member_atoms : StoreDb → List String → List Atom
unfolding get_atom
member_atoms db [] = []
member_atoms db (id ∷ ids) =
    let rest = member_atoms db ids in
    elim (get_atom id db) [
      | none ↦ rest
      | some a ↦ if is_active_status a.status then a ∷ rest else rest
    ]

abbrev pub kind_name : SceneKind → Text
kind_name episode = codes "episode"
kind_name topic = codes "topic"

-- atoms.map((a) => a.id + ":" + a.content).join("|")
unfoldable pub atom_lines : List Atom → Text
atom_lines [] = []
atom_lines (a ∷ more) =
    let rest = atom_lines more in
    append (codes a.id)
      (0x3a ∷ append (codes a.content) (elim more [ [] ↦ [] | b ∷ bs ↦ 0x7c ∷ rest ]))

unfoldable pub members_text : StoreDb → List String → Text
unfolding member_atoms atom_lines sort_text
members_text db ids = atom_lines (member_atoms db (sort_text (λ (id : String). id) ids))

unfoldable pub compute_scene_hash : Outside → StoreDb → SceneKind → List String → String
unfolding members_text
compute_scene_hash out db kind ids =
    out.digest (append (kind_name kind) (0x7c ∷ members_text db ids))

unfoldable pub core_parts : StoreDb → List Scene → Text
unfolding members_text
core_parts db [] = []
core_parts db (s ∷ ss) =
    let rest = core_parts db ss in
    append (kind_name s.scene_kind) (
      0x7c
      ∷ append s.title (
          0x7c
          ∷ append (members_text db s.atom_ids)
              (elim ss [ [] ↦ [] | t ∷ ts ↦ 0x7c ∷ (0x7c ∷ rest) ])))

-- SELECT * FROM scenes WHERE status = 'active' ORDER BY scene_id
abbrev pub final_scenes : Organizer → List Scene
final_scenes st = sort_text (λ (s : Scene). s.scene_id) (select_where is_active_scene st.scenes)

unfoldable pub compute_core_hash : Outside → Organizer → String
unfolding core_parts sort_text
compute_core_hash out st = out.digest (core_parts st.store (final_scenes st))

pub record Narration : Type 0 where
  pub title : Text
  pub summary : Option Text
  pub failed : Bool

-- The two calls of the model: a summary that throws leaves the new title.
unfoldable pub narrate : Outside → Scene → List Atom → Narration
unfolding trim_start trim_end
narrate out s [] = record { title = s.title; summary = s.summary; failed = false }
narrate out s (a ∷ more) = elim (out.title_reply s.scene_kind (a ∷ more)) [
  | none ↦ record { title = s.title; summary = s.summary; failed = true }
  | some t ↦
      let title = take 200 (trim_start (trim_end t)) in
      elim (out.summary_reply s.scene_kind title (a ∷ more)) [
        | none ↦ record { title = title; summary = s.summary; failed = true }
        | some u ↦ record {
          title = title;
          summary = some (trim_start (trim_end u));
          failed = false;
        }
      ]
]

-- `newTitle || sc.title`
abbrev pub or_title : Text → Text → Text
or_title [] old = old
or_title (c ∷ cs) old = c ∷ cs

abbrev pub has_hash : String → Option String → Bool
has_hash h none = false
has_hash h (some k) = str_eq k h

abbrev pub narrated_write : Scene → String → Narration → SceneWrite
narrated_write s new_hash n = record {
  scene_kind = s.scene_kind;
  title = or_title n.title s.title;
  atom_ids = s.atom_ids;
  summary = some n.summary;
  content_hash = some (if n.failed then s.content_hash else some new_hash);
  status = active;
  derived_from = none;
  superseded_by = none;
}

unfoldable pub narrate_scene : Outside → Scene → Organizer → Progress
narrate_scene out s st =
    let new_hash = compute_scene_hash out st.store s.scene_kind s.atom_ids in
    if has_hash new_hash s.content_hash
    then going st
    else let n = narrate out s (member_atoms st.store s.atom_ids) in
      upsert_scene out s.scene_id (narrated_write s new_hash n)
        (record st { failures = if n.failed then st.failures + 1 else st.failures })

unfoldable pub narrate_scenes : Outside → List Scene → Organizer → Progress
unfolding narrate_scene
narrate_scenes out [] st = going st
narrate_scenes out (s ∷ ss) st = narrate_scene out s st >>= narrate_scenes out ss

abbrev pub core_input : StoreDb → List Scene → List (SceneKind × Text × List Atom)
core_input db [] = []
core_input db (s ∷ ss) = (s.scene_kind, s.title, member_atoms db s.atom_ids) ∷ core_input db ss

-- coreState?.input_hash
abbrev pub stored_hash : Option CoreState → Option String
stored_hash none = none
stored_hash (some c) = some c.input_hash

-- L3: the state behind it, and whether the synthesis threw. A core.md that cannot be unlinked stays, and
-- the error is swallowed.
unfoldable pub synthesize_core : Outside → Organizer → Organizer × Bool
synthesize_core out st =
    let key = st.store.store_key in
    let new_hash = compute_core_hash out st in
    elim (select_where is_active_scene st.scenes) [
      | [] ↦
          let store = record st.store { state = clear_core_state key st.store.state } in
          (record st { core = if out.unlinks then [] else st.core; store = store }, false)
      | a ∷ more ↦
          let stored = stored_hash (get_core_state key st.store.state) in
          if has_hash new_hash stored
          then (st, false)
          else elim (out.core_reply (core_input st.store (final_scenes st))) [
            | none ↦ (st, true)
            | some text ↦
                let store = record st.store {
                  state = set_core_state out.now key new_hash st.store.state;
                } in
                (record st { core = text; store = store }, false)
          ]
    ]

abbrev pub with_state : StoreDb → (DistillState → DistillState) → StoreDb
with_state db f = record db { state = f db.state }

-- The completeness gate: a failure marks the store and throws.
unfoldable pub completeness_gate : Outside → Bool → Organizer → Progress
completeness_gate out l3_failed st =
    let key = st.store.store_key in
    let reason =
      "L2/L3 incomplete: "
      ++ (decimal st.failures
          ++ (" scene failure(s)" ++ (if l3_failed then ", core failed" else ""))) in
    if ltb 0 st.failures || l3_failed
    then thrown (record st { store = with_state st.store (mark_dirty out.now key reason) })
    else going (record st { store = with_state st.store (clear_dirty key) })

unfoldable pub finish_pass : Outside → Organizer → Progress
unfolding synthesize_core completeness_gate
finish_pass out st = let (st', failed) = synthesize_core out st in completeness_gate out failed st'
