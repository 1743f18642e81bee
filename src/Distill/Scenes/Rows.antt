-- ===== src/Distill/Scenes/Rows.antt =====
-- What an upsert of a scene leaves in the table: `upsertScene` in `src/falda.ts`.
use falda.Prelude.{
  ℕ, String, false, Option, none, some, List, [], ◌∷◌, ◌≡◌, refl, sym, ◌∙◌, subst, inl, inr, arith,
  str_eq, str_eq_iff, Bool-cases, Option-cases, ◌++◌, update_where, select_one, select_one-eq-some,
  HasUniqueKeys, update_where-HasUniqueKeys, append-HasUniqueKeys, select_one-update_keyed,
  select_one-update_keyed_ne, select_one-append_ne, select_one-append_self,
}
use falda.Distill.Scenes.{
  Outside, Organizer, going, Scene, SceneWrite, sync_scene_rendering, sync_scene_structure,
  persisted, upsert_scene, without, needs_embed, embed_text, get_scene, has_scene_id, new_scene,
  updated_scene, compute_render_hash,
}
use falda.Distill.Scenes.Laws.{Keeps}

abbrev pub id_of : Scene → String
id_of s = s.scene_id

abbrev pub HasSceneKeys : Organizer → Type 0
HasSceneKeys st = HasUniqueKeys id_of st.scenes

-- `render_hash` is the only column that the rendering may write.
abbrev pub rendered : Option String → Scene → Scene
rendered h s = record s { render_hash = h }

get_scene-id :
    (id : String) (rows : List Scene) {s : Scene} → get_scene id rows ≡ some s → s.scene_id ≡ id
unfolding get_scene
get_scene-id id rows {s} h =
    (str_eq_iff s.scene_id id).0 (select_one-eq-some (has_scene_id id) rows h).1

persisted-id :
    (now : ℕ) (id : String) (w : SceneWrite) (rows : List Scene)
    → (persisted now id w rows).scene_id ≡ id
unfolding persisted
persisted-id now id w rows = elim (Option-cases (get_scene id rows)) [
  | inl n ↦ ground (arith, n)
  | inr (s, h) ↦ ground (arith, h, get_scene-id id rows h)
]

-- The two ways in which the structure is written.
structure-insert :
    (now : ℕ) (id : String) (w : SceneWrite) (rows : List Scene)
    → get_scene id rows ≡ none
    → sync_scene_structure now id w rows ≡ rows ++ new_scene now id w ∷ []
unfolding sync_scene_structure
structure-insert now id w rows h = ground (arith, h)

structure-update :
    (now : ℕ) (id : String) (w : SceneWrite) (rows : List Scene) (s : Scene)
    → get_scene id rows ≡ some s
    → sync_scene_structure now id w rows ≡ update_where (has_scene_id id) (updated_scene now w) rows
unfolding sync_scene_structure
structure-update now id w rows s h = ground (arith, h)

structure-HasUniqueKeys :
    (now : ℕ) (id : String) (w : SceneWrite) (rows : List Scene)
    → HasUniqueKeys id_of rows
    → HasUniqueKeys id_of (sync_scene_structure now id w rows)
structure-HasUniqueKeys now id w rows u = elim (Option-cases (get_scene id rows)) [
  | inl n ↦
      let fresh : select_one (has_scene_id id) rows ≡ none = unfold get_scene in n in
      subst (λ (x : List Scene). HasUniqueKeys id_of x) (sym (structure-insert now id w rows n))
        (append-HasUniqueKeys id_of (new_scene now id w) rows fresh u)
  | inr (s, h) ↦
      subst (λ (x : List Scene). HasUniqueKeys id_of x) (sym (structure-update now id w rows s h))
        (update_where-HasUniqueKeys id_of (has_scene_id id) (updated_scene now w) (λ x. refl) rows
          u)
]

rendering-HasSceneKeys :
    (out : Outside) (s : Scene) (st : Organizer)
    → HasSceneKeys st
    → Keeps HasSceneKeys (sync_scene_rendering out s st)
unfolding sync_scene_rendering
rendering-HasSceneKeys out s st u = elim (Bool-cases (needs_embed out s st.vectors)) [
  | inr n ↦ simp n u
  | inl y ↦ elim (Bool-cases (out.embeds (embed_text s.title s.summary))) [
    | inl e ↦
        simp (y, e)
          (update_where-HasUniqueKeys id_of (has_scene_id s.scene_id)
            (rendered (some (compute_render_hash out s.title s.summary))) (λ x. refl) st.scenes u)
    | inr e ↦ simp (y, e) u
  ]
]

pub upsert_scene-HasSceneKeys :
    (out : Outside) (id : String) (w : SceneWrite) (st : Organizer)
    → HasSceneKeys st
    → Keeps HasSceneKeys (upsert_scene out id w st)
unfolding upsert_scene
upsert_scene-HasSceneKeys out id w st u =
    rendering-HasSceneKeys out (persisted out.now id w st.scenes)
      (record st { scenes = sync_scene_structure out.now id w st.scenes })
      (structure-HasUniqueKeys out.now id w st.scenes u)

-- A rendering that returns changes at most the render hash of one row.
pub record Renders (id : String) (st st' : Organizer) : Type 0 where
  pub others : (k : String) → str_eq id k ≡ false → get_scene k st'.scenes ≡ get_scene k st.scenes
  pub self :
      (s : Scene)
      → get_scene id st.scenes ≡ some s
      → (h : Option String) × (get_scene id st'.scenes ≡ some (rendered h s))
  pub same_failures : st'.failures ≡ st.failures

rendering-Renders :
    (out : Outside) (s : Scene) (st st' : Organizer)
    → sync_scene_rendering out s st ≡ going st'
    → Renders s.scene_id st st'
unfolding sync_scene_rendering
rendering-Renders out s st st' e = elim (Bool-cases (needs_embed out s st.vectors)) [
  | inr n ↦
      let same : st ≡ st' = ground (arith, e, n) in
      subst (λ (x : Organizer). Renders s.scene_id st x) same
        (record { others = λ k ne. refl; self = λ r h. (r.render_hash, h); same_failures = refl })
  | inl y ↦ elim (Bool-cases (out.embeds (embed_text s.title s.summary))) [
    | inr f ↦ ground (arith, e, y, f)
    | inl t ↦
        let hash : Option String = some (compute_render_hash out s.title s.summary) in
        let after : Organizer = record st {
          vectors = s.scene_id ∷ without s.scene_id st.vectors;
          scenes = update_where (has_scene_id s.scene_id) (rendered hash) st.scenes;
        } in
        let same : after ≡ st' = ground (arith, e, y, t) in
        subst (λ (x : Organizer). Renders s.scene_id st x) same
          (record {
            others = λ k ne.
                unfold get_scene in
                select_one-update_keyed_ne id_of (rendered hash) (λ x. refl) s.scene_id k ne
                  st.scenes;
            self = λ r h. (
              hash,
              unfold get_scene in
                  select_one-update_keyed id_of (rendered hash) (λ x. refl) s.scene_id st.scenes h,
            );
            same_failures = refl;
          })
  ]
]

structure-others :
    (now : ℕ) (id k : String) (w : SceneWrite) (rows : List Scene)
    → str_eq id k ≡ false
    → get_scene k (sync_scene_structure now id w rows) ≡ get_scene k rows
unfolding get_scene
structure-others now id k w rows ne = elim (Option-cases (get_scene id rows)) [
  | inl n ↦
      rw (structure-insert now id w rows n)
        (select_one-append_ne id_of k (new_scene now id w) rows ne)
  | inr (s, h) ↦
      rw (structure-update now id w rows s h)
        (select_one-update_keyed_ne id_of (updated_scene now w) (λ x. refl) id k ne rows)
]

module _ (out : Outside) (id : String) (w : SceneWrite) (st st' : Organizer)
    (returned : upsert_scene out id w st ≡ going st') where
  renders : Renders id (record st { scenes = sync_scene_structure out.now id w st.scenes }) st'
  unfolding upsert_scene
  renders =
      subst
        (λ (k : String).
          Renders k (record st { scenes = sync_scene_structure out.now id w st.scenes }) st')
        (persisted-id out.now id w st.scenes)
        (rendering-Renders out (persisted out.now id w st.scenes)
          (record st { scenes = sync_scene_structure out.now id w st.scenes }) st' returned)

  -- An upsert that returns leaves the other rows and the counters alone,
  pub upsert_scene-others :
      (k : String) → str_eq id k ≡ false → get_scene k st'.scenes ≡ get_scene k st.scenes
  upsert_scene-others k ne = renders.others k ne ∙ structure-others out.now id k w st.scenes ne

  pub upsert_scene-failures : st'.failures ≡ st.failures
  upsert_scene-failures = renders.same_failures

  -- and its row has what was written.
  pub upsert_scene_self :
      (s : Scene)
      → get_scene id st.scenes ≡ some s
      → (h : Option String) × (get_scene id st'.scenes
          ≡ some (rendered h (updated_scene out.now w s)))
  upsert_scene_self s h = renders.self (updated_scene out.now w s) written
    where
      written :
          get_scene id (sync_scene_structure out.now id w st.scenes)
          ≡ some (updated_scene out.now w s)
      written = rw (structure-update out.now id w st.scenes s h) (
          unfold get_scene in
          select_one-update_keyed id_of (updated_scene out.now w) (λ x. refl) id st.scenes h)

  -- Whether the scene was there or not, its row is the one that was written.
  pub upsert_scene-row :
      (row : Scene) × (get_scene id st'.scenes ≡ some row)
      × (row.status ≡ w.status)
      × (row.atom_ids ≡ w.atom_ids)
      × (row.scene_kind ≡ w.scene_kind)
  upsert_scene-row = elim (Option-cases (get_scene id st.scenes)) [
    | inr (s, h) ↦
        let (r, found) = upsert_scene_self s h in
        (rendered r (updated_scene out.now w s), found, refl, refl, refl)
    | inl n ↦
        let written : get_scene id (sync_scene_structure out.now id w st.scenes)
            ≡ some (new_scene out.now id w) =
          rw (structure-insert out.now id w st.scenes n) (
            unfold get_scene in
            select_one-append_self id_of (new_scene out.now id w) st.scenes
              (unfold get_scene in n)) in
        let (r, found) = renders.self (new_scene out.now id w) written in
        (rendered r (new_scene out.now id w), found, refl, refl, refl)
  ]
