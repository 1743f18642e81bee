-- ===== src/Distill/Scenes/Laws.antt =====
-- What the second phase of a pass leaves alone, and which failures it remembers: `src/distill/core.ts`.
use falda.Prelude.{
  ◌++◌ as append, ℕ, ◌+◌, String, Option, none, some, List, [], ◌∷◌, ◌≡◌, refl, inl, inr,
  if◌then◌else◌, Bool-cases, select_where,
}
use falda.Distill.Decision.{contains}
use falda.Distill.Store.{StoreDb}
use falda.Distill.Scenes.{
  Outside, Organizer, Progress, going, thrown, ◌>>=◌, Scene, SceneWrite, sync_scene_rendering,
  upsert_scene, persisted, sync_scene_structure, structural, episode, topic, active, retired,
  title_or, codes, needs_embed, embed_text, session_rows, is_active_scene, put_episode,
  project_episode, project_episodes, active_atoms, atoms_from_session, get_scene, episode_scene_id,
}
use falda.Distill.Scenes.Topics.{
  Cosine, TopicOptions, Ratio, topic_title, draw, and_matched, active_topics, members_of,
  cluster_atoms, apply_cluster, retire_unmatched, reconcile_clusters, reconcile_topics, match_for,
  exceeds, churn_fraction,
}
use falda.Distill.Scenes.Narrate.{
  Narration, narrate, narrated_write, member_atoms, narrate_scene, narrate_scenes,
  compute_scene_hash, has_hash,
}
use falda.Distill.Scenes.Organize.{active_atom_ids, arrange, narrate_all, organize_scenes}

abbrev pub state_of : Progress → Organizer
state_of (going s) = s
state_of (thrown s) = s

-- A step behind which `P` holds, whether it returns or throws.
abbrev pub Keeps : (Organizer → Type 0) → Progress → Type 0
Keeps P p = P (state_of p)

Keeps-bind :
    (P : Organizer → Type 0) (p : Progress) (f : Organizer → Progress)
    → Keeps P p
    → ((s : Organizer) → P s → Keeps P (f s))
    → Keeps P (p >>= f)
Keeps-bind P (going s) f h k = k s h
Keeps-bind P (thrown s) f h k = h

abbrev pub episode_write : String → Option Scene → String → List String → SceneWrite
episode_write session existing a more =
    structural episode (title_or existing (append (codes "Session ") (codes session))) (a ∷ more)
      active

module _ (out : Outside) (db : StoreDb) where
  rendering-store :
      (s : Scene) (st : Organizer)
      → st.store ≡ db
      → Keeps (λ o. o.store ≡ db) (sync_scene_rendering out s st)
  unfolding sync_scene_rendering
  rendering-store s st h = elim (Bool-cases (needs_embed out s st.vectors)) [
    | inr n ↦ simp n h
    | inl y ↦ elim (Bool-cases (out.embeds (embed_text s.title s.summary))) [
      | inl e ↦ simp (y, e) h
      | inr e ↦ simp (y, e) h
    ]
  ]

  pub upsert_scene-store :
      (id : String) (w : SceneWrite) (st : Organizer)
      → st.store ≡ db
      → Keeps (λ o. o.store ≡ db) (upsert_scene out id w st)
  unfolding upsert_scene
  upsert_scene-store id w st h =
      rendering-store (persisted out.now id w st.scenes)
        (record st { scenes = sync_scene_structure out.now id w st.scenes }) h

module _ (out : Outside) (P : Organizer → Type 0)
    (on_upsert : (id : String) (w : SceneWrite) (st : Organizer)
      → P st
      → Keeps P (upsert_scene out id w st))
    (on_counters : (st : Organizer) (d u f : ℕ)
      → P st
      → P (record st { derived = d; uuids = u; failures = f })) where
  put_episode-Keeps :
      (session id : String) (ids : List String) (existing : Option Scene) (st : Organizer)
      → P st
      → Keeps P (put_episode out session id ids existing st)
  unfolding put_episode
  put_episode-Keeps session id [] none st h = h
  put_episode-Keeps session id [] (some s) st h =
      on_upsert id (structural episode s.title [] retired) st h
  put_episode-Keeps session id (a ∷ more) existing st h =
      Keeps-bind P (upsert_scene out id (episode_write session existing a more) st)
        (λ s. going (record s { derived = s.derived + 1 }))
        (on_upsert id (episode_write session existing a more) st h)
        (λ s k. on_counters s (s.derived + 1) s.uuids s.failures k)

  pub project_episode-Keeps :
      (session : String) (st : Organizer) → P st → Keeps P (project_episode out session st)
  unfolding project_episode
  project_episode-Keeps session st h =
      put_episode-Keeps session (episode_scene_id out session)
        (active_atoms st.store (atoms_from_session out session st.store))
        (get_scene (episode_scene_id out session) st.scenes) st h

  project_episodes-Keeps :
      (sessions : List String) (st : Organizer) → P st → Keeps P (project_episodes out sessions st)
  unfolding project_episodes
  project_episodes-Keeps [] st h = h
  project_episodes-Keeps (s ∷ ss) st h =
      Keeps-bind P (project_episode out s st) (project_episodes out ss)
        (project_episode-Keeps s st h) (project_episodes-Keeps ss)

  apply_cluster-Keeps :
      (reorg : Ratio) (found : Option Scene) (members : List String) (st : Organizer)
      → P st
      → Keeps P (apply_cluster out reorg found members st)
  unfolding apply_cluster
  apply_cluster-Keeps reorg none members st h =
      on_upsert (out.uuid st.uuids) (structural topic (topic_title out) members active) (draw st)
        (on_counters st st.derived (st.uuids + 1) st.failures h)
  apply_cluster-Keeps reorg (some s) members st h =
      elim (Bool-cases (exceeds reorg (churn_fraction members s.atom_ids))) [
        | inl y ↦ simp y (on_upsert s.scene_id (structural topic s.title members active) st h)
        | inr n ↦ simp n (
            Keeps-bind P
              (upsert_scene out (out.uuid st.uuids)
                (record (structural topic (topic_title out) members active) {
                  derived_from = some (s.scene_id ∷ []);
                })
                (draw st))
              (upsert_scene out s.scene_id (record (structural topic s.title s.atom_ids retired) {
                superseded_by = some (out.uuid st.uuids ∷ []);
              }))
              (on_upsert (out.uuid st.uuids)
                (record (structural topic (topic_title out) members active) {
                  derived_from = some (s.scene_id ∷ []);
                })
                (draw st) (on_counters st st.derived (st.uuids + 1) st.failures h))
              (on_upsert s.scene_id (record (structural topic s.title s.atom_ids retired) {
                superseded_by = some (out.uuid st.uuids ∷ []);
              })))
      ]

  retire_unmatched-Keeps :
      (matched : List String) (ss : List Scene) (st : Organizer)
      → P st
      → Keeps P (retire_unmatched out matched ss st)
  unfolding retire_unmatched
  retire_unmatched-Keeps matched [] st h = h
  retire_unmatched-Keeps matched (s ∷ ss) st h = elim (Bool-cases (contains s.scene_id matched)) [
    | inl y ↦ simp y (retire_unmatched-Keeps matched ss st h)
    | inr n ↦ simp n (
        Keeps-bind P (upsert_scene out s.scene_id (structural topic s.title s.atom_ids retired) st)
          (retire_unmatched out matched ss)
          (on_upsert s.scene_id (structural topic s.title s.atom_ids retired) st h)
          (retire_unmatched-Keeps matched ss))
  ]

  reconcile_clusters-Keeps :
      (opts : TopicOptions) (existing : List Scene) (clusters : List (List String))
      (matched : List String) (st : Organizer)
      → P st
      → Keeps P (reconcile_clusters out opts existing clusters matched st)
  unfolding reconcile_clusters
  reconcile_clusters-Keeps opts existing [] matched st h =
      retire_unmatched-Keeps matched existing st h
  reconcile_clusters-Keeps opts existing (c ∷ cs) matched st h =
      let found = match_for opts.scene_match_threshold existing matched c in
      Keeps-bind P (apply_cluster out opts.scene_reorg_threshold found c st)
        (λ st'.
          reconcile_clusters out opts existing cs (and_matched found matched)
            (record st' { derived = st'.derived + 1 }))
        (apply_cluster-Keeps opts.scene_reorg_threshold found c st h)
        (λ st' k.
          reconcile_clusters-Keeps opts existing cs (and_matched found matched)
            (record st' { derived = st'.derived + 1 })
            (on_counters st' (st'.derived + 1) st'.uuids st'.failures k))

  reconcile_topics-Keeps :
      (cos : Cosine) (opts : TopicOptions) (ids with_vector : List String) (st : Organizer)
      → P st
      → Keeps P (reconcile_topics out cos opts ids with_vector st)
  unfolding reconcile_topics
  reconcile_topics-Keeps cos opts [] with_vector st h =
      retire_unmatched-Keeps [] (active_topics st) st h
  reconcile_topics-Keeps cos opts (a ∷ more) with_vector st h =
      reconcile_clusters-Keeps opts (active_topics st)
        (members_of (cluster_atoms cos with_vector [])) [] st h

  pub narrate_scene-Keeps : (s : Scene) (st : Organizer) → P st → Keeps P (narrate_scene out s st)
  unfolding narrate_scene
  narrate_scene-Keeps s st h =
      let new_hash : String = compute_scene_hash out st.store s.scene_kind s.atom_ids in
      let n : Narration = narrate out s (member_atoms st.store s.atom_ids) in
      elim (Bool-cases (has_hash new_hash s.content_hash)) [
        | inl y ↦ simp y h
        | inr f ↦ simp f (
            on_upsert s.scene_id (narrated_write s new_hash n)
              (record st { failures = if n.failed then st.failures + 1 else st.failures })
              (on_counters st st.derived st.uuids
                (if n.failed then st.failures + 1 else st.failures) h))
      ]

  narrate_scenes-Keeps :
      (ss : List Scene) (st : Organizer) → P st → Keeps P (narrate_scenes out ss st)
  unfolding narrate_scenes
  narrate_scenes-Keeps [] st h = h
  narrate_scenes-Keeps (s ∷ ss) st h =
      Keeps-bind P (narrate_scene out s st) (narrate_scenes out ss) (narrate_scene-Keeps s st h)
        (narrate_scenes-Keeps ss)

  -- What upserts and counters keep, the scenes' part of a pass keeps.
  pub arrange-Keeps :
      (cos : Cosine) (opts : TopicOptions) (st : Organizer)
      → P st
      → Keeps P (arrange out cos opts st)
  unfolding arrange
  arrange-Keeps cos opts st h =
      Keeps-bind P (project_episodes out (session_rows out st.store) st)
        (λ s.
          reconcile_topics out cos opts (active_atom_ids s.store)
            (select_where (λ id. contains id s.store.indexed) (active_atom_ids s.store)) s)
        (project_episodes-Keeps (session_rows out st.store) st h)
        (λ s k.
          reconcile_topics-Keeps cos opts (active_atom_ids s.store)
            (select_where (λ id. contains id s.store.indexed) (active_atom_ids s.store)) s k)

  pub organize_scenes-Keeps :
      (cos : Cosine) (opts : TopicOptions) (st : Organizer)
      → P st
      → Keeps P (organize_scenes out cos opts st)
  unfolding organize_scenes
  organize_scenes-Keeps cos opts st h =
      Keeps-bind P (arrange out cos opts st) (narrate_all out) (arrange-Keeps cos opts st h)
        (λ s k. narrate_scenes-Keeps (select_where is_active_scene s.scenes) s k)

module _ (out : Outside) (cos : Cosine) (opts : TopicOptions) where
  -- The scenes' part of a pass writes neither atoms nor watermarks nor the dirty flag, whether it
  -- returns or throws.
  pub organize_scenes-store :
      (st : Organizer) → (state_of (organize_scenes out cos opts st)).store ≡ st.store
  organize_scenes-store st =
      organize_scenes-Keeps out (λ o. o.store ≡ st.store) (upsert_scene-store out st.store)
        (λ s d u f h. h) cos opts st refl
