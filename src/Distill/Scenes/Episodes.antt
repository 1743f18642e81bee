-- ===== src/Distill/Scenes/Episodes.antt =====
-- The episodes of `src/distill/core.ts` are the projection of the sessions that still have turns.
use falda.Prelude.{
  ◌+◌, String, false, Option, none, some, List, [], ◌∷◌, ◌≡◌, refl, sym, ◌∙◌, ap, subst, arith,
  str_eq, All,
}
use falda.Distill.Store.{StoreDb}
use falda.Distill.Scenes.{
  Outside, Organizer, Progress, going, Scene, episode, active, retired, upsert_scene, structural,
  get_scene, put_episode, project_episode, project_episodes, active_atoms, atoms_from_session,
  episode_scene_id,
}
use falda.Distill.Scenes.Laws.{Keeps, episode_write, project_episode-Keeps, upsert_scene-store}
use falda.Distill.Scenes.Rows.{upsert_scene-others, upsert_scene-row}
use falda.Distill.Scenes.Current.{going-bind}

-- The row of an episode with these active atoms: none need be there if there are no atoms, and one
-- that is there is retired.
abbrev pub IsEpisode : List String → Option Scene → Type 0
IsEpisode [] none = Unit
IsEpisode [] (some r) = (r.status ≡ retired) × (r.atom_ids ≡ [])
IsEpisode (a ∷ more) none = ⊥
IsEpisode (a ∷ more) (some r) =
    (r.status ≡ active) × (r.atom_ids ≡ a ∷ more) × (r.scene_kind ≡ episode)

put_episode-IsEpisode :
    (out : Outside) (session id : String) (ids : List String) (existing : Option Scene)
    (st st' : Organizer)
    → get_scene id st.scenes ≡ existing
    → put_episode out session id ids existing st ≡ going st'
    → IsEpisode ids (get_scene id st'.scenes)
unfolding put_episode
put_episode-IsEpisode out session id [] none st st' h e =
    let same : st ≡ st' = ground (arith, e) in
    subst (λ (x : Organizer). IsEpisode [] (get_scene id x.scenes)) same
      (subst (λ (x : Option Scene). IsEpisode [] x) (sym h) tt)
put_episode-IsEpisode out session id [] (some s) st st' h e =
    let (row, found, status, members, kind) =
      upsert_scene-row out id (structural episode s.title [] retired) st st' e in
    subst (λ (x : Option Scene). IsEpisode [] x) (sym found) (status, members)
put_episode-IsEpisode out session id (a ∷ more) existing st st' h e =
    let (mid, written, rest) =
      going-bind (upsert_scene out id (episode_write session existing a more) st)
        (λ s. going (record s { derived = s.derived + 1 })) st' e in
    let same : record mid { derived = mid.derived + 1 } ≡ st' = ground (arith, rest) in
    let (row, found, status, members, kind) =
      upsert_scene-row out id (episode_write session existing a more) st mid written in
    subst (λ (x : Organizer). IsEpisode (a ∷ more) (get_scene id x.scenes)) same
      (subst (λ (x : Option Scene). IsEpisode (a ∷ more) x) (sym found) (status, members, kind))

put_episode-others :
    (out : Outside) (session id k : String) (ids : List String) (existing : Option Scene)
    (st st' : Organizer)
    → str_eq id k ≡ false
    → put_episode out session id ids existing st ≡ going st'
    → get_scene k st'.scenes ≡ get_scene k st.scenes
unfolding put_episode
put_episode-others out session id k [] none st st' ne e =
    let same : st ≡ st' = ground (arith, e) in
    ap (λ (x : Organizer). get_scene k x.scenes) (sym same)
put_episode-others out session id k [] (some s) st st' ne e =
    upsert_scene-others out id (structural episode s.title [] retired) st st' e k ne
put_episode-others out session id k (a ∷ more) existing st st' ne e =
    let (mid, written, rest) =
      going-bind (upsert_scene out id (episode_write session existing a more) st)
        (λ s. going (record s { derived = s.derived + 1 })) st' e in
    let same : record mid { derived = mid.derived + 1 } ≡ st' = ground (arith, rest) in
    ap (λ (x : Organizer). get_scene k x.scenes) (sym same)
    ∙ upsert_scene-others out id (episode_write session existing a more) st mid written k ne

module _ (out : Outside) where
  abbrev ids_in : StoreDb → String → List String
  ids_in db session = active_atoms db (atoms_from_session out session db)

  -- No two of the sessions share an episode: their digests differ.
  abbrev pub HasDistinctEpisodes : List String → Type 0
  HasDistinctEpisodes [] = Unit
  HasDistinctEpisodes (s ∷ ss) =
      All (λ t. str_eq (episode_scene_id out t) (episode_scene_id out s) ≡ false) ss
      × HasDistinctEpisodes ss

  episodes-others :
      (k : String) (sessions : List String) (st st' : Organizer)
      → All (λ t. str_eq (episode_scene_id out t) k ≡ false) sessions
      → project_episodes out sessions st ≡ going st'
      → get_scene k st'.scenes ≡ get_scene k st.scenes
  unfolding project_episodes project_episode
  episodes-others k [] st st' h e =
      let same : st ≡ st' = ground (arith, e) in
      ap (λ (x : Organizer). get_scene k x.scenes) (sym same)
  episodes-others k (s ∷ ss) st st' h e =
      let (mid, first, rest) =
        going-bind (project_episode out s st) (project_episodes out ss) st' e in
      episodes-others k ss mid st' h.1 rest
      ∙ put_episode-others out s (episode_scene_id out s) k (ids_in st.store s)
          (get_scene (episode_scene_id out s) st.scenes) st mid h.0 first

  -- The loop over the sessions, if it returns, leaves for each of them an active episode with just the
  -- active atoms that its turns are evidence for, or none or a retired one if there are no such atoms;
  -- and any scene that is no episode of theirs is as it was, so the episode of a session whose turns
  -- have been deleted keeps the members and the status that it had.
  pub project_episodes-IsEpisode :
      (sessions : List String) (st st' : Organizer)
      → HasDistinctEpisodes sessions
      → project_episodes out sessions st ≡ going st'
      → All
          (λ s.
            IsEpisode
              (active_atoms st.store (atoms_from_session out s st.store))
              (get_scene (episode_scene_id out s) st'.scenes))
          sessions
        × ((k : String)
            → All (λ s. str_eq (episode_scene_id out s) k ≡ false) sessions
            → get_scene k st'.scenes ≡ get_scene k st.scenes)
  unfolding project_episodes project_episode
  project_episodes-IsEpisode sessions st st' d e =
      (go st.store sessions st st' refl d e, λ k h. episodes-others k sessions st st' h e)
    where
      go :
          (db : StoreDb) (ss : List String) (a b : Organizer)
          → a.store ≡ db
          → HasDistinctEpisodes ss
          → project_episodes out ss a ≡ going b
          → All
              (λ s.
                IsEpisode
                  (active_atoms db (atoms_from_session out s db))
                  (get_scene (episode_scene_id out s) b.scenes))
              ss
      go db [] a b h d' e' = tt
      go db (s ∷ ss) a b h d' e' =
          let (mid, first, rest) =
            going-bind (project_episode out s a) (project_episodes out ss) b e' in
          let kept : mid.store ≡ db =
            subst (λ (p : Progress). Keeps (λ o. o.store ≡ db) p) first
              (project_episode-Keeps out (λ o. o.store ≡ db) (upsert_scene-store out db)
                (λ o n u f k. k) s a h) in
          let projected : IsEpisode (ids_in a.store s)
              (get_scene (episode_scene_id out s) mid.scenes) =
            put_episode-IsEpisode out s (episode_scene_id out s) (ids_in a.store s)
              (get_scene (episode_scene_id out s) a.scenes) a mid refl first in
          (
            subst
                (λ (x : StoreDb).
                  IsEpisode (ids_in x s) (get_scene (episode_scene_id out s) b.scenes))
                h
                (subst (λ (x : Option Scene). IsEpisode (ids_in a.store s) x)
                  (sym (episodes-others (episode_scene_id out s) ss mid b d'.0 rest)) projected),
            go db ss mid b kept d'.1 rest,
          )
