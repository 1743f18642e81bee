-- ===== src/Distill/Scenes/Examples.antt =====
-- A store with one session and one atom: its scenes are arranged and narrated, the embedder fails, and
-- the turns of the session are deleted.
use falda.Prelude.{
  ℕ, String, Bool, true, false, Option, none, some, List, [], ◌∷◌, ◌≡◌, refl, ltb, select_where,
  All, decimal, str_eq,
}
use falda.Capture.{trim_start, trim_end, is_space}
use falda.Distill.Store.{StoreDb, Atom, AtomStatus, get_atom}
use falda.Distill.Plan.{fact, AtomConfidence}
use falda.Distill.Commit.{is_active, unique}
use falda.Distill.Watermark.{
  Watermark, is_dirty, get_core_state, set_core_state, clear_core_state, mark_dirty, clear_dirty,
  upsert, get_watermark,
}
use falda.Distill.Scenes.{
  Scene, Outside, Organizer, going, thrown, episode, active, session_rows, project_episodes,
  project_episode, put_episode, atoms_from_session, active_atoms, get_scene, upsert_scene,
  persisted, sync_scene_structure, sync_scene_rendering, needs_embed, compute_render_hash,
  embed_text, episode_scene_id, is_active_scene,
}
use falda.Distill.Scenes.Topics.{
  Cosine, TopicOptions, cluster_atoms, place_atom, best_cluster, join_or_found, push_member,
  reconcile_topics, reconcile_clusters, match_for, best_match, jaccard, apply_cluster,
  churn_fraction, topic_title, retire_unmatched,
}
use falda.Distill.Scenes.Narrate.{
  sort_text, insert_text, narrate_scenes, narrate_scene, compute_scene_hash, members_text,
  member_atoms, atom_lines, narrate, finish_pass, synthesize_core, completeness_gate,
  compute_core_hash, core_parts,
}
use falda.Distill.Scenes.Organize.{
  active_atom_ids, arrange, organize_scenes, organize, distill_once, StreamTurn, query_stream_seq,
  start_pass, incomplete, skipped,
}
use falda.Distill.Scenes.Laws.{state_of}
use falda.Distill.Scenes.Current.{IsCurrent}
use falda.Distill.Scenes.Gate.{CoreIsCurrent}
use falda.Distill.Scenes.Members.{times, all_members}
use falda.Distill.Scenes.Settled.{organize-Settled, thrown_scenes_are_forgotten}
use falda.Distill.Scenes.Episodes.{IsEpisode, project_episodes-IsEpisode}
use falda.Distill.Scenes.Matching.{cluster_atoms-IsPartition}

abbrev tea : Atom
tea = record {
  id = "a1";
  atom_type = fact;
  content = "likes tea";
  background = none;
  priority = 50;
  confidence = AtomConfidence.high;
  pinned = false;
  status = AtomStatus.active;
  tags = "";
  created_at = 1;
  updated_at = 1;
}

abbrev caught_up : Watermark
caught_up = record {
  store_key = "u:self";
  last_processed_id = some "t1";
  last_processed_ts = some 1;
  last_processed_seq = some 1;
  updated_at = 2;
}

abbrev store_with : List String → StoreDb
store_with turns = record {
  store_key = "u:self";
  atoms = tea ∷ [];
  indexed = "a1" ∷ [];
  evidence = record { atom_id = "a1"; stream_id = "t1"; added_at = 1 } ∷ [];
  stream = turns;
  decisions = [];
  state = record { watermarks = caught_up ∷ []; core_states = []; dirty = [] };
}

abbrev empty_store : StoreDb
empty_store = record {
  store_key = "u:self";
  atoms = [];
  indexed = [];
  evidence = [];
  stream = "t1" ∷ [];
  decisions = [];
  state = record { watermarks = []; core_states = []; dirty = [] };
}

abbrev outside : Bool → Outside
outside embedder = record {
  now = 5;
  digest = λ t. "digest";
  short_digest = λ s. s;
  uuid = λ n. decimal n;
  embeds = λ t. embedder;
  session_of = λ t. "s1";
  title_reply = λ kind atoms. some (b'T' ∷ []);
  summary_reply = λ kind title atoms. some (b'S' ∷ []);
  core_reply = λ scenes. some (b'C' ∷ []);
  unlinks = true;
}

abbrev cosine : Cosine
cosine = record {
  F = ℕ;
  similarity = λ a b. 1;
  greater = λ a b. ltb b a;
  lowest = 0;
  reaches = λ sim. true;
}

abbrev options : TopicOptions
options = record {
  scene_match_threshold = record { num = 1; den = 2 };
  scene_reorg_threshold = record { num = 7; den = 10 };
}

abbrev start : StoreDb → Organizer
start db = record {
  store = db;
  scenes = [];
  vectors = [];
  uuids = 0;
  derived = 0;
  failures = 0;
  core = [];
}

abbrev organized : Organizer
organized = state_of (organize (outside true) cosine options (start (store_with ("t1" ∷ []))))

returns : organize (outside true) cosine options (start (store_with ("t1" ∷ []))) ≡ going organized
unfolding organize organize_scenes arrange session_rows project_episodes project_episode put_episode
    atoms_from_session active_atoms get_scene upsert_scene persisted sync_scene_structure
    sync_scene_rendering needs_embed compute_render_hash embed_text episode_scene_id unique
    is_active get_atom reconcile_topics cluster_atoms place_atom best_cluster join_or_found
    push_member reconcile_clusters match_for best_match jaccard apply_cluster churn_fraction
    topic_title retire_unmatched active_atom_ids sort_text insert_text narrate_scenes narrate_scene
    compute_scene_hash members_text member_atoms atom_lines narrate finish_pass synthesize_core
    completeness_gate compute_core_hash core_parts get_core_state set_core_state clear_core_state
    mark_dirty clear_dirty upsert trim_start trim_end is_space decimal
returns = refl

organize-Settled_example :
    (mid : Organizer) × (arrange (outside true) cosine options (start (store_with ("t1" ∷ [])))
      ≡ going mid)
    × All
        (λ s. IsCurrent (outside true) (store_with ("t1" ∷ [])) organized.scenes s)
        (select_where is_active_scene mid.scenes)
    × (is_dirty "u:self" organized.store.state ≡ false)
    × (organized.failures ≡ 0)
    × CoreIsCurrent
        (outside true)
        (store_with ("t1" ∷ []))
        organized.scenes
        organized.store.state
        organized.core
organize-Settled_example =
    organize-Settled (outside true) cosine options (start (store_with ("t1" ∷ []))) organized tt
      returns

-- The first turn is committed, and the embedder does not answer.
abbrev one_turn : List StreamTurn
one_turn = record { id = "t1"; seq = 1 } ∷ []

abbrev commit_all : List StreamTurn → StoreDb → Option StoreDb
commit_all turns db = some (store_with ("t1" ∷ []))

abbrev interrupted : Organizer
interrupted = state_of (
    organize_scenes (outside false) cosine options
      (start_pass (store_with ("t1" ∷ [])) (start empty_store)))

throws :
    organize_scenes
      (outside false)
      cosine
      options
      (start_pass (store_with ("t1" ∷ [])) (start empty_store))
    ≡ thrown interrupted
unfolding organize_scenes arrange session_rows project_episodes project_episode put_episode
    atoms_from_session active_atoms get_scene upsert_scene persisted sync_scene_structure
    sync_scene_rendering needs_embed compute_render_hash embed_text episode_scene_id unique
    is_active get_atom start_pass
throws = refl

thrown_scenes_are_forgotten_example :
    (pid pid' : String) × (distill_once
        (outside false)
        cosine
        options
        (λ s. s)
        20
        one_turn
        commit_all
        (start empty_store)
      ≡ incomplete pid interrupted)
    × (distill_once (outside true) cosine options (λ s. s) 20 one_turn commit_all interrupted
        ≡ skipped pid' interrupted)
unfolding query_stream_seq get_watermark is_dirty
thrown_scenes_are_forgotten_example =
    thrown_scenes_are_forgotten (outside false) (outside true) cosine options (λ s. s) 20 one_turn
      commit_all commit_all (start empty_store) interrupted (store_with ("t1" ∷ []))
      (record { id = "t1"; seq = 1 }) [] refl refl throws refl refl

abbrev episode_row : Scene
episode_row = record {
  scene_id = "episode:s1";
  scene_kind = episode;
  title = b'T' ∷ [];
  atom_ids = "a1" ∷ [];
  summary = none;
  content_hash = none;
  render_hash = none;
  status = active;
  derived_from = [];
  superseded_by = [];
  created_at = 1;
  updated_at = 1;
}

abbrev projected : Organizer
projected = state_of (project_episodes (outside true) ("s1" ∷ []) (start (store_with ("t1" ∷ []))))

projects :
    project_episodes (outside true) ("s1" ∷ []) (start (store_with ("t1" ∷ []))) ≡ going projected
unfolding project_episodes project_episode put_episode atoms_from_session active_atoms get_scene
    upsert_scene persisted sync_scene_structure sync_scene_rendering needs_embed compute_render_hash
    embed_text episode_scene_id unique is_active get_atom
projects = refl

project_episodes-IsEpisode_example :
    All
      (λ s.
        IsEpisode
          (active_atoms
            (store_with ("t1" ∷ []))
            (atoms_from_session (outside true) s (store_with ("t1" ∷ []))))
          (get_scene (episode_scene_id (outside true) s) projected.scenes))
      ("s1" ∷ [])
    × ((k : String)
        → All (λ s. str_eq (episode_scene_id (outside true) s) k ≡ false) ("s1" ∷ [])
        → get_scene k projected.scenes ≡ get_scene k [])
project_episodes-IsEpisode_example =
    project_episodes-IsEpisode (outside true) ("s1" ∷ []) (start (store_with ("t1" ∷ []))) projected
      (tt, tt) projects

-- Behind the deletion of its only turn the session is not visited, and its episode stays active.
stale_episode :
    project_episodes
      (outside true)
      (session_rows (outside true) (store_with []))
      (record (start (store_with [])) { scenes = episode_row ∷ [] })
    ≡ going (record (start (store_with [])) { scenes = episode_row ∷ [] })
unfolding project_episodes session_rows unique
stale_episode = refl

cluster_atoms-IsPartition_example :
    times "a2" (all_members (cluster_atoms cosine ("a1" ∷ ("a2" ∷ [])) []))
    ≡ times "a2" ("a1" ∷ ("a2" ∷ []))
cluster_atoms-IsPartition_example =
    cluster_atoms-IsPartition cosine ("a1" ∷ ("a2" ∷ [])) ((refl, tt), (tt, tt)) "a2"
