-- ===== src/Distill/Scenes/Topics.antt =====
-- The topic scenes of a pass, `src/distill/core.ts`: greedy clustering of the active atoms, and the
-- matching of the clusters with the topic scenes that are there. A quotient of counts is compared as
-- a fraction, which is what division in double precision gives for counts below 2^26.
use falda.Prelude.{
  ℕ, ◌+◌, ◌*◌, String, Bool, not, ◌&&◌, Option, none, some, List, [], ◌∷◌, ◌++◌ as append,
  if◌then◌else◌, ltb, str_eq, length, select_where, decimal, put,
}
use falda.Context.{Text}
use falda.Distill.Decision.{contains}
use falda.Distill.Commit.{unique}
use falda.Distill.Scenes.{
  Scene, Outside, Organizer, Progress, going, ◌>>=◌, topic, active, retired, upsert_scene,
  structural, is_topic, is_active_scene, codes,
}

pub record Ratio : Type 0 where
  pub num : ℕ
  pub den : ℕ

abbrev pub exceeds : Ratio → Ratio → Bool
exceeds a b = ltb (b.num * a.den) (a.num * b.den)

-- The cosine of two atoms' embeddings and its comparisons.
pub record Cosine : Type 1 where
  pub F : Type 0
  pub similarity : String → String → F
  pub greater : F → F → Bool
  pub lowest : F
  pub reaches : F → Bool

abbrev pub Clusters : Type 0
Clusters = List (String × List String)

module _ (cos : Cosine) where
  open cos use {F, similarity, greater, lowest, reaches}

  -- The cluster whose founder is nearest: the first of equals.
  unfoldable pub best_cluster : String → Clusters → Option String → F → Option String × F
  best_cluster id [] best sim = (best, sim)
  best_cluster id ((c, members) ∷ cs) best sim =
      let nearer = greater (similarity id c) sim in
      best_cluster id cs (if nearer then some c else best) (if nearer then similarity id c else sim)

-- clusters.get(c)!.push(id)
unfoldable pub push_member : String → String → Clusters → Clusters
push_member id c [] = []
push_member id c ((k, members) ∷ cs) =
    let rest = push_member id c cs in
    if str_eq k c then (k, append members (id ∷ [])) ∷ cs else (k, members) ∷ rest

module _ (cos : Cosine) where
  open cos use {F, similarity, greater, lowest, reaches}

  -- The atom joins the nearest cluster if it is near enough, or founds one.
  unfoldable pub join_or_found : String → Clusters → Option String → F → Clusters
  unfolding push_member
  join_or_found id clusters none sim = put id (id ∷ []) clusters
  join_or_found id clusters (some c) sim =
      if reaches sim then push_member id c clusters else put id (id ∷ []) clusters

  unfoldable pub place_atom : String → Clusters → Clusters
  unfolding best_cluster join_or_found
  place_atom id clusters =
      let (best, sim) = best_cluster cos id clusters none lowest in
      join_or_found id clusters best sim

  unfoldable pub cluster_atoms : List String → Clusters → Clusters
  unfolding place_atom
  cluster_atoms [] clusters = clusters
  cluster_atoms (id ∷ ids) clusters = cluster_atoms ids (place_atom id clusters)

-- ids.filter((id) => others.includes(id)), and its opposite
abbrev pub common : List String → List String → List String
common ids others = select_where (λ id. contains id others) ids

abbrev pub missing_from : List String → List String → List String
missing_from ids others = select_where (λ id. not (contains id others)) ids

unfoldable pub jaccard : List String → List String → Ratio
unfolding unique
jaccard members atoms =
    let size = length (unique [] (append members atoms)) in
    if ltb 0 size
    then record { num = length (common members atoms); den = size }
    else record { num = 0; den = 1 }

unfoldable pub best_match :
    List Scene → List String → List String → Option Scene → Ratio → Option Scene × Ratio
unfolding jaccard
best_match [] matched members best overlap = (best, overlap)
best_match (s ∷ ss) matched members best overlap =
    let better =
      not (contains s.scene_id matched) && exceeds (jaccard members s.atom_ids) overlap in
    best_match ss matched members (if better then some s else best)
      (if better then jaccard members s.atom_ids else overlap)

-- The topic scene that a cluster continues, if one overlaps enough.
unfoldable pub match_for : Ratio → List Scene → List String → List String → Option Scene
unfolding best_match
match_for threshold existing matched members =
    let (best, overlap) = best_match existing matched members none (record { num = 0; den = 1 }) in
    if exceeds threshold overlap then none else best

-- churn / prevAtoms.length, or 1
unfoldable pub churn_fraction : List String → List String → Ratio
churn_fraction members prev =
    if ltb 0 (length prev)
    then record {
      num = length (missing_from members prev) + length (missing_from prev members);
      den = length prev;
    }
    else record { num = 1; den = 1 }

abbrev pub draw : Organizer → Organizer
draw st = record st { uuids = st.uuids + 1 }

unfoldable pub topic_title : Outside → Text
topic_title out = append (codes "Topic ") (codes (decimal out.now))

-- One cluster: a new topic scene, the old one with new members, or a new one in place of the old.
unfoldable pub apply_cluster : Outside → Ratio → Option Scene → List String → Organizer → Progress
unfolding churn_fraction topic_title upsert_scene
apply_cluster out reorg none members st =
    upsert_scene out (out.uuid st.uuids) (structural topic (topic_title out) members active)
      (draw st)
apply_cluster out reorg (some s) members st =
    if exceeds reorg (churn_fraction members s.atom_ids)
    then upsert_scene out s.scene_id (structural topic s.title members active) st
    else upsert_scene out (out.uuid st.uuids)
        (record (structural topic (topic_title out) members active) {
          derived_from = some (s.scene_id ∷ []);
        })
        (draw st)
      >>= upsert_scene out s.scene_id (record (structural topic s.title s.atom_ids retired) {
        superseded_by = some (out.uuid st.uuids ∷ []);
      })

abbrev pub and_matched : Option Scene → List String → List String
and_matched none matched = matched
and_matched (some s) matched = s.scene_id ∷ matched

-- Topic scenes with no cluster are retired.
unfoldable pub retire_unmatched : Outside → List String → List Scene → Organizer → Progress
unfolding upsert_scene
retire_unmatched out matched [] st = going st
retire_unmatched out matched (s ∷ ss) st =
    (if contains s.scene_id matched
      then going st
      else upsert_scene out s.scene_id (structural topic s.title s.atom_ids retired) st)
    >>= retire_unmatched out matched ss

pub record TopicOptions : Type 0 where
  pub scene_match_threshold : Ratio
  pub scene_reorg_threshold : Ratio

unfoldable pub reconcile_clusters :
    Outside → TopicOptions → List Scene → List (List String) → List String → Organizer → Progress
unfolding match_for apply_cluster retire_unmatched
reconcile_clusters out opts existing [] matched st = retire_unmatched out matched existing st
reconcile_clusters out opts existing (members ∷ clusters) matched st =
    let found = match_for opts.scene_match_threshold existing matched members in
    apply_cluster out opts.scene_reorg_threshold found members st >>= λ st'.
    reconcile_clusters out opts existing clusters (and_matched found matched)
      (record st' { derived = st'.derived + 1 })

abbrev pub members_of : Clusters → List (List String)
members_of [] = []
members_of ((c, members) ∷ cs) = members ∷ members_of cs

abbrev pub active_topics : Organizer → List Scene
active_topics st = select_where (λ s. is_topic s && is_active_scene s) st.scenes

-- `ids` are the active atoms in the order of their ids, `with_vector` those of them that have a row in
-- atoms_vec.
unfoldable pub reconcile_topics :
    Outside → Cosine → TopicOptions → List String → List String → Organizer → Progress
unfolding cluster_atoms reconcile_clusters retire_unmatched
reconcile_topics out cos opts ids with_vector st = elim ids [
  | [] ↦ retire_unmatched out [] (active_topics st) st
  | a ∷ as_more ↦
      reconcile_clusters out opts (active_topics st) (members_of (cluster_atoms cos with_vector []))
        [] st
]
