-- ===== src/Distill/Scenes/Matching.antt =====
-- The clusters of `src/distill/core.ts` partition the atoms, and no topic scene continues two of them.
use falda.Prelude.{
  ◌+◌, String, Bool, false, Option, none, some, List, [], ◌∷◌, ◌≡◌, ◌≢◌, ◌⊎◌, refl, inl, inr, arith,
  if◌then◌else◌, str_eq, str_ne_sym, Bool-cases, All, own, LacksKey, HasUniqueKeys,
}
use falda.Distill.Decision.{contains}
use falda.Distill.Scenes.{Scene, Outside, Organizer, Progress, going, ◌>>=◌}
use falda.Distill.Scenes.Topics.{
  Cosine, Clusters, best_cluster, join_or_found, place_atom, cluster_atoms, Ratio, exceeds, jaccard,
  match_for, and_matched, TopicOptions, apply_cluster, retire_unmatched,
}
use falda.Distill.Scenes.Members.{
  all_members, times, one_if, push_member-times, put-times, push_member-LacksKey, put-lacking,
  own-head, own-tail,
}

module _ (cos : Cosine) where
  -- The nearest cluster is one of those that were looked at.
  best_cluster-own :
      (id : String) (cs : Clusters) (best : Option String) (sim : cos.F) (c : String)
      → (best_cluster cos id cs best sim).0 ≡ some c
      → (best ≡ some c) ⊎ (own c cs ≢ none)
  unfolding best_cluster
  best_cluster-own id [] best sim c h = inl h
  best_cluster-own id ((k, members) ∷ cs) best sim c h =
      let nearer : Bool = cos.greater (cos.similarity id k) sim in
      elim (best_cluster-own id cs (if nearer then some k else best)
        (if nearer then cos.similarity id k else sim) c h) [
          | inr o ↦ inr (own-tail k c members cs o)
          | inl e ↦ elim (Bool-cases nearer) [
            | inl t ↦ let x : some k ≡ some c = rw t at e in inr (own-head k c members cs (cc))
            | inr n ↦ inl (rw n at e)
          ]
        ]

  join_or_found-times :
      (x id : String) (cs : Clusters) (best : Option String) (sim : cos.F)
      → LacksKey id cs
      → ((c : String) → best ≡ some c → own c cs ≢ none)
      → times x (all_members (join_or_found cos id cs best sim))
        ≡ times x (all_members cs) + one_if id x
  unfolding join_or_found
  join_or_found-times x id cs none sim h known = put-times x id cs h
  join_or_found-times x id cs (some c) sim h known = elim (Bool-cases (cos.reaches sim)) [
    | inl t ↦ rw t (push_member-times x id c cs (known c refl))
    | inr n ↦ rw n (put-times x id cs h)
  ]

  join_or_found-LacksKey :
      (k id : String) (cs : Clusters) (best : Option String) (sim : cos.F)
      → str_eq id k ≡ false
      → LacksKey k cs
      → LacksKey k (join_or_found cos id cs best sim)
  unfolding join_or_found
  join_or_found-LacksKey k id cs none sim n h = put-lacking k id (id ∷ []) cs n h
  join_or_found-LacksKey k id cs (some c) sim n h = elim (Bool-cases (cos.reaches sim)) [
    | inl t ↦ rw t (push_member-LacksKey k id c cs h)
    | inr f ↦ rw f (put-lacking k id (id ∷ []) cs n h)
  ]

  place_atom-times :
      (x id : String) (cs : Clusters)
      → LacksKey id cs
      → times x (all_members (place_atom cos id cs)) ≡ times x (all_members cs) + one_if id x
  unfolding place_atom
  place_atom-times x id cs h =
      let r : Option String × cos.F = best_cluster cos id cs none cos.lowest in
      join_or_found-times x id cs r.0 r.1 h
        (λ c e. elim (best_cluster-own id cs none cos.lowest c e) [ inl z ↦ cc | inr o ↦ o ])

  place_all-LacksKey :
      (id : String) (ids : List String) (cs : Clusters)
      → All (λ y. str_eq y id ≡ false) ids
      → All (λ y. LacksKey y cs) ids
      → All (λ y. LacksKey y (place_atom cos id cs)) ids
  unfolding place_atom
  place_all-LacksKey id [] cs n h = tt
  place_all-LacksKey id (y ∷ ys) cs n h =
      let r : Option String × cos.F = best_cluster cos id cs none cos.lowest in
      (
        join_or_found-LacksKey y id cs r.0 r.1 (str_ne_sym y id n.0) h.0,
        place_all-LacksKey id ys cs n.1 h.1,
      )

  clusters-times :
      (x : String) (ids : List String) (cs : Clusters)
      → HasUniqueKeys (λ (y : String). y) ids
      → All (λ y. LacksKey y cs) ids
      → times x (all_members (cluster_atoms cos ids cs)) ≡ times x (all_members cs) + times x ids
  unfolding cluster_atoms
  clusters-times x [] cs u h = omega arith
  clusters-times x (id ∷ ids) cs u h = omega (
    arith,
    clusters-times x ids (place_atom cos id cs) u.1 (place_all-LacksKey id ids cs u.0 h.1),
    place_atom-times x id cs h.0,
  )

  all_lack : (ids : List String) → All (λ y. LacksKey {A = List String} y []) ids
  all_lack [] = tt
  all_lack (y ∷ ys) = (tt, all_lack ys)

  -- Whatever the similarities are, the clusters of distinct atoms hold each of them once and nothing
  -- else.
  pub cluster_atoms-IsPartition :
      (ids : List String)
      → HasUniqueKeys (λ (y : String). y) ids
      → (x : String) → times x (all_members (cluster_atoms cos ids [])) ≡ times x ids
  cluster_atoms-IsPartition ids u x = omega (arith, clusters-times x ids [] u (all_lack ids))

-- The matches that the loop of `reconcile_clusters` makes, one for each cluster.
continued : Ratio → List Scene → List (List String) → List String → List (Option Scene)
continued threshold existing [] matched = []
continued threshold existing (members ∷ clusters) matched =
    let found = match_for threshold existing matched members in
    found ∷ continued threshold existing clusters (and_matched found matched)

-- A scene that may continue a cluster: no earlier cluster has taken it, and its overlap is the one told.
abbrev Fits : List String → List String → Ratio → Scene → Type 0
Fits matched members overlap s =
    (contains s.scene_id matched ≡ false) × (overlap ≡ jaccard members s.atom_ids)

-- The scene, if there is one, has another id.
abbrev pub Differs : String → Option Scene → Type 0
Differs id none = Unit
Differs id (some s) = str_eq s.scene_id id ≡ false

abbrev pub Apart : Option Scene → List (Option Scene) → Type 0
Apart none found = Unit
Apart (some s) found = All (λ o. Differs s.scene_id o) found

abbrev pub AreApart : List (Option Scene) → Type 0
AreApart [] = Unit
AreApart (o ∷ os) = Apart o os × AreApart os

-- The clusters and the scenes that they continue, side by side: each overlap reaches the threshold.
abbrev pub Overlaps : Ratio → List (List String) → List (Option Scene) → Type 0
Overlaps threshold [] [] = Unit
Overlaps threshold (members ∷ clusters) (none ∷ found) = Overlaps threshold clusters found
Overlaps threshold (members ∷ clusters) (some s ∷ found) =
    (exceeds threshold (jaccard members s.atom_ids) ≡ false) × Overlaps threshold clusters found
Overlaps threshold _ _ = ⊥

-- A pass over the clusters with the matches that are told: each cluster continues its scene or founds
-- one, and at the end the topic scenes that continue none are retired.
unfoldable pub carry_out :
    Outside
    → TopicOptions
    → List Scene
    → List (List String)
    → List (Option Scene)
    → List String
    → Organizer
    → Progress
carry_out out opts existing [] found taken st = retire_unmatched out taken existing st
carry_out out opts existing (members ∷ clusters) [] taken st = going st
carry_out out opts existing (members ∷ clusters) (o ∷ found) taken st =
    apply_cluster out opts.scene_reorg_threshold o members st >>= λ st'.
    carry_out out opts existing clusters found (and_matched o taken)
      (record st' { derived = st'.derived + 1 })
