-- ===== src/Distill/Scenes/Current.antt =====
-- What it means that a pass of `src/distill/core.ts` leaves a store clean: every narration is that of
-- the members that a scene has, and the core text is that of the scenes.
use falda.Prelude.{
  ◌+◌, ◌≤◌, ◌⊎◌, String, true, false, some, List, [], ◌∷◌, ◌≡◌, refl, sym, ◌∙◌, ap, subst, inl, inr,
  arith, if◌then◌else◌, str_eq, str_eq_refl, str_ne_sym, Bool-cases, All, HasUniqueKeys,
}
use falda.Distill.Store.{StoreDb}
use falda.Distill.Scenes.{
  Outside, Organizer, Progress, going, thrown, ◌>>=◌, Scene, SceneWrite, upsert_scene, get_scene,
  updated_scene,
}
use falda.Distill.Scenes.Narrate.{
  Narration, narrate, narrated_write, member_atoms, narrate_scene, narrate_scenes,
  compute_scene_hash, has_hash,
}
use falda.Distill.Scenes.Laws.{Keeps, narrate_scene-Keeps, upsert_scene-store}
use falda.Distill.Scenes.Rows.{
  id_of, rendered, upsert_scene-others, upsert_scene-failures, upsert_scene_self,
}

-- The row of a scene, told by the scene as it was read before the narration.
pub record IsCurrent (out : Outside) (db : StoreDb) (rows : List Scene) (s : Scene) : Type 0 where
  pub row : Scene
  pub found : get_scene s.scene_id rows ≡ some row
  pub members : row.atom_ids ≡ s.atom_ids
  pub is_hashed :
      has_hash (compute_scene_hash out db s.scene_kind s.atom_ids) row.content_hash ≡ true

abbrev hash_in : Outside → StoreDb → Scene → String
hash_in out db s = compute_scene_hash out db s.scene_kind s.atom_ids

abbrev narration_in : Outside → StoreDb → Scene → Narration
narration_in out db s = narrate out s (member_atoms db s.atom_ids)

abbrev counted : Narration → Organizer → Organizer
counted n st = record st { failures = if n.failed then st.failures + 1 else st.failures }

-- The row that holds a hash: the write of a narration that did not fail.
written-has_hash :
    (h : String) (n : Narration) (s : Scene)
    → str_eq h h ≡ true
    → n.failed ≡ false
    → has_hash h (if n.failed then s.content_hash else some h) ≡ true
written-has_hash h n s e f = simp f e

module _ (out : Outside) (s : Scene) (st st' : Organizer)
    (returned : narrate_scene out s st ≡ going st') where
  -- A scene is either current, or it is narrated and written.
  narrate_scene-cases :
      ((has_hash (hash_in out st.store s) s.content_hash ≡ true) × (st ≡ st'))
      ⊎ (upsert_scene out s.scene_id
            (narrated_write s (hash_in out st.store s) (narration_in out st.store s))
            (counted (narration_in out st.store s) st)
          ≡ going st')
  unfolding narrate_scene
  narrate_scene-cases = elim (Bool-cases (has_hash (hash_in out st.store s) s.content_hash)) [
    | inl y ↦ inl (y, ground (arith, returned, y))
    | inr n ↦ inr (ground (arith, returned, n))
  ]

  narrate_scene-failures : st.failures ≤ st'.failures
  narrate_scene-failures = elim (narrate_scene-cases) [
    | inl (y, e) ↦ ground (arith, e)
    | inr e ↦
        let f =
          upsert_scene-failures out s.scene_id
            (narrated_write s (hash_in out st.store s) (narration_in out st.store s))
            (counted (narration_in out st.store s) st) st' e in
        ground (arith, f)
  ]

  narrate_scene-others :
      (k : String) → str_eq s.scene_id k ≡ false → get_scene k st'.scenes ≡ get_scene k st.scenes
  narrate_scene-others k ne = elim (narrate_scene-cases) [
    | inl (y, e) ↦ ap (λ (x : Organizer). get_scene k x.scenes) (sym e)
    | inr e ↦
        upsert_scene-others out s.scene_id
          (narrated_write s (hash_in out st.store s) (narration_in out st.store s))
          (counted (narration_in out st.store s) st) st' e k ne
  ]

  -- A narration that is not counted as a failure leaves the scene's row current.
  narrate_scene-IsCurrent :
      get_scene s.scene_id st.scenes ≡ some s
      → st'.failures ≡ st.failures
      → IsCurrent out st.store st'.scenes s
  narrate_scene-IsCurrent here same = elim (narrate_scene-cases) [
    | inl (y, e) ↦ record {
      row = s;
      found = ap (λ (x : Organizer). get_scene s.scene_id x.scenes) (sym e) ∙ here;
      members = refl;
      is_hashed = y;
    }
    | inr e ↦
        let n : Narration = narration_in out st.store s in
        let w : SceneWrite = narrated_write s (hash_in out st.store s) n in
        let f = upsert_scene-failures out s.scene_id w (counted n st) st' e in
        let (h, found) = upsert_scene_self out s.scene_id w (counted n st) st' e s here in
        record {
          row = rendered h (updated_scene out.now w s);
          found = found;
          members = refl;
          is_hashed =
              written-has_hash (hash_in out st.store s) n s (str_eq_refl (hash_in out st.store s))
                (elim (Bool-cases n.failed) [
                  | inr x ↦ x
                  | inl x ↦ absurd (ground (arith, f, same, x))
                ]);
        }
  ]

pub going-bind :
    (p : Progress) (f : Organizer → Progress) (st' : Organizer)
    → (p >>= f) ≡ going st'
    → (s : Organizer) × (p ≡ going s) × (f s ≡ going st')
going-bind (going s) f st' e = (s, refl, e)
going-bind (thrown s) f st' e = cc

-- What is read of the other scenes is still so behind the narration of one.
carry :
    (s : Scene) (ss : List Scene) (st mid : Organizer)
    → ((k : String) → str_eq s.scene_id k ≡ false → get_scene k mid.scenes ≡ get_scene k st.scenes)
    → All (λ t. str_eq t.scene_id s.scene_id ≡ false) ss
    → All (λ t. get_scene t.scene_id st.scenes ≡ some t) ss
    → All (λ t. get_scene t.scene_id mid.scenes ≡ some t) ss
carry s [] st mid others ne h = tt
carry s (t ∷ ts) st mid others ne h = (
  others t.scene_id (str_ne_sym t.scene_id s.scene_id ne.0) ∙ h.0,
  carry s ts st mid others ne.1 h.1,
)

module _ (out : Outside) where
  pub narrate_scenes-failures :
      (ss : List Scene) (st st' : Organizer)
      → narrate_scenes out ss st ≡ going st'
      → st.failures ≤ st'.failures
  unfolding narrate_scenes
  narrate_scenes-failures [] st st' e = ground (arith, e)
  narrate_scenes-failures (s ∷ ss) st st' e =
      let (mid, first, rest) = going-bind (narrate_scene out s st) (narrate_scenes out ss) st' e in
      omega
        (arith, narrate_scene-failures out s st mid first, narrate_scenes-failures ss mid st' rest)

  narrate_scenes-others :
      (k : String) (ss : List Scene) (st st' : Organizer)
      → narrate_scenes out ss st ≡ going st'
      → All (λ s. str_eq s.scene_id k ≡ false) ss
      → get_scene k st'.scenes ≡ get_scene k st.scenes
  unfolding narrate_scenes
  narrate_scenes-others k [] st st' e h =
      let same : st ≡ st' = ground (arith, e) in
      ap (λ (x : Organizer). get_scene k x.scenes) (sym same)
  narrate_scenes-others k (s ∷ ss) st st' e h =
      let (mid, first, rest) = going-bind (narrate_scene out s st) (narrate_scenes out ss) st' e in
      narrate_scenes-others k ss mid st' rest h.1 ∙ narrate_scene-others out s st mid first k h.0

  pub narrate_scenes-IsCurrent :
      (db : StoreDb) (ss : List Scene) (st st' : Organizer)
      → narrate_scenes out ss st ≡ going st'
      → st.store ≡ db
      → HasUniqueKeys id_of ss
      → All (λ s. get_scene s.scene_id st.scenes ≡ some s) ss
      → st'.failures ≡ st.failures
      → All (λ s. IsCurrent out db st'.scenes s) ss
  unfolding narrate_scenes
  narrate_scenes-IsCurrent db [] st st' e is_db u here same = tt
  narrate_scenes-IsCurrent db (s ∷ ss) st st' e is_db u here same =
      let (mid, first, rest) = going-bind (narrate_scene out s st) (narrate_scenes out ss) st' e in
      let up = narrate_scene-failures out s st mid first in
      let more = narrate_scenes-failures ss mid st' rest in
      let kept : mid.store ≡ db =
        subst (λ (p : Progress). Keeps (λ o. o.store ≡ db) p) first
          (narrate_scene-Keeps out (λ o. o.store ≡ db) (upsert_scene-store out db) (λ o d n f h. h)
            s st is_db) in
      let current : IsCurrent out st.store mid.scenes s =
        narrate_scene-IsCurrent out s st mid first here.0 (omega (arith, up, more, same)) in
      (
        record {
          row = current.row;
          found = narrate_scenes-others s.scene_id ss mid st' rest u.0 ∙ current.found;
          members = current.members;
          is_hashed =
              subst (λ (x : StoreDb). has_hash (hash_in out x s) current.row.content_hash ≡ true)
                is_db current.is_hashed;
        },
        narrate_scenes-IsCurrent db ss mid st' rest kept u.1
            (carry s ss st mid (narrate_scene-others out s st mid first) u.0 here.1)
            (omega (arith, up, more, same)),
      )
