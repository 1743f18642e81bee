-- ===== src/Context/Complete.antt =====
-- A context that is not marked truncated leaves nothing out.
use falda.Prelude.{
  ℕ, ◌+◌, ◌-◌, ◌≤◌, Bool, true, false, not, ◌||◌, some, List, [], ◌∷◌, map, ◌≡◌, refl, sym, ap,
  subst, ◌⊎◌, inl, inr, arith, ltb, Bool-cases, length, select_where,
}
use falda.Context.{
  Text, truncate, FloatOps, AtomHit, SceneHit, StoreReads, ItemCaps, contains_id, admit_pinned,
  admit_ranked, scene_text, admit_scenes, admit_core, AssembledContext, TierBudgets, total_of, norm,
  fill_tiers, assemble_context, atom_limit, scene_limit,
}
use falda.Context.Truncate.{length-truncate}

abbrev pub shown_atoms : ℕ → List AtomHit → List Text
shown_atoms item_cap = map (λ a. truncate a.content item_cap)

abbrev pub shown_scenes : ℕ → List SceneHit → List Text
shown_scenes item_cap = map (λ s. truncate (scene_text s.scene_kind s.title s.summary) item_cap)

admit_pinned_complete :
    (item_cap cap used : ℕ) (atoms : List AtomHit)
    → (admit_pinned item_cap cap used atoms).truncated ≡ false
    → (admit_pinned item_cap cap used atoms).texts ≡ shown_atoms item_cap atoms
unfolding admit_pinned
admit_pinned_complete item_cap cap used [] h = refl
admit_pinned_complete item_cap cap used (a ∷ more) h =
    let n = length (truncate a.content item_cap) in
    ground (arith, admit_pinned_complete item_cap cap (used + n) more)

-- The hits that are not pinned.
abbrev pub unpinned : List AtomHit → List AtomHit → List AtomHit
unpinned pinned_atoms = select_where (λ a. not (contains_id pinned_atoms a.id))

admit_ranked_complete :
    (pinned_atoms : List AtomHit) (item_cap cap used : ℕ) (atoms : List AtomHit)
    → (admit_ranked pinned_atoms item_cap cap used atoms).truncated ≡ false
    → (admit_ranked pinned_atoms item_cap cap used atoms).texts
      ≡ shown_atoms item_cap (unpinned pinned_atoms atoms)
unfolding admit_ranked
admit_ranked_complete pinned_atoms item_cap cap used [] h = refl
admit_ranked_complete pinned_atoms item_cap cap used (a ∷ more) h =
    let n = length (truncate a.content item_cap) in
    ground (
      arith,
      admit_ranked_complete pinned_atoms item_cap cap used more,
      admit_ranked_complete pinned_atoms item_cap cap (used + n) more,
    )

admit_scenes_complete :
    (item_cap cap used : ℕ) (scenes : List SceneHit)
    → (admit_scenes item_cap cap used scenes).truncated ≡ false
    → (admit_scenes item_cap cap used scenes).texts ≡ shown_scenes item_cap scenes
unfolding admit_scenes
admit_scenes_complete item_cap cap used [] h = refl
admit_scenes_complete item_cap cap used (s ∷ more) h =
    let n = length (truncate (scene_text s.scene_kind s.title s.summary) item_cap) in
    ground (arith, admit_scenes_complete item_cap cap (used + n) more)

abbrev pub whole : Text → List Text
whole [] = []
whole (c ∷ cs) = (c ∷ cs) ∷ []

admit_core_complete :
    (cap : ℕ) (core : Text)
    → (admit_core cap core).truncated ≡ false
    → (admit_core cap core).texts ≡ whole core
unfolding admit_core
admit_core_complete cap [] h = refl
admit_core_complete cap (c ∷ cs) h = elim (Bool-cases (ltb 50 cap)) [
  | inr n ↦ ground arith
  | inl t ↦
      let (short, same) = length-truncate (c ∷ cs) cap (ground arith) in
      rw t (ap (λ (x : Text). x ∷ []) (same (ground arith)))
]

-- Everything that was read is shown, for some numbers of search results.
pub record IsComplete (store : StoreReads) (caps : ItemCaps) (ctx : AssembledContext) : Type 0 where
  pub all_pinned : ctx.pinned_atoms ≡ shown_atoms caps.atom_item_cap store.pinned_atoms
  pub atoms_asked : ℕ
  pub atoms_enough : 15 ≤ atoms_asked
  pub all_ranked :
      ctx.ranked_atoms
      ≡ shown_atoms caps.atom_item_cap
          (unpinned store.pinned_atoms (store.search_atoms atoms_asked))
  pub scenes_asked : ℕ
  pub scenes_enough : 8 ≤ scenes_asked
  pub all_scenes : ctx.scenes ≡ shown_scenes caps.scene_item_cap (store.search_scenes scenes_asked)
  pub whole_core : ctx.core ≡ whole store.core

module _ (fl : FloatOps) (store : StoreReads) (caps : ItemCaps) (budget p_a a_a s_a : ℕ) where
  fill_tiers-IsComplete :
      (fill_tiers fl store caps budget p_a a_a s_a).truncated ≡ false
      → IsComplete store caps (fill_tiers fl store caps budget p_a a_a s_a)
  unfolding fill_tiers
  fill_tiers-IsComplete h =
      let p = admit_pinned caps.atom_item_cap p_a 0 store.pinned_atoms in
      let atoms_cap = a_a + (p_a - p.chars) in
      let atoms = store.search_atoms (atom_limit fl atoms_cap) in
      let a = admit_ranked store.pinned_atoms caps.atom_item_cap atoms_cap 0 atoms in
      let scenes_cap = s_a + (atoms_cap - a.chars) in
      let scenes = store.search_scenes (scene_limit fl scenes_cap) in
      let s = admit_scenes caps.scene_item_cap scenes_cap 0 scenes in
      let core_cap = budget + (scenes_cap - s.chars) - p_a - a_a - s_a in
      let c = admit_core core_cap store.core in
      let (fp, fa, fs, fc) = none_true p.truncated a.truncated s.truncated c.truncated h in
      record {
        all_pinned = admit_pinned_complete caps.atom_item_cap p_a 0 store.pinned_atoms fp;
        atoms_asked = atom_limit fl atoms_cap;
        atoms_enough = ground arith;
        all_ranked =
            admit_ranked_complete store.pinned_atoms caps.atom_item_cap atoms_cap 0 atoms fa;
        scenes_asked = scene_limit fl scenes_cap;
        scenes_enough = ground arith;
        all_scenes = admit_scenes_complete caps.scene_item_cap scenes_cap 0 scenes fs;
        whole_core = admit_core_complete core_cap store.core fc;
      }
    where
      none_true :
          (p a s c : Bool)
          → (p || a || s || c) ≡ false
          → (p ≡ false) × (a ≡ false) × (s ≡ false) × (c ≡ false)
      none_true p a s c h = ground arith

-- A context whose `truncated` flag is off shows every pinned atom, every unpinned atom and every
-- scene that its searches returned (each cut only by its own item cap), and the whole core.
pub assemble_context-IsComplete :
    (fl : FloatOps) (store : StoreReads) (caps : ItemCaps) (budget : ℕ) (f : TierBudgets fl)
    (ctx : AssembledContext)
    → assemble_context fl store caps budget f ≡ some ctx
    → ctx.truncated ≡ false
    → IsComplete store caps ctx
unfolding assemble_context
assemble_context-IsComplete fl store caps budget f ctx e h =
    let filled = same (Bool-cases (fl.is_positive (total_of fl f))) in
    subst (IsComplete store caps) filled (
      fill_tiers-IsComplete fl store caps budget (share f.pinned) (share f.atoms) (share f.scenes)
        (subst (λ (c : AssembledContext). c.truncated ≡ false) (sym filled) h))
  where
    share : fl.F → ℕ
    share = norm fl budget (total_of fl f)

    same :
        (fl.is_positive (total_of fl f) ≡ true) ⊎ (fl.is_positive (total_of fl f) ≡ false)
        → fill_tiers fl store caps budget
            (norm fl budget (total_of fl f) f.pinned)
            (norm fl budget (total_of fl f) f.atoms)
            (norm fl budget (total_of fl f) f.scenes)
          ≡ ctx
    same (inl t) = cc (rw (t, assemble_context) at e)
    same (inr n) = cc (rw (n, assemble_context) at e)
