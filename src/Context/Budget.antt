-- ===== src/Context/Budget.antt =====
-- The assembled context fits its budget, and its accounts are right.
use falda.Prelude.{
  subst, ◌⊎◌, ℕ, ◌+◌, ◌-◌, ◌≤◌, true, false, some, List, [], ◌∷◌, ◌++◌, ◌≡◌, refl, inl, inr, arith,
  ltb, Bool-cases, length, sum_of, sum_of-append, length-append,
}
use falda.Recall.Types.{RecallItem}
use falda.Context.{
  Text, truncate, FloatOps, AtomHit, SceneHit, StoreReads, ItemCaps, Admitted, admit_pinned,
  admit_ranked, scene_text, admit_scenes, admit_core, AssembledContext, TierBudgets, total_of, norm,
  fill_tiers, assemble_context, combine, atom_limit, scene_limit,
}
use falda.Context.Truncate.{length-truncate}

-- A loop that began with `used` characters of its `cap` spent.
pub record IsWithin (cap used : ℕ) (r : Admitted) : Type 0 where
  pub fits : used ≤ cap → r.chars ≤ cap
  pub counted : r.chars ≡ used + sum_of length r.texts
  pub itemised : sum_of (λ (i : RecallItem). i.chars) r.items ≡ sum_of length r.texts
  pub paired : length r.items ≡ length r.texts

pub admit_pinned-IsWithin :
    (item_cap cap used : ℕ) (atoms : List AtomHit)
    → IsWithin cap used (admit_pinned item_cap cap used atoms)
unfolding admit_pinned
admit_pinned-IsWithin item_cap cap used [] = omega arith
admit_pinned-IsWithin item_cap cap used (a ∷ more) =
    let n = length (truncate a.content item_cap) in
    let ih = admit_pinned-IsWithin item_cap cap (used + n) more in ground arith

pub admit_ranked-IsWithin :
    (pinned_atoms : List AtomHit) (item_cap cap used : ℕ) (atoms : List AtomHit)
    → IsWithin cap used (admit_ranked pinned_atoms item_cap cap used atoms)
unfolding admit_ranked
admit_ranked-IsWithin pinned_atoms item_cap cap used [] = omega arith
admit_ranked-IsWithin pinned_atoms item_cap cap used (a ∷ more) =
    let n = length (truncate a.content item_cap) in
    ground (
      arith,
      admit_ranked-IsWithin pinned_atoms item_cap cap used more,
      admit_ranked-IsWithin pinned_atoms item_cap cap (used + n) more,
    )

pub admit_scenes-IsWithin :
    (item_cap cap used : ℕ) (scenes : List SceneHit)
    → IsWithin cap used (admit_scenes item_cap cap used scenes)
unfolding admit_scenes
admit_scenes-IsWithin item_cap cap used [] = omega arith
admit_scenes-IsWithin item_cap cap used (s ∷ more) =
    let n = length (truncate (scene_text s.scene_kind s.title s.summary) item_cap) in
    ground (
      arith,
      admit_scenes-IsWithin item_cap cap used more,
      admit_scenes-IsWithin item_cap cap (used + n) more,
    )

pub admit_core-IsWithin : (cap : ℕ) (core : Text) → IsWithin cap 0 (admit_core cap core)
unfolding admit_core
admit_core-IsWithin cap [] = omega arith
admit_core-IsWithin cap (c ∷ cs) = elim (Bool-cases (ltb 50 cap)) [
  | inl t ↦
      let (short, _) = length-truncate (c ∷ cs) cap (ground arith) in
      rw t
        (record { fits = λ _. short; counted = omega arith; itemised = omega arith; paired = refl })
  | inr n ↦ rw n (omega arith)
]

-- What the budget promises, for the allowances of the three tiers before the core.
pub record IsBalanced (budget pinned_allowance atoms_allowance scenes_allowance : ℕ)
    (ctx : AssembledContext) : Type 0 where
  pub total_fits : ctx.total_chars ≤ budget
  pub pinned_fits : ctx.pinned_chars ≤ pinned_allowance
  pub atoms_fit : ctx.pinned_chars + ctx.atoms_chars ≤ pinned_allowance + atoms_allowance
  pub scenes_fit :
      ctx.pinned_chars + ctx.atoms_chars + ctx.scenes_chars
      ≤ pinned_allowance + atoms_allowance + scenes_allowance
  pub rendered :
      ctx.total_chars
      ≡ sum_of length ctx.pinned_atoms
        + sum_of length ctx.ranked_atoms
        + sum_of length ctx.scenes
        + sum_of length ctx.core
  pub itemised : sum_of (λ (i : RecallItem). i.chars) ctx.items ≡ ctx.total_chars
  pub one_item_each :
      length ctx.items
      ≡ length ctx.pinned_atoms + length ctx.ranked_atoms + length ctx.scenes + length ctx.core

module _ (fl : FloatOps) (store : StoreReads) (caps : ItemCaps) (budget p_a a_a s_a : ℕ) where
  fill_tiers-IsBalanced :
      p_a + a_a + s_a ≤ budget
      → IsBalanced budget p_a a_a s_a (fill_tiers fl store caps budget p_a a_a s_a)
  unfolding fill_tiers
  fill_tiers-IsBalanced h =
      let p = admit_pinned caps.atom_item_cap p_a 0 store.pinned_atoms in
      let atoms_cap = a_a + (p_a - p.chars) in
      let a =
        admit_ranked store.pinned_atoms caps.atom_item_cap atoms_cap 0
          (store.search_atoms (atom_limit fl atoms_cap)) in
      let scenes_cap = s_a + (atoms_cap - a.chars) in
      let s =
        admit_scenes caps.scene_item_cap scenes_cap 0
          (store.search_scenes (scene_limit fl scenes_cap)) in
      let core_cap = budget + (scenes_cap - s.chars) - p_a - a_a - s_a in
      let c = admit_core core_cap store.core in
      let wp = admit_pinned-IsWithin caps.atom_item_cap p_a 0 store.pinned_atoms in
      let wa =
        admit_ranked-IsWithin store.pinned_atoms caps.atom_item_cap atoms_cap 0
          (store.search_atoms (atom_limit fl atoms_cap)) in
      let ws =
        admit_scenes-IsWithin caps.scene_item_cap scenes_cap 0
          (store.search_scenes (scene_limit fl scenes_cap)) in
      let wc = admit_core-IsWithin core_cap store.core in balanced p a s c wp wa ws wc
    where
      chars : RecallItem → ℕ
      chars i = i.chars

      balanced :
          (p a s c : Admitted)
          → IsWithin p_a 0 p
          → IsWithin (a_a + (p_a - p.chars)) 0 a
          → IsWithin (s_a + (a_a + (p_a - p.chars) - a.chars)) 0 s
          → IsWithin
              (budget + (s_a + (a_a + (p_a - p.chars) - a.chars) - s.chars) - p_a - a_a - s_a)
              0
              c
          → IsBalanced budget p_a a_a s_a (combine budget p a s c)
      balanced p a s c wp wa ws wc =
          let fp = wp.fits (omega arith) in
          let fa = wa.fits (omega arith) in
          let fs = ws.fits (omega arith) in
          let fc = wc.fits (omega arith) in
          record {
            total_fits = omega arith;
            pinned_fits = fp;
            atoms_fit = omega arith;
            scenes_fit = omega arith;
            rendered = omega (arith, wp.counted, wa.counted, ws.counted, wc.counted);
            itemised =
                rw
                  (
                    sum_of-append chars p.items (a.items ++ (s.items ++ c.items)),
                    sum_of-append chars a.items (s.items ++ c.items),
                    sum_of-append chars s.items c.items,
                  )
                  (omega (
                    arith, wp.counted, wa.counted, ws.counted, wc.counted, wp.itemised, wa.itemised,
                    ws.itemised, wc.itemised,
                  ));
            one_item_each =
                rw
                  (
                    length-append p.items (a.items ++ (s.items ++ c.items)),
                    length-append a.items (s.items ++ c.items),
                    length-append s.items c.items,
                  )
                  (omega (arith, wp.paired, wa.paired, ws.paired, wc.paired));
          }

-- Where the rounded shares of the first three tiers fit the budget together, so does the whole
-- context: every tier keeps to its share and what the tiers before it left, the totals count the
-- texts that are rendered, and each text has one item with its count of characters.
pub assemble_context-IsBalanced :
    (fl : FloatOps) (store : StoreReads) (caps : ItemCaps) (budget : ℕ) (f : TierBudgets fl)
    (ctx : AssembledContext)
    → norm fl budget (total_of fl f) f.pinned
        + norm fl budget (total_of fl f) f.atoms
        + norm fl budget (total_of fl f) f.scenes
      ≤ budget
    → assemble_context fl store caps budget f ≡ some ctx
    → IsBalanced budget
        (norm fl budget (total_of fl f) f.pinned)
        (norm fl budget (total_of fl f) f.atoms)
        (norm fl budget (total_of fl f) f.scenes)
        ctx
unfolding assemble_context
assemble_context-IsBalanced fl store caps budget f ctx h e =
    let total = total_of fl f in
    let p_a = norm fl budget total f.pinned in
    let a_a = norm fl budget total f.atoms in
    let s_a = norm fl budget total f.scenes in
    subst (IsBalanced budget p_a a_a s_a) (same (Bool-cases (fl.is_positive total)))
      (fill_tiers-IsBalanced fl store caps budget p_a a_a s_a h)
  where
    same :
        (fl.is_positive (total_of fl f) ≡ true) ⊎ (fl.is_positive (total_of fl f) ≡ false)
        → fill_tiers fl store caps budget
            (norm fl budget (total_of fl f) f.pinned)
            (norm fl budget (total_of fl f) f.atoms)
            (norm fl budget (total_of fl f) f.scenes)
          ≡ ctx
    same (inl t) = cc (rw (t, assemble_context) at e)
    same (inr n) = cc (rw (n, assemble_context) at e)
