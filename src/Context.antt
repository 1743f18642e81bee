-- ===== src/Context.antt =====
-- Cross-tier context assembly: `src/distill/context.ts` and `src/recall/render.ts`. A text is the
-- list of its UTF-16 code units, which is what `length` and `slice` of a JavaScript string count.
pub mod Truncate
pub mod Budget
pub mod Complete
mod Examples
use falda.Prelude.{
  ℕ, suc, ◌+◌, ◌-◌, String, Bool, true, false, ◌&&◌, ◌||◌, Option, none, some, List, [], ◌∷◌, ◌++◌,
  map, ltb, leb, ◌==◌, if◌then◌else◌, str_eq, length, take,
}
use falda.Recall.Types.{
  RecallItem, RecallItemSource, t1, t2, t3, atom, scene, core, pinned, ranked, scenes, core_text,
}

abbrev pub Text : Type 0
Text = List ℕ

abbrev dots : Text
dots = b'.' ∷ b'.' ∷ b'.' ∷ []

-- `s.slice(0, limit - 3)`: a negative end counts from the back.
unfoldable pub truncate : Text → ℕ → Text
truncate s limit =
    if leb (length s) limit
    then s
    else take (if ltb limit 3 then length s - (3 - limit) else limit - 3) s ++ dots

-- The double-precision arithmetic of the source, which is not modelled.
pub record FloatOps : Type 1 where
  pub F : Type 0
  pub of_ℕ : ℕ → F
  pub add : F → F → F
  pub mul : F → F → F
  pub div : F → F → F
  pub floor : F → ℕ
  pub ceil : F → ℕ
  pub is_positive : F → Bool
  pub three_halves : F

-- What an assembly reads of the store.
pub record AtomHit : Type 0 where
  pub id : String
  pub content : Text
  pub score : Option String

pub record SceneHit : Type 0 where
  pub scene_id : String
  pub scene_kind : Text
  pub title : Text
  pub summary : Option Text
  pub score : Option String

pub record StoreReads : Type 0 where
  pub pinned_atoms : List AtomHit
  pub search_atoms : ℕ → List AtomHit
  pub search_scenes : ℕ → List SceneHit
  pub core : Text

-- `ATOM_ITEM_CAP` and `SCENE_ITEM_CAP`, resolved from the environment.
pub record ItemCaps : Type 0 where
  pub atom_item_cap : ℕ
  pub scene_item_cap : ℕ

-- What one tier's loop adds to the context.
pub record Admitted : Type 0 where
  pub texts : List Text
  pub chars : ℕ
  pub items : List RecallItem
  pub truncated : Bool

abbrev nothing : ℕ → Bool → Admitted
nothing used truncated = record { texts = []; chars = used; items = []; truncated = truncated }

abbrev admit : Text → RecallItem → Admitted → Admitted
admit t item rest = record rest { texts = t ∷ rest.texts; items = item ∷ rest.items }

abbrev skip : Admitted → Admitted
skip rest = record rest { truncated = true }

abbrev pub atom_item : AtomHit → RecallItemSource → ℕ → Option String → RecallItem
atom_item a source chars score = record {
  tier = t1;
  id = a.id;
  kind = atom;
  source = source;
  chars = chars;
  score = score;
}

abbrev pub contains_id : List AtomHit → String → Bool
contains_id [] id = false
contains_id (a ∷ more) id = str_eq a.id id || contains_id more id

-- The pinned loop stops at the first atom that does not fit.
unfoldable pub admit_pinned : ℕ → ℕ → ℕ → List AtomHit → Admitted
admit_pinned item_cap cap used [] = nothing used false
admit_pinned item_cap cap used (a ∷ more) =
    let t = truncate a.content item_cap in
    let rest = admit_pinned item_cap cap (used + length t) more in
    if ltb cap (used + length t)
    then nothing used true
    else admit t (atom_item a pinned (length t) none) rest

-- The ranked loop leaves pinned atoms out and goes on behind an atom that does not fit.
unfoldable pub admit_ranked : List AtomHit → ℕ → ℕ → ℕ → List AtomHit → Admitted
admit_ranked pinned_atoms item_cap cap used [] = nothing used false
admit_ranked pinned_atoms item_cap cap used (a ∷ more) =
    let t = truncate a.content item_cap in
    let without = admit_ranked pinned_atoms item_cap cap used more in
    let within = admit_ranked pinned_atoms item_cap cap (used + length t) more in
    if contains_id pinned_atoms a.id
    then without
    else if ltb cap (used + length t)
    then skip without
    else admit t (atom_item a ranked (length t) a.score) within

-- `[kind] title`, with the summary on a line of its own; an empty summary counts as none.
unfoldable pub scene_text : Text → Text → Option Text → Text
scene_text kind title summary =
    let head = b'[' ∷ (kind ++ (b']' ∷ (b' ' ∷ title))) in
    elim summary [
      | none ↦ head
      | some s ↦ elim s [ [] ↦ head | c ∷ cs ↦ head ++ (0x0a ∷ (c ∷ cs)) ]
    ]

abbrev pub scene_item : SceneHit → ℕ → RecallItem
scene_item s chars = record {
  tier = t2;
  id = s.scene_id;
  kind = scene;
  source = scenes;
  chars = chars;
  score = s.score;
}

unfoldable pub admit_scenes : ℕ → ℕ → ℕ → List SceneHit → Admitted
admit_scenes item_cap cap used [] = nothing used false
admit_scenes item_cap cap used (s ∷ ss) =
    let t = truncate (scene_text s.scene_kind s.title s.summary) item_cap in
    let without = admit_scenes item_cap cap used ss in
    let within = admit_scenes item_cap cap (used + length t) ss in
    if ltb cap (used + length t) then skip without else admit t (scene_item s (length t)) within

-- The core excerpt: whole, cut at what is left, or left out.
unfoldable pub admit_core : ℕ → Text → Admitted
admit_core cap [] = nothing 0 false
admit_core cap (c ∷ cs) =
    let t = truncate (c ∷ cs) cap in
    if ltb 50 cap
    then record {
      texts = t ∷ [];
      chars = length t;
      items =
          record {
            tier = t3;
            id = "core";
            kind = core;
            source = core_text;
            chars = length t;
            score = none;
          }
          ∷ [];
      truncated = ltb (length t) (length (c ∷ cs));
    }
    else nothing 0 true

pub record AssembledContext : Type 0 where
  pub pinned_atoms : List Text
  pub ranked_atoms : List Text
  pub scenes : List Text
  pub core : List Text
  pub total_chars : ℕ
  pub budget_chars : ℕ
  pub pinned_chars : ℕ
  pub atoms_chars : ℕ
  pub scenes_chars : ℕ
  pub core_chars : ℕ
  pub items : List RecallItem
  pub truncated : Bool

abbrev pub combine : ℕ → Admitted → Admitted → Admitted → Admitted → AssembledContext
combine budget p a s c = record {
  pinned_atoms = p.texts;
  ranked_atoms = a.texts;
  scenes = s.texts;
  core = c.texts;
  total_chars = p.chars + a.chars + s.chars + c.chars;
  budget_chars = budget;
  pinned_chars = p.chars;
  atoms_chars = a.chars;
  scenes_chars = s.chars;
  core_chars = c.chars;
  items = p.items ++ (a.items ++ (s.items ++ c.items));
  truncated = p.truncated || a.truncated || s.truncated || c.truncated;
}

abbrev max_ℕ : ℕ → ℕ → ℕ
max_ℕ a b = if ltb a b then b else a

module _ (fl : FloatOps) where
  open fl use {F, of_ℕ, add, mul, div, floor, ceil, is_positive, three_halves}

  pub record TierBudgets : Type 0 where
    pub pinned : F
    pub atoms : F
    pub scenes : F
    pub core : F

  abbrev pub total_of : TierBudgets → F
  total_of f = add (add (add f.pinned f.atoms) f.scenes) f.core

  -- Math.floor(budget * (f / total))
  abbrev pub norm : ℕ → F → F → ℕ
  norm budget total f = floor (mul (of_ℕ budget) (div f total))

  abbrev pub atom_limit : ℕ → ℕ
  atom_limit cap = max_ℕ 15 (ceil (mul (div (of_ℕ cap) (of_ℕ 100)) three_halves))

  abbrev pub scene_limit : ℕ → ℕ
  scene_limit cap = max_ℕ 8 (ceil (mul (div (of_ℕ cap) (of_ℕ 300)) three_halves))

  -- The four tiers in turn. `core_cap` is `coreAllowance + spillover`, where the allowance is the
  -- remainder of the budget; the sum is taken before the subtraction, so that it stops at zero only
  -- where the source's value is not positive and leaves the core out.
  unfoldable pub fill_tiers : StoreReads → ItemCaps → ℕ → ℕ → ℕ → ℕ → AssembledContext
  fill_tiers store caps budget pinned_allowance atoms_allowance scenes_allowance =
      let p = admit_pinned caps.atom_item_cap pinned_allowance 0 store.pinned_atoms in
      let atoms_cap = atoms_allowance + (pinned_allowance - p.chars) in
      let a =
        admit_ranked store.pinned_atoms caps.atom_item_cap atoms_cap 0
          (store.search_atoms (atom_limit atoms_cap)) in
      let scenes_cap = scenes_allowance + (atoms_cap - a.chars) in
      let s =
        admit_scenes caps.scene_item_cap scenes_cap 0
          (store.search_scenes (scene_limit scenes_cap)) in
      let core_cap =
        budget + (scenes_cap - s.chars) - pinned_allowance - atoms_allowance - scenes_allowance in
      combine budget p a s (admit_core core_cap store.core)

  -- `none` is the error of fractions whose sum is not positive.
  unfoldable pub assemble_context :
      StoreReads → ItemCaps → ℕ → TierBudgets → Option AssembledContext
  unfolding fill_tiers
  assemble_context store caps budget f =
      let total = total_of f in
      if is_positive total
      then some (
          fill_tiers store caps budget (norm budget total f.pinned) (norm budget total f.atoms)
            (norm budget total f.scenes))
      else none
