-- ===== src/Recall/Reconstruct.antt =====
-- `src/recall/reconstruct.ts`: what the items of a trace would show today, and which are stale.
use falda.Prelude.{
  ℕ, suc, ◌+◌, String, Bool, true, false, Option, none, some, List, [], ◌∷◌, ◌≡◌, refl, inl, inr,
  arith, length, count_where, Option-cases, Bool-cases, List-cases, ap,
}
use falda.Distill.Store.{AtomStatus, active}
use falda.Context.{Text, ItemCaps, truncate, scene_text}
use falda.Recall.Types.{
  Tier, t1, t2, t3, RecallItemSource, pinned, ranked, scenes, core_text, RecallTraceItemRow,
}

pub data StaleReason : Type 0 where
  not_found superseded merged archived retired deleted : StaleReason

pub record StaleItem : Type 0 where
  pub tier : Tier
  pub id : String
  pub reason : StaleReason

pub record LiveAtom : Type 0 where
  pub status : AtomStatus
  pub content : Text

pub record LiveScene : Type 0 where
  pub is_active : Bool
  pub scene_kind : Text
  pub title : Text
  pub summary : Option Text

-- What the store answers now. An empty core is none.
pub record LiveStore : Type 0 where
  pub get_atom : String → Option LiveAtom
  pub get_scene : String → Option LiveScene
  pub core : Text

pub record Rebuilt : Type 0 where
  pub pinned_atoms : List Text
  pub ranked_atoms : List Text
  pub scenes : List Text
  pub core : Option Text
  pub stale_items : List StaleItem

-- Why an atom's text is not shown, if it is not.
unfoldable pub stale_atom : AtomStatus → Option StaleReason
stale_atom active = none
stale_atom AtomStatus.superseded = some superseded
stale_atom AtomStatus.merged = some merged
stale_atom AtomStatus.archived = some archived

abbrev pub stale : RecallTraceItemRow → StaleReason → Rebuilt → Rebuilt
stale item reason rest = record rest {
  stale_items = record { tier = item.tier; id = item.item_id; reason = reason } ∷ rest.stale_items;
}

unfoldable pub rebuild_atom : ℕ → RecallTraceItemRow → Option LiveAtom → Rebuilt → Rebuilt
rebuild_atom cap item none rest = stale item not_found rest
rebuild_atom cap item (some a) rest = elim (stale_atom a.status) [
  | some reason ↦ stale item reason rest
  | none ↦ elim item.source [
    | pinned ↦ record rest { pinned_atoms = truncate a.content cap ∷ rest.pinned_atoms }
    | _ ↦ record rest { ranked_atoms = truncate a.content cap ∷ rest.ranked_atoms }
  ]
]

unfoldable pub rebuild_scene : ℕ → RecallTraceItemRow → Option LiveScene → Rebuilt → Rebuilt
rebuild_scene cap item none rest = stale item not_found rest
rebuild_scene cap item (some s) rest = elim s.is_active [
  | false ↦ stale item retired rest
  | true ↦ record rest {
    scenes = truncate (scene_text s.scene_kind s.title s.summary) cap ∷ rest.scenes;
  }
]

unfoldable pub rebuild_core : RecallTraceItemRow → Text → Rebuilt → Rebuilt
rebuild_core item [] rest = stale item deleted rest
rebuild_core item (c ∷ cs) rest = record rest { core = some (c ∷ cs) }

-- The loop over the items, in rank order.
unfoldable pub reconstruct_recall_trace : LiveStore → ItemCaps → List RecallTraceItemRow → Rebuilt
unfolding rebuild_atom rebuild_scene rebuild_core
reconstruct_recall_trace store caps [] = record {
  pinned_atoms = [];
  ranked_atoms = [];
  scenes = [];
  core = none;
  stale_items = [];
}
reconstruct_recall_trace store caps (item ∷ items) =
    let rest = reconstruct_recall_trace store caps items in
    elim item.tier [
      | t1 ↦ rebuild_atom caps.atom_item_cap item (store.get_atom item.item_id) rest
      | t2 ↦ rebuild_scene caps.scene_item_cap item (store.get_scene item.item_id) rest
      | t3 ↦ rebuild_core item store.core rest
    ]

abbrev is_core_item : RecallTraceItemRow → Bool
is_core_item item = elim item.tier [ t3 ↦ true | _ ↦ false ]

-- The items of the core tier that are shown: all of them while there is a core text.
abbrev pub core_items : LiveStore → List RecallTraceItemRow → ℕ
core_items store items = elim store.core [ [] ↦ 0 | c ∷ cs ↦ count_where is_core_item items ]

abbrev pub shown_or_stale : Rebuilt → ℕ
shown_or_stale r =
    length r.pinned_atoms + length r.ranked_atoms + length r.scenes + length r.stale_items

module _ (store : LiveStore) (caps : ItemCaps) where
  one_more_atom :
      (item : RecallTraceItemRow) (o : Option LiveAtom) (rest : Rebuilt)
      → shown_or_stale (rebuild_atom caps.atom_item_cap item o rest) ≡ suc (shown_or_stale rest)
  unfolding rebuild_atom
  one_more_atom item none rest = omega arith
  one_more_atom item (some a) rest = elim (Option-cases (stale_atom a.status)) [
    | inr (reason, e) ↦ simp (e, rebuild_atom) (omega arith)
    | inl e ↦ simp (e, rebuild_atom) (by_source item.source)
  ]
    where
      by_source :
          (s : RecallItemSource)
          → shown_or_stale (elim s [
            | pinned ↦ record rest {
              pinned_atoms = truncate a.content caps.atom_item_cap ∷ rest.pinned_atoms;
            }
            | _ ↦ record rest {
              ranked_atoms = truncate a.content caps.atom_item_cap ∷ rest.ranked_atoms;
            }
          ])
            ≡ suc (shown_or_stale rest)
      by_source pinned = omega arith
      by_source ranked = omega arith
      by_source scenes = omega arith
      by_source core_text = omega arith

  one_more_scene :
      (item : RecallTraceItemRow) (o : Option LiveScene) (rest : Rebuilt)
      → shown_or_stale (rebuild_scene caps.scene_item_cap item o rest) ≡ suc (shown_or_stale rest)
  unfolding rebuild_scene
  one_more_scene item none rest = omega arith
  one_more_scene item (some s) rest = elim (Bool-cases s.is_active) [
    | inl t ↦ simp t (omega arith)
    | inr n ↦ simp n (omega arith)
  ]

  core_items_other :
      (item : RecallTraceItemRow) (items : List RecallTraceItemRow)
      → is_core_item item ≡ false
      → core_items store (item ∷ items) ≡ core_items store items
  core_items_other item items n = elim (List-cases store.core) [
    | inl f ↦ simp (f, core_items)
    | inr (c, cs, f) ↦ simp (f, n, core_items) (omega arith)
  ]

  one_more_core :
      (item : RecallTraceItemRow) (items : List RecallTraceItemRow) (rest : Rebuilt)
      → is_core_item item ≡ true
      → shown_or_stale (rebuild_core item store.core rest) + core_items store (item ∷ items)
        ≡ suc (shown_or_stale rest + core_items store items)
  unfolding rebuild_core
  one_more_core item items rest t = elim (List-cases store.core) [
    | inl f ↦ simp (f, rebuild_core, core_items, stale) (omega arith)
    | inr (c, cs, f) ↦ simp (f, t, rebuild_core, core_items) (omega arith)
  ]

  one_more :
      (item : RecallTraceItemRow) (items : List RecallTraceItemRow) (tier : Tier)
      → item.tier ≡ tier
      → shown_or_stale (reconstruct_recall_trace store caps items) + core_items store items
        ≡ length items
      → shown_or_stale (reconstruct_recall_trace store caps (item ∷ items))
          + core_items store (item ∷ items)
        ≡ suc (length items)
  unfolding reconstruct_recall_trace
  one_more item items t1 e ih =
      let rest = reconstruct_recall_trace store caps items in
      let step : shown_or_stale (reconstruct_recall_trace store caps (item ∷ items))
          ≡ suc (shown_or_stale rest) =
        simp e (one_more_atom item (store.get_atom item.item_id) rest) in
      omega (arith, step, ih, core_items_other item items (simp (e, is_core_item)))
  one_more item items t2 e ih =
      let rest = reconstruct_recall_trace store caps items in
      let step : shown_or_stale (reconstruct_recall_trace store caps (item ∷ items))
          ≡ suc (shown_or_stale rest) =
        simp e (one_more_scene item (store.get_scene item.item_id) rest) in
      omega (arith, step, ih, core_items_other item items (simp (e, is_core_item)))
  one_more item items t3 e ih =
      let rest = reconstruct_recall_trace store caps items in
      let here : reconstruct_recall_trace store caps (item ∷ items)
          ≡ rebuild_core item store.core rest =
        simp e in
      let step = one_more_core item items rest (simp (e, is_core_item)) in
      omega (arith, ap shown_or_stale here, step, ih)

-- Every item of the trace is accounted for once: its text is shown in its section, or it is listed as
-- stale, or it is a core item and there is a core text.
pub reconstruct_recall_trace_lem :
    (store : LiveStore) (caps : ItemCaps) (items : List RecallTraceItemRow)
    → shown_or_stale (reconstruct_recall_trace store caps items) + core_items store items
      ≡ length items
unfolding reconstruct_recall_trace
reconstruct_recall_trace_lem store caps [] = elim (List-cases store.core) [
  | inl f ↦ simp (f, core_items) (omega arith)
  | inr (c, cs, f) ↦ simp (f, core_items) (omega arith)
]
reconstruct_recall_trace_lem store caps (item ∷ items) =
    one_more store caps item items item.tier refl (reconstruct_recall_trace_lem store caps items)
