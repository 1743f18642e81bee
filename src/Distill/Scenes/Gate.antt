-- ===== src/Distill/Scenes/Gate.antt =====
-- The core text and the gate at the end of a pass of `src/distill/core.ts`, one by one.
use falda.Prelude.{
  ℕ, String, Bool, true, false, ◌||◌, none, List, [], ◌≡◌, ◌⊎◌, refl, ◌∙◌, subst, inl, inr, arith,
  ltb, if◌then◌else◌, str_eq_refl, Bool-cases, Option-cases, List-cases, select_where,
}
use falda.Context.{Text}
use falda.Distill.Store.{StoreDb}
use falda.Distill.Watermark.{
  DistillState, CoreState, is_dirty, get_core_state, set_core_state, clear_core_state, clear_dirty,
  select_one-upsert,
}
use falda.Distill.Watermark.Laws.{clear_dirty_lem, select_one-delete_where}
use falda.Distill.Scenes.{Outside, Organizer, going, Scene, is_active_scene}
use falda.Distill.Scenes.Narrate.{
  has_hash, stored_hash, core_parts, sort_text, compute_core_hash, core_input, final_scenes,
  synthesize_core, completeness_gate, with_state,
}

-- The core's state is gone with the last scene, and its text too, unless it could not be unlinked; or
-- the stored hash is that of the scenes and atoms.
abbrev pub CoreIsCurrent : Outside → StoreDb → List Scene → DistillState → Text → Type 0
CoreIsCurrent out db rows state core =
    ((select_where is_active_scene rows ≡ [])
      × (get_core_state db.store_key state ≡ none)
      × ((out.unlinks ≡ false) ⊎ (core ≡ [])))
    ⊎ (has_hash
          (out.digest (
            core_parts db
              (sort_text (λ (s : Scene). s.scene_id) (select_where is_active_scene rows))))
          (stored_hash (get_core_state db.store_key state))
        ≡ true)

pub record Synthesized (out : Outside) (st st' : Organizer) : Type 0 where
  pub same_key : st'.store.store_key ≡ st.store.store_key
  pub same_scenes : st'.scenes ≡ st.scenes
  pub same_failures : st'.failures ≡ st.failures
  pub is_current : CoreIsCurrent out st.store st.scenes st'.store.state st'.core

pub set_core_state-get :
    (now : ℕ) (key hash : String) (db : DistillState)
    → has_hash hash (stored_hash (get_core_state key (set_core_state now key hash db))) ≡ true
unfolding set_core_state get_core_state
set_core_state-get now key hash db =
    let row : CoreState = record { store_key = key; input_hash = hash; generated_at = now } in
    rw (select_one-upsert (λ (c : CoreState). c.store_key) row db.core_states) (str_eq_refl hash)

pub clear_core_state-get :
    (key : String) (db : DistillState) → get_core_state key (clear_core_state key db) ≡ none
unfolding clear_core_state get_core_state
clear_core_state-get key db =
    select_one-delete_where (λ (c : CoreState). c.store_key) key db.core_states

unlinked : (b : Bool) (core : Text) → (b ≡ false) ⊎ ((if b then [] else core) ≡ [])
unlinked true core = inr refl
unlinked false core = inl refl

pub synthesize_core-Synthesized :
    (out : Outside) (st st' : Organizer)
    → synthesize_core out st ≡ (st', false)
    → Synthesized out st st'
unfolding synthesize_core
synthesize_core-Synthesized out st st' e =
    let key = st.store.store_key in
    let state = st.store.state in
    let stored = stored_hash (get_core_state key state) in
    elim (List-cases (select_where is_active_scene st.scenes)) [
      | inl n ↦
          let after : Organizer = record st {
            core = if out.unlinks then [] else st.core;
            store = record st.store { state = clear_core_state key state };
          } in
          let same : after ≡ st' = ground (arith, e, n) in
          subst (λ (x : Organizer). Synthesized out st x) same
            (record {
              same_key = refl;
              same_scenes = refl;
              same_failures = refl;
              is_current = inl (n, clear_core_state-get key state, unlinked out.unlinks st.core);
            })
      | inr (a, more, c) ↦ elim (Bool-cases (has_hash (compute_core_hash out st) stored)) [
        | inl y ↦
            let same : st ≡ st' = ground (arith, e, c, y) in
            subst (λ (x : Organizer). Synthesized out st x) same
              (record {
                same_key = refl;
                same_scenes = refl;
                same_failures = refl;
                is_current = unfold compute_core_hash in inr y;
              })
        | inr n ↦ elim (Option-cases (out.core_reply (core_input st.store (final_scenes st)))) [
          | inl f ↦ ground (arith, e, c, n, f)
          | inr (text, r) ↦
              let after : Organizer = record st {
                core = text;
                store = record st.store {
                  state = set_core_state out.now key (compute_core_hash out st) state;
                };
              } in
              let same : after ≡ st' = ground (arith, e, c, n, r) in
              subst (λ (x : Organizer). Synthesized out st x) same
                (record {
                  same_key = refl;
                  same_scenes = refl;
                  same_failures = refl;
                  is_current =
                      unfold compute_core_hash in
                      inr (set_core_state-get out.now key (compute_core_hash out st) state);
                })
        ]
      ]
    ]

-- Of the state it is only the core's row that counts.
pub CoreIsCurrent-state :
    (out : Outside) (db : StoreDb) (rows : List Scene) (state state' : DistillState) (core : Text)
    → CoreIsCurrent out db rows state core
    → get_core_state db.store_key state' ≡ get_core_state db.store_key state
    → CoreIsCurrent out db rows state' core
CoreIsCurrent-state out db rows state state' core (inl (n, h, u)) e = inl (n, e ∙ h, u)
CoreIsCurrent-state out db rows state state' core (inr h) e = inr (rw e h)

pub record Gated (failed : Bool) (st st' : Organizer) : Type 0 where
  pub no_failure : (failed ≡ false) × (st.failures ≡ 0)
  pub is_clean : is_dirty st.store.store_key st'.store.state ≡ false
  pub same_scenes : st'.scenes ≡ st.scenes
  pub same_failures : st'.failures ≡ st.failures
  pub same_text : st'.core ≡ st.core
  pub same_core :
      get_core_state st.store.store_key st'.store.state
      ≡ get_core_state st.store.store_key st.store.state

pub completeness_gate-Gated :
    (out : Outside) (failed : Bool) (st st' : Organizer)
    → completeness_gate out failed st ≡ going st'
    → Gated failed st st'
unfolding completeness_gate
completeness_gate-Gated out failed st st' e = elim (Bool-cases (ltb 0 st.failures || failed)) [
  | inl y ↦ ground (arith, e, y)
  | inr n ↦
      let after : Organizer = record st {
        store = with_state st.store (clear_dirty st.store.store_key);
      } in
      let same : after ≡ st' = ground (arith, e, n) in
      subst (λ (x : Organizer). Gated failed st x) same
        (record {
          no_failure = no_failures failed st.failures n;
          is_clean = (clear_dirty_lem st.store.store_key st.store.state).0;
          same_scenes = refl;
          same_failures = refl;
          same_text = refl;
          same_core = unfold get_core_state clear_dirty in refl;
        })
]
  where
    no_failures : (f : Bool) (n : ℕ) → (ltb 0 n || f) ≡ false → (f ≡ false) × (n ≡ 0)
    no_failures f n h = ground (arith, h)
