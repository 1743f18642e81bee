-- ===== src/Distill/Scenes/Settled.antt =====
-- The gate at the end of a pass of `src/distill/core.ts`: what a clean store means, which failures
-- are remembered, and one that is not.
use falda.Prelude.{
  ℕ, String, Bool, true, false, Option, some, List, [], ◌∷◌, ◌≡◌, refl, sym, ◌∙◌, ap, subst, arith,
  select_where, select_one, keyed, All, select_where-HasUniqueKeys, select_where-found, All-imp,
}
use falda.Context.{Text}
use falda.Distill.Store.{StoreDb, mark_store_dirty}
use falda.Distill.Watermark.{is_dirty, get_core_state, pass_id}
use falda.Distill.Scenes.{
  Outside, Organizer, Progress, going, thrown, ◌>>=◌, Scene, get_scene, is_active_scene,
}
use falda.Distill.Scenes.Topics.{Cosine, TopicOptions}
use falda.Distill.Scenes.Narrate.{synthesize_core, finish_pass}
use falda.Distill.Scenes.Organize.{
  arrange, narrate_all, organize_scenes, organize, distill_once, distill_turns, second_phase,
  skipped, incomplete, StreamTurn, query_stream_seq, after_seq, or_zero, end_seq, start_pass,
}
use falda.Distill.Scenes.Laws.{
  Keeps, state_of, arrange-Keeps, organize_scenes-store, upsert_scene-store,
}
use falda.Distill.Scenes.Rows.{id_of, HasSceneKeys, upsert_scene-HasSceneKeys}
use falda.Distill.Scenes.Current.{
  IsCurrent, going-bind, narrate_scenes-IsCurrent, narrate_scenes-failures,
}
use falda.Distill.Scenes.Gate.{
  CoreIsCurrent, Synthesized, synthesize_core-Synthesized, CoreIsCurrent-state, Gated,
  completeness_gate-Gated,
}

module _ (out : Outside) (cos : Cosine) (opts : TopicOptions) where
  -- A pass over a store with one row for a scene id, during whose waits no other call changes the store,
  -- and that ends normally, leaves the store clean, with no narration counted as failed. Each scene
  -- that was active when the scenes had been arranged has a row whose content hash is that of its
  -- members' present contents. Either no scene is active, the core's state is gone and its text is
  -- empty or could not be unlinked, or the stored input hash is that of the active scenes.
  pub organize-Settled :
      (st st' : Organizer)
      → HasSceneKeys st
      → organize out cos opts st ≡ going st'
      → (mid : Organizer) × (arrange out cos opts st ≡ going mid)
        × All (λ s. IsCurrent out st.store st'.scenes s) (select_where is_active_scene mid.scenes)
        × (is_dirty st.store.store_key st'.store.state ≡ false)
        × (st'.failures ≡ 0)
        × CoreIsCurrent out st.store st'.scenes st'.store.state st'.core
  unfolding organize organize_scenes finish_pass
  organize-Settled st st' u e =
      let (s1, scenes_done, finished) =
        going-bind (arrange out cos opts st >>= narrate_all out) (finish_pass out) st' e in
      let (mid, arranged, narrated) =
        going-bind (arrange out cos opts st) (narrate_all out) s1 scenes_done in
      let p : Organizer × Bool = synthesize_core out s1 in
      let gate : Gated p.1 p.0 st' = completeness_gate-Gated out p.1 p.0 st' finished in
      let core : Synthesized out s1 p.0 =
        synthesize_core-Synthesized out s1 p.0 (ap (λ (b : Bool). (p.0, b)) gate.no_failure.0) in
      let keys : HasSceneKeys mid =
        subst (λ (x : Progress). Keeps HasSceneKeys x) arranged
          (arrange-Keeps out HasSceneKeys (upsert_scene-HasSceneKeys out) (λ s d n f h. h) cos opts
            st u) in
      let mid_store : mid.store ≡ st.store =
        subst (λ (x : Progress). Keeps (λ o. o.store ≡ st.store) x) arranged
          (arrange-Keeps out (λ o. o.store ≡ st.store) (upsert_scene-store out st.store)
            (λ s d n f h. h) cos opts st refl) in
      let s1_store : s1.store ≡ st.store =
        subst (λ (x : Progress). (state_of x).store ≡ st.store) scenes_done
          (organize_scenes-store out cos opts st) in
      let up =
        narrate_scenes-failures out (select_where is_active_scene mid.scenes) mid s1 narrated in
      let found = select_where-found id_of is_active_scene mid.scenes keys in
      let current : All (λ s. IsCurrent out st.store s1.scenes s)
          (select_where is_active_scene mid.scenes) =
        narrate_scenes-IsCurrent out st.store (select_where is_active_scene mid.scenes) mid s1
          narrated mid_store (select_where-HasUniqueKeys id_of is_active_scene mid.scenes keys)
          (All-imp
            (λ s.
              (select_one (keyed id_of s.scene_id) mid.scenes ≡ some s)
              × (is_active_scene s ≡ true))
            (λ s. get_scene s.scene_id mid.scenes ≡ some s) (λ s h. unfold get_scene in h.0)
            (select_where is_active_scene mid.scenes) found)
          (omega (arith, up, core.same_failures, gate.no_failure.1)) in
      let key_is : p.0.store.store_key ≡ st.store.store_key =
        core.same_key ∙ ap (λ (db : StoreDb). db.store_key) s1_store in
      let rows : s1.scenes ≡ st'.scenes = sym (gate.same_scenes ∙ core.same_scenes) in
      (
        mid,
        arranged,
        subst
            (λ (r : List Scene).
              All (λ s. IsCurrent out st.store r s) (select_where is_active_scene mid.scenes))
            rows current,
        subst (λ (k : String). is_dirty k st'.store.state ≡ false) key_is gate.is_clean,
        gate.same_failures ∙ gate.no_failure.1,
        subst (λ (db : StoreDb). CoreIsCurrent out db st'.scenes st'.store.state st'.core) s1_store
            (subst (λ (r : List Scene). CoreIsCurrent out s1.store r st'.store.state st'.core) rows
              (CoreIsCurrent-state out s1.store s1.scenes p.0.store.state st'.store.state st'.core
                (subst (λ (t : Text). CoreIsCurrent out s1.store s1.scenes p.0.store.state t)
                  (sym gate.same_text) core.is_current)
                (subst
                  (λ (k : String).
                    get_core_state k st'.store.state ≡ get_core_state k p.0.store.state)
                  core.same_key gate.same_core))),
      )

-- A foreground call that marks the store between the narrations and the gate is not remembered: a pass
-- that then ends normally clears its mark with the others.
pub foreground_mark_is_cleared :
    (out : Outside) (now : ℕ) (reason : String) (st st' : Organizer)
    → finish_pass out (record st { store = mark_store_dirty now reason st.store }) ≡ going st'
    → is_dirty st.store.store_key st'.store.state ≡ false
unfolding finish_pass mark_store_dirty
foreground_mark_is_cleared out now reason st st' e =
    let marked : Organizer = record st { store = mark_store_dirty now reason st.store } in
    let p : Organizer × Bool = synthesize_core out marked in
    let gate : Gated p.1 p.0 st' = completeness_gate-Gated out p.1 p.0 st' e in
    let core : Synthesized out marked p.0 =
      synthesize_core-Synthesized out marked p.0 (ap (λ (b : Bool). (p.0, b)) gate.no_failure.0) in
    subst (λ (k : String). is_dirty k st'.store.state ≡ false) core.same_key gate.is_clean

second_phase-thrown :
    (out : Outside) (cos : Cosine) (opts : TopicOptions) (pid : String) (o : Option StoreDb)
    (st st' : Organizer) (db : StoreDb)
    → o ≡ some db
    → organize_scenes out cos opts (start_pass db st) ≡ thrown st'
    → second_phase out cos opts pid o st ≡ incomplete pid st'
unfolding second_phase
second_phase-thrown out cos opts pid o st st' db commits throws =
    let organized : organize out cos opts (start_pass db st) ≡ thrown st' =
      unfold organize in ap (λ (p : Progress). p >>= finish_pass out) throws in
    ground (arith, commits, organized)

-- A store that is clean, a pass whose first phase commits all turns and whose scenes throw, as they do
-- when the embedder fails: the pass is reported as incomplete, and the next pass, which finds no new
-- turn and no mark, is skipped.
pub thrown_scenes_are_forgotten :
    (out out' : Outside) (cos : Cosine) (opts : TopicOptions) (hash : String → String) (window : ℕ)
    (rows : List StreamTurn) (first_phase next_phase : List StreamTurn → StoreDb → Option StoreDb)
    (st st' : Organizer) (db : StoreDb) (t : StreamTurn) (ts : List StreamTurn)
    → query_stream_seq (or_zero (after_seq st.store.store_key st.store)) window rows ≡ t ∷ ts
    → first_phase (t ∷ ts) st.store ≡ some db
    → organize_scenes out cos opts (start_pass db st) ≡ thrown st'
    → is_dirty db.store_key db.state ≡ false
    → query_stream_seq (or_zero (after_seq db.store_key db)) window rows ≡ []
    → (pid pid' : String) × (distill_once out cos opts hash window rows first_phase st
        ≡ incomplete pid st')
      × (distill_once out' cos opts hash window rows next_phase st' ≡ skipped pid' st')
unfolding distill_once distill_turns
thrown_scenes_are_forgotten out out' cos opts hash window rows first_phase next_phase st st' db t ts
      has_turns commits throws clean caught_up =
    let is_db : st'.store ≡ db =
      subst (λ (x : Progress). (state_of x).store ≡ db) throws
        (organize_scenes-store out cos opts (start_pass db st) ∙ unfold start_pass in refl) in
    let no_turns : query_stream_seq (or_zero (after_seq st'.store.store_key st'.store)) window rows
        ≡ [] =
      subst (λ (d : StoreDb). query_stream_seq (or_zero (after_seq d.store_key d)) window rows ≡ [])
        (sym is_db) caught_up in
    let still_clean : is_dirty st'.store.store_key st'.store.state ≡ false =
      subst (λ (d : StoreDb). is_dirty d.store_key d.state ≡ false) (sym is_db) clean in
    (
      pass_id hash st.store.store_key (after_seq st.store.store_key st.store)
          (end_seq (t ∷ ts) (after_seq st.store.store_key st.store)),
      pass_id hash st'.store.store_key (after_seq st'.store.store_key st'.store)
          (end_seq [] (after_seq st'.store.store_key st'.store)),
      ap
            (λ (turns : List StreamTurn).
              distill_turns out cos opts first_phase
                (pass_id hash st.store.store_key (after_seq st.store.store_key st.store)
                  (end_seq turns (after_seq st.store.store_key st.store)))
                turns st)
            has_turns
          ∙ second_phase-thrown out cos opts
              (pass_id hash st.store.store_key (after_seq st.store.store_key st.store)
                (end_seq (t ∷ ts) (after_seq st.store.store_key st.store)))
              (first_phase (t ∷ ts) st.store) st st' db commits throws,
      ap
            (λ (turns : List StreamTurn).
              distill_turns out' cos opts next_phase
                (pass_id hash st'.store.store_key (after_seq st'.store.store_key st'.store)
                  (end_seq turns (after_seq st'.store.store_key st'.store)))
                turns st')
            no_turns
          ∙ simp still_clean,
    )
