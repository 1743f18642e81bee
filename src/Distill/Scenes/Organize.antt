-- ===== src/Distill/Scenes/Organize.antt =====
-- A pass of `distillOnce` in `src/distill/core.ts`: which turns it takes, when it is skipped, and what
-- a first phase and a second phase leave. The first phase is an argument: its parts are Distill/Plan
-- and Distill/Commit. A pass is one step: the calls that a foreground request may make during its awaits
-- are not interleaved with it.
use falda.Prelude.{
  ℕ, String, Option, none, some, List, [], ◌∷◌, if◌then◌else◌, ltb, select_where, take, sort_by,
}
use falda.Distill.Store.{StoreDb, Atom, is_active_status}
use falda.Distill.Decision.{contains}
use falda.Distill.Watermark.{get_watermark, is_dirty, pass_id}
use falda.Distill.Scenes.{
  Outside, Organizer, Progress, going, thrown, ◌>>=◌, session_rows, project_episodes,
  is_active_scene,
}
use falda.Distill.Scenes.Topics.{Cosine, TopicOptions, reconcile_topics}
use falda.Distill.Scenes.Narrate.{sort_text, narrate_scenes, finish_pass}

abbrev pub ids_of_atoms : List Atom → List String
ids_of_atoms [] = []
ids_of_atoms (a ∷ more) = a.id ∷ ids_of_atoms more

-- SELECT id FROM atoms WHERE status = 'active' ORDER BY id
unfoldable pub active_atom_ids : StoreDb → List String
unfolding sort_text
active_atom_ids db =
    sort_text (λ (id : String). id)
      (ids_of_atoms (select_where (λ a. is_active_status a.status) db.atoms))

-- The scenes and their members, before any text is asked for.
unfoldable pub arrange : Outside → Cosine → TopicOptions → Organizer → Progress
unfolding session_rows project_episodes reconcile_topics active_atom_ids
arrange out cos opts st = project_episodes out (session_rows out st.store) st >>= λ s.
    let ids = active_atom_ids s.store in
    reconcile_topics out cos opts ids (select_where (λ id. contains id s.store.indexed) ids) s

abbrev pub narrate_all : Outside → Organizer → Progress
narrate_all out s = narrate_scenes out (select_where is_active_scene s.scenes) s

-- L2
unfoldable pub organize_scenes : Outside → Cosine → TopicOptions → Organizer → Progress
unfolding arrange narrate_scenes
organize_scenes out cos opts st = arrange out cos opts st >>= narrate_all out

-- L2 and L3 of `distillOncePass`.
unfoldable pub organize : Outside → Cosine → TopicOptions → Organizer → Progress
organize out cos opts st = organize_scenes out cos opts st >>= finish_pass out

pub record StreamTurn : Type 0 where
  pub id : String
  pub seq : ℕ

-- `queryStreamSeq` over the rows of the stream.
unfoldable pub query_stream_seq : ℕ → ℕ → List StreamTurn → List StreamTurn
unfolding sort_by
query_stream_seq after limit rows =
    take limit (sort_by (λ (t : StreamTurn). t.seq) (select_where (λ t. ltb after t.seq) rows))

abbrev pub after_seq : String → StoreDb → Option ℕ
after_seq key db = elim (get_watermark key db.state) [ none ↦ none | some w ↦ w.last_processed_seq ]

abbrev pub or_zero : Option ℕ → ℕ
or_zero none = 0
or_zero (some n) = n

abbrev pub last_seq : List StreamTurn → Option ℕ
last_seq [] = none
last_seq (t ∷ ts) = elim (last_seq ts) [ none ↦ some t.seq | some n ↦ some n ]

-- lastTurn?.seq ?? afterSeq
abbrev pub end_seq : List StreamTurn → Option ℕ → Option ℕ
end_seq turns after = elim (last_seq turns) [ none ↦ after | some n ↦ some n ]

pub data PassResult : Type 0 where
  skipped : String → Organizer → PassResult
  first_phase_failed : Organizer → PassResult
  incomplete : String → Organizer → PassResult
  completed : String → Organizer → PassResult

unfoldable pub start_pass : StoreDb → Organizer → Organizer
start_pass db st = record st { store = db; derived = 0; failures = 0 }

-- What the caller of a pass sees behind a first phase.
unfoldable pub second_phase :
    Outside → Cosine → TopicOptions → String → Option StoreDb → Organizer → PassResult
second_phase out cos opts pid none st = first_phase_failed st
second_phase out cos opts pid (some db) st = elim (organize out cos opts (start_pass db st)) [
  | going s ↦ completed pid s
  | thrown s ↦ incomplete pid s
]

-- The pass over some turns; with none of them, it runs if the store is dirty.
unfoldable pub distill_turns :
    Outside
    → Cosine
    → TopicOptions
    → (List StreamTurn → StoreDb → Option StoreDb)
    → String
    → List StreamTurn
    → Organizer
    → PassResult
distill_turns out cos opts first_phase pid [] st =
    if is_dirty st.store.store_key st.store.state
    then second_phase out cos opts pid (first_phase [] st.store) st
    else skipped pid st
distill_turns out cos opts first_phase pid (t ∷ ts) st =
    second_phase out cos opts pid (first_phase (t ∷ ts) st.store) st

unfoldable pub distill_once :
    Outside
    → Cosine
    → TopicOptions
    → (String → String)
    → ℕ
    → List StreamTurn
    → (List StreamTurn → StoreDb → Option StoreDb)
    → Organizer
    → PassResult
distill_once out cos opts hash window rows first_phase st =
    let key = st.store.store_key in
    let after = after_seq key st.store in
    let turns = query_stream_seq (or_zero after) window rows in
    distill_turns out cos opts first_phase (pass_id hash key after (end_seq turns after)) turns st
