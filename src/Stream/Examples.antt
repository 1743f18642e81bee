-- ===== src/Stream/Examples.antt =====
-- A session of two turns: its call is made again, an embedding fails, and its last turn is deleted.
use falda.Prelude.{
  ℕ, ◌+◌, String, Bool, true, false, Option, none, some, List, [], ◌∷◌, select_one, ◌++◌, map, ◌≡◌,
  ◌≢◌, refl, arith,
}
use falda.Distill.Commit.{unique}
use falda.Distill.Watermark.{is_dirty, mark_dirty, upsert}
use falda.Distill.Scenes.Organize.{query_stream_seq}
use falda.Stream.{
  Turn, StreamItem, StreamDb, ok, thrown, embed_failed, index_conflict, turn_id_conflict, all_ok,
  fresh, check_turn, new_turn, add_turn, add_stream, head_seq, at_index, at_turn_id, insert_turn,
  insert_vector, finish_turn, has_turn,
}
use falda.Stream.Deletion.{
  Retraction, delete_stream, delete_run, mark_affected, affected_state, remove_index_and_evidence,
  delete_turns,
}
use falda.Distill.Decision.{contains}
use falda.Stream.Stuck.{AddCall, add_calls}
use falda.Stream.Rows.{by_index, by_turn_id}
use falda.Stream.Retry.{add_stream_again}
use falda.Stream.Gaps.{lost_vector, reused_seq, seq_row}
use falda.Stream.Delete.Erased.{Erased, named_turns, delete_stream-Erased}

program : Unit {0}
unfolding add_stream add_turn check_turn new_turn head_seq at_index at_turn_id insert_turn
    insert_vector finish_turn delete_stream delete_run mark_affected affected_state
    remove_index_and_evidence delete_turns unique mark_dirty upsert query_stream_seq
program = tt

abbrev empty : StreamDb
empty = record {
  store_key = "t";
  stream = [];
  fts = [];
  vec = [];
  evidence = [];
  state = record { watermarks = []; core_states = []; dirty = [] };
}

abbrev item : String → String → Option ℕ → Option String → StreamItem
item id content i k = record {
  id = some id;
  role = "user";
  content = content;
  timestamp = none;
  turn_index = i;
  turn_id = k;
}

abbrev two_items : List StreamItem
two_items = item "a" "hello" (some 0) none ∷ item "b" "bye" none (some "k1") ∷ []

abbrev always : String → Bool
always s = true

abbrev never : String → Bool
never s = false

abbrev uuid : ℕ → String
uuid n = "u"

abbrev clock : ℕ → ℕ
clock n = 100 + n

abbrev turn : String → String → ℕ → Option ℕ → Option String → ℕ → Turn
turn id content ts i k seq = record {
  id = id;
  session_id = "s";
  role = "user";
  content = content;
  ts = ts;
  turn_index = i;
  turn_id = k;
  seq = seq;
}

abbrev two_turns : StreamDb
two_turns = record empty {
  stream = turn "a" "hello" 100 (some 0) none 1 ∷ turn "b" "bye" 101 none (some "k1") 2 ∷ [];
  fts = "a" ∷ "b" ∷ [];
  vec = "a" ∷ "b" ∷ [];
}

abbrev with_evidence : StreamDb
with_evidence = record two_turns {
  evidence = record { atom_id = "x"; stream_id = "b"; added_at = 5 } ∷ [];
}

two_items_added :
    add_stream always "s" uuid clock 0 two_items empty ≡ (two_turns, all_ok ("a" ∷ "b" ∷ []))
unfolding program
two_items_added = refl

add_stream_again_example :
    add_stream never "s" (λ n. "v") (λ n. n) 7 two_items two_turns
    ≡ (two_turns, all_ok ("a" ∷ "b" ∷ []))
add_stream_again_example =
    add_stream_again always never "s" uuid (λ n. "v") clock (λ n. n) 0 7 two_items ("a" ∷ "b" ∷ [])
      empty two_turns (by_index, (by_turn_id, tt)) two_items_added

-- Another text at an index, and another index for a turn id.
conflicts :
    (add_turn always "s" "u" 9 (item "c" "other" (some 0) none) two_turns
      ≡ (two_turns, thrown index_conflict))
    × (add_turn always "s" "u" 9 (item "c" "bye" (some 3) (some "k1")) two_turns
        ≡ (two_turns, thrown turn_id_conflict))
unfolding program
conflicts = (refl, refl)

-- Without an index, another text under a turn id is taken as a duplicate.
other_text :
    add_turn always "s" "u" 9 (item "c" "edited" none (some "k1")) two_turns ≡ (two_turns, ok "b")
unfolding program
other_text = refl

abbrev half_added : StreamDb
half_added = record empty { stream = turn "a" "hello" 100 (some 0) none 1 ∷ []; fts = "a" ∷ [] }

embedding_fails :
    add_turn never "s" "u" 100 (item "a" "hello" (some 0) none) empty
    ≡ (half_added, thrown embed_failed)
unfolding program
embedding_fails = refl

-- The embedder is back, and the whole session is sent again before the turn is.
abbrev resent : List AddCall
resent =
    record { embeds = always; session_id = "s"; uuid = uuid; now = clock; items = two_items } ∷ []

lost_vector_example :
    (add_turn always "s" "u" 200 (item "a" "hello" (some 0) none) (add_calls resent half_added) ≡ (
      add_calls resent half_added,
      ok (new_turn "s" "u" 100 (item "a" "hello" (some 0) none) []).id,
    ))
    × ((select_one
            (has_turn (new_turn "s" "u" 100 (item "a" "hello" (some 0) none) []).id)
            (add_calls resent half_added).stream
          ≡ some (new_turn "s" "u" 100 (item "a" "hello" (some 0) none) []))
        × (contains
              (new_turn "s" "u" 100 (item "a" "hello" (some 0) none) []).id
              (add_calls resent half_added).vec
            ≡ contains (new_turn "s" "u" 100 (item "a" "hello" (some 0) none) []).id []))
lost_vector_example =
    lost_vector never always "s" "u" "u" 100 200 (item "a" "hello" (some 0) none) empty half_added
      resent by_index embedding_fails

resent_vectors : (add_calls resent half_added).vec ≡ "b" ∷ []
unfolding program add_calls
resent_vectors = refl

abbrev last_turn : Retraction
last_turn = record { ids = "b" ∷ []; session_id = none }

abbrev whole_session : Retraction
whole_session = record { ids = []; session_id = some "s" }

delete_stream-Erased_example :
    Erased
      (named_turns whole_session.ids whole_session.session_id with_evidence.stream)
      with_evidence
      (delete_stream 300 whole_session with_evidence)
    × (((delete_stream 300 whole_session with_evidence).affected_atom_ids ≡ []
          → (delete_stream 300 whole_session with_evidence).db.state ≡ with_evidence.state)
        × ((delete_stream 300 whole_session with_evidence).affected_atom_ids ≢ []
            → is_dirty "t" (delete_stream 300 whole_session with_evidence).db.state ≡ true))
delete_stream-Erased_example =
    delete_stream-Erased 300 whole_session with_evidence ((refl, tt), (tt, tt))

session_deleted :
    ((delete_stream 300 whole_session with_evidence).deleted_count ≡ 2)
    × (((delete_stream 300 whole_session with_evidence).affected_atom_ids ≡ "x" ∷ [])
        × ((delete_stream 300 whole_session with_evidence).db.stream ≡ []))
unfolding program
session_deleted = (refl, (refl, refl))

abbrev reused : StreamDb
reused = record two_turns {
  stream = turn "a" "hello" 100 (some 0) none 1 ∷ turn "c" "again" 300 (some 1) none 2 ∷ [];
  fts = "a" ∷ "c" ∷ [];
  vec = "a" ∷ "c" ∷ [];
}

abbrev third : StreamItem
third = item "c" "again" (some 1) none

head_before : 2 ≡ head_seq two_turns.stream
unfolding program
head_before = refl

head_after : head_seq (delete_stream 300 last_turn two_turns).db.stream ≡ 1
unfolding program
head_after = refl

third_is_new : check_turn "s" third (delete_stream 300 last_turn two_turns).db.stream ≡ fresh
unfolding program
third_is_new = refl

third_added :
    add_turn always "s" "u" 300 third (delete_stream 300 last_turn two_turns).db ≡ (reused, ok "c")
unfolding program
third_added = refl

reused_seq_example :
    (reused.stream
      ≡ (delete_stream 300 last_turn two_turns).db.stream
        ++ new_turn "s" "u" 300 third (delete_stream 300 last_turn two_turns).db.stream ∷ [])
    × (query_stream_seq 2 50 (map seq_row reused.stream) ≡ [])
reused_seq_example =
    reused_seq always "s" "u" 300 2 50 last_turn third two_turns reused "c" head_before
      (omega (arith, head_after)) third_is_new third_added
