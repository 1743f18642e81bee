-- ===== src/Stream/Gaps.antt =====
-- Turns that a store takes in and does not serve: one whose embedding failed, and one that is added
-- after the head of the stream was deleted.
use falda.Prelude.{
  ℕ, zero, suc, ◌≤◌, ◌<◌, max, String, Bool, false, Option, none, some, List, [], ◌∷◌, ◌++◌, map,
  ◌≡◌, refl, sym, ap, ◌∙◌, subst, arith, inl, inr, ltb, Bool-cases, select_where, str_eq, take,
  sort_by, select_one, select_one-append_self,
}
use falda.Distill.Scenes.Organize.{StreamTurn, query_stream_seq}
use falda.Stream.{
  Turn, StreamItem, StreamDb, Added, ok, thrown, embed_failed, conflict, fresh, duplicate,
  check_turn, same_content, same_index, or_check, new_turn, add_turn, head_seq, at_index,
  at_turn_id, index_eq, has_turn, turn_key,
}
use falda.Stream.Deletion.{Retraction, delete_stream}
use falda.Distill.Decision.{contains}
use falda.Stream.Stuck.{AddCall, add_calls, IsStuck, add_calls-IsStuck}
use falda.Stream.Rows.{IsKeyed, check_turn-new_turn}
use falda.Stream.Retry.{
  Effect, known, refused, taken, added, halted, add_turn-Effect, add_turn-eq-ok,
}

check_turn-ne_embed_failed :
    (session : String) (m : StreamItem) (rows : List Turn) {A : Type 0}
    → check_turn session m rows ≡ conflict embed_failed
    → A
unfolding check_turn
check_turn-ne_embed_failed session m rows h = by_content (at_index session m.turn_index rows) h
  where
    by_index :
        (o : Option Turn) {A : Type 0} → same_index m.turn_index o ≡ conflict embed_failed → A
    by_index none e = cc
    by_index (some t) e = elim (Bool-cases (index_eq t.turn_index m.turn_index)) [
      | inl y ↦ let z = rw y at e in cc
      | inr n ↦ let z = rw n at e in cc
    ]

    by_content :
        (o : Option Turn) {A : Type 0}
        → or_check
            (same_content m.content o)
            (same_index m.turn_index (at_turn_id session m.turn_id rows))
          ≡ conflict embed_failed
        → A
    by_content none e = by_index (at_turn_id session m.turn_id rows) e
    by_content (some t) e = elim (Bool-cases (str_eq t.content m.content)) [
      | inl y ↦ let z = rw y at e in cc
      | inr n ↦ let z = rw n at e in cc
    ]

-- The embedder fails on a new turn, which has a turn index or a turn id: the turn stays in the stream.
-- After any further calls of addStream, adding it once more returns its id and writes nothing, whatever
-- the embedder then does; and of a row for the turn in the vector table there is as much as before the
-- turn came.
pub lost_vector :
    (embeds embeds' : String → Bool) (session uuid uuid' : String) (now now' : ℕ) (m : StreamItem)
    (db db' : StreamDb) (calls : List AddCall)
    → IsKeyed m.turn_index m.turn_id
    → add_turn embeds session uuid now m db ≡ (db', thrown embed_failed)
    → (add_turn embeds' session uuid' now' m (add_calls calls db')
        ≡ (add_calls calls db', ok (new_turn session uuid now m db.stream).id))
      × ((select_one
              (has_turn (new_turn session uuid now m db.stream).id)
              (add_calls calls db').stream
            ≡ some (new_turn session uuid now m db.stream))
          × (contains (new_turn session uuid now m db.stream).id (add_calls calls db').vec
              ≡ contains (new_turn session uuid now m db.stream).id db.vec))
lost_vector embeds embeds' session uuid uuid' now now' m db db' calls keyed h =
    let t = new_turn session uuid now m db.stream in
    let stuck : IsStuck session m t (contains t.id db.vec) (add_calls calls db') =
      add_calls-IsStuck session m t (contains t.id db.vec) calls db' (
        go
          (subst (λ r. Effect session uuid now m db r.0 r.1) h
            (add_turn-Effect embeds session uuid now m db))
          refl) in
    (
      add_turn-eq-ok embeds' session uuid' now' m (add_calls calls db') stuck.known,
      (stuck.row, stuck.indexed),
    )
  where
    go :
        {r : Added}
        → Effect session uuid now m db db' r
        → r ≡ thrown embed_failed
        → IsStuck session m
            (new_turn session uuid now m db.stream)
            (contains (new_turn session uuid now m db.stream).id db.vec)
            db'
    go (known c e) t = cc
    go (refused {e} same c) t =
        let is : e ≡ embed_failed = ground (arith, t) in
        check_turn-ne_embed_failed session m db.stream (c ∙ ap conflict is)
    go (taken e) t = cc
    go (added c s f v) t = cc
    go (halted c s f v) t = record {
      known =
          subst
            (λ rows.
              check_turn session m rows ≡ duplicate (new_turn session uuid now m db.stream).id)
            (sym s) (check_turn-new_turn session uuid now m db.stream keyed c);
      row =
          subst
            (λ rows.
              select_one (has_turn (new_turn session uuid now m db.stream).id) rows
              ≡ some (new_turn session uuid now m db.stream))
            (sym s)
            (select_one-append_self turn_key (new_turn session uuid now m db.stream) db.stream f);
      indexed = ap (contains (new_turn session uuid now m db.stream).id) v;
    }

-- The rows as queryStreamSeq reads them.
abbrev pub seq_row : Turn → StreamTurn
seq_row t = record { id = t.id; seq = t.seq }

none_after :
    (w : ℕ) (rows : List Turn)
    → head_seq rows ≤ w
    → select_where (λ (t : StreamTurn). ltb w t.seq) (map seq_row rows) ≡ []
unfolding head_seq
none_after w [] h = refl
none_after w (t ∷ ts) h =
    let miss : ltb w t.seq ≡ false = ground (arith, h) in
    rw miss (none_after w ts (omega (arith, h)))

head_seq-append :
    (rows : List Turn) (t : Turn) → head_seq (rows ++ t ∷ []) ≡ max (head_seq rows) t.seq
unfolding head_seq
head_seq-append [] t = omega arith
head_seq-append (r ∷ rs) t = omega (arith, head_seq-append rs t)

-- The watermark `w` of a store stands at the head of its stream, and a deletion takes the head away.
-- A new turn that is added next is kept, but no query from the watermark returns any turn.
pub reused_seq :
    (embeds : String → Bool) (session uuid : String) (now w limit : ℕ) (p : Retraction)
    (m : StreamItem) (db db' : StreamDb) (id : String)
    → w ≡ head_seq db.stream
    → head_seq (delete_stream now p db).db.stream < w
    → check_turn session m (delete_stream now p db).db.stream ≡ fresh
    → add_turn embeds session uuid now m (delete_stream now p db).db ≡ (db', ok id)
    → (db'.stream
        ≡ (delete_stream now p db).db.stream
          ++ new_turn session uuid now m (delete_stream now p db).db.stream ∷ [])
      × (query_stream_seq w limit (map seq_row db'.stream) ≡ [])
unfolding new_turn query_stream_seq
reused_seq embeds session uuid now w limit p m db db' id at below new h =
    let e = delete_stream now p db in
    let s : db'.stream ≡ e.db.stream ++ new_turn session uuid now m e.db.stream ∷ [] =
      is_added
        (subst (λ r. Effect session uuid now m e.db r.0 r.1) h
          (add_turn-Effect embeds session uuid now m e.db))
        refl in
    let low : head_seq db'.stream ≤ w = rw s (
      omega
        (arith, below, head_seq-append e.db.stream (new_turn session uuid now m e.db.stream))) in
    (s, rw (none_after w db'.stream low) (nothing limit))
  where
    nothing : (n : ℕ) → take n (sort_by (λ (t : StreamTurn). t.seq) []) ≡ []
    nothing zero = refl
    nothing (suc n) = refl

    is_added :
        {r : Added}
        → Effect session uuid now m (delete_stream now p db).db db' r
        → r ≡ ok id
        → db'.stream
          ≡ (delete_stream now p db).db.stream
            ++ new_turn session uuid now m (delete_stream now p db).db.stream ∷ []
    is_added (known c e) t = let z = sym c ∙ new in cc
    is_added (refused e c) t = cc
    is_added (taken e) t = cc
    is_added (added c s f v) t = s
    is_added (halted c s f v) t = s
