-- ===== src/Stream/Stuck.antt =====
-- A turn of the stream that further calls of `addStream` in `src/falda.ts` leave as it is.
use falda.Prelude.{
  ℕ, suc, String, Bool, false, none, some, List, [], ◌∷◌, ◌++◌, ◌≡◌, refl, sym, ap, ◌∙◌, subst, inl,
  inr, str_eq, str_eq_iff, select_one, Bool-cases,
}
use falda.Distill.Decision.{contains}
use falda.Stream.{
  Turn, StreamItem, StreamDb, Added, ok, thrown, AddedAll, and_then, duplicate, check_turn,
  new_turn, add_turn, add_stream, has_turn,
}
use falda.Stream.Rows.{check_turn-append, select_one-append}
use falda.Stream.Retry.{Effect, known, refused, taken, added, halted, add_turn-Effect}

pub record AddCall : Type 0 where
  pub embeds : String → Bool
  pub session_id : String
  pub uuid : ℕ → String
  pub now : ℕ → ℕ
  pub items : List StreamItem

-- Calls of addStream, one after the other, whether they return or throw.
unfoldable pub add_calls : List AddCall → StreamDb → StreamDb
add_calls [] db = db
add_calls (c ∷ cs) db = add_calls cs (add_stream c.embeds c.session_id c.uuid c.now 0 c.items db).0

-- The item is a duplicate of the turn, which is in the stream; `b` tells of its row in stream_vec.
pub record IsStuck (session : String) (m : StreamItem) (t : Turn) (b : Bool) (db : StreamDb)
    : Type 0 where
  pub known : check_turn session m db.stream ≡ duplicate t.id
  pub row : select_one (has_turn t.id) db.stream ≡ some t
  pub indexed : contains t.id db.vec ≡ b

contains-append_ne :
    (k j : String) (ids : List String)
    → str_eq j k ≡ false
    → contains k (ids ++ j ∷ []) ≡ contains k ids
contains-append_ne k j [] n = rw n refl
contains-append_ne k j (i ∷ ids) n = rw (contains-append_ne k j ids n)

module _ (session : String) (m : StreamItem) (t : Turn) (b : Bool) where
  -- Another turn that is new has another id.
  ne_new :
      (u : Turn) (db : StreamDb)
      → IsStuck session m t b db
      → select_one (has_turn u.id) db.stream ≡ none
      → str_eq u.id t.id ≡ false
  ne_new u db s f = elim (Bool-cases (str_eq u.id t.id)) [
    | inr n ↦ n
    | inl y ↦
        let here : select_one (has_turn t.id) db.stream ≡ none =
          subst (λ k. select_one (has_turn k) db.stream ≡ none) ((str_eq_iff u.id t.id).0 y) f in
        let z : some t ≡ none = sym s.row ∙ here in cc
  ]

  grown-IsStuck :
      (db db' : StreamDb) (more : List Turn)
      → IsStuck session m t b db
      → db'.stream ≡ db.stream ++ more
      → contains t.id db'.vec ≡ contains t.id db.vec
      → IsStuck session m t b db'
  grown-IsStuck db db' more s e v = record {
    known =
        subst (λ rows. check_turn session m rows ≡ duplicate t.id) (sym e)
          (check_turn-append session m db.stream more s.known);
    row =
        subst (λ rows. select_one (has_turn t.id) rows ≡ some t) (sym e)
          (select_one-append (has_turn t.id) db.stream more s.row);
    indexed = v ∙ s.indexed;
  }

  Effect-IsStuck :
      {other uuid : String} {now : ℕ} {i : StreamItem} {db db' : StreamDb} {r : Added}
      → Effect other uuid now i db db' r
      → IsStuck session m t b db
      → IsStuck session m t b db'
  Effect-IsStuck (known c e) s = subst (IsStuck session m t b) (sym e) s
  Effect-IsStuck (refused e c) s = subst (IsStuck session m t b) (sym e) s
  Effect-IsStuck (taken e) s = subst (IsStuck session m t b) (sym e) s
  Effect-IsStuck {other} {uuid} {now} {i} {db} {db'} (added c e f v) s =
      let u = new_turn other uuid now i db.stream in
      grown-IsStuck db db' (u ∷ []) s e
        (ap (contains t.id) v ∙ contains-append_ne t.id u.id db.vec (ne_new u db s f))
  Effect-IsStuck {other} {uuid} {now} {i} {db} {db'} (halted c e f v) s =
      grown-IsStuck db db' (new_turn other uuid now i db.stream ∷ []) s e (ap (contains t.id) v)

  and_then-IsStuck :
      (db : StreamDb) (r : Added) (rest : StreamDb × AddedAll)
      → IsStuck session m t b db
      → IsStuck session m t b rest.0
      → IsStuck session m t b (and_then db r rest).0
  and_then-IsStuck db (thrown e) rest s later = s
  and_then-IsStuck db (ok id) rest s later = later

  add_stream-IsStuck :
      (embeds : String → Bool) (other : String) (uuid : ℕ → String) (now : ℕ → ℕ) (n : ℕ)
      (ms : List StreamItem) (db : StreamDb)
      → IsStuck session m t b db
      → IsStuck session m t b (add_stream embeds other uuid now n ms db).0
  unfolding add_stream
  add_stream-IsStuck embeds other uuid now n [] db s = s
  add_stream-IsStuck embeds other uuid now n (i ∷ is) db s =
      let r = add_turn embeds other (uuid n) (now n) i db in
      let mid = Effect-IsStuck (add_turn-Effect embeds other (uuid n) (now n) i db) s in
      and_then-IsStuck r.0 r.1 (add_stream embeds other uuid now (suc n) is r.0) mid
        (add_stream-IsStuck embeds other uuid now (suc n) is r.0 mid)

  pub add_calls-IsStuck :
      (calls : List AddCall) (db : StreamDb)
      → IsStuck session m t b db
      → IsStuck session m t b (add_calls calls db)
  unfolding add_calls
  add_calls-IsStuck [] db s = s
  add_calls-IsStuck (c ∷ cs) db s =
      add_calls-IsStuck cs _ (add_stream-IsStuck c.embeds c.session_id c.uuid c.now 0 c.items db s)
