-- ===== src/Stream/Retry.antt =====
-- A call of `addStream` that is made again, after it returned and after its embedder failed.
use falda.Prelude.{
  ℕ, suc, String, Bool, true, false, List, [], ◌∷◌, ◌++◌, ◌≡◌, refl, sym, ap, ◌∙◌, subst, arith,
  none, inl, inr, select_one, All, Bool-cases, Option-cases,
}
use falda.Distill.Decision.{contains}
use falda.Stream.{
  Turn, StreamItem, StreamDb, Added, ok, thrown, AddedAll, all_ok, stopped, and_then, Check,
  duplicate, conflict, fresh, check_turn, new_turn, insert_turn, insert_vector, finish_turn,
  add_turn, add_stream, has_turn, AddError,
}
use falda.Stream.Rows.{IsKeyed, check_turn-append, check_turn-new_turn}

pub data CheckIs (c : Check) : Type 0 where
  is_duplicate : {id : String} → c ≡ duplicate id → CheckIs c
  is_conflict : {e : AddError} → c ≡ conflict e → CheckIs c
  is_fresh : c ≡ fresh → CheckIs c

check_is : (c : Check) → CheckIs c
check_is (duplicate id) = is_duplicate refl
check_is (conflict e) = is_conflict refl
check_is fresh = is_fresh refl

-- What one turn of the loop does to the stream.
pub data Effect (session uuid : String) (now : ℕ) (m : StreamItem) (db db' : StreamDb)
    : Added → Type 0 where
  known :
      {id : String}
      → check_turn session m db.stream ≡ duplicate id
      → db' ≡ db
      → Effect session uuid now m db db' (ok id)
  refused :
      {e : AddError}
      → db' ≡ db
      → check_turn session m db.stream ≡ conflict e
      → Effect session uuid now m db db' (thrown e)
  taken : db' ≡ db → Effect session uuid now m db db' (thrown AddError.constraint)
  added :
      check_turn session m db.stream ≡ fresh
      → db'.stream ≡ db.stream ++ new_turn session uuid now m db.stream ∷ []
      → select_one (has_turn (new_turn session uuid now m db.stream).id) db.stream ≡ none
      → db'.vec ≡ db.vec ++ (new_turn session uuid now m db.stream).id ∷ []
      → Effect session uuid now m db db' (ok (new_turn session uuid now m db.stream).id)
  halted :
      {e : AddError}
      → check_turn session m db.stream ≡ fresh
      → db'.stream ≡ db.stream ++ new_turn session uuid now m db.stream ∷ []
      → select_one (has_turn (new_turn session uuid now m db.stream).id) db.stream ≡ none
      → db'.vec ≡ db.vec
      → Effect session uuid now m db db' (thrown e)

finish-Effect :
    (embeds : Bool) (session uuid : String) (now : ℕ) (m : StreamItem) (db mid : StreamDb)
    → check_turn session m db.stream ≡ fresh
    → mid.stream ≡ db.stream ++ new_turn session uuid now m db.stream ∷ []
    → select_one (has_turn (new_turn session uuid now m db.stream).id) db.stream ≡ none
    → mid.vec ≡ db.vec
    → Effect session uuid now m db
        (finish_turn embeds (new_turn session uuid now m db.stream).id mid).0
        (finish_turn embeds (new_turn session uuid now m db.stream).id mid).1
unfolding finish_turn insert_vector
finish-Effect false session uuid now m db mid c s f v = halted c s f v
finish-Effect true session uuid now m db mid c s f v =
    elim (Bool-cases (contains (new_turn session uuid now m db.stream).id mid.vec)) [
      | inl t ↦ rw t (halted c s f v)
      | inr n ↦ rw n (
          added c s f
            (ap (λ (ids : List String). ids ++ (new_turn session uuid now m db.stream).id ∷ []) v))
    ]

pub add_turn-Effect :
    (embeds : String → Bool) (session uuid : String) (now : ℕ) (m : StreamItem) (db : StreamDb)
    → Effect session uuid now m db
        (add_turn embeds session uuid now m db).0
        (add_turn embeds session uuid now m db).1
unfolding add_turn insert_turn finish_turn insert_vector
add_turn-Effect embeds session uuid now m db = elim (check_is (check_turn session m db.stream)) [
  | is_duplicate e ↦ rw e (known e refl)
  | is_conflict e ↦ rw e (refused refl e)
  | is_fresh e ↦
      let t = new_turn session uuid now m db.stream in
      elim (Option-cases (select_one (has_turn t.id) db.stream)) [
        | inr (other, f) ↦ rw (e, f) (taken refl)
        | inl n ↦ rw (e, n) (finish-Effect (embeds m.content) session uuid now m db _ e refl n refl)
      ]
]

append_nil : (xs : List Turn) → xs ≡ xs ++ []
append_nil [] = refl
append_nil (x ∷ xs) = ap (◌∷◌ x) (append_nil xs)

append_assoc : (xs ys zs : List Turn) → (xs ++ ys) ++ zs ≡ xs ++ (ys ++ zs)
append_assoc [] ys zs = refl
append_assoc (x ∷ xs) ys zs = ap (◌∷◌ x) (append_assoc xs ys zs)

grows :
    {session uuid : String} {now : ℕ} {m : StreamItem} {db db' : StreamDb} {r : Added}
    → Effect session uuid now m db db' r
    → (more : List Turn) × (db'.stream ≡ db.stream ++ more)
grows {db = db} (known c e) = ([], ap (λ (d : StreamDb). d.stream) e ∙ append_nil db.stream)
grows {db = db} (refused e c) = ([], ap (λ (d : StreamDb). d.stream) e ∙ append_nil db.stream)
grows {db = db} (taken e) = ([], ap (λ (d : StreamDb). d.stream) e ∙ append_nil db.stream)
grows (added c s f v) = (_, s)
grows (halted c s f v) = (_, s)

-- A keyed turn that was added is a duplicate afterwards.
settles :
    {session uuid : String} {now : ℕ} {m : StreamItem} {db db' : StreamDb} {r : Added}
    → Effect session uuid now m db db' r
    → IsKeyed m.turn_index m.turn_id
    → (id : String) → r ≡ ok id
    → check_turn session m db'.stream ≡ duplicate id
settles {session} {m = m} (known {id} c e) keyed i h =
    let same : id ≡ i = ground (arith, h) in
    subst (λ (d : StreamDb). check_turn session m d.stream ≡ duplicate i) (sym e)
      (c ∙ ap duplicate same)
settles (refused e c) keyed i h = cc
settles (taken e) keyed i h = cc
settles {session} {uuid} {now} {m} {db} (added c s f v) keyed i h =
    let same : (new_turn session uuid now m db.stream).id ≡ i = ground (arith, h) in
    subst (λ rows. check_turn session m rows ≡ duplicate i) (sym s)
      (check_turn-new_turn session uuid now m db.stream keyed c ∙ ap duplicate same)
settles (halted c s f v) keyed i h = cc

pub add_turn-eq-ok :
    (embeds : String → Bool) (session uuid : String) (now : ℕ) (m : StreamItem) (db : StreamDb)
    → {id : String} → check_turn session m db.stream ≡ duplicate id
    → add_turn embeds session uuid now m db ≡ (db, ok id)
unfolding add_turn
add_turn-eq-ok embeds session uuid now m db e = rw e refl

-- Every item has a row, under the id at its place.
data Settled (session : String) (rows : List Turn) : List StreamItem → List String → Type 0 where
  all_settled : Settled session rows [] []
  settled :
      {m : StreamItem} {id : String} {ms : List StreamItem} {ids : List String}
      → check_turn session m rows ≡ duplicate id
      → Settled session rows ms ids
      → Settled session rows (m ∷ ms) (id ∷ ids)

and_then-eq-all_ok :
    (db db' : StreamDb) (r : Added) (rest : StreamDb × AddedAll) (ids : List String)
    → and_then db r rest ≡ (db', all_ok ids)
    → (id : String) × ((more : List String) × ((r ≡ ok id)
          × ((ids ≡ id ∷ more) × (rest ≡ (db', all_ok more)))))
and_then-eq-all_ok db db' (thrown e) rest ids h = let z = ap (λ r. r.1) h in cc
and_then-eq-all_ok db db' (ok id) (d, stopped e) ids h = let z = ap (λ r. r.1) h in cc
and_then-eq-all_ok db db' (ok id) (d, all_ok more) ids h =
    let same : d ≡ db' = ap (λ r. r.0) h in
    let z : all_ok (id ∷ more) ≡ all_ok ids = ap (λ r. r.1) h in
    (id, (more, (refl, (ground (arith, z), rw same refl))))

module _ (embeds : String → Bool) (session : String) (uuid : ℕ → String) (now : ℕ → ℕ) where
  add_stream-of_Settled :
      (n : ℕ) (ms : List StreamItem) (ids : List String) (db : StreamDb)
      → Settled session db.stream ms ids
      → add_stream embeds session uuid now n ms db ≡ (db, all_ok ids)
  unfolding add_stream
  add_stream-of_Settled n [] ids db all_settled = refl
  add_stream-of_Settled n (m ∷ ms) ids db (settled e rest) =
      rw (add_turn-eq-ok embeds session (uuid n) (now n) m db e)
        (rw (add_stream-of_Settled (suc n) ms _ db rest) refl)

  -- The rows of a call stay, and every keyed item of it has one.
  add_stream-Settled :
      (n : ℕ) (ms : List StreamItem) (ids : List String) (db db' : StreamDb)
      → All (λ (m : StreamItem). IsKeyed m.turn_index m.turn_id) ms
      → add_stream embeds session uuid now n ms db ≡ (db', all_ok ids)
      → Settled session db'.stream ms ids × ((more : List Turn) × (db'.stream ≡ db.stream ++ more))
  unfolding add_stream
  add_stream-Settled n [] ids db db' keyed h =
      let none_left : all_ok [] ≡ all_ok ids = ap (λ r. r.1) h in
      let e : ids ≡ [] = ground (arith, none_left) in
      let same : db ≡ db' = ap (λ r. r.0) h in
      (
        subst (Settled session db'.stream []) (sym e) all_settled,
        ([], ap (λ (d : StreamDb). d.stream) (sym same) ∙ append_nil db.stream),
      )
  add_stream-Settled n (m ∷ ms) ids db db' keyed h =
      let r = add_turn embeds session (uuid n) (now n) m db in
      let effect = add_turn-Effect embeds session (uuid n) (now n) m db in
      let (id, (more, (first, (ids_eq, rest)))) =
        and_then-eq-all_ok r.0 db' r.1 (add_stream embeds session uuid now (suc n) ms r.0) ids h in
      let (later, (new, grown)) = add_stream-Settled (suc n) ms more r.0 db' keyed.1 rest in
      let (own, grown') = grows effect in
      let now_there = settles effect keyed.0 id first in
      let there : check_turn session m db'.stream ≡ duplicate id =
        subst (λ rows. check_turn session m rows ≡ duplicate id) (sym grown)
          (check_turn-append session m r.0.stream new now_there) in
      (
        subst (Settled session db'.stream (m ∷ ms)) (sym ids_eq) (settled there later),
        (own ++ new, grown ∙ (ap (λ rows. rows ++ new) grown' ∙ append_assoc db.stream own new)),
      )

-- A call of addStream that returned, of items with a turn index or a turn id, is made again, whatever
-- the embedder, the clock and the new ids are then. It returns the same ids, and the store stays as it
-- is.
pub add_stream_again :
    (embeds embeds' : String → Bool) (session : String) (uuid uuid' : ℕ → String) (now now' : ℕ → ℕ)
    (n n' : ℕ) (ms : List StreamItem) (ids : List String) (db db' : StreamDb)
    → All (λ (m : StreamItem). IsKeyed m.turn_index m.turn_id) ms
    → add_stream embeds session uuid now n ms db ≡ (db', all_ok ids)
    → add_stream embeds' session uuid' now' n' ms db' ≡ (db', all_ok ids)
add_stream_again embeds embeds' session uuid uuid' now now' n n' ms ids db db' keyed h =
    add_stream-of_Settled embeds' session uuid' now' n' ms ids db'
      (add_stream-Settled embeds session uuid now n ms ids db db' keyed h).0
