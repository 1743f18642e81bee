-- ===== src/Stream/Delete/Erased.antt =====
-- `deleteStream` against its contract: every row of the turns it names goes, and only those.
use falda.Prelude.{
  ℕ, ◌+◌, String, true, false, Option, none, some, List, [], ◌∷◌, map, ◌≡◌, ◌≢◌, refl, sym, ◌∙◌,
  subst, arith, inl, inr, if◌then◌else◌, str_eq, str_eq_iff, str_eq_refl, length, select_where,
  delete_where, count_where, All, Memᴰ, Bool-cases, HasUniqueKeys,
}
use falda.Distill.Decision.{contains}
use falda.Distill.Store.{EvidenceEdge}
use falda.Distill.Commit.{unique}
use falda.Distill.Watermark.{DistillState, is_dirty}
use falda.Distill.Watermark.Laws.{mark_dirty_lem}
use falda.Stream.{Turn, StreamDb, turn_key}
use falda.Stream.Deletion.{
  Retraction, Deleted, edge_turn, edge_atom, is_in, itself, remove_index_and_evidence, delete_turns,
  in_session, delete_run, mark_affected, delete_stream, affected_state,
}
use falda.Stream.Delete.{
  Without, delete_where-Without, contains-selected, delete_turns-rows, length-delete_where,
  length-delete_turns, mem-select_where,
}

-- The turns that a call names: the ids, or else all turns of the session.
abbrev pub named_turns : List String → Option String → List Turn → List String
named_turns (id ∷ ids) session rows = id ∷ ids
named_turns [] none rows = []
named_turns [] (some session) rows =
    if str_eq session "" then [] else map turn_key (select_where (in_session session) rows)

pub data Cause (ids : List String) (edges : List EvidenceEdge) (a : String) : Type 0 where
  cause :
      {e : EvidenceEdge}
      → Memᴰ e edges
      → contains e.stream_id ids ≡ true
      → edge_atom e ≡ a
      → Cause ids edges a

pub record Erased (ids : List String) (before : StreamDb) (d : Deleted) : Type 0 where
  pub stream : Without turn_key ids before.stream d.db.stream
  pub fts : Without itself ids before.fts d.db.fts
  pub vec : Without itself ids before.vec d.db.vec
  pub evidence : Without edge_turn ids before.evidence d.db.evidence
  pub counted : length d.db.stream + d.deleted_count ≡ length before.stream
  pub affected :
      (e : EvidenceEdge)
      → Memᴰ e before.evidence
      → contains e.stream_id ids ≡ true
      → contains e.atom_id d.affected_atom_ids ≡ true
  pub causes : All (Cause ids before.evidence) d.affected_atom_ids

contains-unique :
    (a : String) (seen xs : List String)
    → contains a seen ≡ false
    → contains a xs ≡ true
    → contains a (unique seen xs) ≡ true
unfolding unique
contains-unique a seen [] n h = cc
contains-unique a seen (x ∷ xs) n h = elim (Bool-cases (contains x seen)) [
  | inl s ↦ elim (Bool-cases (str_eq x a)) [
    | inl t ↦
        let e : x ≡ a = (str_eq_iff x a).0 t in
        let s' : contains a seen ≡ true = rw e at s in ground (arith, n, s')
    | inr f ↦ rw s (contains-unique a seen xs n (rw f at h))
  ]
  | inr s ↦ elim (Bool-cases (str_eq x a)) [
    | inl t ↦ rw (s, t) refl
    | inr f ↦ rw (s, f) (contains-unique a (x ∷ seen) xs (rw f n) (rw f at h))
  ]
]

All-unique : (P : String → Type 0) (seen xs : List String) → All P xs → All P (unique seen xs)
unfolding unique
All-unique P seen [] h = tt
All-unique P seen (x ∷ xs) h = elim (Bool-cases (contains x seen)) [
  | inl s ↦ rw s (All-unique P seen xs h.1)
  | inr n ↦ rw n (h.0, All-unique P (x ∷ seen) xs h.1)
]

contains-map_atom :
    (e : EvidenceEdge) (es : List EvidenceEdge)
    → Memᴰ e es
    → contains e.atom_id (map edge_atom es) ≡ true
contains-map_atom e [] m = elim m [ ]
contains-map_atom e (f ∷ fs) (Memᴰ.head h) = rw (← h) (rw (str_eq_refl e.atom_id))
contains-map_atom e (f ∷ fs) (Memᴰ.tail m) = elim (Bool-cases (str_eq f.atom_id e.atom_id)) [
  | inl t ↦ rw t
  | inr n ↦ rw n (contains-map_atom e fs m)
]

causes_of :
    (ids : List String) (all edges : List EvidenceEdge)
    → ((e : EvidenceEdge) → Memᴰ e edges → Memᴰ e all)
    → All (Cause ids all) (map edge_atom (select_where (is_in edge_turn ids) edges))
causes_of ids all [] sub = tt
causes_of ids all (e ∷ es) sub =
    let rest = causes_of ids all es (λ f m. sub f (Memᴰ.tail m)) in
    elim (Bool-cases (contains e.stream_id ids)) [
      | inl t ↦ rw t (cause (sub e (Memᴰ.head refl)) t refl, rest)
      | inr n ↦ rw n rest
    ]

-- Both branches of the transaction, for the rows that its DELETE leaves.
erased :
    (ids : List String) (db : StreamDb) (rows : List Turn) (n : ℕ)
    → Without turn_key ids db.stream rows
    → length rows + n ≡ length db.stream
    → Erased ids db (record {
      db = record (remove_index_and_evidence ids db).0 { stream = rows };
      deleted_count = n;
      affected_atom_ids = (remove_index_and_evidence ids db).1;
    })
unfolding remove_index_and_evidence
erased ids db rows n without counted = record {
  stream = without;
  fts = delete_where-Without itself ids (is_in itself ids) db.fts (λ x m. refl);
  vec = delete_where-Without itself ids (is_in itself ids) db.vec (λ x m. refl);
  evidence = delete_where-Without edge_turn ids (is_in edge_turn ids) db.evidence (λ x m. refl);
  counted = counted;
  affected = λ e m t.
      contains-unique e.atom_id [] (map edge_atom (select_where (is_in edge_turn ids) db.evidence))
        refl
        (contains-map_atom e (select_where (is_in edge_turn ids) db.evidence)
          (mem-select_where edge_turn (is_in edge_turn ids) e db.evidence m t));
  causes =
      All-unique (Cause ids db.evidence) []
        (map edge_atom (select_where (is_in edge_turn ids) db.evidence))
        (causes_of ids db.evidence db.evidence (λ e m. m));
}

nothing :
    (db : StreamDb) → Erased [] db (record { db = db; deleted_count = 0; affected_atom_ids = [] })
nothing db = record {
  stream = same turn_key db.stream;
  fts = same itself db.fts;
  vec = same itself db.vec;
  evidence = same edge_turn db.evidence;
  counted = omega arith;
  affected = λ e m t. cc;
  causes = tt;
}
  where
    none_in :
        {A : Type 0} (key : A → String) (xs : List A) → All (λ x. contains (key x) [] ≡ false) xs
    none_in key [] = tt
    none_in key (x ∷ xs) = (refl, none_in key xs)

    same : {A : Type 0} (key : A → String) (xs : List A) → Without key [] xs xs
    same key xs = record { gone = none_in key xs; kept = λ x m n. m; old = λ x m. m }

-- The transaction leaves the dirty flag alone.
Ran : List String → StreamDb → Deleted → Type 0
Ran ids db d = Erased ids db d × ((d.db.store_key ≡ db.store_key) × (d.db.state ≡ db.state))

ran :
    (ids : List String) (session : Option String) (db : StreamDb)
    → HasUniqueKeys turn_key db.stream
    → Ran
        (named_turns ids session db.stream)
        db
        (delete_run (record { ids = ids; session_id = session }) db)
unfolding Ran delete_run remove_index_and_evidence
ran (id ∷ ids) session db u = (
  erased (id ∷ ids) db (delete_turns (id ∷ ids) db.stream).0 (delete_turns (id ∷ ids) db.stream).1
      (subst (λ rows. Without turn_key (id ∷ ids) db.stream rows)
        (sym (delete_turns-rows (id ∷ ids) db.stream))
        (delete_where-Without turn_key (id ∷ ids) (is_in turn_key (id ∷ ids)) db.stream
          (λ x m. refl)))
      (length-delete_turns (id ∷ ids) db.stream),
  (refl, refl),
)
ran [] none db u = (nothing db, (refl, refl))
ran [] (some session) db u = elim (Bool-cases (str_eq session "")) [
  | inl t ↦ rw t (nothing db, (refl, refl))
  | inr n ↦
      let ids = map turn_key (select_where (in_session session) db.stream) in
      rw n (
        erased ids db (delete_where (in_session session) db.stream)
            (count_where (in_session session) db.stream)
            (delete_where-Without turn_key ids (in_session session) db.stream
              (contains-selected turn_key (in_session session) db.stream u))
            (length-delete_where (in_session session) db.stream),
        (refl, refl),
      )
]

marked :
    (now : ℕ) (key : String) (atoms : List String) (state : DistillState)
    → (atoms ≡ [] → affected_state now key atoms state ≡ state)
      × (atoms ≢ [] → is_dirty key (affected_state now key atoms state) ≡ true)
unfolding affected_state
marked now key [] state = ((λ e. refl), (λ ne. elim (ne refl) [ ]))
marked now key (a ∷ more) state = ((λ e. cc), (λ ne. (mark_dirty_lem now key _ state).0))

-- In a store whose turns have different ids, deleteStream leaves no row of the named turns in the
-- stream, its two indexes and the evidence, keeps every other row, and adds none. It counts the turns
-- that are gone, and reports exactly the atoms that had one of them as evidence. The store is marked as
-- dirty when there is such an atom, and otherwise keeps its mark.
pub delete_stream-Erased :
    (now : ℕ) (p : Retraction) (db : StreamDb)
    → HasUniqueKeys turn_key db.stream
    → Erased (named_turns p.ids p.session_id db.stream) db (delete_stream now p db)
      × (((delete_stream now p db).affected_atom_ids ≡ []
            → (delete_stream now p db).db.state ≡ db.state)
          × ((delete_stream now p db).affected_atom_ids ≢ []
              → is_dirty db.store_key (delete_stream now p db).db.state ≡ true))
unfolding delete_stream mark_affected Ran
delete_stream-Erased now p db u =
    let (e, (key, state)) = ran p.ids p.session_id db u in
    let d = delete_run p db in
    let (none_hit, some_hit) = marked now d.db.store_key d.affected_atom_ids d.db.state in
    (
      record {
        stream = e.stream;
        fts = e.fts;
        vec = e.vec;
        evidence = e.evidence;
        counted = e.counted;
        affected = e.affected;
        causes = e.causes;
      },
      (
        (λ none. none_hit none ∙ state),
        (λ hit. subst (λ k. is_dirty k (mark_affected now d).db.state ≡ true) key (some_hit hit)),
      ),
    )
