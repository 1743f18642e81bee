-- ===== src/Distill/Store/Keys.antt =====
-- The foreign keys of the evidence: when an insert succeeds, and what every operation keeps.
use falda.Prelude.{
  ℕ, String, Bool, true, some, List, [], ◌∷◌, ◌++◌, map, ◌≡◌, refl, ◌∙◌, inl, inr, str_eq,
  select_where, update_where, All, All-append, Bool-cases,
}
use falda.Distill.Decision.{contains}
use falda.Distill.Store.{
  AtomStatus, Atom, EvidenceEdge, DecisionRow, StoreDb, has_atom_id, set_status, supersede_atom,
  set_merged, merge_atoms, mark_store_dirty, has_edge, any, add_evidence, evidence_for_atom,
  record_decision,
}

-- Every edge is to a turn that is there.
abbrev pub HasStreams : StoreDb → Type 0
HasStreams db = All (λ (e : EvidenceEdge). contains e.stream_id db.stream ≡ true) db.evidence

pub record Keeps (db db' : StoreDb) : Type 0 where
  pub stream : db'.stream ≡ db.stream
  pub edges : HasStreams db → HasStreams db'
  pub rows :
      (id : String) → any (has_atom_id id) db.atoms ≡ true → any (has_atom_id id) db'.atoms ≡ true

pub Keeps-refl : (db : StoreDb) → Keeps db db
Keeps-refl db = record { stream = refl; edges = λ h. h; rows = λ id h. h }

pub Keeps-trans : (db mid db' : StoreDb) → Keeps db mid → Keeps mid db' → Keeps db db'
Keeps-trans db mid db' a b = record {
  stream = b.stream ∙ a.stream;
  edges = λ h. b.edges (a.edges h);
  rows = λ id h. b.rows id (a.rows id h);
}

pub add_evidence-Keeps :
    (now : ℕ) (id : String) (ss : List String) (db : StoreDb)
    → any (has_atom_id id) db.atoms ≡ true
    → All (λ s. contains s db.stream ≡ true) ss
    → (db' : StoreDb) × (add_evidence now id ss db ≡ some db') × Keeps db db'
unfolding add_evidence
add_evidence-Keeps now id [] db r h = (db, refl, Keeps-refl db)
add_evidence-Keeps now id (s ∷ ss) db r h = elim (Bool-cases (any (has_edge id s) db.evidence)) [
  | inl t ↦ rw t (add_evidence-Keeps now id ss db r h.1)
  | inr n ↦
      let edge : EvidenceEdge = record { atom_id = id; stream_id = s; added_at = now } in
      let mid = record db { evidence = db.evidence ++ edge ∷ [] } in
      let here : Keeps db mid = record {
        stream = refl;
        edges = λ k. All-append _ db.evidence (edge ∷ []) k (h.0, tt);
        rows = λ i k. k;
      } in
      let (db', e, k) = add_evidence-Keeps now id ss mid r h.1 in
      (db', simp (n, r, h.0) e, Keeps-trans db mid db' here k)
]

pub record_decision-Keeps : (d : DecisionRow) (db : StoreDb) → Keeps db (record_decision d db)
unfolding record_decision
record_decision-Keeps d db =
    elim (Bool-cases (any (λ (r : DecisionRow). str_eq r.id d.id) db.decisions)) [
      | inl t ↦ rw t (Keeps-refl db)
      | inr n ↦ rw n (record { stream = refl; edges = λ h. h; rows = λ id h. h })
    ]

any-set_status :
    (now : ℕ) (status : AtomStatus) (p : Atom → Bool) (id : String) (atoms : List Atom)
    → any (has_atom_id id) (update_where p (set_status now status) atoms)
      ≡ any (has_atom_id id) atoms
unfolding set_status
any-set_status now status p id [] = refl
any-set_status now status p id (a ∷ atoms) =
    let ih = any-set_status now status p id atoms in
    elim (Bool-cases (p a)) [ inl t ↦ rw (t, ih) | inr n ↦ rw (n, ih) ]

any-set_merged :
    (now : ℕ) (id : String) (losers : List String) (atoms : List Atom)
    → any (has_atom_id id) (set_merged now losers atoms) ≡ any (has_atom_id id) atoms
unfolding set_merged
any-set_merged now id [] atoms = refl
any-set_merged now id (l ∷ ls) atoms =
    any-set_merged now id ls _ ∙ any-set_status now AtomStatus.merged (has_atom_id l) id atoms

pub supersede_atom-Keeps :
    (now : ℕ) (old_id new_id : String) (db : StoreDb)
    → Keeps db (supersede_atom now old_id new_id db)
unfolding supersede_atom mark_store_dirty
supersede_atom-Keeps now old_id new_id db = record {
  stream = refl;
  edges = λ h. h;
  rows = λ id h. any-set_status now AtomStatus.superseded (has_atom_id old_id) id db.atoms ∙ h;
}

pub merge_atoms-Keeps :
    (now : ℕ) (losers : List String) (winner : String) (db : StoreDb)
    → Keeps db (merge_atoms now losers winner db)
unfolding merge_atoms mark_store_dirty
merge_atoms-Keeps now [] winner db = record {
  stream = refl;
  edges = λ h. h;
  rows = λ id h. any-set_merged now id [] db.atoms ∙ h;
}
merge_atoms-Keeps now (l ∷ ls) winner db = record {
  stream = refl;
  edges = λ h. h;
  rows = λ id h. any-set_merged now id (l ∷ ls) db.atoms ∙ h;
}

pub evidence_for_atom-HasStreams :
    (id : String) (db : StoreDb)
    → HasStreams db
    → All (λ s. contains s db.stream ≡ true) (evidence_for_atom id db)
unfolding evidence_for_atom
evidence_for_atom-HasStreams id db h = go db.evidence h
  where
    go :
        (es : List EvidenceEdge)
        → All (λ (e : EvidenceEdge). contains e.stream_id db.stream ≡ true) es
        → All
            (λ s. contains s db.stream ≡ true)
            (map
              (λ (e : EvidenceEdge). e.stream_id)
              (select_where (λ (e : EvidenceEdge). str_eq e.atom_id id) es))
    go [] h = tt
    go (e ∷ es) h = elim (Bool-cases (str_eq e.atom_id id)) [
      | inl t ↦ rw t (h.0, go es h.1)
      | inr n ↦ rw n (go es h.1)
    ]
