-- ===== src/Distill/Store/Rows.antt =====
-- What the store's operations do to the status of each atom, to the evidence and to the watermark.
use falda.Prelude.{
  ℕ, String, Bool, true, false, ◌&&◌, Option, none, some, List, [], ◌∷◌, ◌++◌, ◌≡◌, refl, sym, ◌∙◌,
  arith, inl, inr, if◌then◌else◌, str_eq, str_eq_iff, select_one, update_where, Bool-cases,
}
use falda.Distill.Decision.{contains}
use falda.Distill.Store.{
  AtomStatus, Atom, DecisionRow, StoreDb, is_active_status, has_atom_id, set_status, set_merged,
  has_edge, any, add_evidence, record_decision,
}

-- The status of the row that an id selects.
abbrev pub active_in : List Atom → String → Bool
active_in atoms id = elim (select_one (has_atom_id id) atoms) [
  | none ↦ false
  | some a ↦ is_active_status a.status
]

abbrev pub active_row : Option Atom → Bool
active_row none = false
active_row (some a) = is_active_status a.status

pub active_in-set_status :
    (now : ℕ) (status : AtomStatus) (old_id id : String) (atoms : List Atom)
    → is_active_status status ≡ false
    → active_in (update_where (has_atom_id old_id) (set_status now status) atoms) id
      ≡ (if str_eq old_id id then false else active_in atoms id)
unfolding set_status
active_in-set_status now status old_id id [] off = elim (Bool-cases (str_eq old_id id)) [
  | inl t ↦ rw t
  | inr n ↦ rw n
]
active_in-set_status now status old_id id (a ∷ atoms) off =
    let ih = active_in-set_status now status old_id id atoms off in
    elim (Bool-cases (str_eq a.id old_id)) [
      | inl t ↦
          let same = (str_eq_iff a.id old_id).0 t in
          elim (Bool-cases (str_eq old_id id)) [
            | inl u ↦ let v : str_eq a.id id ≡ true = rw same u in ground (arith, t, u, v, off)
            | inr n ↦ let v : str_eq a.id id ≡ false = rw same n in ground (arith, t, n, v, ih)
          ]
      | inr m ↦ elim (Bool-cases (str_eq a.id id)) [
        | inr n ↦ ground (arith, m, n, ih)
        | inl u ↦ elim (Bool-cases (str_eq old_id id)) [
          | inr n ↦ ground (arith, m, u, n)
          | inl v ↦
              let w : str_eq a.id old_id ≡ true =
                (str_eq_iff a.id old_id).1
                  ((str_eq_iff a.id id).0 u ∙ sym ((str_eq_iff old_id id).0 v)) in
              cc
        ]
      ]
    ]

pub active_in-set_merged :
    (now : ℕ) (losers : List String) (atoms : List Atom) (id : String)
    → active_in (set_merged now losers atoms) id
      ≡ (if contains id losers then false else active_in atoms id)
unfolding set_merged
active_in-set_merged now [] atoms id = refl
active_in-set_merged now (l ∷ ls) atoms id =
    let marked = update_where (has_atom_id l) (set_status now AtomStatus.merged) atoms in
    let ih = active_in-set_merged now ls marked id in
    let here = active_in-set_status now AtomStatus.merged l id atoms refl in
    ih ∙ elim (Bool-cases (contains id ls)) [
      | inl t ↦ ground (arith, t)
      | inr n ↦ ground (arith, n, here)
    ]

pub add_evidence-atoms :
    (now : ℕ) (atom_id : String) (ss : List String) (db db' : StoreDb)
    → add_evidence now atom_id ss db ≡ some db'
    → (db'.atoms ≡ db.atoms) × (db'.state ≡ db.state)
unfolding add_evidence
add_evidence-atoms now atom_id [] db db' h = (cc, cc)
add_evidence-atoms now atom_id (s ∷ ss) db db' h =
    elim (Bool-cases (any (has_edge atom_id s) db.evidence)) [
      | inl t ↦ add_evidence-atoms now atom_id ss db db' (rw t at h)
      | inr n ↦ elim (Bool-cases (any (has_atom_id atom_id) db.atoms && contains s db.stream)) [
        | inr m ↦ ground (arith, n, m, h)
        | inl u ↦ add_evidence-atoms now atom_id ss _ db' (rw (n, u) at h)
      ]
    ]

pub record_decision-atoms :
    (d : DecisionRow) (db : StoreDb)
    → ((record_decision d db).atoms ≡ db.atoms) × ((record_decision d db).state ≡ db.state)
unfolding record_decision
record_decision-atoms d db =
    elim (Bool-cases (any (λ (r : DecisionRow). str_eq r.id d.id) db.decisions)) [
      | inl t ↦ rw t (refl, refl)
      | inr n ↦ rw n (refl, refl)
    ]

pub select_one-append {ℓ} :
    {A : Type ℓ} (p : A → Bool) (xs ys : List A) (x : A)
    → select_one p xs ≡ some x
    → select_one p (xs ++ ys) ≡ some x
select_one-append p [] ys x h = cc
select_one-append p (y ∷ xs) ys x h = elim (Bool-cases (p y)) [
  | inl t ↦ ground (arith, t, h)
  | inr n ↦ ground (arith, n, select_one-append p xs ys x (rw n at h))
]

pub select_one-append_none {ℓ} :
    {A : Type ℓ} (p : A → Bool) (xs ys : List A)
    → select_one p xs ≡ none
    → select_one p (xs ++ ys) ≡ select_one p ys
select_one-append_none p [] ys h = refl
select_one-append_none p (y ∷ xs) ys h = elim (Bool-cases (p y)) [
  | inl t ↦ ground (arith, t, h)
  | inr n ↦ ground (arith, n, select_one-append_none p xs ys (rw n at h))
]

pub select_one-append_other {ℓ} :
    {A : Type ℓ} (p : A → Bool) (xs : List A) (y : A)
    → p y ≡ false
    → select_one p (xs ++ y ∷ []) ≡ select_one p xs
select_one-append_other p [] y h = rw h
select_one-append_other p (x ∷ xs) y h = rw (select_one-append_other p xs y h)
