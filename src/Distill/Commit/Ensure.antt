-- ===== src/Distill/Commit/Ensure.antt =====
-- Phase A of the transaction: what it does to the atoms.
use falda.Prelude.{
  ℕ, String, Bool, true, false, ◌&&◌, none, some, List, [], ◌∷◌, ◌++◌, ◌≡◌, sym, ap, ◌∙◌, subst,
  arith, inl, inr, str_eq, str_eq_iff, str_eq_refl, select_one, Bool-cases, Option-cases,
}
use falda.Distill.Decision.{contains}
use falda.Distill.Plan.{CandidateAtom}
use falda.Distill.Store.{
  Atom, StoreDb, has_atom_id, get_atom, new_atom, normalized, write_atom, upsert_distilled_atom,
  type_eq,
}
use falda.Distill.Store.Rows.{
  select_one-append, select_one-append_none, select_one-append_other, active_row,
}
use falda.Distill.Commit.{L1WriteOp, is_active, prepared_ids, ensure_atoms}

-- Phase A and one atom: a row that is there stays as it is, and a new id gets an active one.
pub record Ensured (id : String) (db db' : StoreDb) : Type 0 where
  pub kept : (i : String) (a : Atom) → get_atom i db ≡ some a → get_atom i db' ≡ some a
  pub others : (i : String) → str_eq id i ≡ false → get_atom i db' ≡ get_atom i db
  pub created : get_atom id db ≡ none → is_active db' id ≡ true
  pub state : db'.state ≡ db.state

upsert-Ensured :
    (now : ℕ) (id : String) (c : CandidateAtom) (db db' : StoreDb) (inserted : Bool)
    → upsert_distilled_atom now id c db ≡ some (db', inserted)
    → Ensured id db db'
unfolding upsert_distilled_atom write_atom get_atom is_active new_atom normalized
upsert-Ensured now id c db db' inserted h =
    elim (Option-cases (select_one (has_atom_id id) db.atoms)) [
      | inl e ↦
          let a = new_atom now (normalized id c) in
          let rows : db'.atoms ≡ db.atoms ++ a ∷ [] = ground (arith, e, h) in
          record {
            kept = λ i b f. rw rows (select_one-append (has_atom_id i) db.atoms (a ∷ []) b f);
            others = λ i n. rw rows (select_one-append_other (has_atom_id i) db.atoms a n);
            created = λ _. rw rows (
                ap active_row (select_one-append_none (has_atom_id id) db.atoms (a ∷ []) e)
                ∙ rw (str_eq_refl id));
            state = ground (arith, e, h);
          }
      | inr (b, e) ↦
          elim (Bool-cases (str_eq b.content c.content && type_eq b.atom_type c.atom_type)) [
            | inr n ↦ ground (arith, e, n, h)
            | inl t ↦
                let rows : db'.atoms ≡ db.atoms = ground (arith, e, t, h) in
                record {
                  kept = λ i a f. rw rows f;
                  others = λ i n. rw rows;
                  created = λ f. cc;
                  state = ground (arith, e, t, h);
                }
          ]
    ]

pub stays_active :
    (db db' : StoreDb) (i : String)
    → ((a : Atom) → get_atom i db ≡ some a → get_atom i db' ≡ some a)
    → is_active db i ≡ true
    → is_active db' i ≡ true
unfolding is_active
stays_active db db' i kept h = elim (Option-cases (get_atom i db)) [
  | inl e ↦ ground (arith, e, h)
  | inr (a, e) ↦ ground (arith, e, h, kept a e)
]

pub ensured_all :
    (now : ℕ) (ops : List L1WriteOp) (db db' : StoreDb)
    → ensure_atoms now ops db ≡ some db'
    → ((i : String) (a : Atom) → get_atom i db ≡ some a → get_atom i db' ≡ some a)
      × ((i : String)
          → get_atom i db ≡ none
          → contains i (prepared_ids ops) ≡ true
          → is_active db' i ≡ true)
      × (db'.state ≡ db.state)
unfolding ensure_atoms
ensured_all now [] db db' h =
    let same : db ≡ db' = ground (arith, h) in ((λ i a e. rw (← same) e), (λ i e m. cc), cc)
ensured_all now (op ∷ ops) db db' h =
    elim (Option-cases (upsert_distilled_atom now op.new_id op.candidate db)) [
      | inl e ↦ ground (arith, e, h)
      | inr ((mid, inserted), e) ↦
          let one = upsert-Ensured now op.new_id op.candidate db mid inserted e in
          let (kept, created, state) = ensured_all now ops mid db' (ground (arith, e, h)) in
          (
            (λ i a f. kept i a (one.kept i a f)),
            (λ i f m. elim (Bool-cases (str_eq op.new_id i)) [
              | inl t ↦
                  let same = (str_eq_iff op.new_id i).0 t in
                  stays_active mid db' i (kept i) (
                    subst (λ (x : String). is_active mid x ≡ true) same
                      (one.created (subst (λ (x : String). get_atom x db ≡ none) (sym same) f)))
              | inr n ↦ created i (one.others i n ∙ f) (rw n at m)
            ]),
            state ∙ one.state,
          )
    ]
