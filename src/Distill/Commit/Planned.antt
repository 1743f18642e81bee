-- ===== src/Distill/Commit/Planned.antt =====
-- From the reconciled plan to the committed transaction.
use falda.Prelude.{
  ℕ, suc, String, Bool, true, ◌&&◌, Option, some, List, [], ◌∷◌, ◌≡◌, refl, sym, ◌∙◌, subst, arith,
  inl, inr, str_eq, select_one, All, All-imp, Bool-cases, Option-cases,
}
use falda.Distill.Decision.{ConsolidationDecision, contains}
use falda.Distill.Plan.{CandidateAtom, Retrieved}
use falda.Distill.Plan.Reconciled.{Planned}
use falda.Distill.Store.{
  Atom, StoreDb, has_atom_id, get_atom, any, write_atom, upsert_distilled_atom, normalized, type_eq,
}
use falda.Distill.Store.Keys.{HasStreams}
use falda.Distill.Commit.{
  L1WriteOp, Pass, Counts, LastTurn, is_active, prepare, prepared_ids, targets_active, revalidate,
  ensure_atoms, advance, begin_tx, commit_l1, write_ops,
}
use falda.Distill.Commit.Ensure.{ensured_all, stays_active}
use falda.Distill.Commit.Prepared.{All-IsPrepared}
use falda.Distill.Commit.Success.{Turns, IsConflictFree, Awaits, HasLiveTargets, ops_succeed}

write_ops-IsConflictFree :
    (hash : String → String) (pid : String) (i : ℕ) (consumed : List String) (rs : List Retrieved)
    (ds : List ConsolidationDecision)
    → Planned hash consumed rs ds
    → IsConflictFree consumed (write_ops hash pid i rs ds)
unfolding write_ops
write_ops-IsConflictFree hash pid i consumed [] ds p = tt
write_ops-IsConflictFree hash pid i consumed (r ∷ rs) [] p = absurd p
write_ops-IsConflictFree hash pid i consumed (r ∷ rs) (d ∷ ds) (v, free, rest) =
    (v.counted, free, write_ops-IsConflictFree hash pid (suc i) _ rs ds rest)

same_evidence_one :
    (now : ℕ) (id : String) (c : CandidateAtom) (db db' : StoreDb) (inserted : Bool)
    → upsert_distilled_atom now id c db ≡ some (db', inserted)
    → (db'.stream ≡ db.stream) × (db'.evidence ≡ db.evidence)
unfolding upsert_distilled_atom write_atom
same_evidence_one now id c db db' inserted h =
    elim (Option-cases (get_atom (normalized id c).id db)) [
      | inl e ↦ ground (arith, e, h)
      | inr (b, e) ↦
          elim (Bool-cases (
            str_eq b.content (normalized id c).content
            && type_eq b.atom_type (normalized id c).atom_type)) [
              | inl t ↦ ground (arith, e, t, h)
              | inr n ↦ ground (arith, e, n, h)
            ]
    ]

same_evidence :
    (now : ℕ) (ops : List L1WriteOp) (db db' : StoreDb)
    → ensure_atoms now ops db ≡ some db'
    → (db'.stream ≡ db.stream) × (db'.evidence ≡ db.evidence)
unfolding ensure_atoms
same_evidence now [] db db' h = (cc, cc)
same_evidence now (op ∷ ops) db db' h =
    elim (Option-cases (upsert_distilled_atom now op.new_id op.candidate db)) [
      | inl e ↦ ground (arith, e, h)
      | inr ((mid, inserted), e) ↦
          let (a, b) = same_evidence_one now op.new_id op.candidate db mid inserted e in
          let (c, d) = same_evidence now ops mid db' (ground (arith, e, h)) in (c ∙ a, d ∙ b)
    ]

any-of-select_one :
    (id : String) (atoms : List Atom) (a : Atom)
    → select_one (has_atom_id id) atoms ≡ some a
    → any (has_atom_id id) atoms ≡ true
any-of-select_one id [] a h = cc
any-of-select_one id (b ∷ atoms) a h = elim (Bool-cases (str_eq b.id id)) [
  | inl t ↦ rw t
  | inr n ↦ rw n (any-of-select_one id atoms a (rw n at h))
]

row_of_active :
    (db : StoreDb) (id : String) → is_active db id ≡ true → any (has_atom_id id) db.atoms ≡ true
unfolding is_active get_atom
row_of_active db id h = elim (Option-cases (select_one (has_atom_id id) db.atoms)) [
  | inl e ↦ ground (arith, e, h)
  | inr (a, e) ↦ any-of-select_one id db.atoms a e
]

row_of_atom :
    (db : StoreDb) (id : String) (a : Atom)
    → get_atom id db ≡ some a
    → any (has_atom_id id) db.atoms ≡ true
unfolding get_atom
row_of_atom db id a h = any-of-select_one id db.atoms a h

all_active :
    (db : StoreDb) (ids : List String)
    → targets_active db ids ≡ true
    → All (λ id. is_active db id ≡ true) ids
unfolding targets_active
all_active db [] h = tt
all_active db (id ∷ ids) h = (ground (arith, h), all_active db ids (ground (arith, h)))

live_targets :
    (db : StoreDb) (ops : List L1WriteOp) → revalidate db ops ≡ true → All (HasLiveTargets db) ops
unfolding revalidate
live_targets db [] h = tt
live_targets db (op ∷ ops) h = (
  (λ t. all_active db op.target_ids (ground (arith, t, h))),
  live_targets db ops (ground (arith, h)),
)

-- The start of phase B.
Awaits-begin :
    (pass : Pass) (ops : List L1WriteOp) (db mid : StoreDb)
    → ensure_atoms pass.now (prepare [] ops) db ≡ some mid
    → HasStreams db
    → Awaits [] (prepared_ids (prepare [] ops)) mid mid
Awaits-begin pass ops db mid e h =
    let (stream, evidence) = same_evidence pass.now (prepare [] ops) db mid e in
    let (kept, created, _) = ensured_all pass.now (prepare [] ops) db mid e in
    record {
      live = λ id on free. on;
      stream = refl;
      edges = rw (stream, evidence) h;
      rows = λ id p. elim (Option-cases (get_atom id db)) [
        | inl f ↦ row_of_active mid id (created id f p)
        | inr (a, f) ↦ row_of_atom mid id a (kept id a f)
      ];
    }

conflict_free_commits :
    (pass : Pass) (store_key : String) (last : Option LastTurn) (ops : List L1WriteOp)
    (db mid : StoreDb)
    → IsConflictFree [] ops
    → revalidate db ops ≡ true
    → ensure_atoms pass.now (prepare [] ops) db ≡ some mid
    → Turns db pass.stream_ids
    → HasStreams db
    → (r : StoreDb × Counts) × (commit_l1 pass store_key last ops db ≡ some r)
unfolding commit_l1
conflict_free_commits pass store_key last ops db mid free live e turns edges =
    let (stream, _) = same_evidence pass.now (prepare [] ops) db mid e in
    let (kept, _, _) = ensured_all pass.now (prepare [] ops) db mid e in
    let carried : All (HasLiveTargets mid) ops =
      All-imp (HasLiveTargets db) (HasLiveTargets mid)
        (λ op h t. All-imp _ _ (λ id on. stays_active db mid id (kept id) on) op.target_ids (h t))
        ops (live_targets db ops live) in
    let there : Turns mid pass.stream_ids =
      subst (λ (s : List String). All (λ id. contains id s ≡ true) pass.stream_ids) (sym stream)
        turns in
    let (tx, f) =
      ops_succeed pass (prepared_ids (prepare [] ops)) [] ops mid (begin_tx mid)
        (All-IsPrepared ops) carried free there (Awaits-begin pass ops db mid e edges) in
    ((advance pass store_key last tx.db, tx.counts), ground (arith, live, e, f))

-- The write operations of a reconciled plan commit, when their targets are active as the transaction
-- begins, the prepared atoms can be written, and the turns of the pass and of the evidence are there:
-- no operation meets a target that another one of the pass has retired.
pub planned_commits :
    (hash : String → String) (pid : String) (pass : Pass) (store_key : String)
    (last : Option LastTurn) (rs : List Retrieved) (plan : List ConsolidationDecision)
    (db mid : StoreDb)
    → Planned hash [] rs plan
    → revalidate db (write_ops hash pid 0 rs plan) ≡ true
    → ensure_atoms pass.now (prepare [] (write_ops hash pid 0 rs plan)) db ≡ some mid
    → Turns db pass.stream_ids
    → HasStreams db
    → (r : StoreDb × Counts) × (commit_l1 pass store_key last (write_ops hash pid 0 rs plan) db
        ≡ some r)
planned_commits hash pid pass store_key last rs plan db mid p live e turns edges =
    conflict_free_commits pass store_key last (write_ops hash pid 0 rs plan) db mid
      (write_ops-IsConflictFree hash pid 0 [] rs plan p) live e turns edges
