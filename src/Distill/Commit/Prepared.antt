-- ===== src/Distill/Commit/Prepared.antt =====
-- Which operations have their atom prepared: all that are not skipped.
use falda.Prelude.{
  String, true, false, ◌||◌, List, [], ◌∷◌, ◌≡◌, sym, subst, arith, inl, inr, str_eq_refl, All,
  All-imp, Bool-cases,
}
use falda.Distill.Decision.{contains}
use falda.Distill.Commit.{L1WriteOp, is_skip, prepare, prepared_ids}

-- The operation's atom is prepared, unless it is skipped.
abbrev pub IsPrepared : List String → L1WriteOp → Type 0
IsPrepared prepared op = is_skip op.action ≡ false → contains op.new_id prepared ≡ true

-- The operation's atom is among the ids seen before or among those prepared.
abbrev IsCovered : List String → List L1WriteOp → L1WriteOp → Type 0
IsCovered ids prepared op =
    is_skip op.action ≡ false
    → (contains op.new_id ids || contains op.new_id (prepared_ids prepared)) ≡ true

prepare_seen :
    (ids : List String) (op : L1WriteOp) (ops : List L1WriteOp)
    → (is_skip op.action || contains op.new_id ids) ≡ true
    → prepare ids (op ∷ ops) ≡ prepare ids ops
unfolding prepare
prepare_seen ids op ops t = rw t

prepare_unseen :
    (ids : List String) (op : L1WriteOp) (ops : List L1WriteOp)
    → (is_skip op.action || contains op.new_id ids) ≡ false
    → prepare ids (op ∷ ops) ≡ op ∷ prepare (op.new_id ∷ ids) ops
unfolding prepare
prepare_unseen ids op ops m = rw m

prepared_or_seen :
    (ids : List String) (ops : List L1WriteOp) → All (IsCovered ids (prepare ids ops)) ops
prepared_or_seen ids [] = tt
prepared_or_seen ids (op ∷ ops) = elim (Bool-cases (is_skip op.action || contains op.new_id ids)) [
  | inl t ↦
      subst (λ (qs : List L1WriteOp). All (IsCovered ids qs) (op ∷ ops))
        (sym (prepare_seen ids op ops t)) ((λ n. ground (arith, t, n)), prepared_or_seen ids ops)
  | inr m ↦
      subst (λ (qs : List L1WriteOp). All (IsCovered ids qs) (op ∷ ops))
        (sym (prepare_unseen ids op ops m))
        (
          (λ n. ground (arith, str_eq_refl op.new_id)),
          All-imp (IsCovered (op.new_id ∷ ids) (prepare (op.new_id ∷ ids) ops)) _
              (λ q f n. ground (arith, f n)) ops (prepared_or_seen (op.new_id ∷ ids) ops),
        )
]

pub All-IsPrepared : (ops : List L1WriteOp) → All (IsPrepared (prepared_ids (prepare [] ops))) ops
All-IsPrepared ops =
    All-imp (IsCovered [] (prepare [] ops)) _ (λ q f n. f n) ops (prepared_or_seen [] ops)
