-- ===== src/Distill/Plan.antt =====
-- The plan of a pass, phases 1 to 3 of `distillOncePass` in `src/distill/core.ts`: one decision for
-- each candidate, no target taken twice. The replies of the model are parameters.
pub mod Decided
pub mod Reconciled
use Prim.Native.String.{◌++◌}
use falda.Prelude.{
  ℕ, zero, suc, ◌+◌, String, Bool, true, false, not, ◌&&◌, ◌||◌, Option, none, some, List, [], ◌∷◌,
  ◌++◌ as append, map, leb, if◌then◌else◌, str_eq, length, select_where, decimal,
}
use falda.Distill.Decision.{
  Json, Action, store, update, merge, skip, ConsolidationDecision, contains,
  validate_consolidation_decision,
}
use falda.Distill.Decision.Batch.{Slot, BatchReply, parse_consolidation_batch}
use falda.Distill.Chunks.{pack_consolidation_chunks}

pub data AtomType : Type 0 where
  fact pattern_kind preference constraint instruction : AtomType

pub data AtomConfidence : Type 0 where
  high medium low : AtomConfidence

abbrev pub type_name : AtomType → String
type_name fact = "fact"
type_name pattern_kind = "pattern"
type_name preference = "preference"
type_name constraint = "constraint"
type_name instruction = "instruction"

pub record CandidateAtom : Type 0 where
  pub atom_type : AtomType
  pub content : String
  pub confidence : AtomConfidence

pub record ExistingAtom : Type 0 where
  pub id : String
  pub atom_type : AtomType
  pub content : String
  pub confidence : AtomConfidence

-- A candidate with the atoms that the search found for it.
pub record Retrieved : Type 0 where
  pub candidate : CandidateAtom
  pub existing : List ExistingAtom

abbrev pub ids_of : List ExistingAtom → List String
ids_of = map (λ e. e.id)

-- `hash` is the first 24 hexadecimal digits of SHA-256.
unfoldable pub atom_id_from_content : (String → String) → CandidateAtom → String
atom_id_from_content hash c = "l1-" ++ hash (type_name c.atom_type ++ (":" ++ c.content))

-- The object that a single reply holds, if it holds one, against the ids shown.
unfoldable pub parse_consolidation : Option Json → List String → Option ConsolidationDecision
parse_consolidation none allowed = none
parse_consolidation (some obj) allowed = validate_consolidation_decision obj allowed

-- What the model answers: to the prompt for one candidate, here by its index, and to that of a chunk,
-- by the index of its first candidate.
pub record Replies : Type 0 where
  pub single : ℕ → Retrieved → Option Json
  pub batch : ℕ → List Retrieved → BatchReply
  pub replan : ℕ → Retrieved → Option Json

abbrev pub cons_decision :
    Option ConsolidationDecision
    → Option (List ConsolidationDecision)
    → Option (List ConsolidationDecision)
cons_decision none rest = none
cons_decision (some d) none = none
cons_decision (some d) (some ds) = some (d ∷ ds)

abbrev pub append_decisions :
    Option (List ConsolidationDecision)
    → Option (List ConsolidationDecision)
    → Option (List ConsolidationDecision)
append_decisions none rest = none
append_decisions (some ds) none = none
append_decisions (some ds) (some es) = some (append ds es)

unfoldable pub consumed_by_decision : ConsolidationDecision → String → List String
consumed_by_decision d new_id = elim d.action [
  | update ↦ elim d.target_ids [ [] ↦ [] | id ∷ _ ↦ if str_eq id new_id then [] else id ∷ [] ]
  | merge ↦ select_where (λ id. not (str_eq id new_id)) d.target_ids
  | _ ↦ []
]

abbrev pub takes_targets : Action → Bool
takes_targets update = true
takes_targets merge = true
takes_targets _ = false

abbrev pub names_any : List String → List String → Bool
names_any consumed [] = false
names_any consumed (id ∷ ids) = contains id consumed || names_any consumed ids

-- The candidate with the atoms that no earlier candidate has consumed.
abbrev pub remaining : List String → Retrieved → Retrieved
remaining consumed r = record r {
  existing = select_where (λ e. not (contains e.id consumed)) r.existing;
}

module _ (replies : Replies) where
  unfoldable pub decide_individually : ℕ → Retrieved → Option ConsolidationDecision
  decide_individually i r = parse_consolidation (replies.single i r) (ids_of r.existing)

  unfoldable pub decide_each : ℕ → List Retrieved → Option (List ConsolidationDecision)
  decide_each i [] = some []
  decide_each i (r ∷ rs) = cons_decision (decide_individually i r) (decide_each (suc i) rs)

  -- Each decision of the batch reply, or else the candidate's own.
  unfoldable pub settle_chunk : ℕ → List Retrieved → List Slot → Option (List ConsolidationDecision)
  settle_chunk i [] slots = some []
  settle_chunk i (r ∷ rs) [] = cons_decision (decide_individually i r) (settle_chunk (suc i) rs [])
  settle_chunk i (r ∷ rs) (s ∷ slots) =
      cons_decision (elim s.decision [ some d ↦ some d | none ↦ decide_individually i r ])
        (settle_chunk (suc i) rs slots)

  unfoldable pub decide_chunks : ℕ → List (List Retrieved) → Option (List ConsolidationDecision)
  decide_chunks start [] = some []
  decide_chunks start (chunk ∷ chunks) =
      append_decisions
        (settle_chunk start chunk (
          parse_consolidation_batch (replies.batch start chunk)
            (map (λ (r : Retrieved). ids_of r.existing) chunk)))
        (decide_chunks (start + length chunk) chunks)

  -- Phase 2; `none` is a pass that fails on a malformed reply.
  unfoldable pub decide_all :
      ℕ → ℕ → (List Retrieved → ℕ) → List Retrieved → Option (List ConsolidationDecision)
  decide_all batch_size max_chars prompt_size retrieved =
      if leb batch_size 1 || leb (length retrieved) 1
      then decide_each 0 retrieved
      else decide_chunks 0
          (pack_consolidation_chunks batch_size max_chars prompt_size retrieved).chunks

  unfoldable pub replan :
      ℕ → List String → Retrieved → ConsolidationDecision → Option ConsolidationDecision
  replan i consumed r d =
      let left = remaining consumed r in
      if takes_targets d.action && names_any consumed d.target_ids
      then parse_consolidation (replies.replan i left) (ids_of left.existing)
      else some d

  -- Phase 2.5, over the candidates in order. `consumed` is `consumedTargets`.
  unfoldable pub reconcile :
      (String → String)
      → ℕ
      → List String
      → List Retrieved
      → List ConsolidationDecision
      → Option (List ConsolidationDecision)
  reconcile hash i consumed [] ds = some []
  reconcile hash i consumed (r ∷ rs) [] = some []
  reconcile hash i consumed (r ∷ rs) (d ∷ ds) = elim (replan i consumed r d) [
    | none ↦ none
    | some d' ↦
        let taken = consumed_by_decision d' (atom_id_from_content hash r.candidate) in
        cons_decision (some d') (reconcile hash (suc i) (append taken consumed) rs ds)
  ]
