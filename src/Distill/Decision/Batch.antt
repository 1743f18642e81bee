-- ===== src/Distill/Decision/Batch.antt =====
-- `parseConsolidationBatch`: the entries of a batch reply are given to the candidates they name, and
-- of several entries for one candidate the first valid one counts.
pub mod Laws
use falda.Prelude.{
  ℕ, zero, suc, ◌+◌, String, Bool, false, Option, none, some, List, [], ◌∷◌, map, ◌≡◌, refl, sym,
  ◌∙◌, arith, inl, inr, ltb, ◌==◌, if◌then◌else◌, length, Bool-cases, Option-cases, get_elem?,
  update_at, get_elem?-update_at, get_elem?-update_at_ne, length-update_at, update_at_beyond,
  count_where, ap,
}
use falda.Distill.Decision.{
  Json, JsonItems, natural, no_items, item, property, ConsolidationDecision,
  validate_consolidation_decision,
}

-- One index of the arrays `allowedTargetIdsByCandidate`, `out` and `seenCount`.
pub record Slot : Type 0 where
  pub allowed : List String
  pub decision : Option ConsolidationDecision
  pub seen : ℕ

-- The index that an entry names.
unfoldable pub candidate_of : Json → Option ℕ
candidate_of obj = elim (property "candidate" obj) [
  | none ↦ none
  | some j ↦ elim j [ natural k ↦ some k | _ ↦ none ]
]

-- Number.isInteger(idx) && idx >= 0 && idx < n
unfoldable pub is_in_range : ℕ → Json → Bool
is_in_range n obj = elim (candidate_of obj) [ none ↦ false | some k ↦ ltb k n ]

unfoldable pub offer : Json → Slot → Slot
offer obj s = record s {
  decision = elim s.decision [
    | some d ↦ some d
    | none ↦ validate_consolidation_decision obj s.allowed
  ];
  seen = s.seen + 1;
}

-- An index out of range changes no slot.
unfoldable pub accept : Json → List Slot → List Slot
accept obj slots = elim (candidate_of obj) [ none ↦ slots | some k ↦ update_at k (offer obj) slots ]

unfoldable pub accept_all : List Json → List Slot → List Slot
accept_all [] slots = slots
accept_all (obj ∷ objs) slots = accept_all objs (accept obj slots)

unfoldable pub to_list : JsonItems → List Json
to_list no_items = []
to_list (item j js) = j ∷ to_list js

-- What `JSON.parse` finds in the text of a reply: the array between the first `[` and the last `]`,
-- if there is one, and the values of the lines that begin with `{`.
pub record BatchReply : Type 0 where
  pub array : Option JsonItems
  pub lines : List Json

abbrev pub new_slot : List String → Slot
new_slot allowed = record { allowed = allowed; decision = none; seen = 0 }

-- The slots behind the last line: `out` is their decisions.
unfoldable pub parse_consolidation_batch : BatchReply → List (List String) → List Slot
parse_consolidation_batch reply allowed =
    let start = map new_slot allowed in
    elim reply.array [
      | none ↦ accept_all reply.lines start
      | some items ↦
          let slots = accept_all (to_list items) start in
          if ltb 0 (count_where (is_in_range (length allowed)) (to_list items))
          then slots
          else accept_all reply.lines slots
    ]

-- The candidates whose index was named more than once, with the number of times.
unfoldable pub report_duplicates : ℕ → List Slot → List (ℕ × ℕ)
report_duplicates i [] = []
report_duplicates i (s ∷ ss) =
    let rest = report_duplicates (suc i) ss in if ltb 1 s.seen then (i, s.seen) ∷ rest else rest
