-- ===== src/Distill/Plan/Decided.antt =====
-- Every candidate gets one decision, valid for what it was shown.
use falda.Prelude.{
  ℕ, suc, ◌+◌, String, Option, none, some, List, [], ◌∷◌, ◌++◌, map, ◌≡◌, refl, subst, arith, inl,
  inr, leb, ◌||◌, length, Bool-cases, Option-cases, get_elem?, count_where,
}
use falda.Distill.Decision.{Json, ConsolidationDecision, validate_consolidation_decision}
use falda.Distill.Decision.Laws.{IsValid, validate_consolidation_decision-IsValid}
use falda.Distill.Decision.Batch.{Slot, BatchReply, parse_consolidation_batch}
use falda.Distill.Decision.Batch.Laws.{
  first_valid, is_for, parse_consolidation_batch_lem, entries_of,
}
use falda.Distill.Chunks.{concat, pack_consolidation_chunks_lem}
use falda.Distill.Plan.{
  Retrieved, ids_of, Replies, parse_consolidation, decide_individually, cons_decision, decide_each,
  settle_chunk, append_decisions, decide_chunks, decide_all,
}

-- As many decisions as candidates, each valid for the ids that its candidate was shown.
abbrev pub AllValid : List Retrieved → List ConsolidationDecision → Type 0
AllValid [] [] = Unit
AllValid [] (d ∷ ds) = ⊥
AllValid (r ∷ rs) [] = ⊥
AllValid (r ∷ rs) (d ∷ ds) = IsValid (ids_of r.existing) d × AllValid rs ds

pub nothing_decided : (ds : List ConsolidationDecision) → some [] ≡ some ds → AllValid [] ds
nothing_decided [] h = tt
nothing_decided (d ∷ ds) h = cc

AllValid-append :
    (rs qs : List Retrieved) (ds es : List ConsolidationDecision)
    → AllValid rs ds
    → AllValid qs es
    → AllValid (rs ++ qs) (ds ++ es)
AllValid-append [] qs [] es h k = k
AllValid-append [] qs (d ∷ ds) es h k = absurd h
AllValid-append (r ∷ rs) qs [] es h k = absurd h
AllValid-append (r ∷ rs) qs (d ∷ ds) es h k = (h.0, AllValid-append rs qs ds es h.1 k)

pub cons_decision-eq-some :
    (o : Option ConsolidationDecision) (rest : Option (List ConsolidationDecision))
    (ds : List ConsolidationDecision)
    → cons_decision o rest ≡ some ds
    → (d : ConsolidationDecision) × (es : List ConsolidationDecision) × ((o ≡ some d)
        × (rest ≡ some es)
        × (ds ≡ d ∷ es))
cons_decision-eq-some none rest ds h = cc
cons_decision-eq-some (some d) none ds h = cc
cons_decision-eq-some (some d) (some es) ds h = (d, es, (refl, refl, cc))

append_decisions-eq-some :
    (o rest : Option (List ConsolidationDecision)) (ds : List ConsolidationDecision)
    → append_decisions o rest ≡ some ds
    → (d : List ConsolidationDecision) × (es : List ConsolidationDecision) × ((o ≡ some d)
        × (rest ≡ some es)
        × (ds ≡ d ++ es))
append_decisions-eq-some none rest ds h = cc
append_decisions-eq-some (some d) none ds h = cc
append_decisions-eq-some (some d) (some es) ds h = (d, es, (refl, refl, cc))

pub parse_consolidation-IsValid :
    (reply : Option Json) (allowed : List String) (d : ConsolidationDecision)
    → parse_consolidation reply allowed ≡ some d
    → IsValid allowed d
unfolding parse_consolidation
parse_consolidation-IsValid none allowed d h = cc
parse_consolidation-IsValid (some obj) allowed d h =
    validate_consolidation_decision-IsValid obj allowed d h

first_valid-IsValid :
    (i : ℕ) (allowed : List String) (objs : List Json) (d : ConsolidationDecision)
    → first_valid i allowed objs ≡ some d
    → IsValid allowed d
unfolding first_valid
first_valid-IsValid i allowed [] d h = cc
first_valid-IsValid i allowed (obj ∷ objs) d h = elim (Bool-cases (is_for i obj)) [
  | inr n ↦ first_valid-IsValid i allowed objs d (rw n at h)
  | inl t ↦ elim (Option-cases (validate_consolidation_decision obj allowed)) [
    | inl e ↦ first_valid-IsValid i allowed objs d (ground (arith, t, e, h))
    | inr (c, e) ↦ validate_consolidation_decision-IsValid obj allowed d (ground (arith, t, e, h))
  ]
]

abbrev shown : Retrieved → List String
shown r = ids_of r.existing

-- The decision of the slot `j`, if there is one, is valid for the ids shown to the candidate `j`.
abbrev SlotsAreValid : List Retrieved → List Slot → Type 0
SlotsAreValid rs slots =
    (j : ℕ) (ids : List String)
    → get_elem? (map shown rs) j ≡ some ids
    → (s : Slot) × (get_elem? slots j ≡ some s)
      × ((d : ConsolidationDecision) → s.decision ≡ some d → IsValid ids d)

parsed_slots-AreValid :
    (rs : List Retrieved) (reply : BatchReply)
    → SlotsAreValid rs (parse_consolidation_batch reply (map shown rs))
parsed_slots-AreValid rs reply j ids h = (
  record {
    allowed = ids;
    decision = first_valid j ids (entries_of reply (length (map shown rs)));
    seen = count_where (is_for j) (entries_of reply (length (map shown rs)));
  },
  parse_consolidation_batch_lem reply (map shown rs) j ids h,
  λ d e. first_valid-IsValid j ids (entries_of reply (length (map shown rs))) d e,
)

module _ (replies : Replies) where
  decide_individually-IsValid :
      (i : ℕ) (r : Retrieved) (d : ConsolidationDecision)
      → decide_individually replies i r ≡ some d
      → IsValid (ids_of r.existing) d
  unfolding decide_individually
  decide_individually-IsValid i r d h =
      parse_consolidation-IsValid (replies.single i r) (ids_of r.existing) d h

  decide_each-AllValid :
      (i : ℕ) (rs : List Retrieved) (ds : List ConsolidationDecision)
      → decide_each replies i rs ≡ some ds
      → AllValid rs ds
  unfolding decide_each
  decide_each-AllValid i [] ds h = nothing_decided ds h
  decide_each-AllValid i (r ∷ rs) ds h =
      let (d, es, (a, b, c)) = cons_decision-eq-some _ _ ds h in
      rw c (decide_individually-IsValid i r d a, decide_each-AllValid (suc i) rs es b)

  settled-IsValid :
      (i : ℕ) (r : Retrieved) (s : Slot) (d : ConsolidationDecision)
      → ((d : ConsolidationDecision) → s.decision ≡ some d → IsValid (ids_of r.existing) d)
      → elim s.decision [ some d ↦ some d | none ↦ decide_individually replies i r ] ≡ some d
      → IsValid (ids_of r.existing) d
  settled-IsValid i r s d good h = elim (Option-cases s.decision) [
    | inl e ↦ decide_individually-IsValid i r d (ground (arith, e, h))
    | inr (c, e) ↦ good d (ground (arith, e, h))
  ]

  settle_chunk-AllValid :
      (i : ℕ) (rs : List Retrieved) (slots : List Slot) (ds : List ConsolidationDecision)
      → SlotsAreValid rs slots
      → settle_chunk replies i rs slots ≡ some ds
      → AllValid rs ds
  unfolding settle_chunk
  settle_chunk-AllValid i [] slots ds good h = nothing_decided ds h
  settle_chunk-AllValid i (r ∷ rs) [] ds good h =
      let (s, e, _) = good 0 (ids_of r.existing) refl in cc e
  settle_chunk-AllValid i (r ∷ rs) (t ∷ slots) ds good h =
      let (d, es, (a, b, c)) =
        cons_decision-eq-some
          (elim t.decision [ some d ↦ some d | none ↦ decide_individually replies i r ])
          (settle_chunk replies (suc i) rs slots) ds h in
      let (s, e, valid) = good 0 (ids_of r.existing) refl in
      let same : t ≡ s = ground (arith, e) in
      rw c (
        settled-IsValid i r t d (λ d k. valid d (rw same at k)) a,
        settle_chunk-AllValid (suc i) rs slots es (λ j. good (suc j)) b,
      )

  decide_chunks-AllValid :
      (start : ℕ) (chunks : List (List Retrieved)) (ds : List ConsolidationDecision)
      → decide_chunks replies start chunks ≡ some ds
      → AllValid (concat chunks) ds
  unfolding decide_chunks
  decide_chunks-AllValid start [] ds h = nothing_decided ds h
  decide_chunks-AllValid start (c ∷ cs) ds h =
      let (d, es, (a, b, e)) = append_decisions-eq-some _ _ ds h in
      rw e (
        AllValid-append c (concat cs) d es
          (settle_chunk-AllValid start c _ d (parsed_slots-AreValid c (replies.batch start c)) a)
          (decide_chunks-AllValid (start + length c) cs es b))

  -- Whatever the model answers, in batches or one by one: a pass that does not fail has one decision
  -- for each candidate, in order, valid for the ids that this candidate was shown.
  pub decide_all-AllValid :
      (batch_size max_chars : ℕ) (prompt_size : List Retrieved → ℕ) (rs : List Retrieved)
      (ds : List ConsolidationDecision)
      → decide_all replies batch_size max_chars prompt_size rs ≡ some ds
      → AllValid rs ds
  unfolding decide_all
  decide_all-AllValid batch_size max_chars prompt_size rs ds h =
      elim (Bool-cases (leb batch_size 1 || leb (length rs) 1)) [
        | inl t ↦ decide_each-AllValid 0 rs ds (rw t at h)
        | inr n ↦
            let whole =
              (pack_consolidation_chunks_lem batch_size max_chars prompt_size rs
                (ground (arith, n))).0 in
            subst (λ (qs : List Retrieved). AllValid qs ds) whole
              (decide_chunks-AllValid 0 _ ds (rw n at h))
      ]

  module _
      (answers : (i : ℕ) (r : Retrieved)
        → (d : ConsolidationDecision) × (decide_individually replies i r ≡ some d)) where
    each_decided :
        (i : ℕ) (rs : List Retrieved)
        → (ds : List ConsolidationDecision) × (decide_each replies i rs ≡ some ds)
    unfolding decide_each
    each_decided i [] = ([], refl)
    each_decided i (r ∷ rs) =
        let (d, e) = answers i r in let (ds, f) = each_decided (suc i) rs in (d ∷ ds, rw (e, f))

    chunk_settled :
        (i : ℕ) (rs : List Retrieved) (slots : List Slot)
        → (ds : List ConsolidationDecision) × (settle_chunk replies i rs slots ≡ some ds)
    unfolding settle_chunk
    chunk_settled i [] slots = ([], refl)
    chunk_settled i (r ∷ rs) [] =
        let (d, e) = answers i r in let (ds, f) = chunk_settled (suc i) rs [] in (d ∷ ds, rw (e, f))
    chunk_settled i (r ∷ rs) (s ∷ slots) =
        let (d, e) = answers i r in
        let (ds, f) = chunk_settled (suc i) rs slots in
        elim (Option-cases s.decision) [
          | inl g ↦ (d ∷ ds, rw (g, e, f))
          | inr (c, g) ↦ (c ∷ ds, rw (g, f))
        ]

    chunks_decided :
        (start : ℕ) (chunks : List (List Retrieved))
        → (ds : List ConsolidationDecision) × (decide_chunks replies start chunks ≡ some ds)
    unfolding decide_chunks
    chunks_decided start [] = ([], refl)
    chunks_decided start (c ∷ cs) =
        let (ds, e) =
          chunk_settled start c (parse_consolidation_batch (replies.batch start c) (map shown c)) in
        let (es, f) = chunks_decided (start + length c) cs in (ds ++ es, rw (e, f))

    -- When the model answers every prompt for a single candidate with a valid decision, the phase
    -- succeeds, whatever it answers to the batch prompts.
    pub decide_all-eq-some :
        (batch_size max_chars : ℕ) (prompt_size : List Retrieved → ℕ) (rs : List Retrieved)
        → (ds : List ConsolidationDecision) × (decide_all replies batch_size max_chars prompt_size
              rs
            ≡ some ds)
    unfolding decide_all
    decide_all-eq-some batch_size max_chars prompt_size rs =
        elim (Bool-cases (leb batch_size 1 || leb (length rs) 1)) [
          | inl t ↦ rw t (each_decided 0 rs)
          | inr n ↦ rw n (chunks_decided 0 _)
        ]
