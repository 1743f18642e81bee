-- ===== src/Distill/Decision/Batch/Laws.antt =====
-- Each candidate gets the first valid entry that names it.
use falda.Prelude.{
  ℕ, zero, suc, ◌+◌, String, Bool, false, Option, none, some, List, [], ◌∷◌, map, ◌≡◌, refl, sym,
  ◌∙◌, arith, inl, inr, ltb, ◌==◌, if◌then◌else◌, length, Bool-cases, Option-cases, get_elem?,
  get_elem?-update_at, get_elem?-update_at_ne, length-update_at, update_at_beyond, count_where, ap,
}
use falda.Distill.Decision.{Json, ConsolidationDecision, validate_consolidation_decision}
use falda.Distill.Decision.Batch.{
  Slot, candidate_of, is_in_range, offer, accept, accept_all, to_list, BatchReply, new_slot,
  parse_consolidation_batch,
}

-- The entries that count: those of the array if one of them names a candidate, else the lines.
abbrev pub entries_of : BatchReply → ℕ → List Json
entries_of reply n = elim reply.array [
  | none ↦ reply.lines
  | some items ↦
      if ltb 0 (count_where (is_in_range n) (to_list items)) then to_list items else reply.lines
]

abbrev pub is_for : ℕ → Json → Bool
is_for i obj = elim (candidate_of obj) [ none ↦ false | some k ↦ k == i ]

-- The first entry for a candidate that is a valid decision for it.
unfoldable pub first_valid : ℕ → List String → List Json → Option ConsolidationDecision
first_valid i allowed [] = none
first_valid i allowed (obj ∷ objs) =
    let rest = first_valid i allowed objs in
    if is_for i obj
    then elim (validate_consolidation_decision obj allowed) [ some d ↦ some d | none ↦ rest ]
    else rest

abbrev or_else :
    Option ConsolidationDecision → Option ConsolidationDecision → Option ConsolidationDecision
or_else (some d) o = some d
or_else none o = o

or_else-none : (o : Option ConsolidationDecision) → or_else o none ≡ o
or_else-none none = refl
or_else-none (some d) = refl

same_slot :
    (s : Slot) {d d' : Option ConsolidationDecision} {n n' : ℕ}
    → d ≡ d'
    → n ≡ n'
    → record s { decision = d; seen = n } ≡ record s { decision = d'; seen = n' }
same_slot s e f = rw (e, f)

unfoldable pub after : ℕ → List Json → Slot → Slot
after i objs s = record s {
  decision = or_else s.decision (first_valid i s.allowed objs);
  seen = s.seen + count_where (is_for i) objs;
}

accepted_at :
    (i : ℕ) (obj : Json) (slots : List Slot) (s : Slot)
    → get_elem? slots i ≡ some s
    → get_elem? (accept obj slots) i ≡ some (if is_for i obj then offer obj s else s)
unfolding accept
accepted_at i obj slots s h = elim (Option-cases (candidate_of obj)) [
  | inl e ↦ ground (arith, e, h)
  | inr (k, e) ↦ elim (Bool-cases (k == i)) [
    | inl t ↦
        let same : k ≡ i = ground (arith, t) in
        let changed = get_elem?-update_at i (offer obj) slots s h in
        ground (arith, e, same, changed)
    | inr n ↦ ground (arith, e, n, h, get_elem?-update_at_ne k i (offer obj) slots n)
  ]
]

after_cons :
    (i : ℕ) (obj : Json) (objs : List Json) (s : Slot)
    → after i objs (if is_for i obj then offer obj s else s) ≡ after i (obj ∷ objs) s
unfolding after offer first_valid
after_cons i obj objs s = elim (Bool-cases (is_for i obj)) [
  | inr n ↦ rw n (same_slot s refl (omega arith))
  | inl t ↦ elim (Option-cases s.decision) [
    | inr (d, e) ↦ ground (arith, t, e)
    | inl e ↦ elim (Option-cases (validate_consolidation_decision obj s.allowed)) [
      | inl f ↦ ground (arith, t, e, f)
      | inr (d, f) ↦ ground (arith, t, e, f)
    ]
  ]
]

after_nil : (i : ℕ) (s : Slot) → after i [] s ≡ s
unfolding after first_valid
after_nil i s = same_slot s (or_else-none s.decision) (omega arith)

accepted_all_at :
    (i : ℕ) (objs : List Json) (slots : List Slot) (s : Slot)
    → get_elem? slots i ≡ some s
    → get_elem? (accept_all objs slots) i ≡ some (after i objs s)
unfolding accept_all
accepted_all_at i [] slots s h = h ∙ ap some (sym (after_nil i s))
accepted_all_at i (obj ∷ objs) slots s h =
    accepted_all_at i objs (accept obj slots) (if is_for i obj then offer obj s else s)
      (accepted_at i obj slots s h)
    ∙ ap some (after_cons i obj objs s)

length-accept : (obj : Json) (slots : List Slot) → length (accept obj slots) ≡ length slots
unfolding accept
length-accept obj slots = elim (Option-cases (candidate_of obj)) [
  | inl e ↦ ground (arith, e)
  | inr (k, e) ↦ ground (arith, e, length-update_at k (offer obj) slots)
]

accept_out_of_range :
    (obj : Json) (slots : List Slot)
    → is_in_range (length slots) obj ≡ false
    → accept obj slots ≡ slots
unfolding accept is_in_range
accept_out_of_range obj slots h = elim (Option-cases (candidate_of obj)) [
  | inl e ↦ ground (arith, e)
  | inr (k, e) ↦ ground (arith, e, update_at_beyond k (offer obj) slots (ground (arith, e, h)))
]

accept_all_out_of_range :
    (objs : List Json) (slots : List Slot)
    → count_where (is_in_range (length slots)) objs ≡ 0
    → accept_all objs slots ≡ slots
unfolding accept_all
accept_all_out_of_range [] slots h = refl
accept_all_out_of_range (obj ∷ objs) slots h =
    let same = accept_out_of_range obj slots (ground (arith, h)) in
    rw same (accept_all_out_of_range objs slots (ground (arith, h)))

length-map-new_slot :
    (allowed : List (List String)) → length (map new_slot allowed) ≡ length allowed
length-map-new_slot [] = refl
length-map-new_slot (a ∷ more) = omega (arith, length-map-new_slot more)

new_slot_at :
    (i : ℕ) (allowed : List (List String)) (ids : List String)
    → get_elem? allowed i ≡ some ids
    → get_elem? (map new_slot allowed) i ≡ some (new_slot ids)
new_slot_at i [] ids h = cc
new_slot_at zero (a ∷ more) ids h = ground arith
new_slot_at (suc i) (a ∷ more) ids h = new_slot_at i more ids h

parsed :
    (reply : BatchReply) (allowed : List (List String))
    → parse_consolidation_batch reply allowed
      ≡ accept_all (entries_of reply (length allowed)) (map new_slot allowed)
unfolding parse_consolidation_batch
parsed reply allowed = elim (Option-cases reply.array) [
  | inl e ↦ ground (arith, e)
  | inr (items, e) ↦
      elim (Bool-cases (ltb 0 (count_where (is_in_range (length allowed)) (to_list items)))) [
        | inl t ↦ ground (arith, e, t)
        | inr n ↦
            let none_in : count_where (is_in_range (length (map new_slot allowed))) (to_list items)
                ≡ 0 =
              rw (length-map-new_slot allowed) (ground (arith, n)) in
            ground
              (arith, e, n, accept_all_out_of_range (to_list items) (map new_slot allowed) none_in)
      ]
]

-- The candidate with the index `i` gets the first entry that names it and is a valid decision for
-- the ids that it was shown, and its count is the number of entries that name it. The entries are
-- those of the array, if one of them names a candidate, and the lines otherwise.
pub parse_consolidation_batch_lem :
    (reply : BatchReply) (allowed : List (List String)) (i : ℕ) (ids : List String)
    → get_elem? allowed i ≡ some ids
    → get_elem? (parse_consolidation_batch reply allowed) i
      ≡ some (record {
        allowed = ids;
        decision = first_valid i ids (entries_of reply (length allowed));
        seen = count_where (is_for i) (entries_of reply (length allowed));
      })
unfolding after
parse_consolidation_batch_lem reply allowed i ids h =
    ap (λ (slots : List Slot). get_elem? slots i) (parsed reply allowed)
    ∙ accepted_all_at i (entries_of reply (length allowed)) (map new_slot allowed) (new_slot ids)
        (new_slot_at i allowed ids h)
    ∙ ap some (same_slot (new_slot ids) refl (omega arith))
