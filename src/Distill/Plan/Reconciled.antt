-- ===== src/Distill/Plan/Reconciled.antt =====
-- After phase 2.5 no decision names a target that an earlier one has consumed.
use falda.Prelude.{
  ℕ, suc, String, false, not, some, List, [], ◌∷◌, ◌++◌, ◌≡◌, refl, arith, inl, inr, Memᴰ, All,
  All-imp, Bool-cases, Option-cases, select_where, length,
}
use falda.Distill.Decision.{Action, store, update, merge, skip, ConsolidationDecision, contains}
use falda.Distill.Decision.Laws.{IsValid, HasCount}
use falda.Distill.Plan.{
  Retrieved, ExistingAtom, ids_of, Replies, atom_id_from_content, consumed_by_decision,
  takes_targets, names_any, remaining, replan, reconcile,
}
use falda.Distill.Plan.Decided.{AllValid, cons_decision-eq-some, parse_consolidation-IsValid}

-- Each decision is valid for what its candidate was shown and names nothing that is consumed already
-- or by an earlier decision.
abbrev pub Planned :
    (String → String) → List String → List Retrieved → List ConsolidationDecision → Type 0
Planned hash consumed [] [] = Unit
Planned hash consumed [] (d ∷ ds) = ⊥
Planned hash consumed (r ∷ rs) [] = ⊥
Planned hash consumed (r ∷ rs) (d ∷ ds) =
    IsValid (ids_of r.existing) d
    × All (λ id. contains id consumed ≡ false) d.target_ids
    × Planned hash (consumed_by_decision d (atom_id_from_content hash r.candidate) ++ consumed) rs
        ds

none_named :
    (consumed ids : List String)
    → names_any consumed ids ≡ false
    → All (λ id. contains id consumed ≡ false) ids
none_named consumed [] h = tt
none_named consumed (id ∷ ids) h = (ground (arith, h), none_named consumed ids (ground (arith, h)))

not_named :
    (consumed ids : List String)
    → All (λ id. contains id consumed ≡ false) ids
    → names_any consumed ids ≡ false
not_named consumed [] h = refl
not_named consumed (id ∷ ids) h = rw (h.0, not_named consumed ids h.1)

left_over : List String → List ExistingAtom → List String
left_over consumed es = ids_of (select_where (λ e. not (contains e.id consumed)) es)

left_over_lem :
    (consumed : List String) (es : List ExistingAtom) (id : String)
    → Memᴰ id (left_over consumed es)
    → Memᴰ id (ids_of es) × (contains id consumed ≡ false)
unfolding left_over
left_over_lem consumed [] id m = elim m [ ]
left_over_lem consumed (e ∷ es) id m = elim (Bool-cases (contains e.id consumed)) [
  | inl t ↦ let (a, b) = left_over_lem consumed es id (rw t at m) in (Memᴰ.tail a, b)
  | inr n ↦ elim (rw n at m) [
    | Memᴰ.head same ↦ (Memᴰ.head same, rw same n)
    | Memᴰ.tail k ↦ let (a, b) = left_over_lem consumed es id k in (Memᴰ.tail a, b)
  ]
]

widened :
    (consumed : List String) (es : List ExistingAtom) (d : ConsolidationDecision)
    → IsValid (left_over consumed es) d
    → IsValid (ids_of es) d × All (λ id. contains id consumed ≡ false) d.target_ids
widened consumed es d v = (
  record {
    distinct = v.distinct;
    shown = All-imp _ _ (λ id m. (left_over_lem consumed es id m).0) d.target_ids v.shown;
    counted = v.counted;
  },
  All-imp _ _ (λ id m. (left_over_lem consumed es id m).1) d.target_ids v.shown,
)

without_targets :
    (action : Action) (ids consumed : List String)
    → takes_targets action ≡ false
    → HasCount action (length ids)
    → All (λ id. contains id consumed ≡ false) ids
without_targets action [] consumed h k = tt
without_targets store (id ∷ ids) consumed h k = ground (arith, k)
without_targets skip (id ∷ ids) consumed h k = ground (arith, k)
without_targets update (id ∷ ids) consumed h k = cc
without_targets merge (id ∷ ids) consumed h k = cc

module _ (replies : Replies) (hash : String → String) where
  replanned :
      (i : ℕ) (consumed : List String) (r : Retrieved) (d d' : ConsolidationDecision)
      → IsValid (ids_of r.existing) d
      → replan replies i consumed r d ≡ some d'
      → IsValid (ids_of r.existing) d' × All (λ id. contains id consumed ≡ false) d'.target_ids
  unfolding replan left_over
  replanned i consumed r d d' v h = elim (Bool-cases (takes_targets d.action)) [
    | inl t ↦ elim (Bool-cases (names_any consumed d.target_ids)) [
      | inl u ↦ widened consumed r.existing d' (
          parse_consolidation-IsValid (replies.replan i (remaining consumed r))
            (left_over consumed r.existing) d' (rw (t, u) at h))
      | inr n ↦
          let same : d ≡ d' = ground (arith, t, n, h) in
          rw (← same) (v, none_named consumed d.target_ids n)
    ]
    | inr n ↦
        let same : d ≡ d' = ground (arith, n, h) in
        rw (← same) (v, without_targets d.action d.target_ids consumed n v.counted)
  ]

  reconciled :
      (i : ℕ) (consumed : List String) (rs : List Retrieved) (ds plan : List ConsolidationDecision)
      → AllValid rs ds
      → reconcile replies hash i consumed rs ds ≡ some plan
      → Planned hash consumed rs plan
  unfolding reconcile
  reconciled i consumed [] ds [] v h = tt
  reconciled i consumed [] ds (p ∷ plan) v h = cc
  reconciled i consumed (r ∷ rs) [] plan v h = absurd v
  reconciled i consumed (r ∷ rs) (d ∷ ds) plan v h =
      elim (Option-cases (replan replies i consumed r d)) [
        | inl e ↦ ground (arith, e, h)
        | inr (d', e) ↦
            let taken = consumed_by_decision d' (atom_id_from_content hash r.candidate) in
            let (_, es, (a, b, c)) =
              cons_decision-eq-some (some d')
                (reconcile replies hash (suc i) (taken ++ consumed) rs ds) plan
                (ground (arith, e, h)) in
            let (valid, free) = replanned i consumed r d d' v.0 e in
            let here : plan ≡ d' ∷ es = ground (arith, a, c) in
            rw here (valid, free, reconciled (suc i) (taken ++ consumed) rs ds es v.1 b)
      ]

  kept :
      (i : ℕ) (consumed : List String) (rs : List Retrieved) (ds : List ConsolidationDecision)
      → Planned hash consumed rs ds
      → reconcile replies hash i consumed rs ds ≡ some ds
  unfolding reconcile replan
  kept i consumed [] [] p = refl
  kept i consumed [] (d ∷ ds) p = absurd p
  kept i consumed (r ∷ rs) [] p = absurd p
  kept i consumed (r ∷ rs) (d ∷ ds) (_, free, rest) =
      let n = not_named consumed d.target_ids free in
      let more = kept (suc i) _ rs ds rest in ground (arith, n, more)

-- Whatever the model answers to the second prompts: a reconciliation that does not fail leaves every
-- decision valid for its candidate, and none names a target that an earlier decision has consumed.
pub reconcile-Planned :
    (replies : Replies) (hash : String → String) (rs : List Retrieved)
    (ds plan : List ConsolidationDecision)
    → AllValid rs ds
    → reconcile replies hash 0 [] rs ds ≡ some plan
    → Planned hash [] rs plan
reconcile-Planned replies hash rs ds plan v h = reconciled replies hash 0 [] rs ds plan v h

-- Valid decisions without such a conflict are left as they are, so a second reconciliation changes
-- nothing.
pub reconcile-of-Planned :
    (replies : Replies) (hash : String → String) (rs : List Retrieved)
    (ds : List ConsolidationDecision)
    → Planned hash [] rs ds
    → reconcile replies hash 0 [] rs ds ≡ some ds
reconcile-of-Planned replies hash rs ds p = kept replies hash 0 [] rs ds p
