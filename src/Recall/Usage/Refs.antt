-- ===== src/Recall/Usage/Refs.antt =====
-- References, and how one UPDATE of `usage` shows in the trace's items.
use falda.Prelude.{
  String, true, false, Option, none, some, List, [], ◌∷◌, ◌≡◌, refl, sym, subst, inl, inr, arith,
  str_eq, str_eq_iff, str_eq_refl, Bool-cases, select_where, update_where, sort_by,
  sort_by-update_where,
}
use falda.Recall.Types.{Tier, t1, UsageState, RecallTraceItemRow, ItemRef, ref_eq, tier_eq}
use falda.Recall.Traces.{of_recall}
use falda.Recall.Usage.{has_ref, ref_of, known_usage, set_usage, update_usage}

tier_eq_refl : (t : Tier) → tier_eq t t ≡ true
tier_eq_refl t1 = refl
tier_eq_refl _ = refl

tier_eq→eq : (s t : Tier) → tier_eq s t ≡ true → s ≡ t
tier_eq→eq s t h = ground arith

pub ref_eq_refl : (r : ItemRef) → ref_eq r r ≡ true
ref_eq_refl r = rw (tier_eq_refl r.tier) (str_eq_refl r.id)

pub ref_eq→eq : (r s : ItemRef) → ref_eq r s ≡ true → r ≡ s
ref_eq→eq r s h = ground (arith, tier_eq→eq r.tier s.tier, str_eq_iff r.id s.id)

pub ref_eq_sym : (r s : ItemRef) → ref_eq r s ≡ true → ref_eq s r ≡ true
ref_eq_sym r s h = rw (ref_eq→eq r s h) (ref_eq_refl s)

-- The items of one recall as `row_to_trace_view` reads them.
abbrev pub view : String → List RecallTraceItemRow → List RecallTraceItemRow
view recall_id rows = sort_by (λ r. r.ordinal) (select_where (of_recall recall_id) rows)

select_where-update_usage :
    (t : UsageState) (id : String) (ref : ItemRef) (rows : List RecallTraceItemRow)
    → select_where (of_recall id) (update_usage t id ref rows)
      ≡ update_where (has_ref ref) (set_usage t) (select_where (of_recall id) rows)
unfolding update_usage
select_where-update_usage t id ref [] = refl
select_where-update_usage t id ref (r ∷ rs) = elim (Bool-cases (str_eq r.recall_id id)) [
  | inr n ↦ rw n (rw n (select_where-update_usage t id ref rs))
  | inl y ↦ elim (Bool-cases (has_ref ref r)) [
    | inl h ↦ simp (y, h, select_where-update_usage t id ref rs)
    | inr h ↦ simp (y, h, select_where-update_usage t id ref rs)
  ]
]

pub view-update_usage :
    (t : UsageState) (id : String) (ref : ItemRef) (rows : List RecallTraceItemRow)
    → view id (update_usage t id ref rows) ≡ update_where (has_ref ref) (set_usage t) (view id rows)
view-update_usage t id ref rows = rw (select_where-update_usage t id ref rows) (
    sort_by-update_where (λ r. r.ordinal) (has_ref ref) (set_usage t)
      (λ x. unfold set_usage in refl) (select_where (of_recall id) rows))

pub select_where-update_usage_ne :
    (t : UsageState) (id other : String) (ref : ItemRef) (rows : List RecallTraceItemRow)
    → str_eq id other ≡ false
    → select_where (of_recall other) (update_usage t id ref rows)
      ≡ select_where (of_recall other) rows
unfolding update_usage
select_where-update_usage_ne t id other ref [] ne = refl
select_where-update_usage_ne t id other ref (r ∷ rs) ne =
    elim (Bool-cases (str_eq r.recall_id id)) [
      | inr n ↦ rw (n, select_where-update_usage_ne t id other ref rs ne)
      | inl y ↦
          let miss : str_eq r.recall_id other ≡ false = rw ((str_eq_iff r.recall_id id).0 y) ne in
          elim (Bool-cases (has_ref ref r)) [
            | inl h ↦ simp (y, h, miss, select_where-update_usage_ne t id other ref rs ne)
            | inr h ↦ simp (y, h, miss, select_where-update_usage_ne t id other ref rs ne)
          ]
    ]

-- An UPDATE of one reference leaves the usage of another.
pub known_usage-update_ne :
    (t : UsageState) (q r : ItemRef) (rows : List RecallTraceItemRow)
    → ref_eq q r ≡ false
    → known_usage (update_where (has_ref q) (set_usage t) rows) r ≡ known_usage rows r
unfolding known_usage set_usage
known_usage-update_ne t q r [] ne = refl
known_usage-update_ne t q r (x ∷ xs) ne = elim (Bool-cases (has_ref q x)) [
  | inr n ↦ ground (arith, known_usage-update_ne t q r xs ne)
  | inl y ↦
      let miss : has_ref r x ≡ false =
        subst (λ (z : ItemRef). ref_eq z r ≡ false) (sym (ref_eq→eq (ref_of x) q y)) ne in
      ground (arith, known_usage-update_ne t q r xs ne)
]

abbrev pub overwrite : UsageState → Option UsageState → Option UsageState
overwrite t none = none
overwrite t (some u) = some t

-- It sets the usage of its own, where that is known.
pub known_usage-update :
    (t : UsageState) (q : ItemRef) (rows : List RecallTraceItemRow)
    → known_usage (update_where (has_ref q) (set_usage t) rows) q ≡ overwrite t (known_usage rows q)
unfolding known_usage set_usage
known_usage-update t q [] = refl
known_usage-update t q (x ∷ xs) = ground (arith, known_usage-update t q xs)
