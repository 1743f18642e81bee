-- ===== src/Recall/Usage/Loop.antt =====
-- The loop of the transaction in `report_recall_usage`.
use falda.Prelude.{
  String, true, false, some, List, [], ◌∷◌, ◌≡◌, refl, sym, ◌∙◌, ap, subst, inl, inr, arith,
  if◌then◌else◌, str_eq, Bool-cases, All, sort_by,
}
use falda.Recall.Types.{UsageState, RecallTraceItemRow, ItemRef, ref_eq, usage_eq}
use falda.Recall.Usage.{
  Request, known_usage, update_usage, is_current, apply_requests, contains_ref, refs_of,
}
use falda.Recall.Usage.Refs.{
  view, view-update_usage, select_where-update_usage_ne, known_usage-update_ne, known_usage-update,
  ref_eq→eq,
}

usage_eq→eq : (s t : UsageState) → usage_eq s t ≡ true → s ≡ t
usage_eq→eq s t h = ground arith

-- Requests that all want `t` for `r`.
abbrev pub Wants : ItemRef → UsageState → List Request → Type 0
Wants r t = All (λ q. ref_eq q.ref r ≡ true → q.target ≡ t)

module _ (known : List RecallTraceItemRow) (id : String) where
  -- One round.
  round : Request → List RecallTraceItemRow → List RecallTraceItemRow
  round q rows =
      if is_current (known_usage known q.ref) q.target
      then rows
      else update_usage q.target id q.ref rows

  unfoldable pub after : List Request → List RecallTraceItemRow → List RecallTraceItemRow
  after qs rows = (apply_requests known id qs rows).0

  after-cons :
      (q : Request) (qs : List Request) (rows : List RecallTraceItemRow)
      → after (q ∷ qs) rows ≡ after qs (round q rows)
  unfolding after apply_requests round
  after-cons q qs rows = refl

  round_other :
      (q : Request) (r : ItemRef) (rows : List RecallTraceItemRow)
      → ref_eq q.ref r ≡ false
      → known_usage (view id (round q rows)) r ≡ known_usage (view id rows) r
  unfolding round
  round_other q r rows ne = elim (Bool-cases (is_current (known_usage known q.ref) q.target)) [
    | inl k ↦ rw k
    | inr c ↦ rw c (
        rw (view-update_usage q.target id q.ref rows)
          (known_usage-update_ne q.target q.ref r (view id rows) ne))
  ]

  -- A request leaves its target, if the row of a request that is skipped still has the usage that
  -- the snapshot shows.
  round_own :
      (q : Request) (rows : List RecallTraceItemRow) (u : UsageState)
      → known_usage (view id rows) q.ref ≡ some u
      → (is_current (known_usage known q.ref) q.target ≡ true → u ≡ q.target)
      → known_usage (view id (round q rows)) q.ref ≡ some q.target
  unfolding round
  round_own q rows u h same = elim (Bool-cases (is_current (known_usage known q.ref) q.target)) [
    | inl k ↦ rw k (cc (same k))
    | inr c ↦ rw c (
        rw
          (
            view-update_usage q.target id q.ref rows,
            known_usage-update q.target q.ref (view id rows),
            h,
          )
          refl)
  ]

  round_onto :
      (q : Request) (r : ItemRef) (t u : UsageState) (rows : List RecallTraceItemRow)
      → ref_eq q.ref r ≡ true
      → q.target ≡ t
      → known_usage (view id rows) r ≡ some u
      → (is_current (known_usage known r) t ≡ true → u ≡ t)
      → known_usage (view id (round q rows)) r ≡ some t
  round_onto q r t u rows y wants h same =
      subst (λ (z : ItemRef). known_usage (view id (round q rows)) z ≡ some t) e
        (round_own q rows u (rw e h) (λ k. same (subst Current e (rw wants at k)) ∙ sym wants)
          ∙ ap some wants)
    where
      e : q.ref ≡ r
      e = ref_eq→eq q.ref r y

      Current : ItemRef → Type 0
      Current z = is_current (known_usage known z) t ≡ true

  pub after_unrequested :
      (qs : List Request) (r : ItemRef) (rows : List RecallTraceItemRow)
      → contains_ref (refs_of qs) r ≡ false
      → known_usage (view id (after qs rows)) r ≡ known_usage (view id rows) r
  after_unrequested [] r rows h = unfold after apply_requests in refl
  after_unrequested (q ∷ qs) r rows h =
      rw (after-cons q qs rows)
        (after_unrequested qs r (round q rows) (ground arith) ∙ round_other q r rows (ground arith))

  round_settled :
      (q : Request) (r : ItemRef) (t : UsageState) (rows : List RecallTraceItemRow)
      → (ref_eq q.ref r ≡ true → q.target ≡ t)
      → known_usage (view id rows) r ≡ some t
      → known_usage (view id (round q rows)) r ≡ some t
  round_settled q r t rows wants h = elim (Bool-cases (ref_eq q.ref r)) [
    | inr n ↦ round_other q r rows n ∙ h
    | inl y ↦ round_onto q r t t rows y (wants y) h (λ _. refl)
  ]

  pub after_settled :
      (qs : List Request) (r : ItemRef) (t : UsageState) (rows : List RecallTraceItemRow)
      → Wants r t qs
      → known_usage (view id rows) r ≡ some t
      → known_usage (view id (after qs rows)) r ≡ some t
  after_settled [] r t rows w h = unfold after apply_requests in h
  after_settled (q ∷ qs) r t rows w h =
      rw (after-cons q qs rows)
        (after_settled qs r t (round q rows) w.1 (round_settled q r t rows w.0 h))

  -- A requested reference ends with its target.
  pub after_requested :
      (qs : List Request) (r : ItemRef) (t u : UsageState) (rows : List RecallTraceItemRow)
      → Wants r t qs
      → known_usage (view id rows) r ≡ some u
      → (is_current (known_usage known r) t ≡ true → u ≡ t)
      → contains_ref (refs_of qs) r ≡ true
      → known_usage (view id (after qs rows)) r ≡ some t
  after_requested [] r t u rows w h same m = cc
  after_requested (q ∷ qs) r t u rows w h same m = elim (Bool-cases (ref_eq q.ref r)) [
    | inr n ↦ rw (after-cons q qs rows) (
        after_requested qs r t u (round q rows) w.1 (round_other q r rows n ∙ h) same
          (ground arith))
    | inl y ↦
        rw (after-cons q qs rows)
          (after_settled qs r t (round q rows) w.1 (round_onto q r t u rows y (w.0 y) h same))
  ]

  pub after_other_recall :
      (qs : List Request) (other : String) (rows : List RecallTraceItemRow)
      → str_eq id other ≡ false
      → view other (after qs rows) ≡ view other rows
  after_other_recall [] other rows ne = unfold after apply_requests in refl
  after_other_recall (q ∷ qs) other rows ne =
      rw (after-cons q qs rows) (after_other_recall qs other (round q rows) ne ∙ one)
    where
      one : view other (round q rows) ≡ view other rows
      one = elim (Bool-cases (is_current (known_usage known q.ref) q.target)) [
        | inl k ↦ unfold round in rw k
        | inr c ↦
            unfold round in
            rw c (
              ap (sort_by (λ (r : RecallTraceItemRow). r.ordinal))
                (select_where-update_usage_ne q.target id other q.ref rows ne))
      ]
