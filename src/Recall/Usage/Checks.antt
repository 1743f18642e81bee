-- ===== src/Recall/Usage/Checks.antt =====
-- What a report that goes through has checked.
use falda.Prelude.{
  String, Bool, true, false, some, List, [], ◌∷◌, ◌≡◌, refl, sym, ◌∙◌, ap, inl, inr, arith,
  str_eq_iff, Bool-cases, Option-cases, All, All-imp, select_where, select_one, select_one-eq-some,
}
use falda.Recall.Types.{
  RecallTraceItemRow, TraceDb, ItemRef, RecallTraceView, RecallTraceError, unknown_items, conflict,
  ReportUsageResult,
}
use falda.Recall.Traces.{has_recall_id, items_of, get_recall_trace_authorized}
use falda.Recall.Usage.{
  Report, ok, Request, known_usage, contains_ref, is_known, opposes, requests, refs_of, fail_if_any,
  report_recall_usage, report_on_items,
}
use falda.Recall.Usage.Refs.{view}
use falda.Recall.Usage.Loop.{after}

none_selected {ℓ} :
    {A : Type ℓ} (p : A → Bool) (xs : List A) → select_where p xs ≡ [] → All (λ x. p x ≡ false) xs
none_selected p [] h = tt
none_selected p (x ∷ xs) h = elim (Bool-cases (p x)) [
  | inl t ↦ ground arith
  | inr n ↦ (n, none_selected p xs (rw n at h))
]

fail_if_any-eq-ok {ℓ} :
    {A : Type ℓ} (xs : List ItemRef) (error : List ItemRef → RecallTraceError) (next : Report A)
    {a : A}
    → fail_if_any xs error next ≡ ok a
    → (xs ≡ []) × (next ≡ ok a)
fail_if_any-eq-ok [] error next h = (refl, h)
fail_if_any-eq-ok (x ∷ xs) error next h = cc

refs_of-eq-nil : (qs : List Request) → refs_of qs ≡ [] → qs ≡ []
refs_of-eq-nil [] h = refl
refs_of-eq-nil (q ∷ qs) h = cc

module _ (db : TraceDb) (recall_id key : String) (used_refs unused_refs : List ItemRef) where
  unfoldable pub items : List RecallTraceItemRow
  items = view recall_id db.items

  -- What a report that went through has checked, and the rows that it leaves.
  pub record Accepted (db' : TraceDb) : Type 0 where
    pub known : All (λ q. is_known items q.ref ≡ true) (requests used_refs unused_refs)
    pub disjoint : All (λ r. contains_ref used_refs r ≡ false) unused_refs
    pub unopposed :
        All
          (λ q. opposes (known_usage items q.ref) q.target ≡ false)
          (requests used_refs unused_refs)
    pub traces : db'.traces ≡ db.traces
    pub rows : db'.items ≡ after items recall_id (requests used_refs unused_refs) db.items

  authorized-items :
      (v : RecallTraceView)
      → get_recall_trace_authorized db recall_id key ≡ some v
      → v.items ≡ items
  unfolding get_recall_trace_authorized items items_of
  authorized-items v h = elim (Option-cases (select_one (has_recall_id recall_id) db.traces)) [
    | inl e ↦ ground arith
    | inr (t, e) ↦
        let same = (str_eq_iff t.recall_id recall_id).0 (select_one-eq-some _ db.traces e).1 in
        let read : v.items ≡ view t.recall_id db.items = ground arith in
        read ∙ ap (λ (id : String). view id db.items) same
  ]

  Accepted-items :
      (db' : TraceDb) (result : ReportUsageResult)
      → report_on_items items db recall_id used_refs unused_refs ≡ ok (db', result)
      → Accepted db'
  unfolding report_on_items after
  Accepted-items db' result h =
      let (a, h1) = fail_if_any-eq-ok _ unknown_items _ h in
      let (b, h2) = fail_if_any-eq-ok _ conflict _ h1 in
      let (c, h3) = fail_if_any-eq-ok _ conflict _ h2 in
      record {
        known = All-imp _ _ (λ q n. ground (arith, n)) _ (none_selected _ _ (refs_of-eq-nil _ a));
        disjoint = none_selected _ _ b;
        unopposed = none_selected _ _ (refs_of-eq-nil _ c);
        traces = cc;
        rows = cc;
      }

  pub accepted :
      (db' : TraceDb) (result : ReportUsageResult)
      → report_recall_usage db recall_id key used_refs unused_refs ≡ ok (db', result)
      → Accepted db'
  unfolding report_recall_usage
  accepted db' result h = elim (Option-cases (get_recall_trace_authorized db recall_id key)) [
    | inl e ↦ ground arith
    | inr (v, e) ↦
        Accepted-items db' result
          (rw (sym (authorized-items v e)) (rw (e, report_recall_usage) at h))
  ]
