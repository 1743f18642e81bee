-- ===== src/Recall/Usage/Laws.antt =====
-- What a usage report does to a trace, and what it can never do.
use falda.Prelude.{
  String, true, false, ◌||◌, none, some, List, [], ◌∷◌, ◌++◌, map, ◌≡◌, ◌≢◌, refl, sym, ◌∙◌, ap,
  subst, inl, inr, ◌⊎◌, arith, str_eq, Bool-cases, Option-cases, All, All-append, All-split,
  All-map,
}
use falda.Recall.Types.{
  UsageState, unknown, used, unused, TraceDb, ItemRef, ReportUsageResult, ref_eq,
}
use falda.Recall.Traces.{items_of}
use falda.Recall.Usage.{
  Report, ok, throw, Request, known_usage, contains_ref, is_known, opposes, requests, refs_of,
  report_recall_usage, db_after,
}
use falda.Recall.Usage.Refs.{view, ref_eq→eq}
use falda.Recall.Usage.Loop.{Wants, after, after_unrequested, after_requested, after_other_recall}
use falda.Recall.Usage.Checks.{Accepted, accepted, items}

abbrev asking : UsageState → ItemRef → Request
asking t r = record { ref = r; target = t }

contains_ref-append :
    (xs ys : List ItemRef) (r : ItemRef)
    → contains_ref (xs ++ ys) r ≡ contains_ref xs r || contains_ref ys r
contains_ref-append [] ys r = refl
contains_ref-append (x ∷ xs) ys r = ground (arith, contains_ref-append xs ys r)

refs_of-append : (ps qs : List Request) → refs_of (ps ++ qs) ≡ refs_of ps ++ refs_of qs
refs_of-append [] qs = refl
refs_of-append (p ∷ ps) qs = ap (◌∷◌ p.ref) (refs_of-append ps qs)

refs_of-asking : (t : UsageState) (xs : List ItemRef) → refs_of (map (asking t) xs) ≡ xs
refs_of-asking t [] = refl
refs_of-asking t (x ∷ xs) = ap (◌∷◌ x) (refs_of-asking t xs)

contains_ref-requests :
    (us ns : List ItemRef) (r : ItemRef)
    → contains_ref (refs_of (requests us ns)) r ≡ contains_ref us r || contains_ref ns r
contains_ref-requests us ns r =
    rw
      (
        refs_of-append (map (asking used) us) (map (asking unused) ns),
        refs_of-asking used us,
        refs_of-asking unused ns,
      )
      (contains_ref-append us ns r)

-- A property of references holds of one that is equal to a member.
All-at {κ} :
    (P : ItemRef → Type κ) (xs : List ItemRef) (r : ItemRef)
    → All P xs
    → contains_ref xs r ≡ true
    → P r
All-at P [] r h m = cc
All-at P (x ∷ xs) r h m = elim (Bool-cases (ref_eq x r)) [
  | inl y ↦ subst P (ref_eq→eq x r y) h.0
  | inr n ↦ All-at P xs r h.1 (rw n at m)
]

All-refs_of {κ} :
    (P : ItemRef → Type κ) (qs : List Request) → All (λ q. P q.ref) qs → All P (refs_of qs)
All-refs_of P [] h = tt
All-refs_of P (q ∷ qs) h = (h.0, All-refs_of P qs h.1)

Wants-asking : (r : ItemRef) (t : UsageState) (xs : List ItemRef) → Wants r t (map (asking t) xs)
Wants-asking r t [] = tt
Wants-asking r t (x ∷ xs) = ((λ _. refl), Wants-asking r t xs)

Wants-absent :
    (r : ItemRef) (t s : UsageState) (xs : List ItemRef)
    → contains_ref xs r ≡ false
    → Wants r t (map (asking s) xs)
Wants-absent r t s [] h = tt
Wants-absent r t s (x ∷ xs) h = ((λ y. ground arith), Wants-absent r t s xs (ground arith))

-- What a successful report leaves, as the items of a trace are read.
pub record Reported (db db' : TraceDb) (recall_id : String) (us ns : List ItemRef) : Type 0 where
  pub set_used :
      (r : ItemRef) → contains_ref us r ≡ true → known_usage (items_of recall_id db') r ≡ some used
  pub set_unused :
      (r : ItemRef)
      → contains_ref ns r ≡ true
      → known_usage (items_of recall_id db') r ≡ some unused
  pub kept :
      (r : ItemRef)
      → contains_ref us r ≡ false
      → contains_ref ns r ≡ false
      → known_usage (items_of recall_id db') r ≡ known_usage (items_of recall_id db) r
  pub other_recalls :
      (other : String) → str_eq recall_id other ≡ false → items_of other db' ≡ items_of other db
  pub same_traces : db'.traces ≡ db.traces

module _ (db : TraceDb) (recall_id key : String) (us ns : List ItemRef) (db' : TraceDb)
    (a : Accepted db recall_id key us ns db') where
  open a use {known, disjoint, unopposed, traces, rows}

  apart : (r : ItemRef) → contains_ref ns r ≡ true → contains_ref us r ≡ false
  apart r m = All-at (λ x. contains_ref us x ≡ false) ns r disjoint m

  Wants-used : (r : ItemRef) → contains_ref us r ≡ true → Wants r used (requests us ns)
  Wants-used r m =
      All-append (λ q. ref_eq q.ref r ≡ true → q.target ≡ used) (map (asking used) us)
        (map (asking unused) ns) (Wants-asking r used us)
        (Wants-absent r used unused ns
          (elim (Bool-cases (contains_ref ns r)) [ inl y ↦ cc (apart r y) | inr n ↦ n ]))

  Wants-unused : (r : ItemRef) → contains_ref ns r ≡ true → Wants r unused (requests us ns)
  Wants-unused r m =
      All-append (λ q. ref_eq q.ref r ≡ true → q.target ≡ unused) (map (asking used) us)
        (map (asking unused) ns) (Wants-absent r unused used us (apart r m))
        (Wants-asking r unused ns)

  set_to :
      (r : ItemRef) (t : UsageState)
      → Wants r t (requests us ns)
      → contains_ref (refs_of (requests us ns)) r ≡ true
      → known_usage (items_of recall_id db') r ≡ some t
  unfolding items_of items
  set_to r t wants m =
      let known_r : is_known (view recall_id db.items) r ≡ true =
        All-at (λ x. is_known (view recall_id db.items) x ≡ true) (refs_of (requests us ns)) r
          (All-refs_of (λ x. is_known (view recall_id db.items) x ≡ true) (requests us ns) known)
          m in
      rw rows (from known_r (Option-cases (known_usage (view recall_id db.items) r)))
    where
      from :
          is_known (view recall_id db.items) r ≡ true
          → (known_usage (view recall_id db.items) r ≡ none)
            ⊎ ((u : UsageState) × (known_usage (view recall_id db.items) r ≡ some u))
          → known_usage
              (view recall_id (after (view recall_id db.items) recall_id (requests us ns) db.items))
              r
            ≡ some t
      from k (inl e) = cc (rw (e, is_known) at k)
      from k (inr (u, e)) =
          after_requested (view recall_id db.items) recall_id (requests us ns) r t u db.items wants
            e (λ c. ground arith) m

  reported : Reported db db' recall_id us ns
  unfolding items_of items
  reported = record {
    set_used = λ r m. set_to r used (Wants-used r m) (rw (contains_ref-requests us ns r, m));
    set_unused = λ r m.
        set_to r unused (Wants-unused r m) (rw (contains_ref-requests us ns r, m) (ground arith));
    kept = λ r u n. rw rows (
        after_unrequested (view recall_id db.items) recall_id (requests us ns) r db.items
          (rw (contains_ref-requests us ns r, u, n)));
    other_recalls = λ other ne.
        rw rows (
          after_other_recall (view recall_id db.items) recall_id (requests us ns) other db.items
            ne);
    same_traces = traces;
  }

  unopposed_at :
      (r : ItemRef)
      → (contains_ref us r ≡ true → opposes (known_usage (view recall_id db.items) r) used ≡ false)
        × (contains_ref ns r ≡ true
            → opposes (known_usage (view recall_id db.items) r) unused ≡ false)
  unfolding items
  unopposed_at r =
      let Free =
        λ (q : Request). opposes (known_usage (view recall_id db.items) q.ref) q.target ≡ false in
      let (left, right) =
        All-split Free (map (asking used) us) (map (asking unused) ns) unopposed in
      (
        All-at (λ x. Free (asking used x)) us r (All-map Free (asking used) us left),
        All-at (λ x. Free (asking unused x)) ns r (All-map Free (asking unused) ns right),
      )

  settled :
      (r : ItemRef) (s : UsageState)
      → known_usage (items_of recall_id db) r ≡ some s
      → s ≢ unknown
      → known_usage (items_of recall_id db') r ≡ some s
  settled r s h final = elim (Bool-cases (contains_ref us r)) [
    | inl y ↦ reported.set_used r y ∙ ap some (sym (agree used (inl refl) ((unopposed_at r).0 y)))
    | inr n ↦ elim (Bool-cases (contains_ref ns r)) [
      | inl y ↦
          reported.set_unused r y ∙ ap some (sym (agree unused (inr refl) ((unopposed_at r).1 y)))
      | inr m ↦ reported.kept r n m ∙ h
    ]
  ]
    where
      before : known_usage (view recall_id db.items) r ≡ some s
      before = unfold items_of in h

      agree :
          (t : UsageState)
          → (t ≡ used) ⊎ (t ≡ unused)
          → opposes (known_usage (view recall_id db.items) r) t ≡ false
          → s ≡ t
      agree t asked o = ground (arith, before)

module _ (db : TraceDb) (recall_id key : String) (us ns : List ItemRef) where
  -- A report that goes through leaves every reference of its first list used and every one of its
  -- second unused, keeps the usage of the trace's other items, and changes no other recall's items
  -- and no trace.
  pub report_recall_usage-Reported :
      (db' : TraceDb) (result : ReportUsageResult)
      → report_recall_usage db recall_id key us ns ≡ ok (db', result)
      → Reported db db' recall_id us ns
  report_recall_usage-Reported db' result h =
      reported db recall_id key us ns db' (accepted db recall_id key us ns db' result h)

  -- Whatever a report says and however it ends, an item once known to be used, or to be unused,
  -- stays so.
  pub report_recall_usage_settled :
      (r : ItemRef) (s : UsageState)
      → known_usage (items_of recall_id db) r ≡ some s
      → s ≢ unknown
      → known_usage
          (items_of recall_id (db_after db (report_recall_usage db recall_id key us ns)))
          r
        ≡ some s
  report_recall_usage_settled r s h final = go (report_recall_usage db recall_id key us ns) refl
    where
      go :
          (outcome : Report (TraceDb × ReportUsageResult))
          → report_recall_usage db recall_id key us ns ≡ outcome
          → known_usage (items_of recall_id (db_after db outcome)) r ≡ some s
      go (ok (db', result)) e =
          unfold db_after in
          settled db recall_id key us ns db' (accepted db recall_id key us ns db' result e) r s h
            final
      go (throw x) e = unfold db_after in h
