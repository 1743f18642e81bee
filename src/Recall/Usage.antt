-- ===== src/Recall/Usage.antt =====
-- `src/recall/usage.ts`: feedback on the items of a trace.
pub mod Refs
pub mod Loop
pub mod Checks
pub mod Laws
use falda.Prelude.{
  ℕ, String, Bool, true, false, not, ◌&&◌, ◌||◌, Option, none, some, List, [], ◌∷◌, ◌++◌, map,
  if◌then◌else◌, str_eq, select_where, update_where,
}
use falda.Recall.Types.{
  Tier, UsageState, unknown, used, unused, RecallTraceItemRow, TraceDb, ItemRef, RecallTraceView,
  RecallTraceError, not_found, unknown_items, conflict, ReportUsageResult, ref_eq, tier_eq,
  usage_eq,
}
use falda.Recall.Traces.{get_recall_trace_authorized}

pub data Report {ℓ} (A : Type ℓ) : Type ℓ where
  ok : A → Report A
  throw : RecallTraceError → Report A

pub record Request : Type 0 where
  pub ref : ItemRef
  pub target : UsageState

abbrev pub ref_of : RecallTraceItemRow → ItemRef
ref_of r = record { tier = r.tier; id = r.item_id }

abbrev pub has_ref : ItemRef → RecallTraceItemRow → Bool
has_ref ref r = ref_eq (ref_of r) ref

-- `known.get(refKey(ref))`: a `Map` made from pairs keeps the last value of a key.
unfoldable pub known_usage : List RecallTraceItemRow → ItemRef → Option UsageState
known_usage [] ref = none
known_usage (r ∷ rs) ref = elim (known_usage rs ref) [
  | some u ↦ some u
  | none ↦ if has_ref ref r then some r.usage else none
]

abbrev pub contains_ref : List ItemRef → ItemRef → Bool
contains_ref [] ref = false
contains_ref (r ∷ rs) ref = ref_eq r ref || contains_ref rs ref

abbrev pub is_known : List RecallTraceItemRow → ItemRef → Bool
is_known items ref = elim (known_usage items ref) [ some _ ↦ true | none ↦ false ]

-- The stored state is the opposite of the requested one.
abbrev pub opposes : Option UsageState → UsageState → Bool
opposes (some used) unused = true
opposes (some unused) used = true
opposes _ _ = false

abbrev pub requests : List ItemRef → List ItemRef → List Request
requests used_refs unused_refs =
    map (λ r. record { ref = r; target = used }) used_refs
    ++ map (λ r. record { ref = r; target = unused }) unused_refs

abbrev pub refs_of : List Request → List ItemRef
refs_of = map (λ q. q.ref)

pub set_usage : UsageState → RecallTraceItemRow → RecallTraceItemRow
set_usage target r = record r { usage = target }

-- UPDATE recall_trace_items SET usage=? WHERE recall_id=? AND tier=? AND item_id=?
unfoldable pub update_usage :
    UsageState → String → ItemRef → List RecallTraceItemRow → List RecallTraceItemRow
unfolding set_usage
update_usage target recall_id ref =
    update_where (λ r. str_eq r.recall_id recall_id && has_ref ref r) (set_usage target)

abbrev is_current : Option UsageState → UsageState → Bool
is_current none target = false
is_current (some u) target = usage_eq u target

-- The loop of the transaction; `known` is the snapshot taken before it.
unfoldable pub apply_requests :
    List RecallTraceItemRow
    → String
    → List Request
    → List RecallTraceItemRow
    → List RecallTraceItemRow × ReportUsageResult
unfolding update_usage
apply_requests known recall_id [] rows = (rows, record { updated = []; unchanged = [] })
apply_requests known recall_id (q ∷ qs) rows =
    let keep = is_current (known_usage known q.ref) q.target in
    let (rows', result) =
      apply_requests known recall_id qs
        (if keep then rows else update_usage q.target recall_id q.ref rows) in
    (
      rows',
      if keep
          then record result { unchanged = q.ref ∷ result.unchanged }
          else record result { updated = q.ref ∷ result.updated },
    )

abbrev pub fail_if_any {ℓ} :
    {A : Type ℓ} → List ItemRef → (List ItemRef → RecallTraceError) → Report A → Report A
fail_if_any [] error next = next
fail_if_any (r ∷ rs) error next = throw (error (r ∷ rs))

-- The checks, in the source's order, and the transaction, once the trace is read.
unfoldable pub report_on_items :
    List RecallTraceItemRow
    → TraceDb
    → String
    → List ItemRef
    → List ItemRef
    → Report (TraceDb × ReportUsageResult)
report_on_items known db recall_id used_refs unused_refs =
    let requested = requests used_refs unused_refs in
    fail_if_any (refs_of (select_where (λ q. not (is_known known q.ref)) requested)) unknown_items (
      fail_if_any (select_where (contains_ref used_refs) unused_refs) conflict (
        fail_if_any
          (refs_of (select_where (λ q. opposes (known_usage known q.ref) q.target) requested))
          conflict
          (let (rows, result) = apply_requests known recall_id requested db.items in
            ok (record db { items = rows }, result))))

unfoldable pub report_recall_usage :
    TraceDb → String → String → List ItemRef → List ItemRef → Report (TraceDb × ReportUsageResult)
unfolding report_on_items
report_recall_usage db recall_id caller_store_key used_refs unused_refs =
    elim (get_recall_trace_authorized db recall_id caller_store_key) [
      | none ↦ throw not_found
      | some view ↦ report_on_items view.items db recall_id used_refs unused_refs
    ]

-- The database behind the call: a call that throws has written nothing.
unfoldable pub db_after : TraceDb → Report (TraceDb × ReportUsageResult) → TraceDb
db_after db (ok (db', result)) = db'
db_after db (throw e) = db
