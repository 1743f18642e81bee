-- ===== src/Recall/Traces.antt =====
-- `src/recall/traces.ts`: traces are written whole and read only by their store.
pub mod Laws
use falda.Prelude.{
  ℕ, ◌+◌, suc, String, Bool, true, false, ◌&&◌, ◌||◌, Option, none, some, List, [], ◌∷◌, ◌++◌, ltb,
  ◌==◌, if◌then◌else◌, str_eq, select_one, select_where, sort_by,
}
use falda.Recall.Types.{
  RecallMode, explicit, UsageState, unknown, RecallItem, RecallTrace, RecallTraceItemRow, TraceDb,
  RecallTraceView, CreateRecallTraceInput,
}

abbrev pub has_recall_id : String → RecallTrace → Bool
has_recall_id id t = str_eq t.recall_id id

abbrev pub of_recall : String → RecallTraceItemRow → Bool
of_recall id r = str_eq r.recall_id id

abbrev mode_or_explicit : Option RecallMode → RecallMode
mode_or_explicit none = explicit
mode_or_explicit (some m) = m

unfoldable pub item_row : String → ℕ → RecallItem → RecallTraceItemRow
item_row recall_id ordinal item = record {
  recall_id = recall_id;
  ordinal = ordinal;
  tier = item.tier;
  item_id = item.id;
  source = item.source;
  score = item.score;
  chars = item.chars;
  usage = unknown;
}

-- Whether a row holds the primary key (recall_id, ordinal).
abbrev pub key_taken : String → ℕ → List RecallTraceItemRow → Bool
key_taken recall_id ordinal [] = false
key_taken recall_id ordinal (r ∷ rs) =
    str_eq r.recall_id recall_id && r.ordinal == ordinal || key_taken recall_id ordinal rs

-- `items.forEach`: the inserts, in rank order; `none` is a refused primary key.
insert_items :
    String → ℕ → List RecallItem → List RecallTraceItemRow → Option (List RecallTraceItemRow)
unfolding item_row
insert_items recall_id ordinal [] rows = some rows
insert_items recall_id ordinal (item ∷ items) rows =
    let rest =
      insert_items recall_id (suc ordinal) items (rows ++ item_row recall_id ordinal item ∷ []) in
    if key_taken recall_id ordinal rows then none else rest

unfoldable pub new_trace : String → ℕ → CreateRecallTraceInput → RecallTrace
new_trace recall_id now input = record {
  recall_id = recall_id;
  store_key = input.store_key;
  tenant = input.tenant;
  pool = input.pool;
  query = input.query;
  requested_budget = input.requested_budget;
  used_budget = input.used_budget;
  mode = mode_or_explicit input.mode;
  policy_snapshot = input.policy_snapshot;
  created_at = now;
}

-- `recall_id` is the random UUID. The transaction commits all rows, or throws (`none`) and keeps
-- the database as it was.
unfoldable pub create_recall_trace : String → ℕ → CreateRecallTraceInput → TraceDb → Option TraceDb
unfolding new_trace insert_items
create_recall_trace recall_id now input db = elim (select_one (has_recall_id recall_id) db.traces) [
  | some _ ↦ none
  | none ↦ elim (insert_items recall_id 0 input.items db.items) [
    | none ↦ none
    | some rows ↦
        some (record { traces = db.traces ++ new_trace recall_id now input ∷ []; items = rows })
  ]
]

-- SELECT * FROM recall_trace_items WHERE recall_id=? ORDER BY ordinal
unfoldable pub items_of : String → TraceDb → List RecallTraceItemRow
items_of recall_id db = sort_by (λ r. r.ordinal) (select_where (of_recall recall_id) db.items)

unfoldable pub row_to_trace_view : TraceDb → RecallTrace → RecallTraceView
row_to_trace_view db trace = record { trace = trace; items = items_of trace.recall_id db }

unfoldable pub get_recall_trace_authorized : TraceDb → String → String → Option RecallTraceView
unfolding row_to_trace_view
get_recall_trace_authorized db recall_id caller_store_key =
    elim (select_one (has_recall_id recall_id) db.traces) [
      | none ↦ none
      | some trace ↦
          if str_eq trace.store_key caller_store_key
          then some (row_to_trace_view db trace)
          else none
    ]

-- The newest of the store's traces; the first row of a tie.
unfoldable pub latest_of : String → List RecallTrace → Option RecallTrace
latest_of key [] = none
latest_of key (t ∷ ts) =
    let rest = latest_of key ts in
    if str_eq t.store_key key
    then some (elim rest [ none ↦ t | some u ↦ if ltb t.created_at u.created_at then u else t ])
    else rest

unfoldable pub get_latest_recall_trace_for_store : TraceDb → String → Option RecallTraceView
unfolding latest_of row_to_trace_view
get_latest_recall_trace_for_store db caller_store_key =
    elim (latest_of caller_store_key db.traces) [
      | none ↦ none
      | some trace ↦ some (row_to_trace_view db trace)
    ]
