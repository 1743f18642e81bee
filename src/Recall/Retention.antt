-- ===== src/Recall/Retention.antt =====
-- `src/recall/retention.ts`: traces older than the cutoff go, with their items.
pub mod Laws
use falda.Prelude.{
  ℕ, ◌+◌, ◌-◌, ◌*◌, ◌==◌, String, Bool, true, false, not, ◌&&◌, ◌||◌, Option, none, some, List, [],
  ◌∷◌, map, ◌≡◌, refl, inl, inr, arith, ltb, leb, if◌then◌else◌, str_eq, str_eq_iff, str_eq_refl,
  Bool-cases, All, length, select_where, delete_where, count_where,
}
use falda.Recall.Types.{RecallTrace, RecallTraceItemRow, TraceDb}
use falda.Recall.Traces.{has_recall_id, of_recall}

abbrev pub default_retention_days : ℕ
default_retention_days = 90

abbrev pub ms_per_day : ℕ
ms_per_day = 86_400_000

abbrev pub created_before : ℕ → ℕ → RecallTrace → Bool
created_before now days t = ltb (t.created_at + days * ms_per_day) now

-- The loop over the selected ids.
unfoldable pub delete_traces : List RecallTrace → TraceDb → TraceDb
delete_traces [] db = db
delete_traces (t ∷ ts) db = delete_traces ts (record {
  traces = delete_where (has_recall_id t.recall_id) db.traces;
  items = delete_where (of_recall t.recall_id) db.items;
})

-- `created_at < now - days * 86400_000`, in numbers that do not go below zero. A retention of zero
-- days (and any other that is not positive) keeps everything.
unfoldable pub prune_recall_traces : ℕ → ℕ → TraceDb → TraceDb × ℕ
unfolding delete_traces
prune_recall_traces now retention_days db =
    let old = select_where (created_before now retention_days) db.traces in
    if retention_days == 0 then (db, 0) else (delete_traces old db, length old)
