-- ===== src/Recall/Examples.antt =====
-- One trace, reported on twice, and pruned.
use falda.Distill.Store.{AtomStatus}
use falda.Context.{ItemCaps}
use falda.Recall.Reconstruct.{
  LiveStore, reconstruct_recall_trace, rebuild_atom, rebuild_scene, rebuild_core, stale_atom,
}
use falda.Prelude.{
  String, false, Option, none, some, [], ◌∷◌, ◌≡◌, ◌≢◌, refl, str_eq, sort_by, if◌then◌else◌, List,
  length,
}
use falda.Recall.Types.{
  t1, t2, used, atom, scene, ranked, scenes, TraceDb, CreateRecallTraceInput, ItemRef,
  ReportUsageResult, conflict, unknown_items, Tier, t3, unknown, RecallTraceItemRow,
}
use falda.Recall.Traces.{
  create_recall_trace, items_of, get_recall_trace_authorized, get_latest_recall_trace_for_store,
  new_trace, item_row,
}
use falda.Recall.Traces.Laws.{item_rows, create_recall_trace_lem}
use falda.Recall.Usage.{
  Report, ok, throw, report_recall_usage, known_usage, apply_requests, db_after,
}
use falda.Recall.Usage.Laws.{Reported, report_recall_usage-Reported, report_recall_usage_settled}
use falda.Recall.Retention.{prune_recall_traces}

program : Unit {0}
unfolding create_recall_trace items_of get_recall_trace_authorized get_latest_recall_trace_for_store
    report_recall_usage known_usage prune_recall_traces item_row new_trace item_rows db_after
    sort_by apply_requests
program = tt

abbrev empty : TraceDb
empty = record { traces = []; items = [] }

abbrev input : CreateRecallTraceInput
input = record {
  store_key = "a:self";
  tenant = "a";
  pool = none;
  query = "cryostat";
  requested_budget = 6000;
  used_budget = 40;
  mode = none;
  policy_snapshot = "{}";
  items =
      record {
        tier = t1;
        id = "l1-x";
        kind = atom;
        source = ranked;
        chars = 30;
        score = some "0.5";
      }
      ∷ record {
        tier = t2;
        id = "topic:y";
        kind = scene;
        source = scenes;
        chars = 10;
        score = none;
      }
      ∷ [];
}

abbrev atom_x : ItemRef
atom_x = record { tier = t1; id = "l1-x" }

abbrev topic_y : ItemRef
topic_y = record { tier = t2; id = "topic:y" }

abbrev or_empty : Option TraceDb → TraceDb
or_empty none = empty
or_empty (some db) = db

abbrev written : TraceDb
written = or_empty (create_recall_trace "r1" 5 input empty)

create_r1 : create_recall_trace "r1" 5 input empty ≡ some written
unfolding program
create_r1 = refl

create_recall_trace_lem_example :
    (get_recall_trace_authorized written "r1" "a:self"
      ≡ some (record { trace = new_trace "r1" 5 input; items = item_rows "r1" 0 input.items }))
    × ((key : String) → key ≢ "a:self" → get_recall_trace_authorized written "r1" key ≡ none)
    × ((other : String) → str_eq "r1" other ≡ false → items_of other written ≡ items_of other empty)
create_recall_trace_lem_example = create_recall_trace_lem "r1" 5 input empty written create_r1 refl

abbrev first_report : Report (TraceDb × ReportUsageResult)
first_report = report_recall_usage written "r1" "a:self" (atom_x ∷ []) (topic_y ∷ [])

abbrev all_updated : ReportUsageResult
all_updated = record { updated = atom_x ∷ topic_y ∷ []; unchanged = [] }

report_r1 : first_report ≡ ok (db_after written first_report, all_updated)
unfolding program
report_r1 = refl

report_recall_usage-Reported_example :
    Reported written (db_after written first_report) "r1" (atom_x ∷ []) (topic_y ∷ [])
report_recall_usage-Reported_example =
    report_recall_usage-Reported written "r1" "a:self" (atom_x ∷ []) (topic_y ∷ [])
      (db_after written first_report) all_updated report_r1

-- A second report that names the used atom as unused is refused whole.
report_conflict :
    report_recall_usage (db_after written first_report) "r1" "a:self" (topic_y ∷ []) (atom_x ∷ [])
    ≡ throw (conflict (topic_y ∷ atom_x ∷ []))
unfolding program
report_conflict = refl

report_unknown :
    report_recall_usage written "r1" "a:self" (record atom_x { id = "l1-z" } ∷ []) []
    ≡ throw (unknown_items (record atom_x { id = "l1-z" } ∷ []))
unfolding program
report_unknown = refl

used_x : known_usage (items_of "r1" (db_after written first_report)) atom_x ≡ some used
unfolding program
used_x = refl

report_recall_usage_settled_example :
    let again =
      report_recall_usage
        (db_after written first_report)
        "r1"
        "a:self"
        (topic_y ∷ [])
        (atom_x ∷ []) in
    known_usage (items_of "r1" (db_after (db_after written first_report) again)) atom_x ≡ some used
report_recall_usage_settled_example =
    report_recall_usage_settled (db_after written first_report) "r1" "a:self" (topic_y ∷ [])
      (atom_x ∷ []) atom_x used used_x (λ e. cc)

prune_r1 : prune_recall_traces 100_000_000 1 written ≡ (empty, 1)
unfolding program
prune_r1 = refl

abbrev item_of : Tier → String → RecallTraceItemRow
item_of tier id = record {
  recall_id = "r";
  ordinal = 0;
  tier = tier;
  item_id = id;
  source = ranked;
  score = none;
  chars = 1;
  usage = unknown;
}

-- One atom is active, another superseded, the scene is unknown, and there is a core.
abbrev today : LiveStore
today = record {
  get_atom = λ id.
      if str_eq id "a"
      then some (record { status = AtomStatus.active; content = 0x41 ∷ [] })
      else some (record { status = AtomStatus.superseded; content = 0x42 ∷ [] });
  get_scene = λ id. none;
  core = 0x43 ∷ [];
}

abbrev recalled : List RecallTraceItemRow
recalled = item_of t1 "a" ∷ (item_of t1 "b" ∷ (item_of t2 "s" ∷ (item_of t3 "core" ∷ [])))

abbrev caps : ItemCaps
caps = record { atom_item_cap = 600; scene_item_cap = 1800 }

two_stale : length (reconstruct_recall_trace today caps recalled).stale_items ≡ 2
unfolding reconstruct_recall_trace rebuild_atom rebuild_scene rebuild_core stale_atom
two_stale = refl
