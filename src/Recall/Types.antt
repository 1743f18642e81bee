-- ===== src/Recall/Types.antt =====
-- The rows of `recall_traces.db`: `src/recall/types.ts`, `src/recall/schema.ts`, and `RecallItem` of
-- `src/distill/context.ts`. A score and a policy snapshot are kept as the text that is stored:
-- nothing here computes with them.
use falda.Prelude.{ℕ, String, Bool, true, false, ◌&&◌, Option, List, str_eq}

pub data Tier : Type 0 where
  t1 t2 t3 : Tier

pub data UsageState : Type 0 where
  unknown used unused : UsageState

pub data RecallMode : Type 0 where
  explicit auto : RecallMode

pub data RecallItemKind : Type 0 where
  atom scene core : RecallItemKind

pub data RecallItemSource : Type 0 where
  pinned ranked scenes core_text : RecallItemSource

abbrev pub tier_eq : Tier → Tier → Bool
tier_eq t1 t1 = true
tier_eq t2 t2 = true
tier_eq t3 t3 = true
tier_eq _ _ = false

abbrev pub usage_eq : UsageState → UsageState → Bool
usage_eq unknown unknown = true
usage_eq used used = true
usage_eq unused unused = true
usage_eq _ _ = false

pub record RecallItem : Type 0 where
  pub tier : Tier
  pub id : String
  pub kind : RecallItemKind
  pub source : RecallItemSource
  pub chars : ℕ
  pub score : Option String

-- One row of `recall_traces`.
pub record RecallTrace : Type 0 where
  pub recall_id : String
  pub store_key : String
  pub tenant : String
  pub pool : Option String
  pub query : String
  pub requested_budget : ℕ
  pub used_budget : ℕ
  pub mode : RecallMode
  pub policy_snapshot : String
  pub created_at : ℕ

-- One row of `recall_trace_items`.
pub record RecallTraceItemRow : Type 0 where
  pub recall_id : String
  pub ordinal : ℕ
  pub tier : Tier
  pub item_id : String
  pub source : RecallItemSource
  pub score : Option String
  pub chars : ℕ
  pub usage : UsageState

pub record TraceDb : Type 0 where
  pub traces : List RecallTrace
  pub items : List RecallTraceItemRow

pub record ItemRef : Type 0 where
  pub tier : Tier
  pub id : String

-- A trace with its items in rank order.
pub record RecallTraceView : Type 0 where
  pub trace : RecallTrace
  pub items : List RecallTraceItemRow

pub record CreateRecallTraceInput : Type 0 where
  pub store_key : String
  pub tenant : String
  pub pool : Option String
  pub query : String
  pub requested_budget : ℕ
  pub used_budget : ℕ
  pub mode : Option RecallMode
  pub policy_snapshot : String
  pub items : List RecallItem

-- `RecallTraceError`: its code and the references that its message names.
pub data RecallTraceError : Type 0 where
  not_found : RecallTraceError
  unknown_items : List ItemRef → RecallTraceError
  conflict : List ItemRef → RecallTraceError

pub record ReportUsageResult : Type 0 where
  pub updated : List ItemRef
  pub unchanged : List ItemRef

-- Equality of `refKey`s: a tier has two characters, so the key `tier:id` determines both parts.
abbrev pub ref_eq : ItemRef → ItemRef → Bool
ref_eq r s = tier_eq r.tier s.tier && str_eq r.id s.id
