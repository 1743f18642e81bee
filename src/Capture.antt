-- ===== src/Capture.antt =====
-- The opencode capture plugin's flush queue: `integrations/opencode/plugin/capture-flush.ts`.
-- `flush` awaits its `send`, so it is two steps, and other calls may come between them.
pub mod Flush
pub mod Delivery
mod Examples
use falda.Prelude.{
  ℕ, String, Bool, true, false, not, ◌&&◌, ◌||◌, Option, none, some, List, [], ◌∷◌, ◌++◌, ltb, leb,
  ◌==◌, if◌then◌else◌, str_eq,
}

-- A text is the list of its UTF-16 code units.
abbrev pub Text : Type 0
Text = List ℕ

pub record PendingText : Type 0 where
  pub session_id : String
  pub text : List Text

pub record CaptureFlushQueue : Type 0 where
  pub pending : String → Option PendingText
  pub settled_role : String → Option String
  pub flushed_ids : String → Bool

-- `Map.set`, `Map.delete`, `Set.add` and `Set.delete`.
abbrev pub put {ℓ} : {A : Type ℓ} → String → A → (String → A) → String → A
put k v m j = if str_eq j k then v else m j

unfoldable pub record_part : String → String → Text → CaptureFlushQueue → CaptureFlushQueue
record_part message_id session_id text q = record q {
  pending =
      put message_id
        (some (record {
          session_id = elim (q.pending message_id) [ none ↦ session_id | some e ↦ e.session_id ];
          text = text ∷ [];
        }))
        q.pending;
}

unfoldable pub set_settled_role : String → String → CaptureFlushQueue → CaptureFlushQueue
set_settled_role message_id role q = record q {
  settled_role = put message_id (some role) q.settled_role;
}

-- The white space that `trim` removes.
unfoldable pub is_space : ℕ → Bool
is_space c =
    leb 9 c && leb c 13
    || c == 32
    || c == 0xa0
    || c == 0x1680
    || leb 0x2000 c && leb c 0x200a
    || c == 0x2028
    || c == 0x2029
    || c == 0x202f
    || c == 0x205f
    || c == 0x3000
    || c == 0xfeff

unfoldable pub trim_start : Text → Text
unfolding is_space
trim_start [] = []
trim_start (c ∷ cs) = let rest = trim_start cs in if is_space c then rest else c ∷ cs

unfoldable pub trim_end : Text → Text
unfolding is_space
trim_end [] = []
trim_end (c ∷ cs) =
    let rest = trim_end cs in
    elim rest [ [] ↦ if is_space c then [] else c ∷ [] | d ∷ ds ↦ c ∷ (d ∷ ds) ]

-- `text.join("\n")`
unfoldable pub join_lines : List Text → Text
join_lines [] = []
join_lines (t ∷ ts) = let rest = join_lines ts in elim ts [ [] ↦ t | u ∷ us ↦ t ++ (0x0a ∷ rest) ]

unfoldable pub delivered_text : PendingText → Text
unfolding trim_start trim_end join_lines
delivered_text e = trim_start (trim_end (join_lines e.text))

abbrev pub is_empty : Text → Bool
is_empty [] = true
is_empty (c ∷ cs) = false

unfoldable pub has_deliverable_text : String → CaptureFlushQueue → Bool
has_deliverable_text message_id q =
    if q.flushed_ids message_id
    then false
    else elim (q.pending message_id) [ none ↦ false | some e ↦ not (is_empty (delivered_text e)) ]

-- What a call of `flush` holds while it awaits `send`.
pub record InFlight : Type 0 where
  pub message_id : String
  pub role : String
  pub entry : PendingText
  pub text : Text
  pub prior_settled_role : Option String

-- Up to `await send(...)`; `none` is one of the early returns.
unfoldable pub begin_flush :
    String → String → CaptureFlushQueue → Option (CaptureFlushQueue × InFlight)
begin_flush message_id role q = elim (q.pending message_id) [
  | none ↦ none
  | some entry ↦
      if q.flushed_ids message_id
      then none
      else if is_empty (delivered_text entry)
      then none
      else some (
        record {
          pending = put message_id none q.pending;
          settled_role = put message_id none q.settled_role;
          flushed_ids = put message_id true q.flushed_ids;
        },
        record {
          message_id = message_id;
          role = role;
          entry = entry;
          text = delivered_text entry;
          prior_settled_role = q.settled_role message_id;
        },
      )
]

abbrev pub restore_role : String → Option String → (String → Option String) → String → Option String
restore_role id none m = m
restore_role id (some r) m = put id (some r) m

-- The `catch` block, when `send` has thrown; when it has not, nothing is left to do.
unfoldable pub fail_flush : InFlight → CaptureFlushQueue → CaptureFlushQueue
fail_flush f q = record {
  pending = put f.message_id (some f.entry) q.pending;
  settled_role = restore_role f.message_id f.prior_settled_role q.settled_role;
  flushed_ids = put f.message_id false q.flushed_ids;
}
