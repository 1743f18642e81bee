-- ===== src/Distill/Examples.antt =====
-- The pass on small inputs: a batch reply, its chunks, the plan and the transaction.
use falda.Prelude.{
  ℕ, String, none, some, List, [], ◌∷◌, ◌≡◌, refl, arith, All, Memᴰ, length, get_elem?, count_where,
}
use falda.Distill.Decision.{
  Json, natural, text, array, object, item, field, no_items, no_fields, update, merge, skip,
  ConsolidationDecision, validate_consolidation_decision, decide, action_in, ids_in, action_of,
  string_items, rationale_of, property, lookup, miscounted, action_name,
}
use falda.Distill.Decision.Laws.{
  IsValid, to_json, validate_consolidation_decision-IsValid,
  validate_consolidation_decision-to_json,
}
use falda.Distill.Decision.Batch.{
  BatchReply, parse_consolidation_batch, candidate_of, is_in_range, offer, accept, accept_all,
  to_list,
}
use falda.Distill.Decision.Batch.Laws.{
  first_valid, is_for, entries_of, parse_consolidation_batch_lem,
}
use falda.Distill.Chunks.{
  concat, IsChunk, pack_consolidation_chunks, pack_consolidation_chunks_lem, stride, fill, push,
  warn_alone,
}
use falda.Distill.Plan.{
  fact, high, ExistingAtom, Retrieved, Replies, decide_all, decide_individually, decide_chunks,
  settle_chunk, parse_consolidation, reconcile, replan, consumed_by_decision, atom_id_from_content,
}
use falda.Distill.Watermark.{DistillState}
use falda.Distill.Plan.Decided.{AllValid, decide_all-AllValid}
use falda.Distill.Plan.Reconciled.{Planned, reconcile-Planned}

abbrev merge_ab : ConsolidationDecision
merge_ab = record { action = merge; target_ids = "a" ∷ ("b" ∷ []); rationale = "same" }

abbrev abc : List String
abc = "a" ∷ ("b" ∷ ("c" ∷ []))

merge_ab_accepted : validate_consolidation_decision (to_json merge_ab) abc ≡ some merge_ab
unfolding validate_consolidation_decision decide action_in ids_in action_of string_items
    rationale_of property lookup miscounted action_name
merge_ab_accepted = refl

-- An id that was not shown is refused.
merge_ab_foreign : validate_consolidation_decision (to_json merge_ab) ("a" ∷ []) ≡ none
unfolding validate_consolidation_decision decide action_in ids_in action_of string_items
    rationale_of property lookup miscounted action_name
merge_ab_foreign = refl

validate_consolidation_decision-IsValid_example : IsValid abc merge_ab
validate_consolidation_decision-IsValid_example =
    validate_consolidation_decision-IsValid (to_json merge_ab) abc merge_ab merge_ab_accepted

abbrev merge_ab-IsValid : IsValid abc merge_ab
merge_ab-IsValid = record {
  distinct = (refl, (refl, tt));
  shown = (Memᴰ.head refl, (Memᴰ.tail (Memᴰ.head refl), tt));
  counted = omega arith;
}

validate_consolidation_decision-to_json_example :
    validate_consolidation_decision (to_json merge_ab) abc ≡ some merge_ab
validate_consolidation_decision-to_json_example =
    validate_consolidation_decision-to_json abc merge_ab merge_ab-IsValid

-- A batch entry: a decision's object with the index of its candidate.
abbrev entry : ℕ → ConsolidationDecision → Json
entry i d = object (
    field "candidate" (natural i) (
      field "action" (text (action_name d.action))
        (field "target_ids" (array (item (text "a") no_items)) no_fields)))

abbrev update_a : ConsolidationDecision
update_a = record { action = update; target_ids = "a" ∷ []; rationale = "" }

-- Candidate 1 twice, candidate 0 not at all.
abbrev reply : BatchReply
reply = record {
  array = some (item (entry 1 update_a) (item (entry 1 update_a) no_items));
  lines = [];
}

batch_decided :
    parse_consolidation_batch reply (abc ∷ (abc ∷ []))
    ≡ record { allowed = abc; decision = none; seen = 0 }
      ∷ (record { allowed = abc; decision = some update_a; seen = 2 } ∷ [])
unfolding validate_consolidation_decision decide action_in ids_in action_of string_items
    rationale_of property lookup miscounted action_name parse_consolidation_batch accept_all accept
    offer candidate_of is_in_range to_list
batch_decided = refl

parse_consolidation_batch_lem_example :
    get_elem? (parse_consolidation_batch reply (abc ∷ (abc ∷ []))) 1
    ≡ some (record {
      allowed = abc;
      decision = first_valid 1 abc (entries_of reply 2);
      seen = count_where (is_for 1) (entries_of reply 2);
    })
parse_consolidation_batch_lem_example =
    parse_consolidation_batch_lem reply (abc ∷ (abc ∷ [])) 1 abc refl

-- The prompt has a character for each item.
abbrev packed : List (List String)
packed = (pack_consolidation_chunks 2 5 length ("a" ∷ ("b" ∷ ("c" ∷ [])))).chunks

packed_in_two : packed ≡ ("a" ∷ ("b" ∷ [])) ∷ (("c" ∷ []) ∷ [])
unfolding pack_consolidation_chunks fill push warn_alone
packed_in_two = refl

pack_consolidation_chunks_lem_example :
    (concat packed ≡ "a" ∷ ("b" ∷ ("c" ∷ []))) × All (IsChunk 2 5 length) packed
pack_consolidation_chunks_lem_example =
    pack_consolidation_chunks_lem 2 5 length ("a" ∷ ("b" ∷ ("c" ∷ []))) (omega arith)

abbrev known : String → ExistingAtom
known id = record { id = id; atom_type = fact; content = id; confidence = high }

abbrev wanting : String → Retrieved
wanting content = record {
  candidate = record { atom_type = fact; content = content; confidence = high };
  existing = known "a" ∷ (known "b" ∷ []);
}

abbrev replies : Replies
replies = record {
  single = λ i r. some (to_json update_a);
  batch = λ i rs. reply;
  replan = λ i r. some (to_json (record update_a { target_ids = "b" ∷ [] }));
}

abbrev two : List Retrieved
two = wanting "x" ∷ (wanting "y" ∷ [])

abbrev hash : String → String
hash s = s

both_decided : decide_all replies 20 0 length two ≡ some (update_a ∷ (update_a ∷ []))
unfolding validate_consolidation_decision decide action_in ids_in action_of string_items
    rationale_of property lookup miscounted action_name parse_consolidation_batch accept_all accept
    offer candidate_of is_in_range to_list decide_all decide_chunks settle_chunk decide_individually
    parse_consolidation pack_consolidation_chunks stride
both_decided = refl

decide_all-AllValid_example : AllValid two (update_a ∷ (update_a ∷ []))
decide_all-AllValid_example =
    decide_all-AllValid replies 20 0 length two (update_a ∷ (update_a ∷ [])) both_decided

abbrev skip_it : ConsolidationDecision
skip_it = record { action = skip; target_ids = []; rationale = "" }

abbrev update_b : ConsolidationDecision
update_b = record { action = update; target_ids = "b" ∷ []; rationale = "" }

-- The second candidate names the target of the first and is asked again.
second_replanned :
    reconcile replies hash 0 [] two (update_a ∷ (update_a ∷ [])) ≡ some (update_a ∷ (update_b ∷ []))
unfolding validate_consolidation_decision decide action_in ids_in action_of string_items
    rationale_of property lookup miscounted action_name parse_consolidation reconcile replan
    consumed_by_decision atom_id_from_content
second_replanned = refl

reconcile-Planned_example : Planned hash [] two (update_a ∷ (update_b ∷ []))
reconcile-Planned_example =
    reconcile-Planned replies hash two (update_a ∷ (update_a ∷ [])) (update_a ∷ (update_b ∷ []))
      (decide_all-AllValid replies 20 0 length two (update_a ∷ (update_a ∷ [])) both_decided)
      second_replanned

-- Every prompt for one candidate is answered.
answered :
    (i : ℕ) (r : Retrieved)
    → (d : ConsolidationDecision) × (decide_individually
          (record replies { single = λ i r. some (to_json skip_it) })
          i
          r
        ≡ some d)
unfolding validate_consolidation_decision decide action_in ids_in action_of string_items
    rationale_of property lookup miscounted action_name decide_individually parse_consolidation
answered i r = (skip_it, refl)

abbrev fresh : DistillState
fresh = record { watermarks = []; core_states = []; dirty = [] }
