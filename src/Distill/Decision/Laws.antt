-- ===== src/Distill/Decision/Laws.antt =====
-- What an accepted decision satisfies, and that every such decision can be written.
use falda.Prelude.{
  ℕ, ◌≤◌, String, true, false, some, List, [], ◌∷◌, ◌≡◌, refl, Memᴰ, arith, inl, inr, str_eq,
  str_eq_iff, Bool-cases, Option-cases, All, length, subst,
}
use falda.Distill.Decision.{
  Json, JsonItems, text, array, object, item, field, no_items, no_fields, Action, store, update,
  merge, skip, ConsolidationDecision, action_name, action_of, string_items, contains, has_duplicate,
  has_foreign, miscounted, decide, action_in, ids_in, rationale_of, property, lookup,
  validate_consolidation_decision,
}

pub contains→Mem : (s : String) (ss : List String) → contains s ss ≡ true → Memᴰ s ss
contains→Mem s [] h = cc
contains→Mem s (t ∷ more) h = elim (Bool-cases (str_eq t s)) [
  | inl y ↦ Memᴰ.head (cc ((str_eq_iff t s).0 y))
  | inr n ↦ Memᴰ.tail (contains→Mem s more (rw n at h))
]

pub Mem→contains : (s : String) (ss : List String) → Memᴰ s ss → contains s ss ≡ true
Mem→contains s [] m = elim m [ ]
Mem→contains s (t ∷ more) (Memᴰ.head e) = ground (arith, (str_eq_iff t s).1 (cc))
Mem→contains s (t ∷ more) (Memᴰ.tail m) = ground (arith, Mem→contains s more m)

-- No text stands twice in the list.
abbrev pub IsDistinct : List String → Type 0
IsDistinct [] = Unit
IsDistinct (s ∷ more) = (contains s more ≡ false) × IsDistinct more

distinct : (ss : List String) → has_duplicate ss ≡ false → IsDistinct ss
distinct [] h = tt
distinct (s ∷ more) h = (ground arith, distinct more (ground arith))

not_duplicate : (ss : List String) → IsDistinct ss → has_duplicate ss ≡ false
not_duplicate [] h = refl
not_duplicate (s ∷ more) h = rw (h.0, not_duplicate more h.1)

shown : (allowed ss : List String) → has_foreign allowed ss ≡ false → All (λ s. Memᴰ s allowed) ss
shown allowed [] h = tt
shown allowed (s ∷ more) h =
    (contains→Mem s allowed (ground arith), shown allowed more (ground arith))

not_foreign :
    (allowed ss : List String) → All (λ s. Memᴰ s allowed) ss → has_foreign allowed ss ≡ false
not_foreign allowed [] h = refl
not_foreign allowed (s ∷ more) h = rw (Mem→contains s allowed h.0, not_foreign allowed more h.1)

-- How many targets an action takes.
abbrev pub HasCount : Action → ℕ → Type 0
HasCount store n = n ≡ 0
HasCount skip n = n ≡ 0
HasCount update n = n ≡ 1
HasCount merge n = 2 ≤ n

counted : (a : Action) (n : ℕ) → miscounted a n ≡ false → HasCount a n
unfolding miscounted
counted store n h = ground arith
counted update n h = ground arith
counted merge n h = ground arith
counted skip n h = ground arith

not_miscounted : (a : Action) (n : ℕ) → HasCount a n → miscounted a n ≡ false
unfolding miscounted
not_miscounted store n h = ground arith
not_miscounted update n h = ground arith
not_miscounted merge n h = ground arith
not_miscounted skip n h = ground arith

-- The targets are distinct, all among the ids that were shown, and as many as the action takes.
pub record IsValid (allowed : List String) (d : ConsolidationDecision) : Type 0 where
  pub distinct : IsDistinct d.target_ids
  pub shown : All (λ s. Memᴰ s allowed) d.target_ids
  pub counted : HasCount d.action (length d.target_ids)

decide-IsValid :
    (action : Action) (ids : List String) (rationale : String) (allowed : List String)
    (d : ConsolidationDecision)
    → decide action ids rationale allowed ≡ some d
    → IsValid allowed d
unfolding decide
decide-IsValid action ids rationale allowed d h = elim (Bool-cases (has_duplicate ids)) [
  | inl t ↦ ground arith
  | inr n ↦ elim (Bool-cases (has_foreign allowed ids)) [
    | inl t ↦ ground arith
    | inr m ↦ elim (Bool-cases (miscounted action (length ids))) [
      | inl t ↦ ground arith
      | inr k ↦
          let made : ConsolidationDecision = record {
            action = action;
            target_ids = ids;
            rationale = rationale;
          } in
          let same : made ≡ d = ground (arith, n, m, k, h) in
          subst (IsValid allowed) same (record {
            distinct = distinct ids n;
            shown = shown allowed ids m;
            counted = counted action (length ids) k;
          })
    ]
  ]
]

-- Whatever value the model's reply parses to: an accepted decision names distinct ids, only ids that
-- were shown for its candidate, and as many as its action takes.
pub validate_consolidation_decision-IsValid :
    (obj : Json) (allowed : List String) (d : ConsolidationDecision)
    → validate_consolidation_decision obj allowed ≡ some d
    → IsValid allowed d
unfolding validate_consolidation_decision
validate_consolidation_decision-IsValid obj allowed d h =
    elim (Option-cases (action_in (property "action" obj))) [
      | inl e ↦ ground arith
      | inr (a, e) ↦ elim (Option-cases (ids_in (property "target_ids" obj))) [
        | inl f ↦ ground arith
        | inr (ids, f) ↦
            decide-IsValid a ids (rationale_of (property "rationale" obj)) allowed d
              (ground (arith, e, f, h))
      ]
    ]

abbrev pub text_items : List String → JsonItems
text_items [] = no_items
text_items (s ∷ more) = item (text s) (text_items more)

-- A decision in the form the prompt asks for.
abbrev pub to_json : ConsolidationDecision → Json
to_json d = object (
    field "action" (text (action_name d.action)) (
      field "target_ids" (array (text_items d.target_ids))
        (field "rationale" (text d.rationale) no_fields)))

string_items-text_items : (ss : List String) → string_items (text_items ss) ≡ some ss
unfolding string_items
string_items-text_items [] = refl
string_items-text_items (s ∷ more) = rw (string_items-text_items more)

action_of-action_name : (a : Action) → action_of (action_name a) ≡ some a
unfolding action_of action_name
action_of-action_name store = refl
action_of-action_name update = refl
action_of-action_name merge = refl
action_of-action_name skip = refl

-- Every decision that names distinct shown ids, as many as its action takes, is accepted as it was
-- meant when it is written as a JSON object.
pub validate_consolidation_decision-to_json :
    (allowed : List String) (d : ConsolidationDecision)
    → IsValid allowed d
    → validate_consolidation_decision (to_json d) allowed ≡ some d
unfolding validate_consolidation_decision property lookup action_in ids_in rationale_of decide
validate_consolidation_decision-to_json allowed d v = ground (
  arith,
  action_of-action_name d.action,
  string_items-text_items d.target_ids,
  not_duplicate d.target_ids v.distinct,
  not_foreign allowed d.target_ids v.shown,
  not_miscounted d.action (length d.target_ids) v.counted,
)
