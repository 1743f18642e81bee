-- ===== src/Distill/Decision.antt =====
-- The replies of the model, `src/distill/core.ts`: which JSON values count as a consolidation
-- decision, and how the entries of a batch reply are spread over the candidates.
pub mod Laws
pub mod Batch
use falda.Prelude.{
  ℕ, zero, suc, ◌+◌, String, Bool, true, false, not, ◌&&◌, ◌||◌, Option, none, some, List, [], ◌∷◌,
  length, ltb, ◌==◌, if◌then◌else◌, str_eq,
}

-- What `JSON.parse` returns. A number is an integer from zero up, or any other.
mutual
  pub data Json : Type 0 where
    null : Json
    bool : Bool → Json
    natural : ℕ → Json
    other_number : Json
    text : String → Json
    array : JsonItems → Json
    object : JsonFields → Json

  pub data JsonItems : Type 0 where
    no_items : JsonItems
    item : Json → JsonItems → JsonItems

  pub data JsonFields : Type 0 where
    no_fields : JsonFields
    field : String → Json → JsonFields → JsonFields

-- The value of a property: of two equal names the later counts; `none` is `undefined`.
unfoldable pub lookup : String → JsonFields → Option Json
lookup name no_fields = none
lookup name (field k v fs) = elim (lookup name fs) [
  | some w ↦ some w
  | none ↦ if str_eq k name then some v else none
]

-- `obj?.name`: of what is not an object, `undefined`.
unfoldable pub property : String → Json → Option Json
property name (object fs) = lookup name fs
property name _ = none

pub data Action : Type 0 where
  store update merge skip : Action

pub record ConsolidationDecision : Type 0 where
  pub action : Action
  pub target_ids : List String
  pub rationale : String

unfoldable pub action_name : Action → String
action_name store = "store"
action_name update = "update"
action_name merge = "merge"
action_name skip = "skip"

-- CONSOLIDATION_ACTIONS.includes(action)
unfoldable pub action_of : String → Option Action
action_of s =
    if str_eq s "store"
    then some store
    else if str_eq s "update"
    then some update
    else if str_eq s "merge"
    then some merge
    else if str_eq s "skip"
    then some skip
    else none

-- The entries of `target_ids`, when all of them are strings.
unfoldable pub string_items : JsonItems → Option (List String)
string_items no_items = some []
string_items (item j js) =
    let rest = string_items js in
    elim j [ text s ↦ elim rest [ none ↦ none | some ss ↦ some (s ∷ ss) ] | _ ↦ none ]

abbrev pub contains : String → List String → Bool
contains s [] = false
contains s (t ∷ more) = str_eq t s || contains s more

-- new Set(ids).size !== ids.length
abbrev pub has_duplicate : List String → Bool
has_duplicate [] = false
has_duplicate (s ∷ more) = contains s more || has_duplicate more

-- ids.some((id) => !allowedTargetIds.has(id))
abbrev pub has_foreign : List String → List String → Bool
has_foreign allowed [] = false
has_foreign allowed (s ∷ more) = not (contains s allowed) || has_foreign allowed more

unfoldable pub miscounted : Action → ℕ → Bool
miscounted store n = not (n == 0)
miscounted skip n = not (n == 0)
miscounted update n = not (n == 1)
miscounted merge n = ltb n 2

unfoldable pub rationale_of : Option Json → String
rationale_of none = ""
rationale_of (some j) = elim j [ text s ↦ s | _ ↦ "" ]

-- The checks on the ids, once the action and the strings are read.
unfoldable pub decide : Action → List String → String → List String → Option ConsolidationDecision
decide action ids rationale allowed =
    if has_duplicate ids
    then none
    else if has_foreign allowed ids
    then none
    else if miscounted action (length ids)
    then none
    else some (record { action = action; target_ids = ids; rationale = rationale })

unfoldable pub action_in : Option Json → Option Action
action_in none = none
action_in (some j) = elim j [ text s ↦ action_of s | _ ↦ none ]

unfoldable pub ids_in : Option Json → Option (List String)
ids_in none = none
ids_in (some j) = elim j [ array js ↦ string_items js | _ ↦ none ]

-- An array passes `typeof obj === "object"`, but has no property `action`.
unfoldable pub validate_consolidation_decision : Json → List String → Option ConsolidationDecision
validate_consolidation_decision obj allowed = elim (action_in (property "action" obj)) [
  | none ↦ none
  | some action ↦ elim (ids_in (property "target_ids" obj)) [
    | none ↦ none
    | some ids ↦ decide action ids (rationale_of (property "rationale" obj)) allowed
  ]
]
