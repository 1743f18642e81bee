-- ===== src/Pools/Persist.antt =====
-- The pool registry of `src/pools.ts`: its types, what a parsed `pools.json` must look like, and what
-- is written back.
pub mod Laws
use falda.Prelude.{
  String, Bool, true, false, Option, none, some, List, [], ◌∷◌, if◌then◌else◌, str_eq, remove,
}
use falda.Distill.Decision.{
  Json, text, object, null, JsonFields, no_fields, field, lookup, property,
}

-- `no_access` is the source's "none".
pub data Access : Type 0 where
  no_access read readwrite : Access

unfoldable pub access_name : Access → String
access_name no_access = "none"
access_name read = "read"
access_name readwrite = "readwrite"

-- ACCESS_VALUES.has(access)
unfoldable pub access_of : String → Option Access
access_of s =
    if str_eq s "none"
    then some no_access
    else if str_eq s "read"
    then some read
    else if str_eq s "readwrite"
    then some readwrite
    else none

unfoldable pub access_eq : Access → Access → Bool
access_eq no_access no_access = true
access_eq read read = true
access_eq readwrite readwrite = true
access_eq _ _ = false

-- Nothing checks `description`: a file may hold any value there.
pub record PoolDecl : Type 0 where
  pub name : String
  pub description : Option Json
  pub members : List (String × Access)
  pub created_at : String
  pub updated_at : String

-- Record<string, PoolDecl>
abbrev pub Registry : Type 0
Registry = List (String × PoolDecl)

pub data PoolErrorCode : Type 0 where
  bad_name bad_tenant no_such_pool not_a_member read_only reserved exists corrupt_registry :
      PoolErrorCode

-- Object.entries of a parsed object: of two equal names the later value counts, at the place of the
-- first.
unfoldable pub entries : JsonFields → List (String × Json)
entries no_fields = []
entries (field k v fs) = (k, elim (lookup k fs) [ some w ↦ w | none ↦ v ]) ∷ remove k (entries fs)

unfoldable pub access_in : Json → Option Access
access_in (text s) = access_of s
access_in _ = none

-- The loop over the entries of an object, which one bad entry ends.
unfoldable pub read_all :
    {A : Type 0} → (String → Json → Option A) → List (String × Json) → Option (List (String × A))
read_all read_one [] = some []
read_all read_one ((k, j) ∷ rest) =
    let more = read_all read_one rest in
    elim (read_one k j) [
      | none ↦ none
      | some a ↦ elim more [ none ↦ none | some as_read ↦ some ((k, a) ∷ as_read) ]
    ]

-- `typeof x === "object" && x !== null && !Array.isArray(x)`
unfoldable pub fields_of : Option Json → Option JsonFields
fields_of none = none
fields_of (some j) = elim j [ object fs ↦ some fs | _ ↦ none ]

unfoldable pub string_of : Option Json → Option String
string_of none = none
string_of (some j) = elim j [ text s ↦ some s | _ ↦ none ]

-- The checks of one entry; fields that no code reads are not kept.
unfoldable pub read_decl : String → Json → Option PoolDecl
read_decl key j = elim (string_of (property "name" j)) [
  | none ↦ none
  | some name ↦ elim (str_eq name key) [
    | false ↦ none
    | true ↦ elim (fields_of (property "members" j)) [
      | none ↦ none
      | some fs ↦ elim (read_all (λ _ a. access_in a) (entries fs)) [
        | none ↦ none
        | some ms ↦ elim (string_of (property "created_at" j)) [
          | none ↦ none
          | some created ↦ elim (string_of (property "updated_at" j)) [
            | none ↦ none
            | some updated ↦ some (record {
              name = name;
              description = property "description" j;
              members = ms;
              created_at = created;
              updated_at = updated;
            })
          ]
        ]
      ]
    ]
  ]
]

-- `none` is PoolError("corrupt_registry"), whichever check fails.
unfoldable pub validate_registry : Json → Option Registry
validate_registry raw = elim (fields_of (property "pools" raw)) [
  | none ↦ none
  | some fs ↦ read_all read_decl (entries fs)
]

-- JSON.stringify of a dictionary.
unfoldable pub fields_with : {A : Type 0} → (A → Json) → List (String × A) → JsonFields
fields_with f [] = no_fields
fields_with f ((k, v) ∷ ps) = field k (f v) (fields_with f ps)

unfoldable pub members_json : List (String × Access) → JsonFields
unfolding fields_with access_name
members_json ms = fields_with (λ a. text (access_name a)) ms

-- `JSON.stringify` leaves an undefined description out.
unfoldable pub decl_json : PoolDecl → Json
decl_json d =
    let rest : JsonFields =
      field "members" (object (members_json d.members)) (
        field "created_at" (text d.created_at)
          (field "updated_at" (text d.updated_at) no_fields)) in
    object (
      field "name" (text d.name)
        (elim d.description [ none ↦ rest | some j ↦ field "description" j rest ]))

unfoldable pub registry_json : Registry → Json
unfolding fields_with
registry_json reg = object (field "pools" (object (fields_with decl_json reg)) no_fields)

-- What `fs` and `JSON.parse` find at `pools.json`.
pub data RegistryFile : Type 0 where
  missing unreadable malformed : RegistryFile
  parsed : Json → RegistryFile

-- `none` is PoolError("corrupt_registry").
unfoldable pub load_reg : RegistryFile → Option Registry
load_reg missing = some []
load_reg unreadable = none
load_reg malformed = none
load_reg (parsed j) = validate_registry j
