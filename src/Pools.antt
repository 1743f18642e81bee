-- ===== src/Pools.antt =====
-- `src/pools.ts`: the registry of shared pools, its file, and the routing of a (tenant, pool) pair to
-- a physical store. The registry's reading and writing are in Pools/Persist.
pub mod Persist
pub mod Names
pub mod Roster
pub mod Refines
pub mod Routing
pub mod Auth
mod Examples
use falda.Prelude.{
  ℕ, suc, String, Bool, true, false, ◌&&◌, ◌||◌, Option, none, some, List, [], ◌∷◌, length, ltb,
  leb, ◌==◌, if◌then◌else◌, str_eq, own, put, remove, not, select_where, ◌≡◌, refl, ◌⊎◌, inl, inr,
}
use falda.Queue.{store_key_for}
use falda.Pools.Names.{
  Members, Thrown, Result, Result-cases, ◌>>=◌, ◌>>◌, check, is_alphanumeric, all_name_characters,
  text_length, matches_name, v_tenant, v_name, v_tenants, is_inherited, pool_error, type_error, ok,
  throw,
}
use falda.Distill.Decision.{Json}
use falda.Pools.Persist.{
  Access, no_access, read, readwrite, PoolDecl, Registry, RegistryFile, parsed, load_reg,
  registry_json, PoolErrorCode, bad_name, bad_tenant, no_such_pool, not_a_member, read_only,
  reserved, exists, corrupt_registry, access_eq,
}

-- The places of a store's files under the root: tenants/<tenant>/self and pools/<pool>.
pub data StorePath : Type 0 where
  self_store : String → StorePath
  pool_store : String → StorePath

unfoldable pub path_eq : StorePath → StorePath → Bool
path_eq (self_store a) (self_store b) = str_eq a b
path_eq (pool_store a) (pool_store b) = str_eq a b
path_eq _ _ = false

-- An opened store, with the key that its mutations mark as dirty.
pub record Store : Type 0 where
  pub path : StorePath
  pub store_key : String

-- The state: the file, what has been written as `Object.members`, and the cache of opened stores.
pub record PoolManager : Type 0 where
  pub reg_file : RegistryFile
  pub object_members : Option Members
  pub stores : List Store

-- `pool ?? "self"`
unfoldable pub or_self : Option String → String
or_self none = "self"
or_self (some p) = p

-- `reg.pools[name]`: of a name that the pattern lets through, what is inherited is `Object`.
pub data Found : Type 0 where
  absent : Found
  declared : PoolDecl → Found
  inherited : Found

unfoldable pub find_pool : String → Registry → Found
unfolding is_inherited
find_pool name reg = elim (own name reg) [
  | some d ↦ declared d
  | none ↦ if is_inherited name then inherited else absent
]

-- `members[tenant] ?? "none"`: a name that is not listed may still find a built-in function.
pub data MemberAccess : Type 0 where
  listed : Access → MemberAccess
  builtin : MemberAccess

unfoldable pub member_access : String → Members → MemberAccess
unfolding is_inherited
member_access tenant members = elim (own tenant members) [
  | some a ↦ listed a
  | none ↦ if is_inherited tenant then builtin else listed no_access
]

unfoldable pub is_access : Access → MemberAccess → Bool
unfolding access_eq
is_access a (listed b) = access_eq a b
is_access a builtin = false

unfoldable pub load : PoolManager → Result Registry
unfolding load_reg
load s = elim (load_reg s.reg_file) [
  | none ↦ throw (pool_error corrupt_registry)
  | some reg ↦ ok reg
]

unfoldable pub save : Registry → PoolManager → PoolManager
unfolding registry_json
save reg s = record s { reg_file = parsed (registry_json reg) }

unfoldable pub text_or_empty : Option String → String
text_or_empty none = ""
text_or_empty (some s) = s

unfoldable pub declare_pool :
    String → Members → Option String → String → PoolManager → Result (PoolDecl × PoolManager)
unfolding v_name v_tenants load save find_pool text_or_empty
declare_pool name members description now s = do
  v_name name
  v_tenants members
  reg ← load s
  let decl : PoolDecl = record {
    name = name;
    description = some (Json.text (text_or_empty description));
    members = members;
    created_at = now;
    updated_at = now;
  }
  elim (find_pool name reg) [
    | absent ↦ ok (decl, save (put name decl reg) s)
    | _ ↦ throw (pool_error exists)
  ]

unfoldable pub patch_description : Option String → PoolDecl → PoolDecl
patch_description none d = d
patch_description (some t) d = record d { description = some (Json.text t) }

unfoldable pub patch_members : Option Members → PoolDecl → PoolDecl
patch_members none d = d
patch_members (some ms) d = record d { members = ms }

unfoldable pub v_patch : Option Members → Result (Unit {0})
unfolding v_tenants
v_patch none = ok tt
v_patch (some ms) = v_tenants ms

unfoldable pub patch_object : Option Members → PoolManager → PoolManager
patch_object none s = s
patch_object (some ms) s = record s { object_members = some ms }

unfoldable pub update_pool :
    String → Option Members → Option String → String → PoolManager → Result (Found × PoolManager)
unfolding v_name v_patch load save find_pool patch_description patch_members patch_object
update_pool name members description now s = do
  v_name name
  reg ← load s
  elim (find_pool name reg) [
    | absent ↦ throw (pool_error no_such_pool)
    | inherited ↦ do v_patch members; ok (inherited, save reg (patch_object members s))
    | declared d ↦ do
      v_patch members
      let d' = record (patch_description description (patch_members members d)) { updated_at = now }
      ok (declared d', save (put name d' reg) s)
  ]

unfoldable pub set_access : String → Access → Members → Members
set_access tenant no_access ms = remove tenant ms
set_access tenant access ms = put tenant access ms

unfoldable pub grant :
    String → String → Access → String → PoolManager → Result (Found × PoolManager)
unfolding v_name v_tenant load save find_pool set_access
grant name tenant access now s = do
  v_name name
  v_tenant tenant
  reg ← load s
  elim (find_pool name reg) [
    | absent ↦ throw (pool_error no_such_pool)
    | inherited ↦ elim s.object_members [
      | none ↦ throw type_error
      | some ms ↦
          ok
            (inherited, save reg (record s { object_members = some (set_access tenant access ms) }))
    ]
    | declared d ↦
        let d' = record d { members = set_access tenant access d.members; updated_at = now } in
        ok (declared d', save (put name d' reg) s)
  ]

unfoldable pub get_pool : String → PoolManager → Result Found
unfolding load find_pool
get_pool name s = do reg ← load s; ok (find_pool name reg)

unfoldable pub values : Registry → List PoolDecl
values [] = []
values ((k, d) ∷ reg) = d ∷ values reg

-- Object.values, less the rule that puts names that are numbers first.
unfoldable pub list_pools : PoolManager → Result (List PoolDecl)
unfolding load values
list_pools s = do reg ← load s; ok (values reg)

pub record PoolEntry : Type 0 where
  pub name : String
  pub access : MemberAccess
  pub description : Json

unfoldable pub describe : Option Json → Json
describe none = Json.text ""
describe (some j) = elim j [ Json.null ↦ Json.text "" | other ↦ other ]

unfoldable pub entries_for : String → List PoolDecl → List PoolEntry
unfolding member_access is_access describe
entries_for tenant [] = []
entries_for tenant (d ∷ ds) =
    let rest = entries_for tenant ds in
    if is_access no_access (member_access tenant d.members)
    then rest
    else record {
      name = d.name;
      access = member_access tenant d.members;
      description = describe d.description;
    }
      ∷ rest

unfoldable pub pools_for_tenant : String → PoolManager → Result (List PoolEntry)
unfolding v_tenant list_pools entries_for
pools_for_tenant tenant s = do v_tenant tenant; ds ← list_pools s; ok (entries_for tenant ds)

unfoldable pub cached : StorePath → List Store → Option Store
unfolding path_eq
cached p [] = none
cached p (st ∷ sts) = let rest = cached p sts in if path_eq st.path p then some st else rest

unfoldable pub store_at : StorePath → String → PoolManager → Store × PoolManager
store_at p key s = elim (cached p s.stores) [
  | some st ↦ (st, s)
  | none ↦
      let st : Store = record { path = p; store_key = key } in
      (st, record s { stores = st ∷ s.stores })
]

unfoldable pub admit : Members → String → String → Bool → PoolManager → Result (Store × PoolManager)
unfolding is_access
admit members tenant p write s = do
  let access = member_access tenant members
  check (not (is_access no_access access)) not_a_member
  check (not (write && not (is_access readwrite access))) read_only
  ok (store_at (pool_store p) (store_key_for tenant (some p)) s)

-- `decl.members` of what was found, which of `Object` may be undefined.
unfoldable pub reach :
    Found → Option Members → String → String → Bool → PoolManager → Result (Store × PoolManager)
reach absent objects tenant p write s = throw (pool_error no_such_pool)
reach (declared d) objects tenant p write s = admit d.members tenant p write s
reach inherited none tenant p write s = throw type_error
reach inherited (some ms) tenant p write s = admit ms tenant p write s

unfoldable pub resolve : String → Option String → Bool → PoolManager → Result (Store × PoolManager)
unfolding get_pool or_self
resolve tenant pool write s = do
  v_tenant tenant
  let p = or_self pool
  elim (str_eq p "self") [
    | true ↦ ok (store_at (self_store tenant) (store_key_for tenant none) s)
    | false ↦ do v_name p; found ← get_pool p s; reach found s.object_members tenant p write s
  ]

-- The directories whose `self/falda.db` is a file; `none` where the folder cannot be read.
unfoldable pub list_self_tenants : Option (List String) → (String → Bool) → List String
list_self_tenants none is_file = []
list_self_tenants (some names) is_file = select_where is_file names

unfoldable pub close_all : PoolManager → PoolManager
close_all s = record s { stores = [] }
