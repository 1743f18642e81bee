-- ===== src/Pools/Roster.antt =====
-- The contract of docs/POOLS.md: which pools are declared, what each tenant may do in each, how the
-- admin operations change this, and whom a request reaches.
use falda.Prelude.{
  String, Bool, true, false, Option, none, some, ◌≡◌, arith, if◌then◌else◌, str_eq, own, put,
  own-put, own-remove,
}
use mathlib.Core.Path.{fun_ext}
use falda.Pools.Persist.{
  Access, no_access, read, readwrite, PoolDecl, Registry, exists, no_such_pool, not_a_member,
  read_only,
}
use falda.Pools.Names.{Members, Result, ok, throw, pool_error, ◌>>◌, v_name, v_tenant, v_tenants}
use falda.Pools.{v_patch, set_access, StorePath, self_store, pool_store, or_self}

-- What each tenant may do in one pool.
abbrev pub Grants : Type 0
Grants = String → Access

abbrev pub Roster : Type 0
Roster = String → Option Grants

abbrev pub grants_of : Members → Grants
grants_of ms = λ tenant. elim (own tenant ms) [ some a ↦ a | none ↦ no_access ]

unfoldable pub roster_of : Registry → Roster
roster_of reg = λ name. elim (own name reg) [ some d ↦ some (grants_of d.members) | none ↦ none ]

abbrev pub assign {ℓ} : {A : Type ℓ} → String → A → (String → A) → String → A
assign k v f = λ j. if str_eq k j then v else f j

pub data Admin : Type 0 where
  declaring : String → Members → Option String → Admin
  updating : String → Option Members → Option String → Admin
  granting : String → String → Access → Admin

abbrev pub pool_named : Admin → String
pool_named (declaring name ms description) = name
pool_named (updating name ms description) = name
pool_named (granting name tenant mode) = name

abbrev pub patched : Option Members → Grants → Grants
patched none g = g
patched (some ms) g = grants_of ms

abbrev pub spec_admin : Admin → Roster → Result Roster
spec_admin (declaring name ms description) r = do
  v_name name
  v_tenants ms
  elim (r name) [
    | some g ↦ throw (pool_error exists)
    | none ↦ ok (assign name (some (grants_of ms)) r)
  ]
spec_admin (updating name ms description) r = do
  v_name name
  elim (r name) [
    | none ↦ throw (pool_error no_such_pool)
    | some g ↦ do v_patch ms; ok (assign name (some (patched ms g)) r)
  ]
spec_admin (granting name tenant mode) r = do
  v_name name
  v_tenant tenant
  elim (r name) [
    | none ↦ throw (pool_error no_such_pool)
    | some g ↦ ok (assign name (some (assign tenant mode g)) r)
  ]

abbrev pub permit : Access → Bool → StorePath → Result StorePath
permit no_access write p = throw (pool_error not_a_member)
permit read true p = throw (pool_error read_only)
permit read false p = ok p
permit readwrite write p = ok p

abbrev pub spec_resolve : String → Option String → Bool → Roster → Result StorePath
spec_resolve tenant pool write r = do
  v_tenant tenant
  let p = or_self pool
  elim (str_eq p "self") [
    | true ↦ ok (self_store tenant)
    | false ↦ do
      v_name p
      elim (r p) [
        | none ↦ throw (pool_error no_such_pool)
        | some g ↦ permit (g tenant) write (pool_store p)
      ]
  ]

pub roster_of-put :
    (name : String) (d : PoolDecl) (reg : Registry)
    → roster_of (put name d reg) ≡ assign name (some (grants_of d.members)) (roster_of reg)
unfolding roster_of
roster_of-put name d reg = fun_ext (λ p. ground (arith, own-put p name d reg))

pub grants_of-set_access :
    (tenant : String) (access : Access) (ms : Members)
    → grants_of (set_access tenant access ms) ≡ assign tenant access (grants_of ms)
unfolding set_access
grants_of-set_access tenant no_access ms = fun_ext (λ t. ground (arith, own-remove t tenant ms))
grants_of-set_access tenant read ms = fun_ext (λ t. ground (arith, own-put t tenant read ms))
grants_of-set_access tenant readwrite ms =
    fun_ext (λ t. ground (arith, own-put t tenant readwrite ms))
