-- ===== src/Pools/Auth.antt =====
-- `src/mcp_auth.ts`: what a bearer token may address; and the head of `handleData` in
-- `src/gateway.ts`, which puts it before the routing of Pools.
pub mod Allowed
use falda.Prelude.{
  ℕ, String, Bool, true, false, ◌||◌, Option, none, some, List, [], ◌≡◌, ◌≢◌, ◌⊎◌, refl, sym, ◌∙◌,
  ap, subst, inl, inr, arith, length, ◌==◌, if◌then◌else◌, str_eq, str_eq_iff, own, Option-cases,
  Bool-cases,
}
use falda.Distill.Decision.{contains}
use falda.Pools.Persist.{no_such_pool, bad_name, Access, no_access, read, readwrite}
use falda.Pools.Roster.{Roster, Grants, spec_resolve, permit}
use falda.Pools.Refines.{view}
use falda.Pools.Routing.{path_of, resolve-Routes, v_name-ne_self}
use falda.Pools.Names
use falda.Pools.Names.{
  matches_name, pool_error, Thrown, type_error, Result, Result-cases, ok, throw, is_inherited,
  v_tenant, v_name,
}
use falda.Pools.{Store, StorePath, self_store, pool_store, PoolManager, resolve, or_self}

pub record Principal : Type 0 where
  pub tenants : List String
  pub pools : List String

-- The `tokens` of the file; `none` where it cannot be read or parsed.
abbrev pub TokenFile : Type 0
TokenFile = Option (List (String × Principal))

-- An AuthError with its status, or what the later steps throw.
pub data Answer (A : Type 0) : Type 0 where
  granted : A → Answer A
  auth_error : ℕ → Answer A
  thrown : Thrown → Answer A

infixl 5 ◌>>=◌
abbrev pub ◌>>=◌ : {A B : Type 0} → Answer A → (A → Answer B) → Answer B
granted a >>= f = f a
auth_error n >>= f = auth_error n
thrown e >>= f = thrown e

unfoldable pub load_tokens : TokenFile → List (String × Principal)
load_tokens none = []
load_tokens (some tokens) = tokens

-- The principal of a token, or the property of that name that every object has.
pub data Caller : Type 0 where
  principal : Principal → Caller
  builtin_value : Caller

-- `!text` of undefined and of the empty string
unfoldable pub given : Option String → Option String
given none = none
given (some s) = if str_eq s "" then none else some s

unfoldable pub authenticate : TokenFile → Option String → Answer Caller
unfolding load_tokens given is_inherited
authenticate file bearer = elim (given bearer) [
  | none ↦ auth_error 401
  | some token ↦ elim (own token (load_tokens file)) [
    | some p ↦ granted (principal p)
    | none ↦ if is_inherited token then granted builtin_value else auth_error 401
  ]
]

unfoldable pub allows_tenant : Principal → String → Bool
allows_tenant p tenant = contains "*" p.tenants || contains tenant p.tenants

-- `principal.tenants.includes`, of what may have no `tenants`.
unfoldable pub tenant_for : Caller → String → Answer String
unfolding allows_tenant
tenant_for builtin_value t = thrown type_error
tenant_for (principal p) t = if allows_tenant p t then granted t else auth_error 403

unfoldable pub pool_for : Caller → String → Answer (Option String)
pool_for builtin_value name = thrown type_error
pool_for (principal p) name = if contains name p.pools then granted (some name) else auth_error 403

unfoldable pub require_tenant : Caller → Option String → Answer String
unfolding given tenant_for
require_tenant caller tenant = elim (given tenant) [
  | none ↦ auth_error 403
  | some t ↦ tenant_for caller t
]

unfoldable pub require_pool : Caller → Option String → Answer (Option String)
unfolding given pool_for
require_pool caller pool = elim (given pool) [
  | none ↦ granted pool
  | some name ↦ elim (str_eq name "self") [ true ↦ granted pool | false ↦ pool_for caller name ]
]

-- The number of tokens declared, or that the file is of no use.
unfoldable pub validate_token_file : TokenFile → Option ℕ
unfolding load_tokens
validate_token_file file =
    let count = length (load_tokens file) in if count == 0 then none else some count

unfoldable pub answer_of : {A : Type 0} → Result A → Answer A
answer_of (ok a) = granted a
answer_of (throw e) = thrown e

-- A data request, from its headers to the store that its route works on.
unfoldable pub reach_store :
    TokenFile
    → Option String
    → Option String
    → Option String
    → Bool
    → PoolManager
    → Answer (Store × PoolManager)
unfolding authenticate require_tenant require_pool answer_of
reach_store file bearer tenant pool write s = do
  caller ← authenticate file bearer
  t ← require_tenant caller tenant
  p ← require_pool caller pool
  answer_of (resolve t p write s)
