-- ===== src/Pools/Auth/Allowed.antt =====
-- A data request reaches only the stores that its token, the roster of the pools and the kind of access
-- allow: `src/mcp_auth.ts` before the routing of `src/pools.ts`.
use falda.Prelude.{
  String, Bool, true, false, Option, none, some, ◌≡◌, ◌≢◌, ◌⊎◌, refl, sym, ◌∙◌, ap, subst, inl, inr,
  arith, str_eq, str_eq_iff, own, Option-cases, Bool-cases,
}
use falda.Distill.Decision.{contains}
use falda.Pools.Persist.{no_such_pool, bad_name, Access, no_access, read, readwrite}
use falda.Pools.Roster.{Roster, Grants, spec_resolve, permit}
use falda.Pools.Refines.{view}
use falda.Pools.Routing.{path_of, resolve-Routes, v_name-ne_self}
use falda.Pools.Names
use falda.Pools.Names.{
  matches_name, pool_error, Thrown, type_error, Result, Result-cases, ok, throw, is_inherited,
  v_tenant, v_name,
}
use falda.Pools.{Store, StorePath, self_store, pool_store, PoolManager, resolve, or_self}
use falda.Pools.Auth.{
  Principal, TokenFile, Answer, ◌>>=◌, load_tokens, Caller, given, authenticate, allows_tenant,
  tenant_for, require_tenant, require_pool, answer_of, reach_store, principal, builtin_value,
  granted, auth_error, thrown,
}

>>=-granted :
    {A B : Type 0} (m : Answer A) (f : A → Answer B) {b : B}
    → (m >>= f) ≡ granted b
    → (a : A) × (m ≡ granted a) × (f a ≡ granted b)
>>=-granted (granted a) f h = (a, refl, h)
>>=-granted (auth_error n) f h = cc
>>=-granted (thrown e) f h = cc

-- What the token's principal, the roster and the request must agree on for a store to be reached.
abbrev pub MayWrite : Bool → Access → Type 0
MayWrite true mode = mode ≡ readwrite
MayWrite false mode = mode ≢ no_access

pub record IsAllowed (r : Roster) (p : Principal) (tenant : String) (pool : Option String)
    (write : Bool) (path : StorePath) : Type 0 where
  pub may_act : allows_tenant p tenant ≡ true
  pub place :
      ((or_self pool ≡ "self") × (path ≡ self_store tenant))
      ⊎ ((g : Grants) × (contains (or_self pool) p.pools ≡ true)
          × (path ≡ pool_store (or_self pool))
          × (r (or_self pool) ≡ some g)
          × MayWrite write (g tenant))

permit-MayWrite :
    (mode : Access) (write : Bool) (p path : StorePath)
    → permit mode write p ≡ ok path
    → (path ≡ p) × MayWrite write mode
permit-MayWrite no_access write p path e = cc
permit-MayWrite read true p path e = cc
permit-MayWrite read false p path e = (cc, λ h. cc)
permit-MayWrite readwrite true p path e = (cc, refl)
permit-MayWrite readwrite false p path e = (cc, λ h. cc)

tenant_for-granted :
    (caller : Caller) (tenant t : String)
    → tenant_for caller tenant ≡ granted t
    → (p : Principal) × (caller ≡ principal p) × (allows_tenant p tenant ≡ true) × (t ≡ tenant)
unfolding tenant_for
tenant_for-granted builtin_value tenant t e = cc
tenant_for-granted (principal p) tenant t e = elim (Bool-cases (allows_tenant p tenant)) [
  | inl y ↦ (p, refl, y, ground (arith, e, y))
  | inr n ↦ ground (arith, e, n)
]

require_tenant-granted :
    (caller : Caller) (tenant t : String)
    → require_tenant caller (some tenant) ≡ granted t
    → (p : Principal) × (caller ≡ principal p) × (allows_tenant p tenant ≡ true) × (t ≡ tenant)
unfolding require_tenant given
require_tenant-granted caller tenant t e = elim (Bool-cases (str_eq tenant "")) [
  | inl y ↦ ground (arith, e, y)
  | inr n ↦
      let x : tenant_for caller tenant ≡ granted t = ground (arith, e, n) in
      tenant_for-granted caller tenant t x
]

require_pool-granted :
    (p : Principal) (pool pool' : Option String)
    → require_pool (principal p) pool ≡ granted pool'
    → (pool' ≡ pool)
      × ((str_eq (or_self pool) "self" ≡ true)
          ⊎ ((str_eq (or_self pool) "" ≡ true) ⊎ (contains (or_self pool) p.pools ≡ true)))
unfolding require_pool given or_self
require_pool-granted p none pool' e = (ground (arith, e), inl refl)
require_pool-granted p (some name) pool' e = elim (Bool-cases (str_eq name "")) [
  | inl y ↦ (ground (arith, e, y), inr (inl y))
  | inr n ↦ elim (Bool-cases (str_eq name "self")) [
    | inl y ↦ (ground (arith, e, n, y), inl y)
    | inr n' ↦ elim (Bool-cases (contains name p.pools)) [
      | inl y ↦ (ground (arith, e, n, n', y), inr (inr y))
      | inr n'' ↦ ground (arith, e, n, n', n'')
    ]
  ]
]

module _ (tenant : String) (pool : Option String) (write : Bool) (r : Roster)
    (path : StorePath) where
  -- Whom the contract lets through.
  spec_resolve-ok :
      spec_resolve tenant pool write r ≡ ok path
      → ((str_eq (or_self pool) "self" ≡ true) × (path ≡ self_store tenant))
        ⊎ ((g : Grants) × (v_name (or_self pool) ≡ ok tt)
            × (path ≡ pool_store (or_self pool))
            × (r (or_self pool) ≡ some g)
            × MayWrite write (g tenant))
  spec_resolve-ok e = elim (Result-cases (v_tenant tenant)) [
    | inr (t, h) ↦ let x : throw t ≡ ok path = simp h at e in cc
    | inl (u, h) ↦ elim (Bool-cases (str_eq (or_self pool) "self")) [
      | inl y ↦ let x : ok (self_store tenant) ≡ ok path = simp (h, y) at e in inl (y, cc)
      | inr n ↦ elim (Result-cases (v_name (or_self pool))) [
        | inr (t, k) ↦ let x : throw t ≡ ok path = simp (Names.◌>>=◌, h, n, k) at e in cc
        | inl (u', k) ↦ elim (Option-cases (r (or_self pool))) [
          | inl o ↦
              let x : throw (pool_error no_such_pool) ≡ ok path =
                simp (Names.◌>>=◌, h, n, k, o) at e in
              cc
          | inr (g, o) ↦
              let x : permit (g tenant) write (pool_store (or_self pool)) ≡ ok path =
                simp (Names.◌>>=◌, h, n, k, o) at e in
              let (is_path, may) =
                permit-MayWrite (g tenant) write (pool_store (or_self pool)) path x in
              inr (g, k, is_path, o, may)
        ]
      ]
    ]
  ]

v_name-ne_empty : (name : String) → v_name name ≡ ok tt → str_eq name "" ≡ false
unfolding v_name matches_name
v_name-ne_empty name v = elim (Bool-cases (str_eq name "")) [
  | inr n ↦ n
  | inl y ↦
      let x : throw (pool_error bad_name) ≡ ok tt =
        subst (λ (n : String). v_name n ≡ ok tt) ((str_eq_iff name "").0 y) v in
      cc
]

authenticate-granted :
    (file : TokenFile) (token : String) (p : Principal)
    → authenticate file (some token) ≡ granted (principal p)
    → own token (load_tokens file) ≡ some p
unfolding authenticate given
authenticate-granted file token p e = elim (Bool-cases (str_eq token "")) [
  | inl y ↦ ground (arith, e, y)
  | inr n ↦ elim (Option-cases (own token (load_tokens file))) [
    | inr (q, o) ↦ ground (arith, e, n, o)
    | inl o ↦ elim (Bool-cases (is_inherited token)) [
      | inl y ↦ ground (arith, e, n, o, y)
      | inr n' ↦ ground (arith, e, n, o, n')
    ]
  ]
]

answer_of-granted :
    (m : Result (Store × PoolManager)) (out : Store × PoolManager)
    → answer_of m ≡ granted out
    → m ≡ ok out
unfolding answer_of
answer_of-granted (ok a) out h = cc
answer_of-granted (throw e) out h = cc

-- A data request that reaches a store carries a token of the file, whose principal may act for the
-- tenant that the header names; the store is this tenant's own, or that of a declared pool which the
-- principal may address and in which the tenant has a grant, for a write a grant to write. The
-- tenant and the pool are not named like a property of every object.
pub reach_store-IsAllowed :
    (file : TokenFile) (token tenant : String) (pool : Option String) (write : Bool)
    (s : PoolManager) (r : Roster) (out : Store × PoolManager)
    → view s ≡ ok r
    → is_inherited tenant ≡ false
    → is_inherited (or_self pool) ≡ false
    → reach_store file (some token) (some tenant) pool write s ≡ granted out
    → (p : Principal) × (own token (load_tokens file) ≡ some p)
      × IsAllowed r p tenant pool write out.0.path
unfolding reach_store
reach_store-IsAllowed file token tenant pool write s r out v plain plain' e =
    let (caller, known, e1) =
      >>=-granted (authenticate file (some token))
        (λ caller. require_tenant caller (some tenant) >>= λ t.
          require_pool caller pool >>= λ p. answer_of (resolve t p write s))
        e in
    let (t, tenant_ok, e2) =
      >>=-granted (require_tenant caller (some tenant))
        (λ t. require_pool caller pool >>= λ p. answer_of (resolve t p write s)) e1 in
    let (pool', pool_ok, e3) =
      >>=-granted (require_pool caller pool) (λ p. answer_of (resolve t p write s)) e2 in
    let (p, is_p, may, is_tenant) = require_tenant-granted caller tenant t tenant_ok in
    let (is_pool, pools_ok) =
      require_pool-granted p pool pool'
        (subst (λ (c : Caller). require_pool c pool ≡ granted pool') is_p pool_ok) in
    let routed : path_of (resolve tenant pool write s) ≡ ok out.0.path =
      ap (λ (m : Result (Store × PoolManager)). path_of m)
        (answer_of-granted (resolve tenant pool write s) out (
          subst (λ (x : String). answer_of (resolve x pool write s) ≡ granted out) is_tenant
            (subst (λ (x : Option String). answer_of (resolve t x write s) ≡ granted out) is_pool
              e3))) in
    let permitted : spec_resolve tenant pool write r ≡ ok out.0.path =
      sym (resolve-Routes tenant pool write s r v plain plain') ∙ routed in
    (
      p,
      authenticate-granted file token p
          (subst (λ (c : Caller). authenticate file (some token) ≡ granted c) is_p known),
      record {
        may_act = may;
        place = place_of p pools_ok (spec_resolve-ok tenant pool write r out.0.path permitted);
      },
    )
  where
    place_of :
        (p : Principal)
        → (str_eq (or_self pool) "self" ≡ true)
          ⊎ ((str_eq (or_self pool) "" ≡ true) ⊎ (contains (or_self pool) p.pools ≡ true))
        → ((str_eq (or_self pool) "self" ≡ true) × (out.0.path ≡ self_store tenant))
          ⊎ ((g : Grants) × (v_name (or_self pool) ≡ ok tt)
              × (out.0.path ≡ pool_store (or_self pool))
              × (r (or_self pool) ≡ some g)
              × MayWrite write (g tenant))
        → ((or_self pool ≡ "self") × (out.0.path ≡ self_store tenant))
          ⊎ ((g : Grants) × (contains (or_self pool) p.pools ≡ true)
              × (out.0.path ≡ pool_store (or_self pool))
              × (r (or_self pool) ≡ some g)
              × MayWrite write (g tenant))
    place_of p q (inl (y, is_path)) = inl ((str_eq_iff (or_self pool) "self").0 y, is_path)
    place_of p (inl y) (inr (g, n, is_path, o, m)) = let f = v_name-ne_self (or_self pool) n in cc
    place_of p (inr (inl y)) (inr (g, n, is_path, o, m)) =
        let f = v_name-ne_empty (or_self pool) n in cc
    place_of p (inr (inr y)) (inr (g, n, is_path, o, m)) = inr (g, y, is_path, o, m)
