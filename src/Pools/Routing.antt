-- ===== src/Pools/Routing.antt =====
-- Which store a request of `src/pools.ts` reaches, and under which key the store is opened.
use falda.Prelude.{
  String, Bool, true, false, not, ◌&&◌, Option, none, some, List, [], ◌∷◌, ◌≡◌, refl, sym, ◌∙◌, ap,
  subst, inl, inr, arith, str_eq, str_eq_iff, str_eq_refl, own, Option-cases, Bool-cases,
}
use falda.Queue.{store_key_for}
use falda.Pools.Persist.{
  PoolErrorCode, reserved, access_eq, not_a_member, read_only, Access, no_access, read, readwrite,
  PoolDecl, Registry,
}
use falda.Pools.Roster.{Roster, roster_of, spec_resolve, permit, grants_of}
use falda.Pools.Refines.{view, find_pool-absent, find_pool-declared}
use falda.Pools.Refines.History.{view-load}
use falda.Pools.Names.{
  Members, Result, Result-cases, ok, throw, ◌>>=◌, ◌>>◌, check, is_inherited, pool_error, v_tenant,
  v_name, matches_name,
}
use falda.Pools.{
  StorePath, self_store, pool_store, path_eq, Store, PoolManager, load, find_pool, get_pool, absent,
  declared, inherited, member_access, is_access, cached, store_at, admit, resolve, Found, reach,
  builtin, or_self,
}

abbrev pub path_of : Result (Store × PoolManager) → Result StorePath
path_of r = do out ← r; ok out.0.path

path_eq_lem : (p q : StorePath) → path_eq p q ≡ true → p ≡ q
unfolding path_eq
path_eq_lem (self_store a) (self_store b) h = rw ((str_eq_iff a b).0 h)
path_eq_lem (pool_store a) (pool_store b) h = rw ((str_eq_iff a b).0 h)
path_eq_lem (self_store a) (pool_store b) h = absurd (ground arith)
path_eq_lem (pool_store a) (self_store b) h = absurd (ground arith)

path_eq_refl : (p : StorePath) → path_eq p p ≡ true
unfolding path_eq
path_eq_refl (self_store a) = str_eq_refl a
path_eq_refl (pool_store a) = str_eq_refl a

cached-path : (p : StorePath) (sts : List Store) (st : Store) → cached p sts ≡ some st → st.path ≡ p
unfolding cached
cached-path p [] st e = absurd (ground arith)
cached-path p (x ∷ sts) st e = elim (Bool-cases (path_eq x.path p)) [
  | inl t ↦
      let same : x ≡ st = ground (arith, e, t) in
      subst (λ (y : Store). y.path ≡ p) same (path_eq_lem x.path p t)
  | inr f ↦ cached-path p sts st (rw f at e)
]

store_at-path : (p : StorePath) (key : String) (s : PoolManager) → (store_at p key s).0.path ≡ p
unfolding store_at
store_at-path p key s = elim (Option-cases (cached p s.stores)) [
  | inl n ↦ ground (arith, n)
  | inr (st, h) ↦ ground (arith, h, cached-path p s.stores st h)
]

cached_first :
    (p : StorePath) (st : Store) (sts : List Store)
    → path_eq st.path p ≡ true
    → cached p (st ∷ sts) ≡ some st
unfolding cached
cached_first p st sts h = rw h

-- What is opened is found by the next request for the same place.
store_at-cached :
    (p : StorePath) (key : String) (s : PoolManager)
    → cached p (store_at p key s).1.stores ≡ some (store_at p key s).0
unfolding store_at
store_at-cached p key s = elim (Option-cases (cached p s.stores)) [
  | inl n ↦
      ground
        (arith, n, cached_first p (record { path = p; store_key = key }) s.stores (path_eq_refl p))
  | inr (st, h) ↦ ground (arith, h)
]

grants_of-member_access :
    (tenant : String) (ms : Members)
    → is_inherited tenant ≡ false
    → (mode : Access)
    → is_access mode (member_access tenant ms) ≡ access_eq mode (grants_of ms tenant)
unfolding member_access is_access
grants_of-member_access tenant ms plain mode = elim (Option-cases (own tenant ms)) [
  | inl n ↦ ground (arith, n, plain)
  | inr (a, h) ↦ ground (arith, h)
]

admit-permit :
    (ms : Members) (tenant p : String) (write : Bool) (s : PoolManager)
    → is_inherited tenant ≡ false
    → path_of (admit ms tenant p write s) ≡ permit (grants_of ms tenant) write (pool_store p)
unfolding admit
admit-permit ms tenant p write s plain =
    go (grants_of ms tenant) write (is_access no_access (member_access tenant ms))
      (is_access readwrite (member_access tenant ms))
      (grants_of-member_access tenant ms plain no_access)
      (grants_of-member_access tenant ms plain readwrite)
  where
    path_is : (store_at (pool_store p) (store_key_for tenant (some p)) s).0.path ≡ pool_store p
    path_is = store_at-path (pool_store p) (store_key_for tenant (some p)) s

    go :
        (mode : Access) (write' none_given all_given : Bool)
        → none_given ≡ access_eq no_access mode
        → all_given ≡ access_eq readwrite mode
        → path_of (
            check (not none_given) not_a_member
            >> (check (not (write' && not all_given)) read_only
                >> ok (store_at (pool_store p) (store_key_for tenant (some p)) s)))
          ≡ permit mode write' (pool_store p)
    go no_access write' n a h k = rw h
    go read true n a h k = rw (h, k)
    go read false n a h k = rw h (rw path_is)
    go readwrite true n a h k = rw (h, k) (rw path_is)
    go readwrite false n a h k = rw h (rw path_is)

-- A request for a private store or a pool reaches the place that the contract gives for the roster in
-- the file, or throws the code that it gives: the tenant's name is checked first, then the pool's
-- name, that the pool is declared, that the tenant is a member and, for a write, that it may write.
-- Neither the tenant nor the pool is named like a property of every object.
pub resolve-Routes :
    (tenant : String) (pool : Option String) (write : Bool) (s : PoolManager) (r : Roster)
    → view s ≡ ok r
    → is_inherited tenant ≡ false
    → is_inherited (or_self pool) ≡ false
    → path_of (resolve tenant pool write s) ≡ spec_resolve tenant pool write r
unfolding resolve get_pool reach
resolve-Routes tenant pool write s r e plain plain' = elim (Result-cases (v_tenant tenant)) [
  | inr (t, h) ↦ simp h
  | inl (u, h) ↦ elim (Bool-cases (str_eq (or_self pool) "self")) [
    | inl y ↦ simp (h, y) (rw (store_at-path (self_store tenant) (store_key_for tenant none) s))
    | inr n ↦ elim (Result-cases (v_name (or_self pool))) [
      | inr (t, k) ↦ simp (◌>>=◌, h, n, k)
      | inl (u', k) ↦
          let (reg, loads, is_r) = view-load s r e in
          let at_pool : r (or_self pool) ≡ roster_of reg (or_self pool) =
            sym (ap (λ (x : Roster). x (or_self pool)) is_r) in
          elim (Option-cases (own (or_self pool) reg)) [
            | inl o ↦
                let (f, a) = find_pool-absent (or_self pool) reg o plain' in
                simp (◌>>=◌, h, n, k, loads, f, at_pool ∙ a)
            | inr (d, o) ↦
                let (f, a) = find_pool-declared (or_self pool) reg d o in
                simp (◌>>=◌, h, n, k, loads, f, at_pool ∙ a)
                  (admit-permit d.members tenant (or_self pool) write s plain)
          ]
    ]
  ]
]

pub v_name-ne_self : (x : String) → v_name x ≡ ok tt → str_eq x "self" ≡ false
unfolding v_name
v_name-ne_self x v = elim (Bool-cases (str_eq x "self")) [
  | inr f ↦ f
  | inl t ↦ let h : throw (pool_error reserved) ≡ ok tt = rw t at v in cc
]

admit-builtin :
    (ms : Members) (tenant p : String) (s : PoolManager)
    → member_access tenant ms ≡ builtin
    → path_of (admit ms tenant p false s) ≡ ok (pool_store p)
unfolding admit is_access
admit-builtin ms tenant p s b =
    simp (◌>>=◌, b)
      (ap (λ (x : StorePath). ok x)
        (store_at-path (pool_store p) (store_key_for tenant (some p)) s))

-- A tenant named "constructor" may read every declared pool that does not list it: an unlisted name
-- is looked up among the properties that every object has, and what is found there is not "none".
pub constructor_reads_any_pool :
    (name : String) (d : PoolDecl) (s : PoolManager) (reg : Registry)
    → load s ≡ ok reg
    → own name reg ≡ some d
    → v_name name ≡ ok tt
    → own "constructor" d.members ≡ none
    → path_of (resolve "constructor" (some name) false s) ≡ ok (pool_store name)
unfolding resolve get_pool or_self reach
constructor_reads_any_pool name d s reg loads o valid unlisted =
    let (f, a) = find_pool-declared name reg d o in
    let n : str_eq name "self" ≡ false = v_name-ne_self name valid in
    let t : v_tenant "constructor" ≡ ok tt = unfold v_tenant matches_name in refl in
    let b : member_access "constructor" d.members ≡ builtin =
      unfold member_access in ground (arith, unlisted) in
    simp (◌>>=◌, t, n, valid, loads, f) (admit-builtin d.members "constructor" name s b)

check-ok :
    {A : Type 0} (b : Bool) (code : PoolErrorCode) (m : Result A) (a : A)
    → (check b code >> m) ≡ ok a
    → m ≡ ok a
check-ok true code m a h = h
check-ok false code m a h = cc

admit-opens :
    (ms : Members) (tenant p : String) (write : Bool) (s : PoolManager) (out : Store × PoolManager)
    → admit ms tenant p write s ≡ ok out
    → ok out ≡ ok (store_at (pool_store p) (store_key_for tenant (some p)) s)
unfolding admit
admit-opens ms tenant p write s out e = sym (
    check-ok (not (write && not (is_access readwrite (member_access tenant ms)))) read_only
      (ok (store_at (pool_store p) (store_key_for tenant (some p)) s)) out
      (check-ok (not (is_access no_access (member_access tenant ms))) not_a_member
        (check (not (write && not (is_access readwrite (member_access tenant ms)))) read_only
          >> ok (store_at (pool_store p) (store_key_for tenant (some p)) s))
        out e))

found-opens :
    (found : Found) (objects : Option Members) (tenant p : String) (write : Bool) (s : PoolManager)
    (out : Store × PoolManager)
    → reach found objects tenant p write s ≡ ok out
    → ok out ≡ ok (store_at (pool_store p) (store_key_for tenant (some p)) s)
unfolding reach
found-opens absent objects tenant p write s out e = cc
found-opens (declared d) objects tenant p write s out e =
    admit-opens d.members tenant p write s out e
found-opens inherited none tenant p write s out e = cc
found-opens inherited (some ms) tenant p write s out e = admit-opens ms tenant p write s out e

-- What a request for a pool opens.
resolve-opens :
    (tenant p : String) (write : Bool) (s : PoolManager) (out : Store × PoolManager)
    → str_eq p "self" ≡ false
    → resolve tenant (some p) write s ≡ ok out
    → ok out ≡ ok (store_at (pool_store p) (store_key_for tenant (some p)) s)
unfolding resolve get_pool or_self
resolve-opens tenant p write s out n e = elim (Result-cases (v_tenant tenant)) [
  | inr (t, h) ↦ let x : throw t ≡ ok out = rw h at e in cc
  | inl (u, h) ↦ elim (Result-cases (v_name p)) [
    | inr (t, k) ↦ let x : throw t ≡ ok out = simp (◌>>=◌, h, n, k) at e in cc
    | inl (u', k) ↦ elim (Result-cases (load s)) [
      | inr (t, l) ↦ let x : throw t ≡ ok out = simp (◌>>=◌, h, n, k, l) at e in cc
      | inl (reg, l) ↦
          found-opens (find_pool p reg) s.object_members tenant p write s out
            (simp (◌>>=◌, h, n, k, l) at e)
    ]
  ]
]

store_at-hit :
    (p : StorePath) (key : String) (s : PoolManager) (st : Store)
    → cached p s.stores ≡ some st
    → (store_at p key s).0 ≡ st
unfolding store_at
store_at-hit p key s st h = ground (arith, h)

store_at-fresh :
    (p : StorePath) (key : String) (s : PoolManager)
    → cached p s.stores ≡ none
    → (store_at p key s).0.store_key ≡ key
unfolding store_at
store_at-fresh p key s h = ground (arith, h)

ok-injective : {a b : Store × PoolManager} → ok a ≡ ok b → a ≡ b
ok-injective h = cc

-- The store of a pool keeps the key of the tenant who opened it first: the next tenant to reach the
-- pool gets the same store, whose mutations mark the first tenant's key as dirty.
pub resolve-shares_key :
    (first second p : String) (write write' : Bool) (s : PoolManager)
    (out out' : Store × PoolManager)
    → str_eq p "self" ≡ false
    → cached (pool_store p) s.stores ≡ none
    → resolve first (some p) write s ≡ ok out
    → resolve second (some p) write' out.1 ≡ ok out'
    → (out.0.store_key ≡ store_key_for first (some p)) × (out'.0 ≡ out.0)
resolve-shares_key first second p write write' s out out' n fresh e e' =
    let opened : out ≡ store_at (pool_store p) (store_key_for first (some p)) s =
      ok-injective (resolve-opens first p write s out n e) in
    let again : out' ≡ store_at (pool_store p) (store_key_for second (some p)) out.1 =
      ok-injective (resolve-opens second p write' out.1 out' n e') in
    let hit : cached (pool_store p) out.1.stores ≡ some out.0 =
      subst (λ (o : Store × PoolManager). cached (pool_store p) o.1.stores ≡ some o.0) (sym opened)
        (store_at-cached (pool_store p) (store_key_for first (some p)) s) in
    (
      ap (λ (o : Store × PoolManager). o.0.store_key) opened
          ∙ store_at-fresh (pool_store p) (store_key_for first (some p)) s fresh,
      ap (λ (o : Store × PoolManager). o.0) again
          ∙ store_at-hit (pool_store p) (store_key_for second (some p)) out.1 out.0 hit,
    )
