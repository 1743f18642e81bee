-- ===== src/Pools/Refines.antt =====
-- The admin operations of `src/pools.ts` implement the contract of Pools/Roster, across the file.
pub mod History
use falda.Prelude.{
  String, false, Option, none, some, List, [], ◌∷◌, ◌≡◌, refl, ◌∙◌, ap, subst, inl, inr, arith, own,
  put, put-HasDistinctKeys, remove-HasDistinctKeys, HasDistinctKeys, All-put, All-own, Option-cases,
  All,
}
use falda.Distill.Decision.{text}
use falda.Pools.Persist.{
  Access, no_access, read, readwrite, PoolDecl, Registry, load_reg, parsed, RegistryFile, missing,
  unreadable, malformed,
}
use falda.Pools.Persist.Laws.{
  IsRegistry, validate_registry-IsRegistry, validate_registry-registry_json,
}
use falda.Pools.Roster.{
  Roster, Grants, roster_of, grants_of, assign, Admin, declaring, updating, granting, pool_named,
  spec_admin, patched, roster_of-put, grants_of-set_access,
}
use falda.Pools.Names.{
  Members, Thrown, Result, Result-cases, ok, throw, ◌>>=◌, is_inherited, v_name, v_tenant,
  v_tenants,
}
use falda.Pools.{
  PoolManager, load, save, find_pool, absent, declared, text_or_empty, declare_pool, update_pool,
  grant, set_access, patch_members, patch_description, v_patch,
}

-- The state behind an admin call.
unfoldable pub run_admin : Admin → String → PoolManager → Result PoolManager
unfolding declare_pool update_pool grant
run_admin (declaring name ms description) now s = do
  out ← declare_pool name ms description now s
  ok out.1
run_admin (updating name ms description) now s = do
  out ← update_pool name ms description now s
  ok out.1
run_admin (granting name tenant mode) now s = do out ← grant name tenant mode now s; ok out.1

abbrev pub HasDistinctPatch : Option Members → Type 0
HasDistinctPatch none = Unit
HasDistinctPatch (some ms) = HasDistinctKeys ms

-- The rosters in a call name each tenant once, as an object does.
abbrev pub IsCall : Admin → Type 0
IsCall (declaring name ms description) = HasDistinctKeys ms
IsCall (updating name patch description) = HasDistinctPatch patch
IsCall (granting name tenant mode) = Unit

abbrev pub view : PoolManager → Result Roster
view s = do reg ← load s; ok (roster_of reg)

loaded-IsRegistry : (f : RegistryFile) (reg : Registry) → load_reg f ≡ some reg → IsRegistry reg
unfolding load_reg
loaded-IsRegistry missing reg e =
    let nil : [] ≡ reg = ground (arith, e) in
    subst (λ (x : Registry). IsRegistry x) nil (record { keys = tt; named = tt; rosters = tt })
loaded-IsRegistry unreadable reg e = absurd (ground arith)
loaded-IsRegistry malformed reg e = absurd (ground arith)
loaded-IsRegistry (parsed j) reg e = validate_registry-IsRegistry j reg e

-- A call throws what the contract says, or leaves a registry that loads as the contract's roster.
abbrev pub Matches : Result PoolManager → Result Roster → Type 0
Matches (ok s) (ok r) = view s ≡ ok r
Matches (throw e) (throw e') = e ≡ e'
Matches (ok s) (throw e) = ⊥
Matches (throw e) (ok r) = ⊥

pub load-IsRegistry : (s : PoolManager) (reg : Registry) → load s ≡ ok reg → IsRegistry reg
unfolding load
load-IsRegistry s reg e = elim (Option-cases (load_reg s.reg_file)) [
  | inl n ↦ ground (arith, e, n)
  | inr (r, h) ↦ loaded-IsRegistry s.reg_file reg (ground (arith, e, h))
]

-- What is saved is loaded by the next operation.
pub load-save : (reg : Registry) (s : PoolManager) → IsRegistry reg → load (save reg s) ≡ ok reg
unfolding load save load_reg
load-save reg s h = ground (arith, validate_registry-registry_json reg h)

put-IsRegistry :
    (name : String) (d : PoolDecl) (reg : Registry)
    → IsRegistry reg
    → d.name ≡ name
    → HasDistinctKeys d.members
    → IsRegistry (put name d reg)
put-IsRegistry name d reg h n m = record {
  keys = put-HasDistinctKeys name d reg h.keys;
  named = All-put (λ p. p.1.name ≡ p.0) name d reg n h.named;
  rosters = All-put (λ p. HasDistinctKeys p.1.members) name d reg m h.rosters;
}

pub view-save-put :
    (name : String) (d : PoolDecl) (reg : Registry) (s : PoolManager)
    → IsRegistry reg
    → d.name ≡ name
    → HasDistinctKeys d.members
    → view (save (put name d reg) s) ≡ ok (assign name (some (grants_of d.members)) (roster_of reg))
view-save-put name d reg s h n m =
    rw (load-save (put name d reg) s (put-IsRegistry name d reg h n m), roster_of-put name d reg)

set_access-HasDistinctKeys :
    (tenant : String) (mode : Access) (ms : Members)
    → HasDistinctKeys ms
    → HasDistinctKeys (set_access tenant mode ms)
unfolding set_access
set_access-HasDistinctKeys tenant no_access ms h = remove-HasDistinctKeys tenant ms h
set_access-HasDistinctKeys tenant read ms h = put-HasDistinctKeys tenant read ms h
set_access-HasDistinctKeys tenant readwrite ms h = put-HasDistinctKeys tenant readwrite ms h

pub find_pool-absent :
    (name : String) (reg : Registry)
    → own name reg ≡ none
    → is_inherited name ≡ false
    → (find_pool name reg ≡ absent) × (roster_of reg name ≡ none)
unfolding find_pool roster_of
find_pool-absent name reg o plain = (ground (arith, o, plain), ground (arith, o))

pub find_pool-declared :
    (name : String) (reg : Registry) (d : PoolDecl)
    → own name reg ≡ some d
    → (find_pool name reg ≡ declared d) × (roster_of reg name ≡ some (grants_of d.members))
unfolding find_pool roster_of
find_pool-declared name reg d o = (ground (arith, o), ground (arith, o))

module _ (now : String) (s : PoolManager) (reg : Registry) (loads : load s ≡ ok reg) where
  declaring-Refines :
      (name : String) (ms : Members) (description : Option String)
      → is_inherited name ≡ false
      → HasDistinctKeys ms
      → Matches
          (run_admin (declaring name ms description) now s)
          (spec_admin (declaring name ms description) (roster_of reg))
  unfolding run_admin declare_pool
  declaring-Refines name ms description plain distinct = elim (Result-cases (v_name name)) [
    | inr (e, h) ↦ simp h refl
    | inl (u, h) ↦ elim (Result-cases (v_tenants ms)) [
      | inr (e, k) ↦ simp (h, k) refl
      | inl (u', k) ↦ elim (Option-cases (own name reg)) [
        | inr (d, o) ↦
            let (f, r) = find_pool-declared name reg d o in simp (◌>>=◌, h, k, loads, f, r) refl
        | inl o ↦
            let (f, r) = find_pool-absent name reg o plain in
            simp (◌>>=◌, h, k, loads, f, r)
              ((view-save-put name
                (record {
                  name = name;
                  description = some (text (text_or_empty description));
                  members = ms;
                  created_at = now;
                  updated_at = now;
                })
                reg s (load-IsRegistry s reg loads) refl distinct))
      ]
    ]
  ]

  granting-Refines :
      (name tenant : String) (mode : Access)
      → is_inherited name ≡ false
      → Matches
          (run_admin (granting name tenant mode) now s)
          (spec_admin (granting name tenant mode) (roster_of reg))
  unfolding run_admin grant
  granting-Refines name tenant mode plain = elim (Result-cases (v_name name)) [
    | inr (e, h) ↦ simp h refl
    | inl (u, h) ↦ elim (Result-cases (v_tenant tenant)) [
      | inr (e, k) ↦ simp (h, k) refl
      | inl (u', k) ↦ elim (Option-cases (own name reg)) [
        | inl o ↦
            let (f, r) = find_pool-absent name reg o plain in simp (◌>>=◌, h, k, loads, f, r) refl
        | inr (d, o) ↦
            let (f, r) = find_pool-declared name reg d o in
            let valid : IsRegistry reg = load-IsRegistry s reg loads in
            simp (◌>>=◌, h, k, loads, f, r)
              ((view-save-put name
                  (record d { members = set_access tenant mode d.members; updated_at = now }) reg s
                  valid (All-own (λ p. p.1.name ≡ p.0) name reg o valid.named)
                  (set_access-HasDistinctKeys tenant mode d.members
                    (All-own (λ p. HasDistinctKeys p.1.members) name reg o valid.rosters))
                ∙ ap (λ (g : Grants). ok (assign name (some g) (roster_of reg)))
                    (grants_of-set_access tenant mode d.members)))
      ]
    ]
  ]

  -- A patch of the fields that is saved is a patch of the grants.
  updated-Refines :
      (name : String) (patch : Option Members) (description : Option String) (d : PoolDecl)
      → HasDistinctPatch patch
      → own name reg ≡ some d
      → view (
          save
            (put name
              (record (patch_description description (patch_members patch d)) { updated_at = now })
              reg)
            s)
        ≡ ok (assign name (some (patched patch (grants_of d.members))) (roster_of reg))
  unfolding patch_description patch_members
  updated-Refines name patch description d distinct o =
      let valid : IsRegistry reg = load-IsRegistry s reg loads in
      let named : d.name ≡ name = All-own (λ p. p.1.name ≡ p.0) name reg o valid.named in
      let before : HasDistinctKeys d.members =
        All-own (λ p. HasDistinctKeys p.1.members) name reg o valid.rosters in
      go patch description distinct valid named before
    where
      go :
          (patch' : Option Members) (description' : Option String)
          → HasDistinctPatch patch'
          → IsRegistry reg
          → d.name ≡ name
          → HasDistinctKeys d.members
          → view (
              save
                (put name
                  (record (patch_description description' (patch_members patch' d)) {
                    updated_at = now;
                  })
                  reg)
                s)
            ≡ ok (assign name (some (patched patch' (grants_of d.members))) (roster_of reg))
      go none none k v n b = view-save-put name (record d { updated_at = now }) reg s v n b
      go none (some t) k v n b =
          view-save-put name (record d { description = some (text t); updated_at = now }) reg s v n
            b
      go (some ms) none k v n b =
          view-save-put name (record d { members = ms; updated_at = now }) reg s v n k
      go (some ms) (some t) k v n b =
          view-save-put name
            (record d { members = ms; description = some (text t); updated_at = now }) reg s v n k

  updating-Refines :
      (name : String) (patch : Option Members) (description : Option String)
      → is_inherited name ≡ false
      → HasDistinctPatch patch
      → Matches
          (run_admin (updating name patch description) now s)
          (spec_admin (updating name patch description) (roster_of reg))
  unfolding run_admin update_pool
  updating-Refines name patch description plain distinct = elim (Result-cases (v_name name)) [
    | inr (e, h) ↦ simp h refl
    | inl (u, h) ↦ elim (Option-cases (own name reg)) [
      | inl o ↦ let (f, r) = find_pool-absent name reg o plain in simp (◌>>=◌, h, loads, f, r) refl
      | inr (d, o) ↦
          let (f, r) = find_pool-declared name reg d o in
          elim (Result-cases (v_patch patch)) [
            | inr (e, k) ↦ simp (◌>>=◌, h, loads, f, r) (simp k refl)
            | inl (u', k) ↦
                simp (◌>>=◌, h, loads, f, r)
                  ((simp k (updated-Refines name patch description d distinct o)))
          ]
    ]
  ]

pub run_admin-Refines :
    (op : Admin) (now : String) (s : PoolManager) (reg : Registry)
    → load s ≡ ok reg
    → is_inherited (pool_named op) ≡ false
    → IsCall op
    → Matches (run_admin op now s) (spec_admin op (roster_of reg))
run_admin-Refines (declaring name ms description) now s reg loads plain call =
    declaring-Refines now s reg loads name ms description plain call
run_admin-Refines (updating name patch description) now s reg loads plain call =
    updating-Refines now s reg loads name patch description plain call
run_admin-Refines (granting name tenant mode) now s reg loads plain call =
    granting-Refines now s reg loads name tenant mode plain
