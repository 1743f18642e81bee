-- ===== src/Pools/Examples.antt =====
-- A pool that is declared, opened to a second tenant, and reached over the gateway.
use falda.Prelude.{String, true, false, none, some, List, [], ◌∷◌, ◌≡◌, refl, own}
use falda.Queue.{store_key_for}
use falda.Distill.Decision.{text}
use falda.Pools.Persist.{
  read, readwrite, PoolDecl, Registry, missing, parsed, registry_json, load_reg,
}
use falda.Pools.Persist.Laws.{IsRegistry}
use falda.Pools.Roster.{Admin, declaring, granting, Roster, roster_of, spec_resolve}
use falda.Pools.Refines.{view, load-save}
use falda.Pools.Refines.History.{serve, spec_serve, serve-Refines}
use falda.Pools.Routing.{path_of, resolve-Routes, constructor_reads_any_pool, resolve-shares_key}
use falda.Pools.Auth.{Principal, TokenFile, granted, auth_error, reach_store, load_tokens}
use falda.Pools.Auth.Allowed.{IsAllowed, reach_store-IsAllowed}
use falda.Pools.Names.{ok, v_tenant, v_name, matches_name, is_inherited}
use falda.Pools.{
  PoolManager, pool_store, Store, load, resolve, or_self, cached, store_at, save, reach, find_pool,
  admit, member_access,
}

abbrev first_run : PoolManager
first_run = record { reg_file = missing; object_members = none; stores = [] }

abbrev history : List (Admin × String)
history =
    (declaring "lucid" (("kukla", readwrite) ∷ []) none, "2026-01-01")
    ∷ (granting "lucid" "ollie" read, "2026-01-02")
    ∷ (declaring "lucid" [] none, "2026-01-03")
    ∷ []

abbrev no_pools : Roster
no_pools = λ name. none

first_run-view : view first_run ≡ ok no_pools
unfolding load load_reg roster_of
first_run-view = refl

serve-Refines_example : view (serve history first_run) ≡ ok (spec_serve history no_pools)
unfolding is_inherited
serve-Refines_example =
    serve-Refines history first_run no_pools first_run-view
      ((refl, (tt, tt)), ((refl, tt), ((refl, tt), tt)))

abbrev lucid : PoolDecl
lucid = record {
  name = "lucid";
  description = some (text "shared notes");
  members = ("kukla", readwrite) ∷ ("ollie", read) ∷ [];
  created_at = "2026-01-01";
  updated_at = "2026-01-02";
}

abbrev one_pool : Registry
one_pool = ("lucid", lucid) ∷ []

one_pool-IsRegistry : IsRegistry one_pool
one_pool-IsRegistry = record {
  keys = (tt, tt);
  named = (refl, tt);
  rosters = (((refl, tt), (tt, tt)), tt);
}

abbrev running : PoolManager
running = record { reg_file = parsed (registry_json one_pool); object_members = none; stores = [] }

running-loads : load running ≡ ok one_pool
unfolding save
running-loads = load-save one_pool first_run one_pool-IsRegistry

abbrev lucid_roster : Roster
lucid_roster = roster_of one_pool

running-view : view running ≡ ok lucid_roster
running-view = simp running-loads

resolve-Routes_example :
    path_of (resolve "ollie" (some "lucid") true running)
    ≡ spec_resolve "ollie" (some "lucid") true lucid_roster
unfolding is_inherited or_self
resolve-Routes_example =
    resolve-Routes "ollie" (some "lucid") true running lucid_roster running-view refl refl

constructor_reads_any_pool_example :
    path_of (resolve "constructor" (some "lucid") false running) ≡ ok (pool_store "lucid")
unfolding v_name matches_name
constructor_reads_any_pool_example =
    constructor_reads_any_pool "lucid" lucid running one_pool running-loads refl refl refl

abbrev lucid_store : Store
lucid_store = record { path = pool_store "lucid"; store_key = store_key_for "kukla" (some "lucid") }

abbrev opened : PoolManager
opened = record {
  reg_file = parsed (registry_json one_pool);
  object_members = none;
  stores = lucid_store ∷ [];
}

kukla_opens : resolve "kukla" (some "lucid") true running ≡ ok (lucid_store, opened)
unfolding resolve v_tenant v_name matches_name reach find_pool admit member_access store_at cached
kukla_opens = simp running-loads

ollie_shares : resolve "ollie" (some "lucid") false opened ≡ ok (lucid_store, opened)
unfolding resolve v_tenant v_name matches_name reach find_pool admit member_access store_at cached
ollie_shares = simp running-loads

resolve-shares_key_example :
    (lucid_store.store_key ≡ store_key_for "kukla" (some "lucid")) × (lucid_store ≡ lucid_store)
unfolding cached
resolve-shares_key_example =
    resolve-shares_key "kukla" "ollie" "lucid" true false running (lucid_store, opened)
      (lucid_store, opened) refl refl kukla_opens ollie_shares

abbrev laptop : Principal
laptop = record { tenants = "kukla" ∷ []; pools = "lucid" ∷ [] }

abbrev tokens : TokenFile
tokens = some (("t0k3n", laptop) ∷ [])

laptop_reaches :
    reach_store tokens (some "t0k3n") (some "kukla") (some "lucid") true running
    ≡ granted (lucid_store, opened)
unfolding reach_store
laptop_reaches = simp kukla_opens

reach_store-IsAllowed_example :
    (p : Principal) × (own "t0k3n" (load_tokens tokens) ≡ some p)
    × IsAllowed lucid_roster p "kukla" (some "lucid") true (pool_store "lucid")
unfolding is_inherited or_self
reach_store-IsAllowed_example =
    reach_store-IsAllowed tokens "t0k3n" "kukla" (some "lucid") true running lucid_roster
      (lucid_store, opened) running-view refl refl laptop_reaches

-- A tenant outside the token's set is refused before the roster is read.
other_tenant_refused :
    reach_store tokens (some "t0k3n") (some "ollie") (some "lucid") false running ≡ auth_error 403
unfolding reach_store
other_tenant_refused = refl
