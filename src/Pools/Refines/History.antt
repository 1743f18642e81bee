-- ===== src/Pools/Refines/History.antt =====
-- Admin calls in sequence: a call that throws leaves the file of `src/pools.ts` as it was.
use falda.Prelude.{String, false, List, [], ◌∷◌, ◌≡◌, subst, inl, inr, All}
use falda.Pools.Persist.{Registry}
use falda.Pools.Roster.{Roster, roster_of, Admin, pool_named, spec_admin}
use falda.Pools.Names.{Thrown, Result-cases, ok, throw, is_inherited}
use falda.Pools.{PoolManager, load}
use falda.Pools.Refines.{run_admin, IsCall, view, Matches, run_admin-Refines}

-- A history of admin calls; one that throws has written nothing.
unfoldable pub serve : List (Admin × String) → PoolManager → PoolManager
serve [] s = s
serve ((op, now) ∷ ops) s = serve ops (elim (run_admin op now s) [ ok s' ↦ s' | throw e ↦ s ])

abbrev pub spec_serve : List (Admin × String) → Roster → Roster
spec_serve [] r = r
spec_serve ((op, now) ∷ ops) r =
    spec_serve ops (elim (spec_admin op r) [ ok r' ↦ r' | throw e ↦ r ])

abbrev pub IsPlainCall : Admin × String → Type 0
IsPlainCall (op, now) = (is_inherited (pool_named op) ≡ false) × IsCall op

pub view-load :
    (s : PoolManager) (r : Roster)
    → view s ≡ ok r
    → (reg : Registry) × (load s ≡ ok reg) × (roster_of reg ≡ r)
view-load s r e = elim (Result-cases (load s)) [
  | inl (reg, h) ↦ (reg, h, ok-injective (rw h at e))
  | inr (t, h) ↦ absurd (throw-ne-ok (rw h at e))
]
  where
    ok-injective : {a b : Roster} → ok a ≡ ok b → a ≡ b
    ok-injective p = cc

    throw-ne-ok : {t : Thrown} {b : Roster} → throw t ≡ ok b → ⊥
    throw-ne-ok p = cc

-- From a registry that loads, after any history of declarations, updates and grants the registry
-- loads, and the roster in it is the one that the contract gives for that history. The pools are not
-- named like a property of every object, and no roster in a call names a tenant twice.
pub serve-Refines :
    (ops : List (Admin × String)) (s : PoolManager) (r : Roster)
    → view s ≡ ok r
    → All IsPlainCall ops
    → view (serve ops s) ≡ ok (spec_serve ops r)
unfolding serve
serve-Refines [] s r e h = e
serve-Refines ((op, now) ∷ ops) s r e h =
    let (reg, loads, is_r) = view-load s r e in
    let refines = run_admin-Refines op now s reg loads h.0.0 h.0.1 in
    let m : Matches (run_admin op now s) (spec_admin op r) =
      subst (λ (x : Roster). Matches (run_admin op now s) (spec_admin op x)) is_r refines in
    elim (Result-cases (run_admin op now s)) [
      | inl (s', k) ↦ elim (Result-cases (spec_admin op r)) [
        | inl (r', q) ↦ rw (k, q) (serve-Refines ops s' r' (rw (k, q) at m) h.1)
        | inr (t, q) ↦ absurd (rw (k, q) at m)
      ]
      | inr (t, k) ↦ elim (Result-cases (spec_admin op r)) [
        | inl (r', q) ↦ absurd (rw (k, q) at m)
        | inr (u, q) ↦ rw (k, q) (serve-Refines ops s r e h.1)
      ]
    ]
