-- ===== src/Prelude/Props.antt =====
-- JavaScript objects used as dictionaries: the own properties, in the order they were added.
use Prim.Native.String.{String}
use mathlib.Core.Path.{◌≡◌, refl, sym, subst}
use mathlib.Core.Logic.{inl, inr}
use mathlib.Core.Bool.{false}
use mathlib.Core.Option.{Option, none, some}
use mathlib.Core.List.{List, [], ◌∷◌}
use native.Mathlib.Omega.{arith}
use falda.Prelude.Tests.{if◌then◌else◌, str_eq, str_eq_iff, str_ne_sym, Bool-cases}
use falda.Prelude.Lists.{All}

module _ {ℓ} {A : Type ℓ} where
  -- o[k], of the object's own properties
  abbrev pub own : String → List (String × A) → Option A
  own k [] = none
  own k ((j, v) ∷ ps) = let rest = own k ps in if str_eq j k then some v else rest

  -- o[k] = v
  abbrev pub put : String → A → List (String × A) → List (String × A)
  put k v [] = (k, v) ∷ []
  put k v ((j, w) ∷ ps) = let rest = put k v ps in if str_eq j k then (j, v) ∷ ps else (j, w) ∷ rest

  -- delete o[k]
  abbrev pub remove : String → List (String × A) → List (String × A)
  remove k [] = []
  remove k ((j, v) ∷ ps) = let rest = remove k ps in if str_eq j k then rest else (j, v) ∷ rest

  abbrev pub LacksKey : String → List (String × A) → Type 0
  LacksKey k ps = All (λ p. str_eq p.0 k ≡ false) ps

  abbrev pub HasDistinctKeys : List (String × A) → Type 0
  HasDistinctKeys [] = Unit
  HasDistinctKeys ((k, v) ∷ ps) = LacksKey k ps × HasDistinctKeys ps

  pub own-put :
      (j k : String) (v : A) (ps : List (String × A))
      → own j (put k v ps) ≡ (if str_eq k j then some v else own j ps)
  own-put j k v [] = refl
  own-put j k v ((i, w) ∷ ps) =
      ground (arith, str_eq_iff k j, str_eq_iff i k, str_eq_iff i j, own-put j k v ps)

  pub own-remove :
      (j k : String) (ps : List (String × A))
      → own j (remove k ps) ≡ (if str_eq k j then none else own j ps)
  own-remove j k [] = ground arith
  own-remove j k ((i, w) ∷ ps) =
      ground (arith, str_eq_iff k j, str_eq_iff i k, str_eq_iff i j, own-remove j k ps)

  put-LacksKey :
      (j k : String) (v : A) (ps : List (String × A))
      → str_eq k j ≡ false
      → LacksKey j ps
      → LacksKey j (put k v ps)
  put-LacksKey j k v [] n h = (n, tt)
  put-LacksKey j k v ((i, w) ∷ ps) n h = elim (Bool-cases (str_eq i k)) [
    | inl t ↦ rw t (h.0, h.1)
    | inr f ↦ rw f (h.0, put-LacksKey j k v ps n h.1)
  ]

  pub put-HasDistinctKeys :
      (k : String) (v : A) (ps : List (String × A))
      → HasDistinctKeys ps
      → HasDistinctKeys (put k v ps)
  put-HasDistinctKeys k v [] h = (tt, tt)
  put-HasDistinctKeys k v ((i, w) ∷ ps) h = elim (Bool-cases (str_eq i k)) [
    | inl t ↦ rw t (h.0, h.1)
    | inr f ↦ rw f (put-LacksKey i k v ps (str_ne_sym i k f) h.0, put-HasDistinctKeys k v ps h.1)
  ]

  pub remove-LacksKey :
      (j k : String) (ps : List (String × A)) → LacksKey j ps → LacksKey j (remove k ps)
  remove-LacksKey j k [] h = tt
  remove-LacksKey j k ((i, w) ∷ ps) h = elim (Bool-cases (str_eq i k)) [
    | inl t ↦ rw t (remove-LacksKey j k ps h.1)
    | inr f ↦ rw f (h.0, remove-LacksKey j k ps h.1)
  ]

  pub remove-HasDistinctKeys :
      (k : String) (ps : List (String × A)) → HasDistinctKeys ps → HasDistinctKeys (remove k ps)
  remove-HasDistinctKeys k [] h = tt
  remove-HasDistinctKeys k ((i, w) ∷ ps) h = elim (Bool-cases (str_eq i k)) [
    | inl t ↦ rw t (remove-HasDistinctKeys k ps h.1)
    | inr f ↦ rw f (remove-LacksKey i k ps h.0, remove-HasDistinctKeys k ps h.1)
  ]

  -- What is deleted is gone.
  pub remove-Lacks : (k : String) (ps : List (String × A)) → LacksKey k (remove k ps)
  remove-Lacks k [] = tt
  remove-Lacks k ((i, w) ∷ ps) = elim (Bool-cases (str_eq i k)) [
    | inl t ↦ rw t (remove-Lacks k ps)
    | inr f ↦ rw f (f, remove-Lacks k ps)
  ]

  pub remove-of_lacks : (k : String) (ps : List (String × A)) → LacksKey k ps → remove k ps ≡ ps
  remove-of_lacks k [] h = refl
  remove-of_lacks k ((i, w) ∷ ps) h = rw (h.0, remove-of_lacks k ps h.1)

  pub own-of_lacks : (k : String) (ps : List (String × A)) → LacksKey k ps → own k ps ≡ none
  own-of_lacks k [] h = refl
  own-of_lacks k ((i, w) ∷ ps) h = rw (h.0, own-of_lacks k ps h.1)

  pub All-put {κ} :
      (P : String × A → Type κ) (k : String) (v : A) (ps : List (String × A))
      → P (k, v)
      → All P ps
      → All P (put k v ps)
  All-put P k v [] here h = (here, tt)
  All-put P k v ((j, w) ∷ ps) here h = elim (Bool-cases (str_eq j k)) [
    | inl t ↦ rw t (subst (λ (x : String). P (x, v)) (sym ((str_eq_iff j k).0 t)) here, h.1)
    | inr f ↦ rw f (h.0, All-put P k v ps here h.1)
  ]

  pub All-own {κ} :
      (P : String × A → Type κ) (k : String) (ps : List (String × A)) {v : A}
      → own k ps ≡ some v
      → All P ps
      → P (k, v)
  All-own P k [] e h = absurd (ground arith)
  All-own P k ((j, w) ∷ ps) {v} e h = elim (Bool-cases (str_eq j k)) [
    | inl t ↦
        let same : w ≡ v = ground (arith, e, t) in
        subst (λ (x : String). P (x, v)) ((str_eq_iff j k).0 t)
          (subst (λ (x : A). P (j, x)) same h.0)
    | inr f ↦ All-own P k ps (rw f at e) h.1
  ]
