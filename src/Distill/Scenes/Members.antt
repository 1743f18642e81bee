-- ===== src/Distill/Scenes/Members.antt =====
-- The members of the clusters of `src/distill/core.ts`, counted.
use falda.Prelude.{
  ℕ, ◌+◌, String, true, false, none, some, List, [], ◌∷◌, ◌++◌, ◌≡◌, ◌≢◌, refl, inl, inr, arith,
  if◌then◌else◌, str_eq, str_eq_iff, Bool-cases, count_where, count_where-append, put, own,
  LacksKey,
}
use falda.Distill.Scenes.Topics.{Clusters, push_member}

abbrev pub all_members : Clusters → List String
all_members [] = []
all_members ((c, members) ∷ cs) = members ++ all_members cs

abbrev pub times : String → List String → ℕ
times x ids = count_where (λ y. str_eq y x) ids

abbrev pub one_if : String → String → ℕ
one_if id x = if str_eq id x then 1 else 0

pub push_member-times :
    (x id c : String) (cs : Clusters)
    → own c cs ≢ none
    → times x (all_members (push_member id c cs)) ≡ times x (all_members cs) + one_if id x
unfolding push_member
push_member-times x id c [] h = absurd (h refl)
push_member-times x id c ((k, members) ∷ cs) h = elim (Bool-cases (str_eq k c)) [
  | inl t ↦ rw t (
      omega (
        arith,
        count_where-append (λ y. str_eq y x) (members ++ id ∷ []) (all_members cs),
        count_where-append (λ y. str_eq y x) members (id ∷ []),
        count_where-append (λ y. str_eq y x) members (all_members cs),
      ))
  | inr n ↦ rw n (
      omega (
        arith,
        push_member-times x id c cs (rw n at h),
        count_where-append (λ y. str_eq y x) members (all_members (push_member id c cs)),
        count_where-append (λ y. str_eq y x) members (all_members cs),
      ))
]

pub put-times :
    (x id : String) (cs : Clusters)
    → LacksKey id cs
    → times x (all_members (put id (id ∷ []) cs)) ≡ times x (all_members cs) + one_if id x
put-times x id [] h = omega arith
put-times x id ((k, members) ∷ cs) h = rw h.0 (
    omega (
      arith,
      put-times x id cs h.1,
      count_where-append (λ y. str_eq y x) members (all_members (put id (id ∷ []) cs)),
      count_where-append (λ y. str_eq y x) members (all_members cs),
    ))

pub push_member-LacksKey :
    (k id c : String) (cs : Clusters) → LacksKey k cs → LacksKey k (push_member id c cs)
unfolding push_member
push_member-LacksKey k id c [] h = tt
push_member-LacksKey k id c ((j, members) ∷ cs) h = elim (Bool-cases (str_eq j c)) [
  | inl t ↦ rw t (h.0, h.1)
  | inr n ↦ rw n (h.0, push_member-LacksKey k id c cs h.1)
]

pub put-lacking :
    (k id : String) (v : List String) (cs : Clusters)
    → str_eq id k ≡ false
    → LacksKey k cs
    → LacksKey k (put id v cs)
put-lacking k id v [] n h = (n, tt)
put-lacking k id v ((j, members) ∷ cs) n h = elim (Bool-cases (str_eq j id)) [
  | inl t ↦ rw t (h.0, h.1)
  | inr f ↦ rw f (h.0, put-lacking k id v cs n h.1)
]

pub own-head : (k c : String) (v : List String) (cs : Clusters) → k ≡ c → own c ((k, v) ∷ cs) ≢ none
own-head k c v cs e h =
    let t : str_eq k c ≡ true = (str_eq_iff k c).1 e in let x : some v ≡ none = rw t at h in cc

pub own-tail :
    (k c : String) (v : List String) (cs : Clusters) → own c cs ≢ none → own c ((k, v) ∷ cs) ≢ none
own-tail k c v cs n h = elim (Bool-cases (str_eq k c)) [
  | inl t ↦ let x : some v ≡ none = rw t at h in cc
  | inr f ↦ n (rw f at h)
]
