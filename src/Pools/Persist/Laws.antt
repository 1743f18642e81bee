-- ===== src/Pools/Persist/Laws.antt =====
-- What the registry of `src/pools.ts` accepts is well-formed, and what it writes it reads back.
use falda.Prelude.{
  String, Option, none, some, List, [], ◌∷◌, ◌≡◌, ◌≢◌, ◌∙◌, refl, subst, inl, inr, arith, str_eq,
  str_eq_iff, str_eq_refl, Bool-cases, Option-cases, LacksKey, HasDistinctKeys, remove-Lacks,
  remove-HasDistinctKeys, remove-of_lacks, All,
}
use falda.Distill.Decision.{Json, text, JsonFields, no_fields, field, lookup, property}
use falda.Pools.Persist.{
  Access, no_access, read, readwrite, access_name, access_of, PoolDecl, Registry, entries,
  access_in, read_all, fields_of, string_of, read_decl, validate_registry, fields_with,
  members_json, decl_json, registry_json,
}

-- Each key is there once and is its entry's name, and a roster names each tenant once.
pub record IsRegistry (reg : Registry) : Type 0 where
  pub keys : HasDistinctKeys reg
  pub named : All (λ p. p.1.name ≡ p.0) reg
  pub rosters : All (λ p. HasDistinctKeys p.1.members) reg

entries-HasDistinctKeys : (fs : JsonFields) → HasDistinctKeys (entries fs)
unfolding entries
entries-HasDistinctKeys no_fields = tt
entries-HasDistinctKeys (field k v fs) = (
  remove-Lacks k (entries fs),
  remove-HasDistinctKeys k (entries fs) (entries-HasDistinctKeys fs),
)

module _ {A : Type 0} (read_one : String → Json → Option A) where
  read_all-cons :
      (k : String) (j : Json) (rest : List (String × Json)) (k' : String) (a : A)
      (as_read : List (String × A))
      → read_all read_one ((k, j) ∷ rest) ≡ some ((k', a) ∷ as_read)
      → (k ≡ k') × (read_one k' j ≡ some a) × (read_all read_one rest ≡ some as_read)
  unfolding read_all
  read_all-cons k j rest k' a as_read e = elim (Option-cases (read_one k j)) [
    | inl n ↦ ground (arith, e, n)
    | inr (b, s) ↦ elim (Option-cases (read_all read_one rest)) [
      | inl n ↦ ground (arith, e, s, n)
      | inr (more, m) ↦ ground (arith, e, s, m)
    ]
  ]

  read_all-ne-nil :
      (k : String) (j : Json) (rest : List (String × Json))
      → read_all read_one ((k, j) ∷ rest) ≢ some []
  unfolding read_all
  read_all-ne-nil k j rest e = elim (Option-cases (read_one k j)) [
    | inl n ↦ ground (arith, e, n)
    | inr (b, s) ↦ elim (Option-cases (read_all read_one rest)) [
      | inl n ↦ ground (arith, e, s, n)
      | inr (more, m) ↦ ground (arith, e, s, m)
    ]
  ]

  read_all-LacksKey :
      (k : String) (ps : List (String × Json)) (as_read : List (String × A))
      → read_all read_one ps ≡ some as_read
      → LacksKey k ps
      → LacksKey k as_read
  unfolding read_all
  read_all-LacksKey k [] [] e h = tt
  read_all-LacksKey k [] (x ∷ xs) e h = absurd (ground arith)
  read_all-LacksKey k ((t, j) ∷ rest) [] e h = absurd (read_all-ne-nil t j rest e)
  read_all-LacksKey k ((t, j) ∷ rest) ((u, a) ∷ xs) e h =
      let (same, _, more) = read_all-cons t j rest u a xs e in
      (rw (← same) h.0, read_all-LacksKey k rest xs more h.1)

  read_all-HasDistinctKeys :
      (ps : List (String × Json)) (as_read : List (String × A))
      → read_all read_one ps ≡ some as_read
      → HasDistinctKeys ps
      → HasDistinctKeys as_read
  unfolding read_all
  read_all-HasDistinctKeys [] [] e h = tt
  read_all-HasDistinctKeys [] (x ∷ xs) e h = absurd (ground arith)
  read_all-HasDistinctKeys ((t, j) ∷ rest) [] e h = absurd (read_all-ne-nil t j rest e)
  read_all-HasDistinctKeys ((t, j) ∷ rest) ((u, a) ∷ xs) e h =
      let (same, _, more) = read_all-cons t j rest u a xs e in
      (
        rw (← same) (read_all-LacksKey t rest xs more h.0),
        read_all-HasDistinctKeys rest xs more h.1,
      )

  -- What holds of each entry that is read holds of all.
  read_all-All :
      (P : String × A → Type 0)
      → ((k : String) (j : Json) (a : A) → read_one k j ≡ some a → P (k, a))
      → (ps : List (String × Json)) (as_read : List (String × A))
      → read_all read_one ps ≡ some as_read
      → All P as_read
  unfolding read_all
  read_all-All P each [] [] e = tt
  read_all-All P each [] (x ∷ xs) e = absurd (ground arith)
  read_all-All P each ((t, j) ∷ rest) [] e = absurd (read_all-ne-nil t j rest e)
  read_all-All P each ((t, j) ∷ rest) ((u, a) ∷ xs) e =
      let (_, one, more) = read_all-cons t j rest u a xs e in
      (each u j a one, read_all-All P each rest xs more)

-- The stages of `read_decl`, of an entry that is read.
read_decl-Reads :
    (key : String) (j : Json) (d : PoolDecl)
    → read_decl key j ≡ some d
    → (d.name ≡ key) × HasDistinctKeys d.members
unfolding read_decl
read_decl-Reads key j d e = elim (Option-cases (string_of (property "name" j))) [
  | inl n ↦ ground (arith, e, n)
  | inr (name, hn) ↦ elim (Bool-cases (str_eq name key)) [
    | inr f ↦ ground (arith, e, hn, f)
    | inl t ↦ elim (Option-cases (fields_of (property "members" j))) [
      | inl n ↦ ground (arith, e, hn, t, n)
      | inr (fs, hf) ↦ elim (Option-cases (read_all (λ _ a. access_in a) (entries fs))) [
        | inl n ↦ ground (arith, e, hn, t, hf, n)
        | inr (ms, hm) ↦ elim (Option-cases (string_of (property "created_at" j))) [
          | inl n ↦ ground (arith, e, hn, t, hf, hm, n)
          | inr (c, hc) ↦ elim (Option-cases (string_of (property "updated_at" j))) [
            | inl n ↦ ground (arith, e, hn, t, hf, hm, hc, n)
            | inr (u, hu) ↦
                let name_is : d.name ≡ name = ground (arith, e, hn, t, hf, hm, hc, hu) in
                let members_are : ms ≡ d.members = ground (arith, e, hn, t, hf, hm, hc, hu) in
                (
                  name_is ∙ (str_eq_iff name key).0 t,
                  subst (λ (x : List (String × Access)). HasDistinctKeys x) members_are
                      (read_all-HasDistinctKeys (λ _ a. access_in a) (entries fs) ms hm
                        (entries-HasDistinctKeys fs)),
                )
          ]
        ]
      ]
    ]
  ]
]

pub validate_registry-IsRegistry :
    (raw : Json) (reg : Registry) → validate_registry raw ≡ some reg → IsRegistry reg
unfolding validate_registry
validate_registry-IsRegistry raw reg e = elim (Option-cases (fields_of (property "pools" raw))) [
  | inl n ↦ ground (arith, e, n)
  | inr (fs, hf) ↦
      let r : read_all read_decl (entries fs) ≡ some reg = ground (arith, e, hf) in
      record {
        keys = read_all-HasDistinctKeys read_decl (entries fs) reg r (entries-HasDistinctKeys fs);
        named =
            read_all-All read_decl (λ p. p.1.name ≡ p.0) (λ k j d h. (read_decl-Reads k j d h).0)
              (entries fs) reg r;
        rosters =
            read_all-All read_decl (λ p. HasDistinctKeys p.1.members)
              (λ k j d h. (read_decl-Reads k j d h).1) (entries fs) reg r;
      }
]

abbrev with_values : {A : Type 0} → (A → Json) → List (String × A) → List (String × Json)
with_values f [] = []
with_values f ((k, v) ∷ ps) = (k, f v) ∷ with_values f ps

module _ {A : Type 0} (f : A → Json) where
  lookup-fields_with :
      (k : String) (ps : List (String × A)) → LacksKey k ps → lookup k (fields_with f ps) ≡ none
  unfolding lookup fields_with
  lookup-fields_with k [] h = refl
  lookup-fields_with k ((j, v) ∷ ps) h = rw (lookup-fields_with k ps h.1, h.0)

  with_values-LacksKey :
      (k : String) (ps : List (String × A)) → LacksKey k ps → LacksKey k (with_values f ps)
  with_values-LacksKey k [] h = tt
  with_values-LacksKey k ((j, v) ∷ ps) h = (h.0, with_values-LacksKey k ps h.1)

  entries-fields_with :
      (ps : List (String × A)) → HasDistinctKeys ps → entries (fields_with f ps) ≡ with_values f ps
  unfolding entries fields_with
  entries-fields_with [] h = refl
  entries-fields_with ((k, v) ∷ ps) h = simp (
    lookup-fields_with k ps h.0,
    entries-fields_with ps h.1,
    remove-of_lacks k (with_values f ps) (with_values-LacksKey k ps h.0),
  )

  read_all-with_values :
      (read_one : String → Json → Option A) (ps : List (String × A))
      → All (λ p. read_one p.0 (f p.1) ≡ some p.1) ps
      → read_all read_one (with_values f ps) ≡ some ps
  unfolding read_all
  read_all-with_values read_one [] h = refl
  read_all-with_values read_one ((k, v) ∷ ps) h = rw (h.0, read_all-with_values read_one ps h.1)

access_in-access_name : (a : Access) → access_in (text (access_name a)) ≡ some a
unfolding access_in access_name access_of
access_in-access_name no_access = refl
access_in-access_name read = refl
access_in-access_name readwrite = refl

all_access :
    (ms : List (String × Access)) → All (λ p. access_in (text (access_name p.1)) ≡ some p.1) ms
all_access [] = tt
all_access ((t, a) ∷ ms) = (access_in-access_name a, all_access ms)

read_members-members_json :
    (ms : List (String × Access))
    → HasDistinctKeys ms
    → read_all (λ _ a. access_in a) (entries (members_json ms)) ≡ some ms
unfolding members_json
read_members-members_json ms h =
    rw (entries-fields_with (λ a. text (access_name a)) ms h)
      (read_all-with_values (λ a. text (access_name a)) (λ _ a. access_in a) ms (all_access ms))

read_decl-fields :
    (key : String) (description : Option Json) (ms : List (String × Access))
    (created updated : String)
    → HasDistinctKeys ms
    → read_decl key (
        decl_json (record {
          name = key;
          description = description;
          members = ms;
          created_at = created;
          updated_at = updated;
        }))
      ≡ some (record {
        name = key;
        description = description;
        members = ms;
        created_at = created;
        updated_at = updated;
      })
unfolding read_decl decl_json property lookup string_of fields_of
read_decl-fields key none ms created updated h =
    ground (arith, str_eq_refl key, read_members-members_json ms h)
read_decl-fields key (some j) ms created updated h =
    ground (arith, str_eq_refl key, read_members-members_json ms h)

-- Writing a well-formed registry and reading it back gives the same registry.
pub validate_registry-registry_json :
    (reg : Registry) → IsRegistry reg → validate_registry (registry_json reg) ≡ some reg
unfolding validate_registry registry_json property lookup fields_of
validate_registry-registry_json reg h =
    rw (entries-fields_with decl_json reg h.keys)
      (read_all-with_values decl_json read_decl reg (each reg h.named h.rosters))
  where
    each :
        (ps : Registry)
        → All (λ p. p.1.name ≡ p.0) ps
        → All (λ p. HasDistinctKeys p.1.members) ps
        → All (λ p. read_decl p.0 (decl_json p.1) ≡ some p.1) ps
    each [] n r = tt
    each ((k, d) ∷ ps) n r = (
      subst (λ (x : String). read_decl x (decl_json d) ≡ some d) n.0
          (read_decl-fields d.name d.description d.members d.created_at d.updated_at r.0),
      each ps n.1 r.1,
    )
