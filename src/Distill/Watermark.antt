-- ===== src/Distill/Watermark.antt =====
-- `src/distill/watermark.ts`: three tables with one row for a store, the watermark, the state of the
-- core text and the dirty flag. An ISO timestamp is its number of milliseconds.
pub mod Laws
use Prim.Native.String.{◌++◌}
use falda.Prelude.{
  ℕ, String, Bool, true, false, Option, none, some, List, [], ◌∷◌, ◌≡◌, refl, arith, inl, inr,
  if◌then◌else◌, str_eq, str_eq_iff, str_eq_refl, str_ne_sym, select_one, delete_where, Bool-cases,
  Option-cases, decimal, All, delete_where-All, ◌≢◌,
}

-- INSERT ... ON CONFLICT(key) DO UPDATE of all other columns.
module _ {ℓ} {A : Type ℓ} (key_of : A → String) where
  abbrev pub has_key : String → A → Bool
  has_key key row = str_eq (key_of row) key

  unfoldable pub upsert : A → List A → List A
  upsert row [] = row ∷ []
  upsert row (r ∷ rs) =
      let rest = upsert row rs in if has_key (key_of row) r then row ∷ rs else r ∷ rest

  pub select_one-upsert :
      (row : A) (rows : List A) → select_one (has_key (key_of row)) (upsert row rows) ≡ some row
  unfolding upsert
  select_one-upsert row [] = rw (str_eq_refl (key_of row))
  select_one-upsert row (r ∷ rs) = elim (Bool-cases (has_key (key_of row) r)) [
    | inl t ↦ rw (t, str_eq_refl (key_of row))
    | inr n ↦ rw (n, n) (select_one-upsert row rs)
  ]

  pub select_one-upsert_ne :
      (row : A) (rows : List A) (key : String)
      → str_eq (key_of row) key ≡ false
      → select_one (has_key key) (upsert row rows) ≡ select_one (has_key key) rows
  unfolding upsert
  select_one-upsert_ne row [] key h = rw h
  select_one-upsert_ne row (r ∷ rs) key h = elim (Bool-cases (has_key (key_of row) r)) [
    | inl t ↦
        let same = (str_eq_iff (key_of r) (key_of row)).0 t in
        let other : has_key key r ≡ false = rw same h in rw (t, h, other)
    | inr n ↦ ground (arith, n, select_one-upsert_ne row rs key h)
  ]

pub record Watermark : Type 0 where
  pub store_key : String
  pub last_processed_id : Option String
  pub last_processed_ts : Option ℕ
  pub last_processed_seq : Option ℕ
  pub updated_at : ℕ

pub record CoreState : Type 0 where
  pub store_key : String
  pub input_hash : String
  pub generated_at : ℕ

pub record StoreDirty : Type 0 where
  pub store_key : String
  pub reason : String
  pub marked_at : ℕ

-- The tables distill_watermark, core_state and store_dirty.
pub record DistillState : Type 0 where
  pub watermarks : List Watermark
  pub core_states : List CoreState
  pub dirty : List StoreDirty

unfoldable pub get_watermark : String → DistillState → Option Watermark
get_watermark store_key db =
    select_one (has_key (λ (w : Watermark). w.store_key) store_key) db.watermarks

unfoldable pub set_watermark :
    ℕ → String → Option String → Option ℕ → Option ℕ → DistillState → DistillState
set_watermark now store_key id ts seq db =
    let row : Watermark = record {
      store_key = store_key;
      last_processed_id = id;
      last_processed_ts = ts;
      last_processed_seq = seq;
      updated_at = now;
    } in
    record db { watermarks = upsert (λ (w : Watermark). w.store_key) row db.watermarks }

unfoldable pub get_core_state : String → DistillState → Option CoreState
get_core_state store_key db =
    select_one (has_key (λ (c : CoreState). c.store_key) store_key) db.core_states

unfoldable pub set_core_state : ℕ → String → String → DistillState → DistillState
set_core_state now store_key input_hash db =
    let row : CoreState = record {
      store_key = store_key;
      input_hash = input_hash;
      generated_at = now;
    } in
    record db { core_states = upsert (λ (c : CoreState). c.store_key) row db.core_states }

unfoldable pub clear_core_state : String → DistillState → DistillState
clear_core_state store_key db = record db {
  core_states = delete_where (has_key (λ (c : CoreState). c.store_key) store_key) db.core_states;
}

unfoldable pub mark_dirty : ℕ → String → String → DistillState → DistillState
mark_dirty now store_key reason db =
    let row : StoreDirty = record { store_key = store_key; reason = reason; marked_at = now } in
    record db { dirty = upsert (λ (d : StoreDirty). d.store_key) row db.dirty }

unfoldable pub is_dirty : String → DistillState → Bool
is_dirty store_key db =
    elim (select_one (has_key (λ (d : StoreDirty). d.store_key) store_key) db.dirty) [
      | none ↦ false
      | some d ↦ true
    ]

unfoldable pub clear_dirty : String → DistillState → DistillState
clear_dirty store_key db = record db {
  dirty = delete_where (has_key (λ (d : StoreDirty). d.store_key) store_key) db.dirty;
}

-- `passId`: the digest of the window, `hash` being the first 16 hexadecimal digits of SHA-256. The end
-- is a sequence number or the word `empty`.
unfoldable pub pass_id : (String → String) → String → Option ℕ → Option ℕ → String
pass_id hash store_key seq_start seq_end =
    "pass-"
    ++ hash (
        store_key
        ++ ("|"
            ++ (elim seq_start [ none ↦ "" | some n ↦ decimal n ]
                ++ ("|" ++ elim seq_end [ none ↦ "empty" | some n ↦ decimal n ]))))
