-- ===== src/Distill/Watermark/Laws.antt =====
-- The rows of one store in the tables of `src/distill/watermark.ts` do not touch those of another.
use falda.Prelude.{
  ◌∙◌, ℕ, String, Bool, true, false, Option, none, some, List, [], ◌∷◌, ◌≡◌, refl, ap, arith, inl,
  inr, str_eq, str_eq_iff, select_one, delete_where, Bool-cases,
}
use falda.Distill.Watermark.{
  Watermark, StoreDirty, DistillState, has_key, select_one-upsert, select_one-upsert_ne,
  get_watermark, set_watermark, is_dirty, mark_dirty, clear_dirty,
}

-- The watermark that is set is read back, and those of other stores stay as they were.
pub set_watermark_lem :
    (now : ℕ) (store_key : String) (id : Option String) (ts seq : Option ℕ) (db : DistillState)
    → (get_watermark store_key (set_watermark now store_key id ts seq db)
        ≡ some (record {
          store_key = store_key;
          last_processed_id = id;
          last_processed_ts = ts;
          last_processed_seq = seq;
          updated_at = now;
        }))
      × ((key : String)
          → str_eq store_key key ≡ false
          → get_watermark key (set_watermark now store_key id ts seq db) ≡ get_watermark key db)
unfolding get_watermark set_watermark
set_watermark_lem now store_key id ts seq db = (
  select_one-upsert (λ (w : Watermark). w.store_key) _ db.watermarks,
  λ key n. select_one-upsert_ne (λ (w : Watermark). w.store_key) _ db.watermarks key n,
)

abbrev is_some {ℓ} : {A : Type ℓ} → Option A → Bool
is_some none = false
is_some (some a) = true

-- A store that is marked is dirty, and no other store becomes or ceases to be dirty by it.
pub mark_dirty_lem :
    (now : ℕ) (store_key reason : String) (db : DistillState)
    → (is_dirty store_key (mark_dirty now store_key reason db) ≡ true)
      × ((key : String)
          → str_eq store_key key ≡ false
          → is_dirty key (mark_dirty now store_key reason db) ≡ is_dirty key db)
unfolding is_dirty mark_dirty
mark_dirty_lem now store_key reason db = (
  ap is_some (select_one-upsert (λ (d : StoreDirty). d.store_key) _ db.dirty),
  λ key n. ap is_some (select_one-upsert_ne (λ (d : StoreDirty). d.store_key) _ db.dirty key n),
)

module _ {ℓ} {A : Type ℓ} (key_of : A → String) where
  pub select_one-delete_where :
      (key : String) (rows : List A)
      → select_one (has_key key_of key) (delete_where (has_key key_of key) rows) ≡ none
  select_one-delete_where key [] = refl
  select_one-delete_where key (r ∷ rs) = elim (Bool-cases (has_key key_of key r)) [
    | inl t ↦ rw t (select_one-delete_where key rs)
    | inr n ↦ rw (n, n) (select_one-delete_where key rs)
  ]

  select_one-delete_where_ne :
      (key other : String) (rows : List A)
      → str_eq key other ≡ false
      → select_one (has_key key_of other) (delete_where (has_key key_of key) rows)
        ≡ select_one (has_key key_of other) rows
  select_one-delete_where_ne key other [] n = refl
  select_one-delete_where_ne key other (r ∷ rs) n = elim (Bool-cases (has_key key_of key r)) [
    | inl t ↦
        let same = (str_eq_iff (key_of r) key).0 t in
        let m : has_key key_of other r ≡ false = rw same n in
        rw (t, m) (select_one-delete_where_ne key other rs n)
    | inr m ↦ ground (arith, m, select_one-delete_where_ne key other rs n)
  ]

-- A store that is cleared is not dirty, and no other store's flag changes.
pub clear_dirty_lem :
    (store_key : String) (db : DistillState)
    → (is_dirty store_key (clear_dirty store_key db) ≡ false)
      × ((key : String)
          → str_eq store_key key ≡ false
          → is_dirty key (clear_dirty store_key db) ≡ is_dirty key db)
unfolding is_dirty clear_dirty
clear_dirty_lem store_key db = (
  ap is_some (select_one-delete_where (λ (d : StoreDirty). d.store_key) store_key db.dirty),
  λ key n.
      ap is_some
        (select_one-delete_where_ne (λ (d : StoreDirty). d.store_key) store_key key db.dirty n),
)

-- A store that is marked is dirty until it is cleared, and neither the mark nor the clearing changes
-- the flag of another store.
pub is_dirty-mark-clear :
    (now : ℕ) (store_key reason : String) (db : DistillState)
    → let marked = mark_dirty now store_key reason db in
      (is_dirty store_key marked ≡ true)
      × (is_dirty store_key (clear_dirty store_key marked) ≡ false)
      × ((key : String)
          → str_eq store_key key ≡ false
          → (is_dirty key marked ≡ is_dirty key db)
            × (is_dirty key (clear_dirty store_key marked) ≡ is_dirty key db))
is_dirty-mark-clear now store_key reason db =
    let (on, others) = mark_dirty_lem now store_key reason db in
    let (off, rest) = clear_dirty_lem store_key (mark_dirty now store_key reason db) in
    (on, off, λ key n. (others key n, rest key n ∙ others key n))
