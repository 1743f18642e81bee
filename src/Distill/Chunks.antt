-- ===== src/Distill/Chunks.antt =====
-- `packConsolidationChunks` of `src/distill/core.ts`: the candidates of a pass in batches.
use falda.Prelude.{
  ℕ, zero, suc, ◌≤◌, Bool, true, ◌&&◌, List, [], ◌∷◌, ◌++◌, ◌≡◌, refl, sym, ap, ◌∙◌, ◌⊎◌, inl, inr,
  arith, ltb, leb, if◌then◌else◌, length, take, drop, length-take, length-drop, take-append-drop,
  All, Bool-cases, subst,
}

-- The chunks, and the prompt sizes that `warn` is called with.
pub record Packed {ℓ} (A : Type ℓ) : Type ℓ where
  pub chunks : List (List A)
  pub warnings : List ℕ

module _ {ℓ} {A : Type ℓ} where
  -- `for (start = 0; start < items.length; start += batchSize)`; the fuel is the number of items.
  unfoldable pub stride : ℕ → ℕ → List A → List (List A)
  stride zero batch_size items = []
  stride (suc n) batch_size [] = []
  stride (suc n) batch_size (x ∷ xs) =
      take batch_size (x ∷ xs) ∷ stride n batch_size (drop batch_size (x ∷ xs))

  abbrev pub concat : List (List A) → List A
  concat [] = []
  concat (c ∷ cs) = c ++ concat cs

module _ {ℓ} {A : Type ℓ} (batch_size max_chars : ℕ) (prompt_size : List A → ℕ) where
  -- `startNewChunk` warns of an item that is too large alone.
  unfoldable pub warn_alone : A → Packed A → Packed A
  warn_alone x rest =
      if ltb max_chars (prompt_size (x ∷ []))
      then record rest { warnings = prompt_size (x ∷ []) ∷ rest.warnings }
      else rest

  unfoldable pub push : List A → Packed A → Packed A
  push current rest = record rest { chunks = current ∷ rest.chunks }

  abbrev fits : List A → Bool
  fits tentative = leb (length tentative) batch_size && leb (prompt_size tentative) max_chars

  -- The loop over the items, with the chunk that is being filled.
  unfoldable pub fill : List A → List A → Packed A
  unfolding push warn_alone
  fill current [] = elim current [
    | [] ↦ record { chunks = []; warnings = [] }
    | c ∷ cs ↦ record { chunks = (c ∷ cs) ∷ []; warnings = [] }
  ]
  fill current (x ∷ xs) =
      let alone = warn_alone x (fill (x ∷ []) xs) in
      let together = fill (current ++ x ∷ []) xs in
      elim current [
        | [] ↦ alone
        | c ∷ cs ↦ if fits ((c ∷ cs) ++ x ∷ []) then together else push (c ∷ cs) alone
      ]

  -- A limit of zero, or below, turns the size check off.
  unfoldable pub pack_consolidation_chunks : List A → Packed A
  unfolding fill stride
  pack_consolidation_chunks items = elim max_chars [
    | zero ↦ record { chunks = stride (length items) batch_size items; warnings = [] }
    | suc m ↦ fill [] items
  ]

  -- A chunk has an item, no more than the batch size, and keeps to the size limit unless there is
  -- none or it is one item alone.
  pub record IsChunk (chunk : List A) : Type 0 where
    pub filled : 1 ≤ length chunk
    pub bounded : length chunk ≤ batch_size
    pub sized : (max_chars ≡ 0) ⊎ ((length chunk ≡ 1) ⊎ (prompt_size chunk ≤ max_chars))

  concat-stride :
      (n : ℕ) (items : List A)
      → 1 ≤ batch_size
      → length items ≤ n
      → concat (stride n batch_size items) ≡ items
  unfolding stride
  concat-stride zero [] b h = refl
  concat-stride zero (x ∷ xs) b h = ground (arith, h)
  concat-stride (suc n) [] b h = refl
  concat-stride (suc n) (x ∷ xs) b h =
      let shorter : length (drop batch_size (x ∷ xs)) ≤ n =
        omega (arith, b, h, length-drop batch_size (x ∷ xs)) in
      rw (concat-stride n (drop batch_size (x ∷ xs)) b shorter)
        (take-append-drop batch_size (x ∷ xs))

  stride-IsChunk :
      (n : ℕ) (items : List A)
      → 1 ≤ batch_size
      → max_chars ≡ 0
      → All IsChunk (stride n batch_size items)
  unfolding stride
  stride-IsChunk zero items b off = tt
  stride-IsChunk (suc n) [] b off = tt
  stride-IsChunk (suc n) (x ∷ xs) b off = (
    record {
      filled = omega (arith, b, length-take batch_size (x ∷ xs));
      bounded = omega (arith, length-take batch_size (x ∷ xs));
      sized = inl off;
    },
    stride-IsChunk n (drop batch_size (x ∷ xs)) b off,
  )

  warn_alone_chunks : (x : A) (rest : Packed A) → (warn_alone x rest).chunks ≡ rest.chunks
  unfolding warn_alone
  warn_alone_chunks x rest = elim (Bool-cases (ltb max_chars (prompt_size (x ∷ [])))) [
    | inl t ↦ ground (arith, t)
    | inr n ↦ ground (arith, n)
  ]

  alone-IsChunk : (x : A) → 1 ≤ batch_size → IsChunk (x ∷ [])
  alone-IsChunk x b = record { filled = omega arith; bounded = b; sized = inr (inl refl) }

  fits-IsChunk : (c : A) (cs : List A) → fits (c ∷ cs) ≡ true → IsChunk (c ∷ cs)
  fits-IsChunk c cs h = record {
    filled = omega arith;
    bounded = ground (arith, h);
    sized = inr (inr (ground (arith, h)));
  }

  append_assoc : (xs ys zs : List A) → (xs ++ ys) ++ zs ≡ xs ++ (ys ++ zs)
  append_assoc [] ys zs = refl
  append_assoc (x ∷ xs) ys zs = rw (append_assoc xs ys zs)

  -- The chunk that is filled, followed by the items that are left.
  filled_up :
      (c : A) (cs xs : List A)
      → 1 ≤ batch_size
      → IsChunk (c ∷ cs)
      → (concat (fill (c ∷ cs) xs).chunks ≡ (c ∷ cs) ++ xs) × All IsChunk (fill (c ∷ cs) xs).chunks
  unfolding fill push
  filled_up c cs [] b h = (refl, (h, tt))
  filled_up c cs (x ∷ xs) b h = elim (Bool-cases (fits ((c ∷ cs) ++ x ∷ []))) [
    | inl t ↦
        let (e, k) = filled_up c (cs ++ x ∷ []) xs b (fits-IsChunk c (cs ++ x ∷ []) t) in
        rw t (e ∙ append_assoc (c ∷ cs) (x ∷ []) xs, k)
    | inr n ↦
        let (e, k) = filled_up x [] xs b (alone-IsChunk x b) in
        let same = warn_alone_chunks x (fill (x ∷ []) xs) in
        rw n (
          ap (λ (ys : List (List A)). (c ∷ cs) ++ concat ys) same
              ∙ ap (λ (ys : List A). (c ∷ cs) ++ ys) e,
          (h, subst (All IsChunk) (sym same) k),
        )
  ]

  filled_from_start :
      (xs : List A)
      → 1 ≤ batch_size
      → (concat (fill [] xs).chunks ≡ xs) × All IsChunk (fill [] xs).chunks
  unfolding fill
  filled_from_start [] b = (refl, tt)
  filled_from_start (x ∷ xs) b =
      let (e, k) = filled_up x [] xs b (alone-IsChunk x b) in
      let same = warn_alone_chunks x (fill (x ∷ []) xs) in
      (ap concat same ∙ e, subst (All IsChunk) (sym same) k)

-- The chunks, one behind the other, are the items: none is lost, doubled or moved. Each has at least
-- one item and at most the batch size, and its prompt keeps to the size limit, if there is one,
-- unless the chunk is a single item.
pub pack_consolidation_chunks_lem {ℓ} :
    {A : Type ℓ} (batch_size max_chars : ℕ) (prompt_size : List A → ℕ) (items : List A)
    → 1 ≤ batch_size
    → (concat (pack_consolidation_chunks batch_size max_chars prompt_size items).chunks ≡ items)
      × All
          (IsChunk batch_size max_chars prompt_size)
          (pack_consolidation_chunks batch_size max_chars prompt_size items).chunks
unfolding pack_consolidation_chunks
pack_consolidation_chunks_lem batch_size zero size items b = (
  concat-stride batch_size zero size (length items) items b (omega arith),
  stride-IsChunk batch_size zero size (length items) items b refl,
)
pack_consolidation_chunks_lem batch_size (suc m) size items b =
    filled_from_start batch_size (suc m) size items b
