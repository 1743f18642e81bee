-- ===== src/Context/Truncate.antt =====
-- `truncate`: where its limit holds, and where it does not.
use falda.Prelude.{
  ℕ, ◌-◌, ◌≤◌, ◌<◌, true, false, ◌≡◌, refl, inl, inr, arith, ltb, leb, leb→le, Bool-cases, length,
  length-append, take, length-take,
}
use falda.Context.{Text, truncate, dots}

-- With a limit of three or more the result keeps to it, and a text that keeps to it is unchanged.
pub length-truncate :
    (s : Text) (limit : ℕ)
    → 3 ≤ limit
    → (length (truncate s limit) ≤ limit) × (length s ≤ limit → truncate s limit ≡ s)
unfolding truncate
length-truncate s limit h = elim (Bool-cases (leb (length s) limit)) [
  | inl t ↦ rw t (leb→le _ _ t, λ _. refl)
  | inr n ↦
      let m : ltb limit 3 ≡ false = ground arith in
      rw (n, m)
        (
          rw (length-append (take (limit - 3) s) dots) (omega (arith, length-take (limit - 3) s)),
          λ k. absurd (ground arith),
        )
]

-- Below three the suffix alone passes the limit: every text that is cut comes out too long.
pub truncate_overflow :
    (s : Text) (limit : ℕ) → limit < 3 → limit < length s → limit < length (truncate s limit)
unfolding truncate
truncate_overflow s limit h k =
    let n : leb (length s) limit ≡ false = ground arith in
    let m : ltb limit 3 ≡ true = ground arith in
    rw (n, m) (rw (length-append (take (length s - (3 - limit)) s) dots) (omega arith))
