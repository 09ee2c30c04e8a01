-- ===== src/Passive/Labels/Rounding.antt =====
-- What the rounding of floats can do to a decomposition of `attach_markouts`
-- (pyresearch/passive/labeling.py): three marks and two differences of them are rounded.
use crypto_microstructure_ma.Prelude.{ℕ, ◌+◌, ◌*◌, ◌≤◌, ◌≡◌, arith}
use crypto_microstructure_ma.Prelude.Int.{
  ℤ, pos, negsuc, sub_ℕ, ◌-ℤ◌, pos_part, neg_part, abs, sub_ℕ_parts, int_laws,
}
use crypto_microstructure_ma.Passive.Replay.{QuoteSide, bid, ask}
use crypto_microstructure_ma.Passive.Labels.{Floats, signed}

-- Two integers are apart by an error at most.
abbrev pub IsNear : ℕ → ℤ → ℤ → Type 0
IsNear error x y =
    (pos_part x + neg_part y ≤ pos_part y + neg_part x + error)
    × (pos_part y + neg_part x ≤ pos_part x + neg_part y + error)

-- Floats are accurate to an error: for prices up to a limit, and for marks as large as the
-- differences of such prices make them.
pub record IsAccurate (floats : Floats) (limit error : ℕ) : Type 0 where
  pub tick_difference_near :
      (a b : ℕ) → a ≤ limit → b ≤ limit → IsNear error (floats.tick_difference a b) (sub_ℕ a b)
  pub minus_near :
      (x y : ℤ)
      → abs x ≤ 2 * limit + 3 * error
      → abs y ≤ 2 * limit + 3 * error
      → IsNear error (floats.minus x y) (x -ℤ y)

abs-le : (m : ℕ) (z : ℤ) → pos_part z ≤ neg_part z + m → neg_part z ≤ pos_part z + m → abs z ≤ m
abs-le m (pos n) p q = omega arith
abs-le m (negsuc n) p q = omega arith

signed-IsNear :
    (error : ℕ) (side : QuoteSide) (x y : ℤ)
    → IsNear error x y
    → IsNear error (signed side x) (signed side y)
signed-IsNear error bid x y h = h
signed-IsNear error ask x y h =
    omega (arith, h, sub_ℕ_parts (neg_part x) (pos_part x), sub_ℕ_parts (neg_part y) (pos_part y))

-- A mark before rounding.
abbrev exact : QuoteSide → ℕ → ℕ → ℤ
exact side a b = signed side (sub_ℕ a b)

exact-ask_parts : (a b : ℕ) → pos_part (exact ask a b) + a ≡ neg_part (exact ask a b) + b
exact-ask_parts a b =
    let z = sub_ℕ a b in omega (arith, sub_ℕ_parts (neg_part z) (pos_part z), sub_ℕ_parts a b)

exact_adds_up :
    (side : QuoteSide) (a b c : ℕ)
    → pos_part (exact side a c) + neg_part (exact side b c) + neg_part (exact side a b)
      ≡ neg_part (exact side a c) + pos_part (exact side b c) + pos_part (exact side a b)
exact_adds_up bid a b c = omega (arith, sub_ℕ_parts a c, sub_ℕ_parts b c, sub_ℕ_parts a b)
exact_adds_up ask a b c =
    omega (arith, exact-ask_parts a c, exact-ask_parts b c, exact-ask_parts a b)

exact-le :
    (side : QuoteSide) (limit a b : ℕ)
    → a ≤ limit
    → b ≤ limit
    → (pos_part (exact side a b) ≤ neg_part (exact side a b) + limit)
      × (neg_part (exact side a b) ≤ pos_part (exact side a b) + limit)
exact-le bid limit a b p q = omega (arith, sub_ℕ_parts a b, p, q)
exact-le ask limit a b p q = omega (arith, exact-ask_parts a b, p, q)

-- The mark of two prices, as floats compute it.
abbrev pub marked : Floats → QuoteSide → ℕ → ℕ → ℤ
marked floats side a b = signed side (floats.tick_difference a b)

module _ (floats : Floats) (limit error : ℕ) (accurate : IsAccurate floats limit error) where
  marked-IsNear :
      (side : QuoteSide) (a b : ℕ)
      → a ≤ limit
      → b ≤ limit
      → IsNear error (marked floats side a b) (exact side a b)
  marked-IsNear side a b p q = signed-IsNear error side _ _ (accurate.tick_difference_near a b p q)

  marked-abs :
      (side : QuoteSide) (a b : ℕ)
      → a ≤ limit
      → b ≤ limit
      → abs (marked floats side a b) ≤ limit + error
  marked-abs side a b p q =
      abs-le (limit + error) (marked floats side a b)
        (omega (arith, marked-IsNear side a b p q, exact-le side limit a b p q))
        (omega (arith, marked-IsNear side a b p q, exact-le side limit a b p q))

  -- Five roundings leave a rest of five errors at most.
  pub rest-abs :
      (side : QuoteSide) (a b c : ℕ)
      → a ≤ limit
      → b ≤ limit
      → c ≤ limit
      → abs (
          floats.minus
            (floats.minus (marked floats side a c) (marked floats side b c))
            (marked floats side a b))
        ≤ 5 * error
  rest-abs side a b c p q r =
      let maker = marked floats side a c in
      let advantage = marked floats side b c in
      let move = marked floats side a b in
      let first =
        accurate.minus_near maker advantage (omega (arith, marked-abs side a c p r))
          (omega (arith, marked-abs side b c q r)) in
      let bound : abs (floats.minus maker advantage) ≤ 2 * limit + 3 * error =
        abs-le (2 * limit + 3 * error) (floats.minus maker advantage)
          (omega (int_laws, first, marked-abs side a c p r, marked-abs side b c q r))
          (omega (int_laws, first, marked-abs side a c p r, marked-abs side b c q r)) in
      let second =
        accurate.minus_near (floats.minus maker advantage) move bound
          (omega (arith, marked-abs side a b p q)) in
      abs-le (5 * error) (floats.minus (floats.minus maker advantage) move)
        (omega (
          int_laws,
          first,
          second,
          marked-IsNear side a c p r,
          marked-IsNear side b c q r,
          marked-IsNear side a b p q,
          exact_adds_up side a b c,
        ))
        (omega (
          int_laws,
          first,
          second,
          marked-IsNear side a c p r,
          marked-IsNear side b c q r,
          marked-IsNear side a b p q,
          exact_adds_up side a b c,
        ))
