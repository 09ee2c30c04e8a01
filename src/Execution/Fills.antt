-- ===== src/Execution/Fills.antt =====
-- What a walk of the visible book pays: the best lots, one by one.
use crypto_microstructure_ma.Prelude.{
  ℕ, zero, suc, ◌+◌, ◌-◌, ◌*◌, ◌≤◌, ◌<◌, ◌≡◌, refl, ap, ◌∙◌, subst, min, false, ◌||◌, inl, inr,
  Option, none, some, List, [], ◌∷◌, arith, Bool-cases, ltb, ◌==◌, take,
}
use crypto_microstructure_ma.Execution.Walk.{
  OrderSide, buy, sell, other_order, Level, FillResult, ok, Checked, is_ascending, is_descending,
  is_order_side, total_quantity, Taken, take_levels, fill_from, walk_levels, walk_ordered,
  walk_visible_book, finite_levels,
}

-- A level's price once for each of its lots.
abbrev lots : ℕ → ℕ → List ℕ → List ℕ
lots zero p us = us
lots (suc q) p us = p ∷ lots q p us

-- The prices of all lots of the book, in its order.
abbrev pub unit_prices : List (ℕ × ℕ) → List ℕ
unit_prices [] = []
unit_prices ((p, q) ∷ ls) = lots q p (unit_prices ls)

abbrev pub sum : List ℕ → ℕ
sum [] = 0
sum (x ∷ xs) = x + sum xs

sum-take-lots :
    (q n p : ℕ) (us : List ℕ) → sum (take n (lots q p us)) ≡ min n q * p + sum (take (n - q) us)
sum-take-lots zero n p us =
    let e : n - 0 ≡ n = omega arith in let m : min n 0 ≡ 0 = omega arith in rw (e, m) (omega arith)
sum-take-lots (suc q) zero p us =
    let e : 0 - suc q ≡ 0 = omega arith in
    let m : min 0 (suc q) ≡ 0 = omega arith in rw (e, m) (omega arith)
sum-take-lots (suc q) (suc n) p us =
    let e : suc n - suc q ≡ n - q = omega arith in
    let m : min (suc n) (suc q) ≡ suc (min n q) = omega arith in
    rw (e, m) (omega (arith, sum-take-lots q n p us))

-- The loop pays for the first lots, and what remains is what the levels lack.
record Pays (ls : List (ℕ × ℕ)) (t u : Taken) : Type 0 where
  notional : u.notional ≡ t.notional + sum (take t.remaining (unit_prices ls))
  remaining : u.remaining ≡ t.remaining - total_quantity ls

take_levels-Pays : (ls : List (ℕ × ℕ)) (t : Taken) → Pays ls t (take_levels ls t)
unfolding take_levels total_quantity
take_levels-Pays [] t = record { notional = nothing t.remaining; remaining = omega arith }
  where
    nothing : (n : ℕ) → t.notional ≡ t.notional + sum (take n [])
    nothing zero = omega arith
    nothing (suc n) = omega arith
take_levels-Pays ((p, q) ∷ ls) t =
    let taken = min t.remaining q in
    let after : Taken = record {
      remaining = t.remaining - taken;
      notional = t.notional + taken * p;
      consumed = t.consumed + 1;
    } in
    let rest = take_levels-Pays ls after in
    let step = sum-take-lots q t.remaining p (unit_prices ls) in
    let less : t.remaining - min t.remaining q ≡ t.remaining - q = omega arith in
    elim (Bool-cases (t.remaining - taken == 0)) [
      | inl e ↦
          let done : t.remaining - q ≡ 0 = ground (arith, e) in
          let last : sum (take (t.remaining - q) (unit_prices ls)) ≡ 0 = rw done refl in
          rw e (record { notional = omega (arith, step, last); remaining = ground (arith, e) })
      | inr e ↦ rw e (record {
        notional =
            rest.notional
            ∙ (ap (λ n. t.notional + taken * p + sum (take n (unit_prices ls))) less
                ∙ omega (arith, step));
        remaining = omega (arith, rest.remaining);
      })
    ]

-- The outcome of a walk over levels: with enough visible the first lots are paid for.
abbrev pub IsWalk : List (ℕ × ℕ) → ℕ → Option FillResult → Type 0
IsWalk ls requested none = total_quantity ls < requested
IsWalk ls requested (some f) =
    (f.quantity ≡ requested)
    × (requested ≤ total_quantity ls)
    × (f.notional ≡ sum (take requested (unit_prices ls)))

no_levels : (requested : ℕ) → 0 < requested → total_quantity [] < requested
unfolding total_quantity
no_levels requested h = h

walk_levels-IsWalk :
    (side : OrderSide) (requested : ℕ) (ls : List (ℕ × ℕ))
    → 0 < requested
    → IsWalk ls requested (walk_levels side requested ls)
unfolding walk_levels fill_from
walk_levels-IsWalk side requested [] h = no_levels requested h
walk_levels-IsWalk side requested ((p, q) ∷ ls) h =
    let t : Taken = record { remaining = requested; notional = 0; consumed = 0 } in
    let all : List (ℕ × ℕ) = (p, q) ∷ ls in
    let paid = take_levels-Pays all t in
    elim (Bool-cases (ltb (total_quantity all) requested)) [
      | inl e ↦ rw e (ground (arith, e))
      | inr e ↦
          let enough : requested ≤ total_quantity all = ground (arith, e) in
          let whole : ltb 0 (take_levels all t).remaining ≡ false =
            ground (arith, paid.remaining, enough) in
          rw (e, whole) (refl, enough, omega (arith, paid.notional))
    ]

walk_ordered-IsWalk :
    (side : OrderSide) (requested : ℕ) (ls : List (ℕ × ℕ))
    → 0 < requested
    → Checked (IsWalk ls requested) (walk_ordered side requested ls)
unfolding walk_ordered
walk_ordered-IsWalk other_order requested ls h = tt
walk_ordered-IsWalk buy requested ls h = elim (Bool-cases (is_ascending ls)) [
  | inl e ↦ rw e (walk_levels-IsWalk buy requested ls h)
  | inr e ↦ rw e tt
]
walk_ordered-IsWalk sell requested ls h = elim (Bool-cases (is_descending ls)) [
  | inl e ↦ rw e (walk_levels-IsWalk sell requested ls h)
  | inr e ↦ rw e tt
]

-- A walk of the visible book that succeeds, for a positive quantity and tick: there is no fill
-- just where the usable levels hold less than the quantity, and a fill has the quantity and pays
-- for the first lots of the usable levels, in the order of the book.
pub walk_visible_book-IsWalk :
    (levels : List Level) (requested tick : ℕ) (side : OrderSide) (o : Option FillResult)
    → 0 < requested
    → 0 < tick
    → walk_visible_book levels requested side tick ≡ ok o
    → IsWalk (finite_levels levels) requested o
unfolding walk_visible_book
walk_visible_book-IsWalk levels requested tick side o h k e =
    subst (Checked (IsWalk (finite_levels levels) requested)) e
      (elim (Bool-cases (is_order_side side)) [
        | inr q ↦ rw q tt
        | inl q ↦
            let given : (requested == 0 || tick == 0) ≡ false = ground (arith, h, k) in
            rw (q, given) (walk_ordered-IsWalk side requested (finite_levels levels) h)
      ])
