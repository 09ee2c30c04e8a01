-- ===== src/Execution/Walk.antt =====
-- `floor_quantity` and `walk_visible_book` of pyresearch/execution/engine.py. Prices are in ticks
-- and quantities in lots, exact, so that the source's tolerances for rounding are zero; a price
-- per unit is kept as the notional it is the quotient of.
use crypto_microstructure_ma.Prelude.{
  ℕ, ◌+◌, ◌-◌, ◌*◌, ◌/◌, min, Bool, true, false, ◌&&◌, ◌||◌, Option, none, some, List, [], ◌∷◌, ltb,
  leb, ◌==◌, if◌then◌else◌,
}
pub use crypto_microstructure_ma.Prelude.Results.{
  Fallible, ok, err, ◌>>=◌, Checked, bind-Checked, any-Checked, map-Checked,
}

pub data OrderSide : Type 0 where
  buy sell other_order : OrderSide

pub data WalkError : Type 0 where
  unknown_order_side asks_not_ascending bids_not_descending bad_arguments : WalkError

abbrev pub Result {ℓ} : Type ℓ → Type ℓ
Result A = Fallible WalkError A

-- A price and a quantity; `none` where one is not finite.
abbrev pub Level : Type 0
Level = Option ℕ × Option ℕ

pub record FillResult : Type 0 where
  pub side : OrderSide
  pub quantity : ℕ
  pub notional : ℕ
  pub touch_price : ℕ
  pub touch_quantity : ℕ
  pub consumed_levels : ℕ
  pub visible_quantity : ℕ

-- The largest whole number of steps that the notional pays for.
unfoldable pub floor_quantity : ℕ → ℕ → ℕ → ℕ
floor_quantity notional touch_price step =
    if notional == 0 || touch_price == 0 || step == 0
    then 0
    else notional / (touch_price * step) * step

unfoldable pub keep_level : Level → List (ℕ × ℕ) → List (ℕ × ℕ)
keep_level (some p, some q) rest = if ltb 0 p && ltb 0 q then (p, q) ∷ rest else rest
keep_level (none, q) rest = rest
keep_level (some p, none) rest = rest

-- `prices[finite]` and `quantities[finite]`
unfoldable pub finite_levels : List Level → List (ℕ × ℕ)
finite_levels [] = []
finite_levels (l ∷ ls) = keep_level l (finite_levels ls)

unfoldable pub is_ascending : List (ℕ × ℕ) → Bool
is_ascending [] = true
is_ascending ((p, q) ∷ []) = true
is_ascending ((p, q) ∷ (r, t) ∷ ls) = leb p r && is_ascending ((r, t) ∷ ls)

unfoldable pub is_descending : List (ℕ × ℕ) → Bool
is_descending [] = true
is_descending ((p, q) ∷ []) = true
is_descending ((p, q) ∷ (r, t) ∷ ls) = leb r p && is_descending ((r, t) ∷ ls)

unfoldable pub total_quantity : List (ℕ × ℕ) → ℕ
total_quantity [] = 0
total_quantity ((p, q) ∷ ls) = q + total_quantity ls

-- The loop over the levels: what remains, the notional and the levels consumed.
pub record Taken : Type 0 where
  pub remaining : ℕ
  pub notional : ℕ
  pub consumed : ℕ

unfoldable pub take_levels : List (ℕ × ℕ) → Taken → Taken
take_levels [] t = t
take_levels ((p, q) ∷ ls) t =
    let taken = min t.remaining q in
    let after : Taken = record {
      remaining = t.remaining - taken;
      notional = t.notional + taken * p;
      consumed = t.consumed + 1;
    } in
    if t.remaining - taken == 0 then after else take_levels ls after

unfoldable pub fill_from : OrderSide → ℕ → List (ℕ × ℕ) → ℕ → ℕ → Taken → Option FillResult
fill_from side requested levels touch touch_qty t =
    if ltb 0 t.remaining
    then none
    else some (record {
      side = side;
      quantity = requested;
      notional = t.notional;
      touch_price = touch;
      touch_quantity = touch_qty;
      consumed_levels = t.consumed;
      visible_quantity = total_quantity levels;
    })

-- The levels in their order, with the best one at the head.
unfoldable pub walk_levels : OrderSide → ℕ → List (ℕ × ℕ) → Option FillResult
walk_levels side requested [] = none
walk_levels side requested ((p, q) ∷ ls) =
    if ltb (total_quantity ((p, q) ∷ ls)) requested
    then none
    else fill_from side requested ((p, q) ∷ ls) p q
        (take_levels ((p, q) ∷ ls) (record { remaining = requested; notional = 0; consumed = 0 }))

unfoldable pub walk_ordered : OrderSide → ℕ → List (ℕ × ℕ) → Result (Option FillResult)
walk_ordered other_order requested ls = err unknown_order_side
walk_ordered buy requested ls =
    if is_ascending ls then ok (walk_levels buy requested ls) else err asks_not_ascending
walk_ordered sell requested ls =
    if is_descending ls then ok (walk_levels sell requested ls) else err bids_not_descending

abbrev pub is_order_side : OrderSide → Bool
is_order_side other_order = false
is_order_side _ = true

unfoldable pub walk_visible_book : List Level → ℕ → OrderSide → ℕ → Result (Option FillResult)
walk_visible_book levels requested side tick =
    if is_order_side side
    then (if requested == 0 || tick == 0
        then ok none
        else walk_ordered side requested (finite_levels levels))
    else err unknown_order_side
