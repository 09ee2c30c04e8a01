-- ===== src/MarketMaking/Schedule.antt =====
-- `simulate_schedule` of pyresearch/obi/continuous_mm.py: one quote per row, the pending fills
-- between them, and the liquidation at the end of the day. Times are nonnegative; the -1 that
-- stands for no time at all is `none`.
use crypto_microstructure_ma.Prelude.{
  ℕ, ◌+◌, ◌-◌, Bool, true, false, ◌&&◌, ◌||◌, not, Option, none, some, List, [], ◌∷◌, ltb,
  if◌then◌else◌,
}
use crypto_microstructure_ma.Prelude.Int.{ℤ, pos}
use crypto_microstructure_ma.MarketMaking.Permission.{
  Side, bid, ask, other_side, Policy, Spec, Reason, inventory, obi, Result, ok, err, ◌>>=◌,
  reduces_inventory, quote_permission, unknown_side, quantity_differs, lacks_first_fill,
  lacks_full_fill, ends_before_placement, fill_outside_lifetime,
}
use crypto_microstructure_ma.MarketMaking.Fills.{
  FillStatus, full, partial, other_status, FillEvent, MmState, push_fill, apply_due, drain,
}

-- A row of the schedule. A time that is not finite is `none`.
pub record Row : Type 0 where
  pub placement : ℕ
  pub side : Side
  pub quote_price : ℕ
  pub quote_qty : ℕ
  pub expiry : ℕ
  pub weighted_obi : Option ℤ
  pub fill_status : FillStatus
  pub first_fill : Option ℕ
  pub full_fill : Option ℕ
  pub filled_qty : ℕ

pub record Sim : Type 0 where
  pub state : MmState
  pub available_bid : Option ℕ
  pub available_ask : Option ℕ
  pub pending : List FillEvent
  pub sequence : ℕ

-- The arguments of the call that stay the same over the rows.
pub record Settings : Type 0 where
  pub spec : Spec
  pub policy : Policy
  pub selection : Option (Row → Bool)
  pub risk_reducing_override : Bool

-- `available[side]`
unfoldable pub available_on : Side → Sim → Result (Option ℕ)
available_on bid m = ok m.available_bid
available_on ask m = ok m.available_ask
available_on other_side m = err unknown_side

unfoldable pub set_available : Side → ℕ → Sim → Sim
set_available bid end m = record m { available_bid = some end }
set_available ask end m = record m { available_ask = some end }
set_available other_side end m = m

-- `placement < available[side]`
abbrev pub is_occupied : ℕ → Option ℕ → Bool
is_occupied placement none = false
is_occupied placement (some end) = ltb placement end

abbrev pub is_valid_status : FillStatus → Bool
is_valid_status other_status = false
is_valid_status _ = true

abbrev pub difference : ℕ → ℕ → ℕ
difference a b = a - b + (b - a)

-- What becomes of a submitted order: its fill's time, its end and the quantity filled.
pub record Outcome : Type 0 where
  pub event_time : Option ℕ
  pub order_end : ℕ
  pub fill_qty : ℕ

unfoldable pub full_outcome : Option ℕ → Option ℕ → Row → Result Outcome
full_outcome none end row = err lacks_first_fill
full_outcome (some t) none row = err lacks_full_fill
full_outcome (some t) (some end) row =
    ok (record { event_time = some t; order_end = end; fill_qty = row.filled_qty })

unfoldable pub partial_outcome : Option ℕ → Row → Result Outcome
partial_outcome none row = err lacks_first_fill
partial_outcome (some t) row =
    ok (record { event_time = some t; order_end = row.expiry; fill_qty = row.filled_qty })

-- By the row's status.
unfoldable pub outcome_of : FillStatus → Row → Result Outcome
outcome_of full row = full_outcome row.first_fill row.full_fill row
outcome_of partial row = partial_outcome row.first_fill row
outcome_of _ row = ok (record { event_time = none; order_end = row.expiry; fill_qty = 0 })

-- A fill inside the order's lifetime is queued.
unfoldable pub queue_fill : Row → Option ℕ → Outcome → Sim → Result Sim
queue_fill row none o m = err fill_outside_lifetime
queue_fill row (some t) o m =
    if ltb t row.placement || ltb o.order_end t
    then err fill_outside_lifetime
    else ok (record m {
      sequence = m.sequence + 1;
      pending =
          push_fill
            (record {
              event_time = t;
              sequence = m.sequence + 1;
              side = row.side;
              qty = o.fill_qty;
              price = row.quote_price;
              status = row.fill_status;
            })
            m.pending;
    })

-- The order with its outcome takes its side until it ends.
unfoldable pub place : Spec → Row → Sim → Outcome → Result Sim
place spec row m o =
    if ltb o.order_end row.placement
    then err ends_before_placement
    else if ltb spec.quantity_tolerance o.fill_qty
    then queue_fill row o.event_time o (set_available row.side o.order_end m)
    else ok (set_available row.side o.order_end m)

unfoldable pub submit : Spec → Row → Sim → Result Sim
submit spec row m =
    let s = m.state in
    outcome_of row.fill_status row
    >>= place spec row
        (record m { state = record s { maker_quote_attempts = s.maker_quote_attempts + 1 } })

abbrev pub is_selected : Option (Row → Bool) → Row → Bool
is_selected none row = true
is_selected (some selected) row = selected row

-- Whether the selector holds the quote back.
unfoldable pub selector_blocks : Settings → Row → Sim → Bool
selector_blocks g row m =
    not (is_selected g.selection row)
    && not (g.risk_reducing_override && reduces_inventory row.side m.state.inventory g.spec)

unfoldable pub on_permission : Settings → Row → Sim → Option Reason → Result Sim
on_permission g row m (some inventory) =
    let s = m.state in
    ok (record m { state = record s { suppressed_by_inventory = s.suppressed_by_inventory + 1 } })
on_permission g row m (some obi) =
    let s = m.state in
    ok (record m { state = record s { suppressed_by_obi = s.suppressed_by_obi + 1 } })
on_permission g row m none =
    let s = m.state in
    if selector_blocks g row m
    then ok
        (record m { state = record s { suppressed_by_selector = s.suppressed_by_selector + 1 } })
    else submit g.spec row m

-- A row whose side is free.
unfoldable pub offer : Settings → Row → Sim → Result Sim
offer g row m =
    let s = m.state in
    if not (is_valid_status row.fill_status)
    then ok (record m { state = record s { invalid_placements = s.invalid_placements + 1 } })
    else if ltb g.spec.quantity_tolerance (difference row.quote_qty g.spec.quote_qty)
    then err quantity_differs
    else quote_permission g.policy row.side m.state.inventory row.weighted_obi g.spec
      >>= on_permission g row m

unfoldable pub on_available : Settings → Row → Sim → Option ℕ → Result Sim
on_available g row m end =
    let s = m.state in
    if is_occupied row.placement end
    then ok
        (record m { state = record s { active_order_conflicts = s.active_order_conflicts + 1 } })
    else offer g row m

-- A row, once the fills that are due have been applied.
unfoldable pub on_row_at : Settings → Row → Sim → Result Sim
on_row_at g row m = available_on row.side m >>= on_available g row m

unfoldable pub on_row : Settings → Row → Sim → Result Sim
on_row g row m =
    apply_due g.spec row.placement m.pending m.state
    >>= (λ r. on_row_at g row (record m { state = r.0; pending = r.1 }))

unfoldable pub run_rows : Settings → List Row → Sim → Result Sim
run_rows g [] m = ok m
run_rows g (row ∷ rows) m = on_row g row m >>= run_rows g rows

unfoldable pub initial_state : MmState
initial_state = record {
  inventory = pos 0;
  cash_gross = pos 0;
  maker_turnover = 0;
  maker_fees = 0;
  maker_filled_qty = 0;
  buy_filled_qty = 0;
  sell_filled_qty = 0;
  full_fill_orders = 0;
  partial_fill_orders = 0;
  maker_quote_attempts = 0;
  maximum_absolute_inventory = 0;
  inventory_limit_violations = 0;
  suppressed_by_inventory = 0;
  suppressed_by_obi = 0;
  suppressed_by_selector = 0;
  active_order_conflicts = 0;
  invalid_placements = 0;
}

unfoldable pub initial_sim : Sim
initial_sim = record {
  state = initial_state;
  available_bid = none;
  available_ask = none;
  pending = [];
  sequence = 0;
}

unfoldable pub simulate_fills : Settings → List Row → Result MmState
simulate_fills g rows = run_rows g rows initial_sim >>= (λ m. drain g.spec m.pending m.state)
