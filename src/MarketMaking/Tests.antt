-- ===== src/MarketMaking/Tests.antt =====
-- The theorems of the simulation at a small schedule: a bid that is filled, a bid while the first
-- is open, an ask that the selector would hold back, and a bid over the soft limit.
use crypto_microstructure_ma.Prelude.{
  ℕ, ◌+◌, ◌≡◌, refl, Option, none, some, List, [], ◌∷◌, arith, true,
}
use crypto_microstructure_ma.Prelude.Int.{negsuc, ◌+ℤ◌, ◌-ℤ◌, ◌*ℤ◌}
use crypto_microstructure_ma.MarketMaking.Permission.{
  Side, bid, ask, Spec, obi_aware, Result, ok, err, inventory_blocks, reduces_inventory,
  obi_permission, quote_permission,
}
use crypto_microstructure_ma.MarketMaking.Fills.{
  FillStatus, full, partial, unfilled, trade, tally_turnover, count_status, watch_limit, apply_fill,
  push_fill, apply_due, drain,
}
use crypto_microstructure_ma.MarketMaking.Schedule.{
  Row, Settings, available_on, set_available, full_outcome, partial_outcome, outcome_of, queue_fill,
  place, submit, selector_blocks, on_permission, offer, on_available, on_row_at, on_row, run_rows,
  initial_state, initial_sim, simulate_fills,
}
use crypto_microstructure_ma.MarketMaking.Liquidation.{
  Report, close_position, liquidation_fee, liquidate, simulate_schedule,
}
use crypto_microstructure_ma.MarketMaking.Reports.{
  AddsUp, StaysWithinLimit, simulate_schedule-StaysWithinLimit, simulate_schedule-AddsUp,
}

abbrev small_spec : Spec
small_spec = record {
  quote_qty = 10;
  soft_limit = 15;
  hard_limit = 20;
  quantity_tolerance = 1;
  absolute_threshold = 5;
  maker_fee_bps = 2;
  day_end_taker_fee_bps = 4;
}

abbrev settings : Settings
settings = record {
  spec = small_spec;
  policy = obi_aware;
  selection = none;
  risk_reducing_override = true;
}

abbrev quote_row : ℕ → Side → FillStatus → Option ℕ → ℕ → Row
quote_row placement side status first filled = record {
  placement = placement;
  side = side;
  quote_price = 100;
  quote_qty = 10;
  expiry = placement + 50;
  weighted_obi = some (negsuc 2);
  fill_status = status;
  first_fill = first;
  full_fill = first;
  filled_qty = filled;
}

abbrev schedule : List Row
schedule =
    quote_row 0 bid full (some 20) 10
    ∷ quote_row 10 bid unfilled none 0
    ∷ quote_row 30 bid full (some 40) 10
    ∷ quote_row 60 bid full (some 70) 10
    ∷ quote_row 80 ask partial (some 90) 7
    ∷ []

-- The code of the simulation, for tests that run it.
simulation_code : Unit {0}
unfolding ◌+ℤ◌ ◌-ℤ◌ ◌*ℤ◌ inventory_blocks reduces_inventory obi_permission quote_permission trade
    tally_turnover count_status watch_limit apply_fill push_fill apply_due drain available_on
    set_available full_outcome partial_outcome outcome_of queue_fill place submit selector_blocks
    on_permission offer on_available on_row_at on_row run_rows initial_state initial_sim
    simulate_fills close_position liquidation_fee liquidate simulate_schedule
simulation_code = tt

abbrev report_or : Result Report → Report → Report
report_or (ok r) d = r
report_or (err e) d = d

abbrev small_report : Report
small_report =
    report_or (simulate_schedule settings 99 101 schedule)
      (liquidate small_spec 99 101 initial_state)

simulate_schedule-StaysWithinLimit_example : StaysWithinLimit small_spec small_report
unfolding simulation_code
simulate_schedule-StaysWithinLimit_example =
    simulate_schedule-StaysWithinLimit settings 99 101 schedule small_report
      (omega arith, (omega arith, (omega arith, (omega arith, (omega arith, tt))))) refl

simulate_schedule-AddsUp_example : AddsUp small_spec schedule small_report
unfolding simulation_code
simulate_schedule-AddsUp_example =
    simulate_schedule-AddsUp settings 99 101 schedule small_report refl

-- The second bid meets the first one, and the fourth is over the soft limit; the position of 20 is
-- brought to 13 and sold at 99.
small_report-proceeds : small_report.gross_pnl ≡ negsuc 12
unfolding simulation_code
small_report-proceeds = refl
