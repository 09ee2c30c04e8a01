-- ===== src/MarketMaking/Liquidation.antt =====
-- The end of `simulate_schedule` (pyresearch/obi/continuous_mm.py): what is left is sold at the
-- last bid or bought back at the last ask. The ratios of the report are left out.
use crypto_microstructure_ma.Prelude.{ℕ, ◌+◌, ◌*◌, List, ltb, if◌then◌else◌}
use crypto_microstructure_ma.Prelude.Int.{
  ℤ, pos, sub_ℕ, pos_part, neg_part, ◌+ℤ◌, ◌-ℤ◌, ◌*ℤ◌, ltb_ℤ, abs,
}
use crypto_microstructure_ma.MarketMaking.Permission.{Spec, Result, ok, ◌>>=◌}
use crypto_microstructure_ma.MarketMaking.Fills.{MmState}
use crypto_microstructure_ma.MarketMaking.Schedule.{Row, Settings, simulate_fills}

-- Fees and the net result are in ten-thousandths of the quote unit.
pub record Report : Type 0 where
  pub state : MmState
  pub pre_liquidation_inventory : ℤ
  pub forced_liquidation_qty : ℕ
  pub forced_liquidation_notional : ℕ
  pub forced_liquidation_fee : ℕ
  pub gross_pnl : ℤ
  pub net_pnl : ℤ
  pub total_turnover : ℕ

-- The position's closing trade, and its notional.
unfoldable pub close_position : Spec → ℕ → ℕ → MmState → MmState × ℕ
close_position spec last_bid last_ask s =
    let sold = pos_part s.inventory * last_bid in
    let bought = neg_part s.inventory * last_ask in
    if ltb_ℤ (pos spec.quantity_tolerance) s.inventory
    then (record s { cash_gross = s.cash_gross +ℤ pos sold; inventory = pos 0 }, sold)
    else if ltb_ℤ s.inventory (sub_ℕ 0 spec.quantity_tolerance)
    then (record s { cash_gross = s.cash_gross -ℤ pos bought; inventory = pos 0 }, bought)
    else (s, 0)

unfoldable pub liquidation_fee : Spec → ℕ → ℕ → ℕ
liquidation_fee spec qty notional =
    if ltb spec.quantity_tolerance qty then notional * spec.day_end_taker_fee_bps else 0

unfoldable pub liquidate : Spec → ℕ → ℕ → MmState → Report
liquidate spec last_bid last_ask s =
    let (closed, notional) = close_position spec last_bid last_ask s in
    let fee = liquidation_fee spec (abs s.inventory) notional in
    record {
      state = closed;
      pre_liquidation_inventory = s.inventory;
      forced_liquidation_qty = abs s.inventory;
      forced_liquidation_notional = notional;
      forced_liquidation_fee = fee;
      gross_pnl = closed.cash_gross;
      net_pnl = closed.cash_gross *ℤ pos 10000 -ℤ pos (closed.maker_fees + fee);
      total_turnover = closed.maker_turnover + notional;
    }

unfoldable pub simulate_schedule : Settings → ℕ → ℕ → List Row → Result Report
simulate_schedule g last_bid last_ask rows =
    simulate_fills g rows >>= (λ s. ok (liquidate g.spec last_bid last_ask s))
