-- ===== src/MarketMaking/Counts/Fills.antt =====
-- The counters and accounts of the market-making state, through the fills.
use crypto_microstructure_ma.Prelude.{
  ℕ, suc, ◌+◌, ◌*◌, ◌≤◌, ◌≡◌, inl, inr, List, [], ◌∷◌, arith, Bool-cases, leb, length,
}
use crypto_microstructure_ma.Prelude.Int.{pos_part, neg_part, int_laws}
use crypto_microstructure_ma.MarketMaking.Permission.{
  Side, bid, ask, other_side, Spec, ok, Checked, bind-Checked,
}
use crypto_microstructure_ma.MarketMaking.Fills.{
  FillStatus, full, partial, unfilled, other_status, FillEvent, MmState, trade, tally_turnover,
  count_status, watch_limit, apply_fill, apply_due, drain,
}

-- The rows that have been handled, by what became of them.
abbrev pub handled : MmState → ℕ
handled s =
    s.maker_quote_attempts + s.suppressed_by_inventory + s.suppressed_by_obi
    + s.suppressed_by_selector + s.active_order_conflicts + s.invalid_placements

-- With `waiting` fills of the `queued` ones not applied yet, and after `rows` rows.
pub record HasCounts (spec : Spec) (waiting queued rows : ℕ) (s : MmState) : Type 0 where
  pub position : pos_part s.inventory + s.sell_filled_qty ≡ neg_part s.inventory + s.buy_filled_qty
  pub quantity : s.maker_filled_qty ≡ s.buy_filled_qty + s.sell_filled_qty
  pub fees : s.maker_fees ≡ s.maker_turnover * spec.maker_fee_bps
  pub fills : s.full_fill_orders + s.partial_fill_orders + waiting ≡ queued
  pub attempts : queued ≤ s.maker_quote_attempts
  pub by_row : handled s ≡ rows

-- Between the trade and its tally.
record HasTraded (spec : Spec) (waiting queued rows q : ℕ) (s : MmState) : Type 0 where
  position : pos_part s.inventory + s.sell_filled_qty ≡ neg_part s.inventory + s.buy_filled_qty
  quantity : s.maker_filled_qty + q ≡ s.buy_filled_qty + s.sell_filled_qty
  fees : s.maker_fees ≡ s.maker_turnover * spec.maker_fee_bps
  fills : s.full_fill_orders + s.partial_fill_orders + waiting ≡ queued
  attempts : queued ≤ s.maker_quote_attempts
  by_row : handled s ≡ rows

module _ (spec : Spec) (queued rows : ℕ) where
  trade-HasTraded :
      (side : Side) (w q notional : ℕ) (s : MmState)
      → HasCounts spec w queued rows s
      → Checked (HasTraded spec w queued rows q) (trade side q notional s)
  unfolding trade
  trade-HasTraded bid w q notional s h = record {
    position = omega (int_laws, h.position);
    quantity = omega (arith, h.quantity);
    fees = h.fees;
    fills = h.fills;
    attempts = h.attempts;
    by_row = h.by_row;
  }
  trade-HasTraded ask w q notional s h = record {
    position = omega (int_laws, h.position);
    quantity = omega (arith, h.quantity);
    fees = h.fees;
    fills = h.fills;
    attempts = h.attempts;
    by_row = h.by_row;
  }
  trade-HasTraded other_side w q notional s h = tt

  count_status-HasCounts :
      (status : FillStatus) (w q notional : ℕ) (s : MmState)
      → HasTraded spec (suc w) queued rows q s
      → Checked
          (HasCounts spec w queued rows)
          (count_status status (tally_turnover spec q notional s))
  unfolding count_status tally_turnover
  count_status-HasCounts full w q notional s h = record {
    position = h.position;
    quantity = h.quantity;
    fees = omega (arith, h.fees);
    fills = omega (arith, h.fills);
    attempts = h.attempts;
    by_row = h.by_row;
  }
  count_status-HasCounts partial w q notional s h = record {
    position = h.position;
    quantity = h.quantity;
    fees = omega (arith, h.fees);
    fills = omega (arith, h.fills);
    attempts = h.attempts;
    by_row = h.by_row;
  }
  count_status-HasCounts unfilled w q notional s h = tt
  count_status-HasCounts other_status w q notional s h = tt

  watch_limit-HasCounts :
      (w : ℕ) (s : MmState)
      → HasCounts spec w queued rows s
      → HasCounts spec w queued rows (watch_limit spec s)
  unfolding watch_limit
  watch_limit-HasCounts w s h = record {
    position = h.position;
    quantity = h.quantity;
    fees = h.fees;
    fills = h.fills;
    attempts = h.attempts;
    by_row = h.by_row;
  }

  apply_fill-HasCounts :
      (e : FillEvent) (w : ℕ) (s : MmState)
      → HasCounts spec (suc w) queued rows s
      → Checked (HasCounts spec w queued rows) (apply_fill spec e s)
  unfolding apply_fill
  apply_fill-HasCounts e w s h =
      let n = e.qty * e.price in
      bind-Checked (HasCounts spec w queued rows) (HasCounts spec w queued rows)
        (λ t. ok (watch_limit spec t)) _
        (bind-Checked (HasTraded spec (suc w) queued rows e.qty) (HasCounts spec w queued rows)
          (λ t. count_status e.status (tally_turnover spec e.qty n t)) (trade e.side e.qty n s)
          (trade-HasTraded e.side (suc w) e.qty n s h) (count_status-HasCounts e.status w e.qty n))
        (watch_limit-HasCounts w)

  pub apply_due-HasCounts :
      (placement : ℕ) (es : List FillEvent) (s : MmState)
      → HasCounts spec (length es) queued rows s
      → Checked (λ r. HasCounts spec (length r.1) queued rows r.0) (apply_due spec placement es s)
  unfolding apply_due
  apply_due-HasCounts placement [] s h = h
  apply_due-HasCounts placement (e ∷ es) s h = elim (Bool-cases (leb e.event_time placement)) [
    | inl q ↦ rw q (
        bind-Checked (HasCounts spec (length es) queued rows)
          (λ r. HasCounts spec (length r.1) queued rows r.0) (apply_due spec placement es)
          (apply_fill spec e s) (apply_fill-HasCounts e (length es) s h)
          (apply_due-HasCounts placement es))
    | inr q ↦ rw q h
  ]

  pub drain-HasCounts :
      (es : List FillEvent) (s : MmState)
      → HasCounts spec (length es) queued rows s
      → Checked (HasCounts spec 0 queued rows) (drain spec es s)
  unfolding drain
  drain-HasCounts [] s h = h
  drain-HasCounts (e ∷ es) s h =
      bind-Checked (HasCounts spec (length es) queued rows) (HasCounts spec 0 queued rows)
        (drain spec es) (apply_fill spec e s) (apply_fill-HasCounts e (length es) s h)
        (drain-HasCounts es)
