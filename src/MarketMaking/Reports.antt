-- ===== src/MarketMaking/Reports.antt =====
-- What the report of a simulation shows: the limits and the accounts at its end.
use crypto_microstructure_ma.Prelude.{
  ℕ, ◌+◌, ◌*◌, ◌≤◌, ◌≡◌, refl, subst, sym, List, arith, inl, inr, Bool-cases, All, length,
}
use crypto_microstructure_ma.Prelude.Int.{pos, sub_ℕ, ltb_ℤ, pos_part, neg_part, abs}
use crypto_microstructure_ma.MarketMaking.Permission.{Spec, ok, Checked, bind-Checked}
use crypto_microstructure_ma.MarketMaking.Fills.{MmState}
use crypto_microstructure_ma.MarketMaking.Schedule.{Row, Settings, simulate_fills}
use crypto_microstructure_ma.MarketMaking.Liquidation.{
  Report, close_position, liquidate, simulate_schedule,
}
use crypto_microstructure_ma.MarketMaking.Limits.Rooms.{HasRoom, limit_of, abs-within}
use crypto_microstructure_ma.MarketMaking.Limits.Rows.{simulate_fills-HasRoom}
use crypto_microstructure_ma.MarketMaking.Counts.Fills.{HasCounts, handled}
use crypto_microstructure_ma.MarketMaking.Counts.Rows.{simulate_fills-HasCounts}

-- The closing trade changes the position and the cash alone, and leaves no more than the
-- tolerance.
record IsClosed (spec : Spec) (s t : MmState) : Type 0 where
  same : t ≡ record s { inventory = t.inventory; cash_gross = t.cash_gross }
  flat : abs t.inventory ≤ spec.quantity_tolerance

close_position-IsClosed :
    (spec : Spec) (last_bid last_ask : ℕ) (s : MmState)
    → IsClosed spec s (close_position spec last_bid last_ask s).0
unfolding close_position
close_position-IsClosed spec last_bid last_ask s =
    elim (Bool-cases (ltb_ℤ (pos spec.quantity_tolerance) s.inventory)) [
      | inl e ↦ rw e (record { same = refl; flat = omega arith })
      | inr e ↦ rw e (elim (Bool-cases (ltb_ℤ s.inventory (sub_ℕ 0 spec.quantity_tolerance))) [
        | inl f ↦ rw f (record { same = refl; flat = omega arith })
        | inr f ↦ rw f (record { same = refl; flat = ground (arith, e, f) })
      ])
    ]

abbrev pub StaysWithinLimit : Spec → Report → Type 0
StaysWithinLimit spec r =
    (r.state.inventory_limit_violations ≡ 0)
    × (r.state.maximum_absolute_inventory ≤ limit_of spec)
    × (abs r.pre_liquidation_inventory ≤ limit_of spec)

-- The report of a simulation of some rows: each row is counted once, by what became of it; each
-- order is filled at most once; the position before the liquidation, the filled quantity and the
-- fees are what the fills add up to; and the liquidation leaves no more than the tolerance.
pub record AddsUp (spec : Spec) (rows : List Row) (r : Report) : Type 0 where
  pub by_row : handled r.state ≡ length rows
  pub by_order :
      r.state.full_fill_orders + r.state.partial_fill_orders ≤ r.state.maker_quote_attempts
  pub position :
      pos_part r.pre_liquidation_inventory + r.state.sell_filled_qty
      ≡ neg_part r.pre_liquidation_inventory + r.state.buy_filled_qty
  pub quantity : r.state.maker_filled_qty ≡ r.state.buy_filled_qty + r.state.sell_filled_qty
  pub fees : r.state.maker_fees ≡ r.state.maker_turnover * spec.maker_fee_bps
  pub flat : abs r.state.inventory ≤ spec.quantity_tolerance

module _ (g : Settings) (last_bid last_ask : ℕ) (rows : List Row) where
  liquidate-StaysWithinLimit :
      (s : MmState)
      → HasRoom (limit_of g.spec) s 0 0
      → StaysWithinLimit g.spec (liquidate g.spec last_bid last_ask s)
  unfolding liquidate
  liquidate-StaysWithinLimit s h =
      let c = close_position-IsClosed g.spec last_bid last_ask s in
      (
        subst (λ t. t.inventory_limit_violations ≡ 0) (sym c.same) h.violations,
        subst (λ t. t.maximum_absolute_inventory ≤ limit_of g.spec) (sym c.same) h.maximum,
        abs-within (limit_of g.spec) 0 0 s h,
      )

  liquidate-AddsUp :
      (n : ℕ) (s : MmState)
      → HasCounts g.spec 0 n (length rows) s
      → AddsUp g.spec rows (liquidate g.spec last_bid last_ask s)
  unfolding liquidate
  liquidate-AddsUp n s h =
      let c = close_position-IsClosed g.spec last_bid last_ask s in
      record {
        by_row = subst (λ t. handled t ≡ length rows) (sym c.same) h.by_row;
        by_order =
            subst (λ t. t.full_fill_orders + t.partial_fill_orders ≤ t.maker_quote_attempts)
              (sym c.same) (omega (arith, h.fills, h.attempts));
        position =
            subst
              (λ t.
                pos_part s.inventory + t.sell_filled_qty ≡ neg_part s.inventory + t.buy_filled_qty)
              (sym c.same) h.position;
        quantity =
            subst (λ t. t.maker_filled_qty ≡ t.buy_filled_qty + t.sell_filled_qty) (sym c.same)
              h.quantity;
        fees =
            subst (λ t. t.maker_fees ≡ t.maker_turnover * g.spec.maker_fee_bps) (sym c.same) h.fees;
        flat = c.flat;
      }

-- The position stays within the hard limit. If no order of the schedule fills more than the
-- quote's quantity, then in the report of a simulation that succeeds no violation of the limit is
-- counted, and the largest absolute position and the one before the liquidation are at most the
-- hard limit plus the tolerance.
pub simulate_schedule-StaysWithinLimit :
    (g : Settings) (last_bid last_ask : ℕ) (rows : List Row) (r : Report)
    → All (λ row. row.filled_qty ≤ g.spec.quote_qty) rows
    → simulate_schedule g last_bid last_ask rows ≡ ok r
    → StaysWithinLimit g.spec r
unfolding simulate_schedule
simulate_schedule-StaysWithinLimit g last_bid last_ask rows r q e =
    subst (Checked (StaysWithinLimit g.spec)) e (
      bind-Checked (λ s. HasRoom (limit_of g.spec) s 0 0) (StaysWithinLimit g.spec)
        (λ s. ok (liquidate g.spec last_bid last_ask s)) (simulate_fills g rows)
        (simulate_fills-HasRoom g rows q) (liquidate-StaysWithinLimit g last_bid last_ask rows))

-- The report of a simulation that succeeds adds up. Each row is counted once: as an attempt, as
-- suppressed for one reason, as a conflict or as an invalid placement. No more fills are counted
-- than attempts. The position before the liquidation is what was bought less what was sold,
-- the filled quantity is their sum, and the fees are the turnover at the maker's rate. The
-- liquidation leaves no more than the tolerance.
pub simulate_schedule-AddsUp :
    (g : Settings) (last_bid last_ask : ℕ) (rows : List Row) (r : Report)
    → simulate_schedule g last_bid last_ask rows ≡ ok r
    → AddsUp g.spec rows r
unfolding simulate_schedule
simulate_schedule-AddsUp g last_bid last_ask rows r e = subst (Checked (AddsUp g.spec rows)) e (
    bind-Checked (λ s. (n : ℕ) × HasCounts g.spec 0 n (length rows) s) (AddsUp g.spec rows)
      (λ s. ok (liquidate g.spec last_bid last_ask s)) (simulate_fills g rows)
      (simulate_fills-HasCounts g rows)
      (λ s h. liquidate-AddsUp g last_bid last_ask rows h.0 s h.1))
