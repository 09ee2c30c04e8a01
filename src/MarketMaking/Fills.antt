-- ===== src/MarketMaking/Fills.antt =====
-- `_apply_fill` of pyresearch/obi/continuous_mm.py and the queue of pending fills. Fees are kept
-- in ten-thousandths of the quote unit, which makes a fee in basis points exact.
use crypto_microstructure_ma.Prelude.{
  ℕ, ◌+◌, ◌*◌, max, Bool, ◌&&◌, ◌||◌, List, [], ◌∷◌, ltb, leb, ◌==◌, if◌then◌else◌,
}
use crypto_microstructure_ma.Prelude.Int.{ℤ, pos, ◌+ℤ◌, ◌-ℤ◌, abs}
use crypto_microstructure_ma.MarketMaking.Permission.{
  Side, bid, ask, other_side, Spec, Result, ok, err, ◌>>=◌, unknown_side, unknown_status,
}

pub data FillStatus : Type 0 where
  full partial unfilled other_status : FillStatus

-- The tuples of the heap, compared by their time and then by their sequence number, which is
-- never equal.
pub record FillEvent : Type 0 where
  pub event_time : ℕ
  pub sequence : ℕ
  pub side : Side
  pub qty : ℕ
  pub price : ℕ
  pub status : FillStatus

pub record MmState : Type 0 where
  pub inventory : ℤ
  pub cash_gross : ℤ
  pub maker_turnover : ℕ
  pub maker_fees : ℕ
  pub maker_filled_qty : ℕ
  pub buy_filled_qty : ℕ
  pub sell_filled_qty : ℕ
  pub full_fill_orders : ℕ
  pub partial_fill_orders : ℕ
  pub maker_quote_attempts : ℕ
  pub maximum_absolute_inventory : ℕ
  pub inventory_limit_violations : ℕ
  pub suppressed_by_inventory : ℕ
  pub suppressed_by_obi : ℕ
  pub suppressed_by_selector : ℕ
  pub active_order_conflicts : ℕ
  pub invalid_placements : ℕ

-- The trade itself, by its side.
unfoldable pub trade : Side → ℕ → ℕ → MmState → Result MmState
trade bid qty notional s = ok (record s {
  inventory = s.inventory +ℤ pos qty;
  cash_gross = s.cash_gross -ℤ pos notional;
  buy_filled_qty = s.buy_filled_qty + qty;
})
trade ask qty notional s = ok (record s {
  inventory = s.inventory -ℤ pos qty;
  cash_gross = s.cash_gross +ℤ pos notional;
  sell_filled_qty = s.sell_filled_qty + qty;
})
trade other_side qty notional s = err unknown_side

unfoldable pub tally_turnover : Spec → ℕ → ℕ → MmState → MmState
tally_turnover spec qty notional s = record s {
  maker_turnover = s.maker_turnover + notional;
  maker_fees = s.maker_fees + notional * spec.maker_fee_bps;
  maker_filled_qty = s.maker_filled_qty + qty;
}

-- The counter `{fill_status}_fill_orders`, which the other statuses do not have.
unfoldable pub count_status : FillStatus → MmState → Result MmState
count_status full s = ok (record s { full_fill_orders = s.full_fill_orders + 1 })
count_status partial s = ok (record s { partial_fill_orders = s.partial_fill_orders + 1 })
count_status unfilled s = err unknown_status
count_status other_status s = err unknown_status

-- The largest position so far, and whether this one is over the limit.
unfoldable pub watch_limit : Spec → MmState → MmState
watch_limit spec s = record s {
  maximum_absolute_inventory = max s.maximum_absolute_inventory (abs s.inventory);
  inventory_limit_violations =
      if ltb (spec.hard_limit + spec.quantity_tolerance) (abs s.inventory)
      then s.inventory_limit_violations + 1
      else s.inventory_limit_violations;
}

unfoldable pub apply_fill : Spec → FillEvent → MmState → Result MmState
apply_fill spec e s =
    trade e.side e.qty (e.qty * e.price) s
    >>= (λ t. count_status e.status (tally_turnover spec e.qty (e.qty * e.price) t))
    >>= (λ t. ok (watch_limit spec t))

abbrev pub is_before : FillEvent → FillEvent → Bool
is_before e f =
    ltb e.event_time f.event_time || (e.event_time == f.event_time && ltb e.sequence f.sequence)

-- `heappush`, on the heap's elements in the order in which they are popped.
unfoldable pub push_fill : FillEvent → List FillEvent → List FillEvent
push_fill e [] = e ∷ []
push_fill e (f ∷ fs) = if is_before e f then e ∷ f ∷ fs else f ∷ push_fill e fs

-- `while pending and pending[0][0] <= placement: _apply_fill(...)`
unfoldable pub apply_due : Spec → ℕ → List FillEvent → MmState → Result (MmState × List FillEvent)
apply_due spec placement [] s = ok (s, [])
apply_due spec placement (e ∷ es) s =
    if leb e.event_time placement
    then apply_fill spec e s >>= apply_due spec placement es
    else ok (s, e ∷ es)

-- `while pending: _apply_fill(...)`
unfoldable pub drain : Spec → List FillEvent → MmState → Result MmState
drain spec [] s = ok s
drain spec (e ∷ es) s = apply_fill spec e s >>= drain spec es
