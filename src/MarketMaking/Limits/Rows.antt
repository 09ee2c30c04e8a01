-- ===== src/MarketMaking/Limits/Rows.antt =====
-- The rows of a schedule keep the position within its limit.
use crypto_microstructure_ma.Prelude.{
  ℕ, ◌+◌, ◌≤◌, ◌≡◌, refl, false, not, inl, inr, Option, none, some, List, [], ◌∷◌, arith,
  Bool-cases, ltb, All,
}
use crypto_microstructure_ma.Prelude.Int.{ℤ, int_laws}
use crypto_microstructure_ma.MarketMaking.Permission.{
  Side, bid, ask, other_side, Spec, Policy, Reason, inventory, obi, Checked, bind-Checked,
  any-Checked, inventory_blocks, quote_permission,
}
use crypto_microstructure_ma.MarketMaking.Fills.{
  FillStatus, full, partial, unfilled, other_status, MmState, apply_due, drain,
}
use crypto_microstructure_ma.MarketMaking.Schedule.{
  Row, Sim, Settings, Outcome, available_on, set_available, is_occupied, full_outcome,
  partial_outcome, outcome_of, place, submit, selector_blocks, on_permission, offer, on_available,
  on_row_at, on_row, run_rows, initial_state, initial_sim, simulate_fills, is_valid_status,
  difference,
}
use crypto_microstructure_ma.MarketMaking.Limits.Rooms.{HasRoom, limit_of}
use crypto_microstructure_ma.MarketMaking.Limits.Queue.{IsLeft, apply_due-IsLeft, drain-HasRoom}
use crypto_microstructure_ma.MarketMaking.Limits.Orders.{
  IsWithin, IsAtRow, IsReady, IsFree, Fits, IsTimely, count-IsAtRow, at_row-IsWithin,
  set_available-IsReady, ready-IsWithin, queue_fill-IsWithin,
}

allows-bid : (held : ℤ) (spec : Spec) → inventory_blocks bid held spec ≡ false → Fits bid held spec
unfolding inventory_blocks
allows-bid held spec h = grind (int_laws, h)

allows-ask : (held : ℤ) (spec : Spec) → inventory_blocks ask held spec ≡ false → Fits ask held spec
unfolding inventory_blocks
allows-ask held spec h = grind (int_laws, h)

-- A quote that is allowed fits.
quote_permission-Fits :
    (policy : Policy) (side : Side) (held : ℤ) (imbalance : Option ℤ) (spec : Spec)
    → Checked
        (λ r. r ≡ none → Fits side held spec)
        (quote_permission policy side held imbalance spec)
unfolding quote_permission
quote_permission-Fits policy other_side held imbalance spec = tt
quote_permission-Fits policy bid held imbalance spec =
    elim (Bool-cases (inventory_blocks bid held spec)) [
      | inl e ↦ rw e (λ q. cc)
      | inr e ↦
          rw e (any-Checked (λ r. r ≡ none → Fits bid held spec) _ (λ r q. allows-bid held spec e))
    ]
quote_permission-Fits policy ask held imbalance spec =
    elim (Bool-cases (inventory_blocks ask held spec)) [
      | inl e ↦ rw e (λ q. cc)
      | inr e ↦
          rw e (any-Checked (λ r. r ≡ none → Fits ask held spec) _ (λ r q. allows-ask held spec e))
    ]

abbrev FillsAtMost : ℕ → Outcome → Type 0
FillsAtMost q o = o.fill_qty ≤ q

full_outcome-FillsAtMost :
    (start end : Option ℕ) (row : Row)
    → Checked (FillsAtMost row.filled_qty) (full_outcome start end row)
unfolding full_outcome
full_outcome-FillsAtMost none end row = tt
full_outcome-FillsAtMost (some t) none row = tt
full_outcome-FillsAtMost (some t) (some end) row = omega arith

partial_outcome-FillsAtMost :
    (start : Option ℕ) (row : Row)
    → Checked (FillsAtMost row.filled_qty) (partial_outcome start row)
unfolding partial_outcome
partial_outcome-FillsAtMost none row = tt
partial_outcome-FillsAtMost (some t) row = omega arith

outcome_of-FillsAtMost :
    (status : FillStatus) (row : Row) → Checked (FillsAtMost row.filled_qty) (outcome_of status row)
unfolding outcome_of
outcome_of-FillsAtMost full row = full_outcome-FillsAtMost row.first_fill row.full_fill row
outcome_of-FillsAtMost partial row = partial_outcome-FillsAtMost row.first_fill row
outcome_of-FillsAtMost unfilled row = omega arith
outcome_of-FillsAtMost other_status row = omega arith

place-IsWithin :
    (spec : Spec) (row : Row) (m : Sim) (o : Outcome)
    → ((end : ℕ) → IsReady spec row.side end (set_available row.side end m))
    → o.fill_qty ≤ spec.quote_qty
    → Checked (IsWithin spec) (place spec row m o)
unfolding place
place-IsWithin spec row m o h q =
    let m2 = set_available row.side o.order_end m in
    elim (Bool-cases (ltb o.order_end row.placement)) [
      | inl e ↦ rw e tt
      | inr e ↦ rw e (elim (Bool-cases (ltb spec.quantity_tolerance o.fill_qty)) [
        | inl f ↦ rw f (queue_fill-IsWithin spec row o.event_time o m2 (h o.order_end) q)
        | inr f ↦ rw f (ready-IsWithin spec row.side o.order_end m2 (h o.order_end))
      ])
    ]

count-IsFree :
    (side : Side) (placement : ℕ) (m : Sim) (t : MmState)
    → IsFree side placement m
    → IsFree side placement (record m { state = t })
count-IsFree bid placement m t h = h
count-IsFree ask placement m t h = h
count-IsFree other_side placement m t h = h

submit-IsWithin :
    (spec : Spec) (row : Row) (m : Sim)
    → row.filled_qty ≤ spec.quote_qty
    → IsAtRow spec row.placement m
    → IsFree row.side row.placement m
    → Fits row.side m.state.inventory spec
    → Checked (IsWithin spec) (submit spec row m)
unfolding submit
submit-IsWithin spec row m q h free fits =
    let s = m.state in
    let t : MmState = record s { maker_quote_attempts = s.maker_quote_attempts + 1 } in
    let m2 : Sim = record m { state = t } in
    let ready : (end : ℕ) → IsReady spec row.side end (set_available row.side end m2) = λ end.
      set_available-IsReady spec row.side row.placement end m2
        (count-IsAtRow spec row.placement m t refl refl refl h)
        (count-IsFree row.side row.placement m t free) fits in
    bind-Checked (FillsAtMost row.filled_qty) (IsWithin spec) (place spec row m2)
      (outcome_of row.fill_status row) (outcome_of-FillsAtMost row.fill_status row)
      (λ o k. place-IsWithin spec row m2 o ready (omega arith))

-- Counting a row that submits nothing.
count-IsWithin :
    (spec : Spec) (placement : ℕ) (m : Sim) (t : MmState)
    → t.inventory ≡ m.state.inventory
    → t.maximum_absolute_inventory ≡ m.state.maximum_absolute_inventory
    → t.inventory_limit_violations ≡ m.state.inventory_limit_violations
    → IsAtRow spec placement m
    → IsWithin spec (record m { state = t })
count-IsWithin spec placement m t i x v h =
    at_row-IsWithin spec placement _ (count-IsAtRow spec placement m t i x v h)

module _ (g : Settings) (row : Row) (q : row.filled_qty ≤ g.spec.quote_qty) where
  on_permission-IsWithin :
      (m : Sim) (reason : Option Reason)
      → IsAtRow g.spec row.placement m
      → IsFree row.side row.placement m
      → (reason ≡ none → Fits row.side m.state.inventory g.spec)
      → Checked (IsWithin g.spec) (on_permission g row m reason)
  unfolding on_permission
  on_permission-IsWithin m (some inventory) h free fits =
      count-IsWithin g.spec row.placement m _ refl refl refl h
  on_permission-IsWithin m (some obi) h free fits =
      count-IsWithin g.spec row.placement m _ refl refl refl h
  on_permission-IsWithin m none h free fits = elim (Bool-cases (selector_blocks g row m)) [
    | inl e ↦ rw e (count-IsWithin g.spec row.placement m _ refl refl refl h)
    | inr e ↦ rw e (submit-IsWithin g.spec row m q h free (fits refl))
  ]

  offer-IsWithin :
      (m : Sim)
      → IsAtRow g.spec row.placement m
      → IsFree row.side row.placement m
      → Checked (IsWithin g.spec) (offer g row m)
  unfolding offer
  offer-IsWithin m h free = elim (Bool-cases (not (is_valid_status row.fill_status))) [
    | inl e ↦ rw e (count-IsWithin g.spec row.placement m _ refl refl refl h)
    | inr e ↦
        rw e
          (elim (Bool-cases
            (ltb g.spec.quantity_tolerance (difference row.quote_qty g.spec.quote_qty))) [
              | inl f ↦ rw f tt
              | inr f ↦ rw f (
                  bind-Checked (λ r. r ≡ none → Fits row.side m.state.inventory g.spec)
                    (IsWithin g.spec) (on_permission g row m)
                    (quote_permission g.policy row.side m.state.inventory row.weighted_obi g.spec)
                    (quote_permission-Fits g.policy row.side m.state.inventory row.weighted_obi
                      g.spec)
                    (λ r fits. on_permission-IsWithin m r h free fits))
            ])
  ]

  available_on-IsFree :
      (side : Side) (m : Sim)
      → Checked
          (λ end. is_occupied row.placement end ≡ false → IsFree side row.placement m)
          (available_on side m)
  unfolding available_on
  available_on-IsFree bid m = λ e. e
  available_on-IsFree ask m = λ e. e
  available_on-IsFree other_side m = tt

  on_row_at-IsWithin :
      (m : Sim) → IsAtRow g.spec row.placement m → Checked (IsWithin g.spec) (on_row_at g row m)
  unfolding on_row_at on_available
  on_row_at-IsWithin m h =
      bind-Checked (λ end. is_occupied row.placement end ≡ false → IsFree row.side row.placement m)
        (IsWithin g.spec) (on_available g row m) (available_on row.side m)
        (available_on-IsFree row.side m)
        (λ end free. elim (Bool-cases (is_occupied row.placement end)) [
          | inl e ↦ rw e (count-IsWithin g.spec row.placement m _ refl refl refl h)
          | inr e ↦ rw e (offer-IsWithin m h (free e))
        ])

  on_row-IsWithin : (m : Sim) → IsWithin g.spec m → Checked (IsWithin g.spec) (on_row g row m)
  unfolding on_row
  on_row-IsWithin m h =
      bind-Checked (IsLeft g.spec (IsTimely m.available_bid m.available_ask) row.placement)
        (IsWithin g.spec) (λ r. on_row_at g row (record m { state = r.0; pending = r.1 }))
        (apply_due g.spec row.placement m.pending m.state)
        (apply_due-IsLeft g.spec (IsTimely m.available_bid m.available_ask) row.placement m.pending
          m.state h.room h.ordered h.timely)
        (λ r k.
          on_row_at-IsWithin (record m { state = r.0; pending = r.1 })
            (record { room = k.room; ordered = k.ordered; timely = k.kept; later = k.later }))

run_rows-IsWithin :
    (g : Settings) (rows : List Row) (m : Sim)
    → All (λ row. row.filled_qty ≤ g.spec.quote_qty) rows
    → IsWithin g.spec m
    → Checked (IsWithin g.spec) (run_rows g rows m)
unfolding run_rows
run_rows-IsWithin g [] m q h = h
run_rows-IsWithin g (row ∷ rows) m q h =
    bind-Checked (IsWithin g.spec) (IsWithin g.spec) (run_rows g rows) (on_row g row m)
      (on_row-IsWithin g row q.0 m h) (λ n k. run_rows-IsWithin g rows n q.1 k)

initial_sim-IsWithin : (spec : Spec) → IsWithin spec initial_sim
unfolding initial_sim initial_state
initial_sim-IsWithin spec = record {
  room = record {
    to_buy = omega arith;
    to_sell = omega arith;
    maximum = omega arith;
    violations = refl;
  };
  ordered = tt;
  timely = tt;
}

pub simulate_fills-HasRoom :
    (g : Settings) (rows : List Row)
    → All (λ row. row.filled_qty ≤ g.spec.quote_qty) rows
    → Checked (λ s. HasRoom (limit_of g.spec) s 0 0) (simulate_fills g rows)
unfolding simulate_fills
simulate_fills-HasRoom g rows q =
    bind-Checked (IsWithin g.spec) (λ s. HasRoom (limit_of g.spec) s 0 0)
      (λ m. drain g.spec m.pending m.state) (run_rows g rows initial_sim)
      (run_rows-IsWithin g rows initial_sim q (initial_sim-IsWithin g.spec))
      (λ m h. drain-HasRoom g.spec m.pending m.state h.room)
