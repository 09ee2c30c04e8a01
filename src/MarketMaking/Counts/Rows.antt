-- ===== src/MarketMaking/Counts/Rows.antt =====
-- The counters and accounts of a simulation add up, row by row.
use crypto_microstructure_ma.Prelude.{
  ℕ, suc, ◌+◌, ◌≤◌, ◌≡◌, refl, subst, inl, inr, Option, none, some, List, [], ◌∷◌, arith,
  Bool-cases, ltb, ◌||◌, not, length,
}
use crypto_microstructure_ma.MarketMaking.Permission.{
  Side, bid, ask, other_side, Spec, Reason, inventory, obi, Checked, bind-Checked, any-Checked,
  map-Checked, quote_permission,
}
use crypto_microstructure_ma.MarketMaking.Fills.{
  FillEvent, MmState, is_before, push_fill, apply_due, drain,
}
use crypto_microstructure_ma.MarketMaking.Schedule.{
  Row, Sim, Settings, Outcome, available_on, set_available, is_occupied, outcome_of, queue_fill,
  place, submit, selector_blocks, on_permission, offer, on_available, on_row_at, on_row, run_rows,
  initial_state, initial_sim, simulate_fills, is_valid_status, difference,
}
use crypto_microstructure_ma.MarketMaking.Counts.Fills.{
  HasCounts, apply_due-HasCounts, drain-HasCounts,
}

push-length : (e : FillEvent) (es : List FillEvent) → length (push_fill e es) ≡ suc (length es)
unfolding push_fill
push-length e [] = refl
push-length e (f ∷ fs) = elim (Bool-cases (is_before e f)) [
  | inl q ↦ rw q refl
  | inr q ↦ rw q (omega (arith, push-length e fs))
]

-- After a number of rows.
abbrev IsCounted : Spec → ℕ → Sim → Type 0
IsCounted spec rows m = HasCounts spec (length m.pending) m.sequence rows m.state

-- The row's attempt is counted, and its fill is not queued yet.
record IsSubmitted (spec : Spec) (rows : ℕ) (m : Sim) : Type 0 where
  counts : HasCounts spec (length m.pending) m.sequence rows m.state
  room : suc m.sequence ≤ m.state.maker_quote_attempts

set_available-IsSubmitted :
    (spec : Spec) (rows : ℕ) (side : Side) (end : ℕ) (m : Sim)
    → IsSubmitted spec rows m
    → IsSubmitted spec rows (set_available side end m)
unfolding set_available
set_available-IsSubmitted spec rows bid end m h = record { counts = h.counts; room = h.room }
set_available-IsSubmitted spec rows ask end m h = record { counts = h.counts; room = h.room }
set_available-IsSubmitted spec rows other_side end m h = h

module _ (spec : Spec) (rows : ℕ) where
  push-IsCounted :
      (e : FillEvent) (m : Sim)
      → IsSubmitted spec rows m
      → IsCounted spec rows
          (record m { sequence = m.sequence + 1; pending = push_fill e m.pending })
  push-IsCounted e m h = record {
    position = h.counts.position;
    quantity = h.counts.quantity;
    fees = h.counts.fees;
    fills = omega (arith, h.counts.fills, push-length e m.pending);
    attempts = omega (arith, h.room);
    by_row = h.counts.by_row;
  }

  queue_fill-IsCounted :
      (row : Row) (time : Option ℕ) (o : Outcome) (m : Sim)
      → IsSubmitted spec rows m
      → Checked (IsCounted spec rows) (queue_fill row time o m)
  unfolding queue_fill
  queue_fill-IsCounted row none o m h = tt
  queue_fill-IsCounted row (some t) o m h =
      elim (Bool-cases (ltb t row.placement || ltb o.order_end t)) [
        | inl e ↦ rw e tt
        | inr e ↦ rw e (push-IsCounted _ m h)
      ]

  place-IsCounted :
      (row : Row) (m : Sim) (o : Outcome)
      → IsSubmitted spec rows m
      → Checked (IsCounted spec rows) (place spec row m o)
  unfolding place
  place-IsCounted row m o h =
      let k = set_available-IsSubmitted spec rows row.side o.order_end m h in
      elim (Bool-cases (ltb o.order_end row.placement)) [
        | inl e ↦ rw e tt
        | inr e ↦ rw e (elim (Bool-cases (ltb spec.quantity_tolerance o.fill_qty)) [
          | inl f ↦ rw f (queue_fill-IsCounted row o.event_time o _ k)
          | inr f ↦ rw f k.counts
        ])
      ]

-- One more row is counted, and nothing else is changed.
count-IsCounted :
    (spec : Spec) (rows : ℕ) (m : Sim) (t : MmState)
    → HasCounts spec (length m.pending) m.sequence (suc rows) t
    → IsCounted spec (suc rows) (record m { state = t })
count-IsCounted spec rows m t h = h

submit-IsCounted :
    (spec : Spec) (rows : ℕ) (row : Row) (m : Sim)
    → IsCounted spec rows m
    → Checked (IsCounted spec (suc rows)) (submit spec row m)
unfolding submit
submit-IsCounted spec rows row m h =
    let s = m.state in
    let m2 : Sim = record m {
      state = record s { maker_quote_attempts = s.maker_quote_attempts + 1 };
    } in
    let k : IsSubmitted spec (suc rows) m2 = record {
      counts = record {
        position = h.position;
        quantity = h.quantity;
        fees = h.fees;
        fills = h.fills;
        attempts = omega (arith, h.attempts);
        by_row = omega (arith, h.by_row);
      };
      room = omega (arith, h.attempts);
    } in
    bind-Checked (λ o. Unit {0}) (IsCounted spec (suc rows)) (place spec row m2)
      (outcome_of row.fill_status row) (any-Checked (λ o. Unit {0}) _ (λ o. tt))
      (λ o u. place-IsCounted spec (suc rows) row m2 o k)

-- A row that submits nothing is counted under the reason for it.
suppress-HasCounts :
    (spec : Spec) (w n rows : ℕ) (s : MmState) (i b c a v : ℕ)
    → i + b + c + a + v
      ≡ suc (
          s.suppressed_by_inventory + s.suppressed_by_obi + s.suppressed_by_selector
          + s.active_order_conflicts + s.invalid_placements)
    → HasCounts spec w n rows s
    → HasCounts spec w n (suc rows) (record s {
      suppressed_by_inventory = i;
      suppressed_by_obi = b;
      suppressed_by_selector = c;
      active_order_conflicts = a;
      invalid_placements = v;
    })
suppress-HasCounts spec w n rows s i b c a v e h = record {
  position = h.position;
  quantity = h.quantity;
  fees = h.fees;
  fills = h.fills;
  attempts = h.attempts;
  by_row = omega (arith, e, h.by_row);
}

module _ (g : Settings) (rows : ℕ) (row : Row) where
  on_permission-IsCounted :
      (m : Sim) (reason : Option Reason)
      → IsCounted g.spec rows m
      → Checked (IsCounted g.spec (suc rows)) (on_permission g row m reason)
  unfolding on_permission
  on_permission-IsCounted m (some inventory) h =
      suppress-HasCounts g.spec _ _ rows m.state _ _ _ _ _ (omega arith) h
  on_permission-IsCounted m (some obi) h =
      suppress-HasCounts g.spec _ _ rows m.state _ _ _ _ _ (omega arith) h
  on_permission-IsCounted m none h = elim (Bool-cases (selector_blocks g row m)) [
    | inl e ↦ rw e (suppress-HasCounts g.spec _ _ rows m.state _ _ _ _ _ (omega arith) h)
    | inr e ↦ rw e (submit-IsCounted g.spec rows row m h)
  ]

  offer-IsCounted :
      (m : Sim) → IsCounted g.spec rows m → Checked (IsCounted g.spec (suc rows)) (offer g row m)
  unfolding offer
  offer-IsCounted m h = elim (Bool-cases (not (is_valid_status row.fill_status))) [
    | inl e ↦ rw e (suppress-HasCounts g.spec _ _ rows m.state _ _ _ _ _ (omega arith) h)
    | inr e ↦
        rw e
          (elim (Bool-cases
            (ltb g.spec.quantity_tolerance (difference row.quote_qty g.spec.quote_qty))) [
              | inl f ↦ rw f tt
              | inr f ↦ rw f (
                  bind-Checked (λ r. Unit {0}) (IsCounted g.spec (suc rows)) (on_permission g row m)
                    (quote_permission g.policy row.side m.state.inventory row.weighted_obi g.spec)
                    (any-Checked (λ r. Unit {0}) _ (λ r. tt))
                    (λ r u. on_permission-IsCounted m r h))
            ])
  ]

  on_row_at-IsCounted :
      (m : Sim)
      → IsCounted g.spec rows m
      → Checked (IsCounted g.spec (suc rows)) (on_row_at g row m)
  unfolding on_row_at on_available
  on_row_at-IsCounted m h =
      bind-Checked (λ end. Unit {0}) (IsCounted g.spec (suc rows)) (on_available g row m)
        (available_on row.side m) (any-Checked (λ end. Unit {0}) _ (λ end. tt))
        (λ end u. elim (Bool-cases (is_occupied row.placement end)) [
          | inl e ↦ rw e (suppress-HasCounts g.spec _ _ rows m.state _ _ _ _ _ (omega arith) h)
          | inr e ↦ rw e (offer-IsCounted m h)
        ])

  on_row-IsCounted :
      (m : Sim) → IsCounted g.spec rows m → Checked (IsCounted g.spec (suc rows)) (on_row g row m)
  unfolding on_row
  on_row-IsCounted m h =
      bind-Checked (λ r. HasCounts g.spec (length r.1) m.sequence rows r.0)
        (IsCounted g.spec (suc rows))
        (λ r. on_row_at g row (record m { state = r.0; pending = r.1 }))
        (apply_due g.spec row.placement m.pending m.state)
        (apply_due-HasCounts g.spec m.sequence rows row.placement m.pending m.state h)
        (λ r k. on_row_at-IsCounted (record m { state = r.0; pending = r.1 }) k)

run_rows-IsCounted :
    (g : Settings) (done : ℕ) (rows : List Row) (m : Sim)
    → IsCounted g.spec done m
    → Checked (IsCounted g.spec (done + length rows)) (run_rows g rows m)
unfolding run_rows
run_rows-IsCounted g done [] m h = subst (λ n. IsCounted g.spec n m) (omega arith) h
run_rows-IsCounted g done (row ∷ rows) m h =
    subst (λ n. Checked (IsCounted g.spec n) (run_rows g (row ∷ rows) m)) (omega arith)
      (bind-Checked (IsCounted g.spec (suc done)) (IsCounted g.spec (suc done + length rows))
        (run_rows g rows) (on_row g row m) (on_row-IsCounted g done row m h)
        (run_rows-IsCounted g (suc done) rows))

initial_sim-IsCounted : (spec : Spec) → IsCounted spec 0 initial_sim
unfolding initial_sim initial_state
initial_sim-IsCounted spec = record {
  position = refl;
  quantity = refl;
  fees = omega arith;
  fills = refl;
  attempts = omega arith;
  by_row = refl;
}

pub simulate_fills-HasCounts :
    (g : Settings) (rows : List Row)
    → Checked (λ s. (n : ℕ) × HasCounts g.spec 0 n (length rows) s) (simulate_fills g rows)
unfolding simulate_fills
simulate_fills-HasCounts g rows =
    bind-Checked (IsCounted g.spec (length rows))
      (λ s. (n : ℕ) × HasCounts g.spec 0 n (length rows) s) (λ m. drain g.spec m.pending m.state)
      (run_rows g rows initial_sim)
      (subst (λ n. Checked (IsCounted g.spec n) (run_rows g rows initial_sim)) (omega arith)
        (run_rows-IsCounted g 0 rows initial_sim (initial_sim-IsCounted g.spec)))
      with_count
  where
    with_count :
        (m : Sim)
        → IsCounted g.spec (length rows) m
        → Checked
            (λ s. (n : ℕ) × HasCounts g.spec 0 n (length rows) s)
            (drain g.spec m.pending m.state)
    with_count m h =
        map-Checked (HasCounts g.spec 0 m.sequence (length rows))
          (λ s. (n : ℕ) × HasCounts g.spec 0 n (length rows) s) _ (λ s k. (m.sequence, k))
          (drain-HasCounts g.spec m.sequence (length rows) m.pending m.state h)
