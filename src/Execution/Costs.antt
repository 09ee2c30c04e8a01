-- ===== src/Execution/Costs.antt =====
-- The layers of a trade's result in pyresearch/execution/engine.py: the columns that `run_day` fills
-- in, and `add_cost_layers`. A price stands multiplied with the trade's quantity, which makes it the
-- exact amount that is paid, and amounts are in ten-thousandths of their unit, which makes a fee in
-- basis points exact. The columns that are quotients of these are left out.
use crypto_microstructure_ma.Prelude.{ℕ, ◌+◌, ◌*◌, ◌≡◌, Bool, true, false, arith, if◌then◌else◌}
use crypto_microstructure_ma.Prelude.Int.{
  ℤ, pos, sub_ℕ, ◌+ℤ◌, ◌-ℤ◌, pos_part, neg_part, eq_of_parts, int_laws,
}

-- What a trade pays and receives at each layer, by the amounts at the entry and at the exit: at the
-- mid of the decision, at the touch, and filled with no latency and with the latency.
pub record TradeAmounts : Type 0 where
  pub is_long : Bool
  pub quantity : ℕ
  pub entry_mid : ℕ
  pub exit_mid : ℕ
  pub entry_touch : ℕ
  pub exit_touch : ℕ
  pub zero_entry : ℕ
  pub actual_entry : ℕ
  pub exit : ℕ

pub record CostLayers : Type 0 where
  pub layer0_mid : ℤ
  pub touch_executable : ℤ
  pub layer1_gross : ℤ
  pub actual_gross : ℤ
  pub spread_drag : ℤ
  pub depth_slippage_drag : ℤ
  pub latency_decay : ℤ
  pub zero_fee : ℕ
  pub layer2_net : ℤ
  pub fee_drag : ℕ
  pub layer3_net : ℤ
  pub stress_penalty_drag : ℤ
  pub layer4_net : ℤ

-- An amount in ten-thousandths.
abbrev pub scaled : ℕ → ℤ
scaled n = pos (n * 10000)

abbrev pub times : ℕ → ℤ → ℤ
times k a = sub_ℕ (pos_part a * k) (neg_part a * k)

-- `direction * (exit - entry)`
unfoldable pub signed_gain : Bool → ℤ → ℤ → ℤ
signed_gain is_long entry exit = if is_long then exit -ℤ entry else entry -ℤ exit

-- The price with the penalty against the trade: `entry + direction * penalty`.
unfoldable pub worsened_entry : Bool → ℕ → ℤ → ℤ
worsened_entry is_long penalty entry =
    if is_long then entry +ℤ pos penalty else entry -ℤ pos penalty

unfoldable pub worsened_exit : Bool → ℕ → ℤ → ℤ
worsened_exit is_long penalty exit = if is_long then exit -ℤ pos penalty else exit +ℤ pos penalty

-- `add_cost_layers`, for one trade with the columns of `run_day`. The penalty is in ticks for each
-- fill, and a fee is in basis points for each side.
unfoldable pub cost_layers : ℕ → ℕ → ℕ → TradeAmounts → CostLayers
cost_layers fee_bps penalty_ticks tick_size t =
    let gain = signed_gain t.is_long in
    let layer0 = gain (scaled t.entry_mid) (scaled t.exit_mid) in
    let touch = gain (scaled t.entry_touch) (scaled t.exit_touch) in
    let zero_gross = gain (scaled t.zero_entry) (scaled t.exit) in
    let actual_gross = gain (scaled t.actual_entry) (scaled t.exit) in
    let zero_fee = t.zero_entry * fee_bps + t.exit * fee_bps in
    let actual_fee = t.actual_entry * fee_bps + t.exit * fee_bps in
    let penalty = penalty_ticks * tick_size * t.quantity in
    let stress_entry = worsened_entry t.is_long penalty (pos t.actual_entry) in
    let stress_exit = worsened_exit t.is_long penalty (pos t.exit) in
    let stress_gross = times 10000 (gain stress_entry stress_exit) in
    let stress_fee = times fee_bps (stress_entry +ℤ stress_exit) in
    record {
      layer0_mid = layer0;
      touch_executable = touch;
      layer1_gross = zero_gross;
      actual_gross = actual_gross;
      spread_drag = layer0 -ℤ touch;
      depth_slippage_drag = touch -ℤ zero_gross;
      latency_decay = zero_gross -ℤ actual_gross;
      zero_fee = zero_fee;
      layer2_net = zero_gross -ℤ pos zero_fee;
      fee_drag = actual_fee;
      layer3_net = actual_gross -ℤ pos actual_fee;
      stress_penalty_drag = actual_gross -ℤ stress_gross;
      layer4_net = stress_gross -ℤ stress_fee;
    }

-- How the layers of a trade hang together.
pub record LayersAddUp (fee_bps penalty_ticks tick_size : ℕ) (t : TradeAmounts) : Type 0 where
  pub gross :
      let l = cost_layers fee_bps penalty_ticks tick_size t in
      l.layer0_mid ≡ l.actual_gross +ℤ l.latency_decay +ℤ l.depth_slippage_drag +ℤ l.spread_drag
  pub net :
      let l = cost_layers fee_bps penalty_ticks tick_size t in
      l.actual_gross ≡ l.layer3_net +ℤ pos l.fee_drag
  pub stress :
      let l = cost_layers fee_bps penalty_ticks tick_size t in
      l.layer3_net ≡ l.layer4_net +ℤ l.stress_penalty_drag
  pub penalty :
      (cost_layers fee_bps penalty_ticks tick_size t).stress_penalty_drag
      ≡ pos (2 * (penalty_ticks * tick_size * t.quantity) * 10000)

times_parts :
    (k : ℕ) (a : ℤ) → pos_part (times k a) + neg_part a * k ≡ neg_part (times k a) + pos_part a * k
times_parts k a = ground arith

fee_of_sum : (fee_bps a b : ℕ) → times fee_bps (pos (a + b)) ≡ pos (a * fee_bps + b * fee_bps)
fee_of_sum fee_bps a b = eq_of_parts _ _ (omega (arith, times_parts fee_bps (pos (a + b))))

-- The worsened prices sum to the actual ones, and are two penalties apart from them.
worsened-sum :
    (is_long : Bool) (penalty entry exit : ℕ)
    → worsened_entry is_long penalty (pos entry) +ℤ worsened_exit is_long penalty (pos exit)
      ≡ pos (entry + exit)
unfolding worsened_entry worsened_exit
worsened-sum true penalty entry exit = eq_of_parts _ _ (omega int_laws)
worsened-sum false penalty entry exit = eq_of_parts _ _ (omega int_laws)

worsened-gain :
    (is_long : Bool) (penalty entry exit : ℕ)
    → signed_gain is_long (scaled entry) (scaled exit)
        -ℤ times 10000 (
            signed_gain is_long
              (worsened_entry is_long penalty (pos entry))
              (worsened_exit is_long penalty (pos exit)))
      ≡ pos (2 * penalty * 10000)
unfolding worsened_entry worsened_exit signed_gain
worsened-gain true penalty entry exit =
    let g = pos exit -ℤ pos penalty -ℤ (pos entry +ℤ pos penalty) in
    eq_of_parts _ _ (omega (int_laws, times_parts 10000 g))
worsened-gain false penalty entry exit =
    let g = pos entry -ℤ pos penalty -ℤ (pos exit +ℤ pos penalty) in
    eq_of_parts _ _ (omega (int_laws, times_parts 10000 g))

-- The result at the mid is the gross result and the drags of latency, depth and spread; the gross
-- result is the net one and the fees; the net result is the stressed one and the penalty's drag,
-- which is twice the penalty, as the fees of the worsened prices are those of the actual ones.
pub cost_layers-LayersAddUp :
    (fee_bps penalty_ticks tick_size : ℕ) (t : TradeAmounts)
    → LayersAddUp fee_bps penalty_ticks tick_size t
unfolding cost_layers
cost_layers-LayersAddUp fee_bps penalty_ticks tick_size t =
    let p = penalty_ticks * tick_size * t.quantity in
    record {
      gross = eq_of_parts _ _ (omega int_laws);
      net = eq_of_parts _ _ (omega int_laws);
      stress =
          rw
            (
              worsened-sum t.is_long p t.actual_entry t.exit,
              fee_of_sum fee_bps t.actual_entry t.exit,
            )
            (eq_of_parts _ _ (omega int_laws));
      penalty = worsened-gain t.is_long p t.actual_entry t.exit;
    }
