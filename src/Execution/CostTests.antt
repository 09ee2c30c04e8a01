-- ===== src/Execution/CostTests.antt =====
-- A long trade of two at a fee of four basis points, with a penalty of a tick for each fill.
use crypto_microstructure_ma.Prelude.{◌≡◌, refl, true}
use crypto_microstructure_ma.Prelude.Int.{pos, ◌+ℤ◌, ◌-ℤ◌}
use crypto_microstructure_ma.Execution.Costs.{
  TradeAmounts, signed_gain, worsened_entry, worsened_exit, cost_layers, LayersAddUp,
  cost_layers-LayersAddUp,
}

abbrev small_trade : TradeAmounts
small_trade = record {
  is_long = true;
  quantity = 2;
  entry_mid = 200;
  exit_mid = 220;
  entry_touch = 202;
  exit_touch = 218;
  zero_entry = 203;
  actual_entry = 204;
  exit = 217;
}

cost_layers-LayersAddUp_example : LayersAddUp 4 1 1 small_trade
cost_layers-LayersAddUp_example = cost_layers-LayersAddUp 4 1 1 small_trade

-- Ninety thousand after the penalties of forty thousand, less a fee of 1684 ten-thousandths.
small_net : (cost_layers 4 1 1 small_trade).layer4_net ≡ pos 88316
unfolding signed_gain worsened_entry worsened_exit cost_layers ◌+ℤ◌ ◌-ℤ◌
small_net = refl
