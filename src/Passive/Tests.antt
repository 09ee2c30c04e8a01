-- ===== src/Passive/Tests.antt =====
-- A bid at 100 for 10 behind a queue of 5, and trades of which the first and the last are outside
-- the order's life.
use crypto_microstructure_ma.Prelude.{ℕ, ◌≡◌, refl, true, some, List, [], ◌∷◌, arith}
use crypto_microstructure_ma.Prelude.Search.{search_right, search_left}
use crypto_microstructure_ma.Passive.Replay.{
  bid, sell, trade_through, Trade, Fill, Probe, qualifying_trade, qualifies, replay_end,
  replay_window, initial_replay, fill_through, fill_at_price, record_trade, fill_by, on_trade,
  is_done, replay_trades, count_relevant, recompute, compare_fills, replay_sample, is_consistent,
}
use crypto_microstructure_ma.Passive.Replay.Queue.{IsWithin, replay_sample-IsWithin}
use crypto_microstructure_ma.Passive.Replay.Times.{
  AreFillsOf, Holds, IsInside, replay_trades-AreTimed,
}

abbrev trade_at : ℕ → ℕ → ℕ → Trade
trade_at time price amount = record {
  timestamp = time;
  local_timestamp = time;
  trade_id = time;
  side = sell;
  price = price;
  amount = amount;
}

abbrev small_trades : List Trade
small_trades =
    trade_at 10 99 9
    ∷ trade_at 12 100 8
    ∷ trade_at 13 101 8
    ∷ trade_at 14 100 4
    ∷ trade_at 15 99 1
    ∷ trade_at 30 99 1
    ∷ []

abbrev small_fill : Fill
small_fill = record {
  filled_qty = 10;
  first_fill_local = some 12;
  first_fill_exchange = some 12;
  full_fill_local = some 15;
  full_fill_exchange = some 15;
  fill_reason = some trade_through;
}

abbrev small_probe : Probe
small_probe = record {
  side = bid;
  quote_price = some 100;
  quote_qty = 10;
  queue_ahead_initial = some 5;
  placement_local = 10;
  expiry_local = 40;
  next_snapshot_local = some 30;
  simulator = small_fill;
}

replay_sample-IsWithin_example :
    IsWithin 1 (replay_sample 1 2 small_probe small_trades).recomputed.filled_qty 10
unfolding qualifying_trade qualifies replay_end replay_window search_right search_left
replay_sample-IsWithin_example = replay_sample-IsWithin 1 2 small_probe small_trades

replay_trades-AreTimed_example :
    let s =
      replay_trades 1 small_probe
        (replay_window small_probe small_trades)
        (initial_replay small_probe) in
    AreFillsOf 1 10 s
    × Holds (IsInside small_probe) s.first_fill
    × Holds (IsInside small_probe) s.full_fill
replay_trades-AreTimed_example =
    replay_trades-AreTimed 1 small_probe small_trades (omega arith) (ground arith)

small_replay : is_consistent (replay_sample 1 2 small_probe small_trades) ≡ true
unfolding qualifying_trade qualifies replay_end replay_window search_right search_left
    initial_replay fill_through fill_at_price record_trade fill_by on_trade is_done replay_trades
    count_relevant recompute compare_fills replay_sample is_consistent
small_replay = refl
