-- ===== src/Execution/Tests.antt =====
-- The theorems of the execution engine on a small day: a long trade, a signal while it is open, a
-- signal at its exit, and one whose exit lies behind the day's end.
use crypto_microstructure_ma.Prelude.{◌≡◌, refl, Option, none, some, List, [], ◌∷◌, arith, true}
use crypto_microstructure_ma.Prelude.Int.{ℤ, pos, negsuc}
use crypto_microstructure_ma.Execution.Walk.{
  Level, FillResult, Result, ok, err, buy, floor_quantity, keep_level, finite_levels, is_ascending,
  is_descending, total_quantity, take_levels, fill_from, walk_levels, walk_ordered,
  walk_visible_book,
}
use crypto_microstructure_ma.Execution.Day.{
  GridRow, RunArguments, Run, keep_signal, signals_from, fill, make_trade, fill_all,
  decide_quantity, decide_at, decide, pass_before, add_trade, next, run_signals, no_counters,
  start_run, close_run, too_late, run_day_signals, run_day,
}
use crypto_microstructure_ma.Execution.Partition.{IsPartition, run_day-IsPartition}
use crypto_microstructure_ma.Execution.Windows.{IsApart, run_day-IsApart}
use crypto_microstructure_ma.Execution.Fills.{IsWalk, walk_visible_book-IsWalk}

abbrev asks : List Level
asks = (some 100, some 3) ∷ (none, some 4) ∷ (some 101, some 5) ∷ []

abbrev bids : List Level
bids = (some 99, some 6) ∷ (some 98, some 2) ∷ []

abbrev grid_row : GridRow
grid_row = record {
  valid_book = true;
  segment = some 1;
  best_bid = 99;
  best_ask = 100;
  bids = bids;
  asks = asks;
}

abbrev frame : List GridRow
frame = grid_row ∷ grid_row ∷ grid_row ∷ grid_row ∷ grid_row ∷ grid_row ∷ []

abbrev prediction : List (Option ℤ)
prediction = some (pos 2) ∷ some (pos 3) ∷ some (negsuc 4) ∷ none ∷ some (pos 0) ∷ some (pos 9) ∷ []

abbrev arguments : RunArguments
arguments = record {
  horizon_ms = 200;
  latency_ms = 50;
  prediction_threshold = 1;
  notional = 450;
  tick_size = 1;
  quantity_step = 1;
  participation_num = 1;
  participation_den = 2;
}

-- The code of the engine, for tests that run it.
engine_code : Unit {0}
unfolding floor_quantity keep_level finite_levels is_ascending is_descending total_quantity
    take_levels fill_from walk_levels walk_ordered walk_visible_book keep_signal signals_from fill
    make_trade fill_all decide_quantity decide_at decide pass_before add_trade next run_signals
    no_counters start_run close_run too_late run_day_signals run_day
engine_code = tt

abbrev run_or : Result Run → Run → Run
run_or (ok r) d = r
run_or (err e) d = d

abbrev day : Run
day = run_or (run_day arguments frame prediction) (start_run 0)

run_day-IsPartition_example : IsPartition day
unfolding engine_code
run_day-IsPartition_example = run_day-IsPartition arguments frame prediction day refl

run_day-IsApart_example : IsApart frame 0 day.trades
unfolding engine_code
run_day-IsApart_example = run_day-IsApart arguments frame prediction day refl

day-completed : day.counters.completed_trades ≡ 2
unfolding engine_code
day-completed = refl

abbrev fill_or : Result (Option FillResult) → Option FillResult
fill_or (ok f) = f
fill_or (err e) = none

-- Four lots cost 100 + 100 + 100 + 101.
walk_visible_book-IsWalk_example :
    IsWalk (finite_levels asks) 4 (fill_or (walk_visible_book asks 4 buy 1))
unfolding engine_code
walk_visible_book-IsWalk_example =
    walk_visible_book-IsWalk asks 4 1 buy (fill_or (walk_visible_book asks 4 buy 1)) (omega arith)
      (omega arith) refl
