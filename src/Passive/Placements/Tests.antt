-- ===== src/Passive/Placements/Tests.antt =====
-- Two samples, of which the second is placed when its trade is known, and three snapshots.
use crypto_microstructure_ma.Prelude.{ℕ, Option, none, some, List, [], ◌∷◌, arith}
use crypto_microstructure_ma.Prelude.Results.{Checked}
use crypto_microstructure_ma.Prelude.Search.{search_right}
use crypto_microstructure_ma.Passive.Replay.{replay_end}
use crypto_microstructure_ma.Passive.Placements.{
  SampleRow, placement_local_of, next_snapshot, placement_of, build_placements,
}
use crypto_microstructure_ma.Passive.Placements.NextSnapshot.{
  NoneInside, placement_of-NoneInside, AreOrdered, build_placements-AreOrdered,
}

abbrev sample_at : ℕ → Option ℕ → SampleRow
sample_at time trade = record {
  sample_time = time;
  latest_book_event = some time;
  latest_book_local = some time;
  latest_trade_event = none;
  latest_trade_local = trade;
}

abbrev small_samples : List SampleRow
small_samples = sample_at 100000 none ∷ sample_at 200000 (some 200500) ∷ []

abbrev small_snapshots : List ℕ
small_snapshots = 100 ∷ 200500 ∷ 300000 ∷ []

placement_of-NoneInside_example : NoneInside 200500 300000 small_snapshots
unfolding placement_local_of search_right next_snapshot placement_of replay_end
placement_of-NoneInside_example =
    placement_of-NoneInside small_snapshots (sample_at 200000 (some 200500)) 400000 (ground arith)

build_placements-AreOrdered_example :
    Checked AreOrdered (build_placements 2 small_snapshots small_samples)
build_placements-AreOrdered_example = build_placements-AreOrdered 2 small_snapshots small_samples
