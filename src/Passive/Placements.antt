-- ===== src/Passive/Placements.antt =====
-- `build_placements` of pyresearch/passive/placements.py: when an order can be placed on a sample of
-- the day, and the snapshot of the book that comes next. Times are in microseconds; what is missing
-- is `none`. The model's prediction, the day's date and the file are left out.
use crypto_microstructure_ma.Prelude.Arrays.{or_zero}
use crypto_microstructure_ma.Prelude.{
  ℕ, zero, suc, ◌+◌, ◌-◌, max, Bool, true, false, ◌&&◌, ◌||◌, not, Option, none, some, List, [],
  ◌∷◌, map, ltb, leb, ◌==◌, if◌then◌else◌, length,
}
use crypto_microstructure_ma.Prelude.Results.{Fallible, ok, err}
use crypto_microstructure_ma.Prelude.Search.{search_right}
pub mod NextSnapshot
mod Tests

pub record SampleRow : Type 0 where
  pub sample_time : ℕ
  pub latest_book_event : Option ℕ
  pub latest_book_local : Option ℕ
  pub latest_trade_event : Option ℕ
  pub latest_trade_local : Option ℕ

pub record Placement : Type 0 where
  pub decision_time : ℕ
  pub placement_local : ℕ
  pub next_snapshot_local : ℕ

pub data PlacementError : Type 0 where
  wrong_day_length off_grid future_leakage time_regressed : PlacementError

-- `np.maximum.reduce([decision, book_local, trade_local])`
unfoldable pub placement_local_of : SampleRow → ℕ
placement_local_of row =
    max (max row.sample_time (or_zero row.latest_book_local)) (or_zero row.latest_trade_local)

-- `source["sample_time_us"].diff().dropna().eq(100_000).all()`
unfoldable pub is_on_grid : List SampleRow → Bool
is_on_grid [] = true
is_on_grid (a ∷ []) = true
is_on_grid (a ∷ b ∷ rows) = (b.sample_time == a.sample_time + 100000) && is_on_grid (b ∷ rows)

abbrev pub is_after : Option ℕ → ℕ → Bool
is_after none time = false
is_after (some event) time = ltb time event

unfoldable pub any_leakage : List SampleRow → Bool
any_leakage [] = false
any_leakage (row ∷ rows) =
    is_after row.latest_book_event row.sample_time
    || is_after row.latest_trade_event row.sample_time
    || any_leakage rows

-- `np.any(np.diff(placement_local) < 0)`
unfoldable pub regresses : List SampleRow → Bool
regresses [] = false
regresses (a ∷ []) = false
regresses (a ∷ b ∷ rows) = ltb (placement_local_of b) (placement_local_of a) || regresses (b ∷ rows)

-- The value at an index, or zero past the end.
abbrev pub value_or_zero : List ℕ → ℕ → ℕ
value_or_zero [] i = 0
value_or_zero (s ∷ ss) zero = s
value_or_zero (s ∷ ss) (suc i) = value_or_zero ss i

unfoldable pub next_snapshot : List ℕ → ℕ → ℕ
next_snapshot snapshots time = value_or_zero snapshots (search_right (λ s. s) time snapshots)

unfoldable pub placement_of : List ℕ → SampleRow → Placement
placement_of snapshots row = record {
  decision_time = row.sample_time;
  placement_local = placement_local_of row;
  next_snapshot_local = next_snapshot snapshots (placement_local_of row);
}

unfoldable pub build_placements :
    ℕ → List ℕ → List SampleRow → Fallible PlacementError (List Placement)
build_placements day_rows snapshots rows =
    if not (length rows == day_rows)
    then err wrong_day_length
    else if not (is_on_grid rows)
    then err off_grid
    else if any_leakage rows
    then err future_leakage
    else if regresses rows
    then err time_regressed
    else ok (map (placement_of snapshots) rows)
