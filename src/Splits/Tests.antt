-- ===== src/Splits/Tests.antt =====
-- Four blocks of ten, of which the first two are only trained on; and a row with two labels.
use crypto_microstructure_ma.Prelude.{ℕ, ◌≡◌, refl, ◌↔◌, true, List, [], ◌∷◌, arith, All, ltb}
use crypto_microstructure_ma.Prelude.Results.{err}
use crypto_microstructure_ma.Prelude.Search.{search_right}
use crypto_microstructure_ma.Splits.{
  Fold, block_edges, assign_block, folds_from, build_folds, count_if, fold_rows, fold_table,
  LabelRow, embargo_violated, day_start, violates, count_violations, any_positive,
  assert_split_embargo,
}
use crypto_microstructure_ma.Splits.Once.{
  IsPurged, total_validation, times_validated, count_of, in_range, build_folds-once,
}
use crypto_microstructure_ma.Splits.Embargo.{AllWithinDay, Passes, assert_split_embargo-IsWithinDay}

abbrev even_edges : ℕ → ℕ → ℕ → List ℕ
even_edges start end count = 0 ∷ 10 ∷ 20 ∷ 30 ∷ 40 ∷ []

abbrev small_rows : List ℕ
small_rows = 3 ∷ 15 ∷ 22 ∷ 27 ∷ 39 ∷ []

abbrev small_folds : List Fold
small_folds = build_folds even_edges 4 2 5 3 small_rows

build_folds-once_example :
    (total_validation (fold_table small_rows small_folds)
      ≡ count_if (in_range 20 (30 ∷ 40 ∷ [])) small_rows)
    × All (IsPurged 5) small_folds
    × ((u : ℕ) → times_validated u small_folds ≡ count_of (in_range 20 (30 ∷ 40 ∷ []) u))
unfolding block_edges
build_folds-once_example =
    build_folds-once even_edges 4 2 5 3 20 small_rows (30 ∷ 40 ∷ []) small_rows refl (ground arith)

small_table : fold_table small_rows small_folds ≡ ((2, 2) ∷ (3, 1) ∷ [])
unfolding block_edges folds_from build_folds count_if fold_rows fold_table
small_table = refl

small_block : assign_block (even_edges 0 41 5) 4 40 ≡ 3
unfolding search_right assign_block
small_block = refl

abbrev last_second : LabelRow
last_second = record { sample_time_us = 86399000000; has_label = λ h. ltb h 1000 }

assert_split_embargo-IsWithinDay_example :
    (AllWithinDay (100 ∷ 1000 ∷ []) (last_second ∷ [])
      ↔ Passes (assert_split_embargo (100 ∷ 1000 ∷ []) (last_second ∷ [])))
    × All (λ (n : ℕ). n ≡ 0) (0 ∷ 0 ∷ [])
unfolding day_start violates count_violations any_positive assert_split_embargo
assert_split_embargo-IsWithinDay_example =
    assert_split_embargo-IsWithinDay (100 ∷ 1000 ∷ []) (last_second ∷ [])

-- A label at the end of the day is refused.
late_label :
    assert_split_embargo (100 ∷ 900 ∷ 1000 ∷ []) (record last_second { has_label = λ h. true } ∷ [])
    ≡ err embargo_violated
unfolding day_start violates count_violations any_positive assert_split_embargo
late_label = refl
