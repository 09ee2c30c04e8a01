-- ===== src/Splits.antt =====
-- How rows are divided into folds (pyresearch/native/predictive/data.py), and the embargo at the end
-- of a day (pyresearch/support/evaluate.py). The edges of the blocks are numpy's `linspace`, which is
-- a parameter.
use crypto_microstructure_ma.Prelude.{
  ℕ, zero, suc, ◌+◌, ◌-◌, ◌*◌, ◌/◌, min, max, Bool, true, false, ◌&&◌, ◌||◌, not, List, [], ◌∷◌,
  map, drop, ltb, leb, ◌==◌, if◌then◌else◌,
}
use crypto_microstructure_ma.Prelude.Int.{ℤ, pos, sub_ℕ, leb_ℤ}
use crypto_microstructure_ma.Prelude.Results.{Fallible, ok, err, ◌>>=◌}
use crypto_microstructure_ma.Prelude.Search.{search_right}
pub mod Once
pub mod Embargo
mod Tests

pub record Fold : Type 0 where
  pub index : ℕ
  pub block : ℕ
  pub train_end_ns : ℤ
  pub validation_start_ns : ℕ
  pub validation_end_ns : ℕ

-- The first and the last of a list of timestamps, from one of them on.
unfoldable pub earliest : ℕ → List ℕ → ℕ
earliest t [] = t
earliest t (u ∷ us) = earliest (min t u) us

unfoldable pub latest : ℕ → List ℕ → ℕ
latest t [] = t
latest t (u ∷ us) = latest (max t u) us

-- The edges of `blocks` blocks, for timestamps of which the first is given: `linspace` has a start,
-- an end and a number of values.
unfoldable pub block_edges : (ℕ → ℕ → ℕ → List ℕ) → ℕ → ℕ → List ℕ → List ℕ
block_edges linspace blocks t ts = linspace (earliest t ts) (latest t ts + 1) (blocks + 1)

-- `np.clip(np.searchsorted(edges, t, side="right") - 1, 0, blocks - 1)`
unfoldable pub assign_block : List ℕ → ℕ → ℕ → ℕ
assign_block edges blocks t = min (search_right (λ e. e) t edges - 1) (blocks - 1)

-- The folds of the blocks from a block on, whose edges these are.
unfoldable pub folds_from : ℕ → ℕ → ℕ → List ℕ → List Fold
folds_from purge i block [] = []
folds_from purge i block (a ∷ []) = []
folds_from purge i block (a ∷ b ∷ es) =
    record {
      index = i;
      block = block;
      train_end_ns = sub_ℕ a purge;
      validation_start_ns = a;
      validation_end_ns = b;
    }
    ∷ folds_from purge (i + 1) (block + 1) (b ∷ es)

unfoldable pub build_folds : (ℕ → ℕ → ℕ → List ℕ) → ℕ → ℕ → ℕ → ℕ → List ℕ → List Fold
build_folds linspace blocks first_block purge t ts =
    folds_from purge 0 first_block (drop first_block (block_edges linspace blocks t ts))

abbrev pub is_training : Fold → ℕ → Bool
is_training f t = leb_ℤ (pos t) f.train_end_ns

abbrev pub is_validation : Fold → ℕ → Bool
is_validation f t = leb f.validation_start_ns t && ltb t f.validation_end_ns

unfoldable pub count_if : (ℕ → Bool) → List ℕ → ℕ
count_if test [] = 0
count_if test (t ∷ ts) = let rest = count_if test ts in if test t then suc rest else rest

-- A fold's row of the table: its training rows and its validation rows.
unfoldable pub fold_rows : List ℕ → Fold → ℕ × ℕ
fold_rows ts f = (count_if (is_training f) ts, count_if (is_validation f) ts)

unfoldable pub fold_table : List ℕ → List Fold → List (ℕ × ℕ)
fold_table ts fs = map (fold_rows ts) fs

-- A row with whether it has a label at each horizon.
pub record LabelRow : Type 0 where
  pub sample_time_us : ℕ
  pub has_label : ℕ → Bool

pub data SplitError : Type 0 where
  embargo_violated : SplitError

-- `(frame["sample_time_us"] // day_us) * day_us`
unfoldable pub day_start : ℕ → ℕ
day_start time = time / 86400000000 * 86400000000

-- Whether a label looks past the end of its row's day.
unfoldable pub violates : ℕ → LabelRow → Bool
violates horizon_ms row =
    row.has_label horizon_ms
    && leb (day_start row.sample_time_us + 86400000000) (row.sample_time_us + horizon_ms * 1000)

unfoldable pub count_violations : ℕ → List LabelRow → ℕ
count_violations horizon_ms [] = 0
count_violations horizon_ms (row ∷ rows) =
    let rest = count_violations horizon_ms rows in
    if violates horizon_ms row then suc rest else rest

unfoldable pub any_positive : List ℕ → Bool
any_positive [] = false
any_positive (n ∷ ns) = ltb 0 n || any_positive ns

unfoldable pub assert_split_embargo : List ℕ → List LabelRow → Fallible SplitError (List ℕ)
assert_split_embargo horizons rows =
    let violations = map (λ h. count_violations h rows) horizons in
    if any_positive violations then err embargo_violated else ok violations
