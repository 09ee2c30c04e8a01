-- ===== src/Passive/Labels.antt =====
-- `attach_markouts` of pyresearch/passive/labeling.py, for one model's fills. Prices are whole
-- numbers of a unit, and marks of the unit's quotient by the tick size: there is a unit so small that
-- every price, every mark and every exact difference of prices in ticks is a whole number. The
-- arithmetic of floats, which rounds, is the parameter `Floats`. Times are in microseconds, and what
-- is not finite is `none`; the marks in basis points are left out.
use crypto_microstructure_ma.Prelude.Arrays.{equal_finite, flag_at, value_at}
use crypto_microstructure_ma.Prelude.{
  ℕ, zero, suc, ◌+◌, ◌*◌, ◌/◌, Bool, true, false, ◌&&◌, ◌||◌, Option, none, some, List, [], ◌∷◌,
  map, ltb, leb, ◌==◌, if◌then◌else◌, length, get_elem?,
}
use crypto_microstructure_ma.Prelude.Int.{ℤ, pos, negsuc, pos_part, neg_part, sub_ℕ, floor_div, abs}
use crypto_microstructure_ma.Prelude.Results.{Fallible, ok, err, ◌>>=◌}
use crypto_microstructure_ma.Passive.Replay.{QuoteSide, bid, ask}
pub mod Rounding
pub mod Decomposition
pub mod Causality
mod Tests

-- The arithmetic of floats: `(price - base) / TICK_SIZE`, and the difference of two marks.
pub record Floats : Type 0 where
  pub tick_difference : ℕ → ℕ → ℤ
  pub minus : ℤ → ℤ → ℤ

-- The day's samples, one each 100 ms.
pub record Samples : Type 0 where
  pub day_start : ℕ
  pub mids : List (Option ℕ)
  pub valid : List Bool
  pub segments : List (Option ℕ)

pub record FilledOrder : Type 0 where
  pub side : QuoteSide
  pub quote_price : Option ℕ
  pub first_fill : Option ℕ
  pub filled_qty : ℕ

-- The marks at one horizon.
pub record Markout : Type 0 where
  pub maker : Option ℤ
  pub post_move : Option ℤ
  pub is_valid : Bool

pub record FillLabels : Type 0 where
  pub fill_grid_time : Option ℕ
  pub mid_at_fill : Option ℕ
  pub advantage : Option ℤ
  pub markouts : List Markout

pub data LabelError : Type 0 where
  decomposition_failed : LabelError

-- `np.ceil(fill_time / 100_000) * 100_000`
unfoldable pub fill_grid : ℕ → ℕ
fill_grid time = (time + 99999) / 100000 * 100000

-- An index that is a row.
abbrev pub row_of : ℕ → ℤ → Option ℕ
row_of rows (pos i) = if ltb i rows then some i else none
row_of rows (negsuc n) = none

unfoldable pub fill_row : Samples → ℕ → Option ℕ
fill_row g time = row_of (length g.mids) (floor_div (sub_ℕ (fill_grid time) g.day_start) 100000)

-- `direction * z`, which does not round.
abbrev pub signed : QuoteSide → ℤ → ℤ
signed bid z = z
signed ask z = sub_ℕ (neg_part z) (pos_part z)

-- `direction * (price - base) / TICK_SIZE`, where both are finite.
abbrev pub mark : Floats → QuoteSide → Option ℕ → Option ℕ → Option ℤ
mark floats side (some price) (some base) = some (signed side (floats.tick_difference price base))
mark floats side none o = none
mark floats side (some price) none = none

abbrev pub where_valid {ℓ} : {A : Type ℓ} → Bool → Option A → Option A
where_valid is_valid o = if is_valid then o else none

-- A mark is valid if the fill's row is, and the later row is a valid one of its segment.
unfoldable pub label_valid : Samples → Bool → ℕ → ℕ → Bool
label_valid g fill_valid row target =
    fill_valid
    && ltb target (length g.mids)
    && flag_at g.valid target
    && equal_finite (value_at g.segments target) (value_at g.segments row)

unfoldable pub markout_at : Floats → Samples → QuoteSide → Option ℕ → Bool → ℕ → ℕ → Markout
markout_at floats g side quote fill_valid row horizon_ms =
    let target = row + horizon_ms / 100 in
    let is_valid = label_valid g fill_valid row target in
    let future = where_valid is_valid (value_at g.mids target) in
    record {
      maker = where_valid is_valid (mark floats side future quote);
      post_move = where_valid is_valid (mark floats side future (value_at g.mids row));
      is_valid = is_valid;
    }

-- A fill that is on no row has no marks.
abbrev pub no_markout : ℕ → Markout
no_markout horizon_ms = record { maker = none; post_move = none; is_valid = false }

unfoldable pub labels_at :
    Floats → Samples → List ℕ → QuoteSide → Option ℕ → ℕ → Option ℕ → FillLabels
labels_at floats g horizons side quote time none = record {
  fill_grid_time = none;
  mid_at_fill = none;
  advantage = none;
  markouts = map no_markout horizons;
}
labels_at floats g horizons side quote time (some row) =
    let fill_valid = flag_at g.valid row in
    record {
      fill_grid_time = some (fill_grid time);
      mid_at_fill = value_at g.mids row;
      advantage = where_valid fill_valid (mark floats side (value_at g.mids row) quote);
      markouts = map (markout_at floats g side quote fill_valid row) horizons;
    }

-- `has_fill`: the fill's time and the quote are there, and something is filled.
unfoldable pub fill_time : FilledOrder → Option ℕ
fill_time order = elim order.quote_price [
  | none ↦ none
  | some quote ↦ if ltb 0 order.filled_qty then order.first_fill else none
]

unfoldable pub labels_from : Floats → Samples → List ℕ → FilledOrder → Option ℕ → FillLabels
labels_from floats g horizons order none =
    labels_at floats g horizons order.side order.quote_price 0 none
labels_from floats g horizons order (some time) =
    labels_at floats g horizons order.side order.quote_price time (fill_row g time)

unfoldable pub label_order : Floats → Samples → List ℕ → FilledOrder → FillLabels
label_order floats g horizons order = labels_from floats g horizons order (fill_time order)

abbrev pub is_over : Floats → ℕ → Option ℤ → Option ℤ → Option ℤ → Bool
is_over floats tolerance (some maker) (some advantage) (some post_move) =
    ltb tolerance (abs (floats.minus (floats.minus maker advantage) post_move))
is_over floats tolerance _ _ _ = false

-- `np.abs(maker - advantage - post_move) > 1e-8`, where the three are finite.
unfoldable pub is_double_counted : Floats → ℕ → Option ℤ → Markout → Bool
is_double_counted floats tolerance advantage m =
    is_over floats tolerance m.maker advantage m.post_move

unfoldable pub any_double_counted : Floats → ℕ → Option ℤ → List Markout → Bool
any_double_counted floats tolerance advantage [] = false
any_double_counted floats tolerance advantage (m ∷ ms) =
    is_double_counted floats tolerance advantage m
    || any_double_counted floats tolerance advantage ms

unfoldable pub check_labels : Floats → ℕ → FillLabels → Fallible LabelError FillLabels
check_labels floats tolerance l =
    if any_double_counted floats tolerance l.advantage l.markouts
    then err decomposition_failed
    else ok l

unfoldable pub attach_markouts :
    Floats → ℕ → Samples → List ℕ → List FilledOrder → Fallible LabelError (List FillLabels)
attach_markouts floats tolerance g horizons [] = ok []
attach_markouts floats tolerance g horizons (order ∷ orders) =
    check_labels floats tolerance (label_order floats g horizons order)
    >>= (λ l. attach_markouts floats tolerance g horizons orders >>= (λ ls. ok (l ∷ ls)))
