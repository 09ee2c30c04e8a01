-- ===== src/PassiveEntry.antt =====
-- The scans of pyresearch/obi/passive_entry_search.py: when a resting order stops being safe, and
-- which placements a signal allows. Signals are scaled integers; what is not finite is `none`.
use crypto_microstructure_ma.Prelude.Arrays.{equal_finite}
use crypto_microstructure_ma.Prelude.{
  ℕ, zero, suc, ◌+◌, ◌*◌, Bool, true, false, ◌&&◌, ◌||◌, not, Option, none, some, List, [], ◌∷◌,
  map, ltb, leb, ◌==◌, if◌then◌else◌, length,
}
use crypto_microstructure_ma.Prelude.Int.{ℤ, pos, sub_ℕ, ◌-ℤ◌, ltb_ℤ, leb_ℤ}
use crypto_microstructure_ma.Prelude.Results.{Fallible, ok, err, ◌>>=◌}
use crypto_microstructure_ma.StateExit.{first_hit, is_finite}
pub mod NextUnsafe
mod Tests

pub data ScanError : Type 0 where
  length_mismatch unknown_direction unknown_mode : ScanError

-- Whether a row starts another segment than the row before it, if there is one.
abbrev pub is_boundary : Option (Option ℕ) → Option ℕ → Bool
is_boundary none g = false
is_boundary (some previous) g = not (equal_finite previous g)

-- `~safety | ~finite | boundary`, from a row on.
unfoldable pub bad_from : Option (Option ℕ) → List Bool → List (Option ℕ) → List Bool
bad_from previous [] gs = []
bad_from previous (s ∷ ss) [] = []
bad_from previous (s ∷ ss) (g ∷ gs) =
    (not s || not (is_finite g) || is_boundary previous g) ∷ bad_from (some g) ss gs

-- `np.flatnonzero`, for rows that are counted from `i`.
unfoldable pub flatnonzero : ℕ → List Bool → List ℕ
flatnonzero i [] = []
flatnonzero i (b ∷ bs) = let rest = flatnonzero (i + 1) bs in if b then i ∷ rest else rest

abbrev pub or_rows : ℕ → Option ℕ → ℕ
or_rows rows none = rows
or_rows rows (some i) = i

-- The result for one row.
unfoldable pub next_unsafe : List Bool → List (Option ℕ) → ℕ → ℕ
next_unsafe safety segments row =
    or_rows (length safety) (first_hit (row + 1) (flatnonzero 0 (bad_from none safety segments)))

abbrev pub rows_from : ℕ → List Bool → List ℕ
rows_from i [] = []
rows_from i (s ∷ ss) = i ∷ rows_from (i + 1) ss

unfoldable pub next_unsafe_indices : List Bool → List (Option ℕ) → Fallible ScanError (List ℕ)
next_unsafe_indices safety segments =
    if length safety == length segments
    then ok (map (next_unsafe safety segments) (rows_from 0 safety))
    else err length_mismatch

pub data Direction : Type 0 where
  maker_contrarian maker_trend other_direction : Direction

pub data CancelMode : Type 0 where
  cancel_on_sign_exit cancel_on_tail_exit cancel_on_opposite_tail fixed_lifetime other_mode :
      CancelMode

-- `orientation * value` for a side.
unfoldable pub oriented : Direction → Bool → ℤ → Fallible ScanError ℤ
oriented maker_contrarian is_bid v = ok (if is_bid then pos 0 -ℤ v else v)
oriented maker_trend is_bid v = ok (if is_bid then v else pos 0 -ℤ v)
oriented other_direction is_bid v = err unknown_direction

unfoldable pub mode_test : CancelMode → ℕ → ℤ → Fallible ScanError Bool
mode_test cancel_on_sign_exit threshold v = ok (ltb_ℤ (pos 0) v)
mode_test cancel_on_tail_exit threshold v = ok (leb_ℤ (pos threshold) v)
mode_test cancel_on_opposite_tail threshold v = ok (ltb_ℤ (sub_ℕ 0 threshold) v)
mode_test fixed_lifetime threshold v = ok true
mode_test other_mode threshold v = err unknown_mode

-- The mode's test where the value is not finite.
unfoldable pub mode_at_nan : CancelMode → Fallible ScanError Bool
mode_at_nan fixed_lifetime = ok true
mode_at_nan other_mode = err unknown_mode
mode_at_nan _ = ok false

-- `_side_safety`, for one value.
unfoldable pub side_safety : ℕ → Direction → CancelMode → Bool → Option ℤ → Fallible ScanError Bool
side_safety threshold d mode is_bid none = oriented d is_bid (pos 0) >>= (λ _. mode_at_nan mode)
side_safety threshold d mode is_bid (some v) = oriented d is_bid v >>= mode_test mode threshold

-- `_placement_mask`, for one value.
unfoldable pub placement_mask : ℕ → Direction → Bool → Option ℤ → Fallible ScanError Bool
placement_mask threshold d is_bid none = oriented d is_bid (pos 0) >>= (λ _. ok false)
placement_mask threshold d is_bid (some v) =
    oriented d is_bid v >>= (λ o. ok (leb_ℤ (pos threshold) o))

-- `passive_exit_returns`, in ten-thousandths of the price's unit: the gross and the net cash.
unfoldable pub exit_cash : ℕ → ℕ → Bool → ℕ → ℕ → ℕ → ℤ × ℤ
exit_cash maker_fee_bps taker_fee_bps is_bid quote exit_bid exit_ask =
    let exit_price = if is_bid then exit_bid else exit_ask in
    let gross =
      if is_bid
      then sub_ℕ (exit_price * 10000) (quote * 10000)
      else sub_ℕ (quote * 10000) (exit_price * 10000) in
    (gross, gross -ℤ pos (maker_fee_bps * quote) -ℤ pos (taker_fee_bps * exit_price))
