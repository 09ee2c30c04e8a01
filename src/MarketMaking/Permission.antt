-- ===== src/MarketMaking/Permission.antt =====
-- `quote_permission` of pyresearch/obi/continuous_mm.py: whether a quote may be placed. Quantities,
-- prices and the imbalance are scaled integers in place of floats.
use crypto_microstructure_ma.Prelude.{
  ℕ, ◌+◌, Bool, false, ◌&&◌, ◌||◌, not, Option, none, some, if◌then◌else◌,
}
use crypto_microstructure_ma.Prelude.Int.{ℤ, pos, sub_ℕ, ◌+ℤ◌, ◌-ℤ◌, ltb_ℤ, leb_ℤ}
pub use crypto_microstructure_ma.Prelude.Results.{
  Fallible, ok, err, ◌>>=◌, Checked, bind-Checked, any-Checked, map-Checked,
}

pub data Side : Type 0 where
  bid ask other_side : Side

pub data Policy : Type 0 where
  neutral obi_aware other_policy : Policy

-- The numbers of the frozen specification that the simulation reads.
pub record Spec : Type 0 where
  pub quote_qty : ℕ
  pub soft_limit : ℕ
  pub hard_limit : ℕ
  pub quantity_tolerance : ℕ
  pub absolute_threshold : ℕ
  pub maker_fee_bps : ℕ
  pub day_end_taker_fee_bps : ℕ

pub data MmError : Type 0 where
  unknown_side unknown_policy unknown_status quantity_differs lacks_first_fill lacks_full_fill :
      MmError
  ends_before_placement fill_outside_lifetime : MmError

abbrev pub Result {ℓ} : Type ℓ → Type ℓ
Result A = Fallible MmError A

-- Why a quote is suppressed.
pub data Reason : Type 0 where
  inventory obi : Reason

-- The hard limit after a whole fill, and the soft limit now.
unfoldable pub inventory_blocks : Side → ℤ → Spec → Bool
inventory_blocks bid held spec =
    ltb_ℤ (pos (spec.hard_limit + spec.quantity_tolerance)) (held +ℤ pos spec.quote_qty)
    || leb_ℤ (sub_ℕ spec.soft_limit spec.quantity_tolerance) held
inventory_blocks ask held spec =
    ltb_ℤ (held -ℤ pos spec.quote_qty) (sub_ℕ 0 (spec.hard_limit + spec.quantity_tolerance))
    || leb_ℤ held (sub_ℕ spec.quantity_tolerance spec.soft_limit)
inventory_blocks other_side held spec = false

unfoldable pub reduces_inventory : Side → ℤ → Spec → Bool
reduces_inventory bid held spec = ltb_ℤ held (sub_ℕ 0 spec.quantity_tolerance)
reduces_inventory ask held spec = ltb_ℤ (pos spec.quantity_tolerance) held
reduces_inventory other_side held spec = false

abbrev pub obi_blocks : Side → ℤ → Spec → Bool
obi_blocks ask imbalance spec = leb_ℤ (pos spec.absolute_threshold) imbalance
obi_blocks bid imbalance spec = leb_ℤ imbalance (sub_ℕ 0 spec.absolute_threshold)
obi_blocks other_side imbalance spec = false

-- What is left to decide once the inventory allows the quote. An imbalance that is not finite is
-- `none`.
unfoldable pub obi_permission : Policy → Side → Bool → Option ℤ → Spec → Result (Option Reason)
obi_permission neutral side reduces imbalance spec = ok none
obi_permission obi_aware side reduces none spec = ok none
obi_permission other_policy side reduces none spec = ok none
obi_permission other_policy side reduces (some v) spec = err unknown_policy
obi_permission obi_aware side reduces (some v) spec =
    if obi_blocks side v spec && not reduces then ok (some obi) else ok none

abbrev pub permission_at : Policy → Side → ℤ → Option ℤ → Spec → Result (Option Reason)
permission_at policy side held imbalance spec =
    if inventory_blocks side held spec
    then ok (some inventory)
    else obi_permission policy side (reduces_inventory side held spec) imbalance spec

-- `ok none` allows the quote.
unfoldable pub quote_permission : Policy → Side → ℤ → Option ℤ → Spec → Result (Option Reason)
quote_permission policy other_side held imbalance spec = err unknown_side
quote_permission policy bid held imbalance spec = permission_at policy bid held imbalance spec
quote_permission policy ask held imbalance spec = permission_at policy ask held imbalance spec
