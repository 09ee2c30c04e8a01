-- ===== src/Passive/Labels/Tests.antt =====
-- The labels of a bid that is filled between two samples, at horizons within the day and past it.
use crypto_microstructure_ma.Prelude.{
  ℕ, ◌*◌, ◌/◌, ◌≡◌, refl, true, false, none, some, [], ◌∷◌, arith,
}
use crypto_microstructure_ma.Prelude.Int.{ℤ, pos, negsuc, sub_ℕ, ◌-ℤ◌}
use crypto_microstructure_ma.Prelude.Results.{ok}
use crypto_microstructure_ma.Passive.Replay.{bid}
use crypto_microstructure_ma.Passive.Labels.{
  Floats, Samples, FilledOrder, fill_grid, fill_row, label_valid, markout_at, labels_at, fill_time,
  labels_from, label_order, attach_markouts,
}
use crypto_microstructure_ma.Passive.Labels.Rounding.{IsNear, IsAccurate}
use crypto_microstructure_ma.Passive.Labels.Decomposition.{attach_markouts-Succeeds}
use crypto_microstructure_ma.Passive.Labels.Causality.{
  EachMark, ValidIsCausal, label_order-EachMark,
}

abbrev small_samples : Samples
small_samples = record {
  day_start = 200000;
  mids = some 100 ∷ some 102 ∷ some 101 ∷ some 98 ∷ [];
  valid = true ∷ true ∷ true ∷ false ∷ [];
  segments = some 1 ∷ some 1 ∷ some 1 ∷ some 1 ∷ [];
}

abbrev small_order : FilledOrder
small_order = record { side = bid; quote_price = some 99; first_fill = some 250000; filled_qty = 3 }

abbrev exact_floats : Floats
exact_floats = record { tick_difference = sub_ℕ; minus = ◌-ℤ◌ }

-- Floats that lose the last digit of a price and of a mark.
abbrev drop_digit : ℤ → ℤ
drop_digit (pos n) = pos (n / 2 * 2)
drop_digit (negsuc n) = negsuc n

abbrev coarse_floats : Floats
coarse_floats = record {
  tick_difference = λ a b. sub_ℕ (a / 2 * 2) b;
  minus = λ x y. drop_digit (x -ℤ y);
}

drop_digit-IsNear : (z : ℤ) → IsNear 1 (drop_digit z) z
drop_digit-IsNear (pos n) = omega arith
drop_digit-IsNear (negsuc n) = omega arith

coarse_difference : (a b : ℕ) → IsNear 1 (sub_ℕ (a / 2 * 2) b) (sub_ℕ a b)
coarse_difference a b = ground arith

coarse_floats-IsAccurate : IsAccurate coarse_floats 200 1
coarse_floats-IsAccurate = record {
  tick_difference_near = λ a b p q. coarse_difference a b;
  minus_near = λ x y p q. drop_digit-IsNear (x -ℤ y);
}

attach_markouts-Succeeds_example :
    attach_markouts coarse_floats 5 small_samples (100 ∷ 500 ∷ []) (small_order ∷ [])
    ≡ ok (label_order coarse_floats small_samples (100 ∷ 500 ∷ []) small_order ∷ [])
attach_markouts-Succeeds_example =
    attach_markouts-Succeeds coarse_floats 200 1 5 coarse_floats-IsAccurate (omega arith)
      small_samples (100 ∷ 500 ∷ []) (small_order ∷ []) (omega arith) (omega arith)

label_order-EachMark_example :
    EachMark
      (ValidIsCausal exact_floats small_samples bid (some 99) 250000)
      (100 ∷ 500 ∷ [])
      (label_order exact_floats small_samples (100 ∷ 500 ∷ []) small_order).markouts
unfolding fill_time
label_order-EachMark_example =
    label_order-EachMark exact_floats small_samples (100 ∷ 500 ∷ []) small_order 250000 2 refl refl

-- The fill is marked at the second sample, and a tenth of a second later at the third.
small_labels : label_order exact_floats small_samples (100 ∷ 500 ∷ []) small_order ≡ record {
  fill_grid_time = some 300000;
  mid_at_fill = some 102;
  advantage = some (pos 3);
  markouts =
      record { maker = some (pos 2); post_move = some (negsuc 0); is_valid = true }
      ∷ record { maker = none; post_move = none; is_valid = false }
      ∷ [];
}
unfolding fill_grid fill_row label_valid markout_at labels_at fill_time labels_from label_order
small_labels = refl
