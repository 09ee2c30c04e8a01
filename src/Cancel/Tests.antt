-- ===== src/Cancel/Tests.antt =====
-- An order whose fill is prevented, one whose cancellation is too late, and one with no signal.
use crypto_microstructure_ma.Prelude.{ℕ, ◌≡◌, refl, true, Option, none, some, List, [], ◌∷◌, arith}
use crypto_microstructure_ma.Prelude.Int.{ℤ, pos, negsuc, ◌+ℤ◌}
use crypto_microstructure_ma.Cancel.{Order, effective_at, apply_cancel}
use crypto_microstructure_ma.Cancel.Accounting.{
  apply_cancel_antitone, sum_of, surviving_mark, baseline_mark, preserved, sum_of-preserved,
}

abbrev order_at : Option ℕ → ℕ → ℤ → Order
order_at crossing fill mark = record {
  crossing = crossing;
  fill_ns = fill;
  filled = true;
  markout = some mark;
}

abbrev prevented_order : Order
prevented_order = order_at (some 5) 9000000 (negsuc 29)

abbrev small_orders : List Order
small_orders = prevented_order ∷ order_at (some 5) 1000000 (pos 4) ∷ order_at none 7 (negsuc 1) ∷ []

apply_cancel_antitone_example : (apply_cancel 1 prevented_order).fill_prevented ≡ true
unfolding apply_cancel effective_at
apply_cancel_antitone_example = apply_cancel_antitone 1 2 prevented_order (omega arith) refl

sum_of-preserved_example :
    sum_of (surviving_mark 2) small_orders
    ≡ sum_of baseline_mark small_orders +ℤ sum_of (preserved (25 ∷ 50 ∷ []) 2) small_orders
sum_of-preserved_example = sum_of-preserved (25 ∷ 50 ∷ []) 2 small_orders

small_sum : sum_of (surviving_mark 2) small_orders ≡ pos 2
unfolding apply_cancel effective_at ◌+ℤ◌
small_sum = refl
