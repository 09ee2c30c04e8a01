-- ===== src/Cancel/Accounting.antt =====
-- What the intervention does to each order, and to the sum of the marks.
use crypto_microstructure_ma.Prelude.Arrays.{or_zero}
use crypto_microstructure_ma.Prelude.{
  ℕ, ◌+◌, ◌*◌, ◌≤◌, ◌<◌, ◌≡◌, refl, Bool, true, false, ◌&&◌, not, Option, none, some, List, [], ◌∷◌,
  arith, if◌then◌else◌,
}
use crypto_microstructure_ma.Prelude.Int.{ℤ, pos, ◌+ℤ◌, pos_part, neg_part, eq_of_parts, int_laws}
use crypto_microstructure_ma.Cancel.{Order, effective_at, apply_cancel, classify, cancel_order}

abbrev pub count_of : Bool → ℕ
count_of true = 1
count_of false = 0

-- What an order's outcome is: one of four, of which a fill that is prevented is after the instant
-- at which the cancellation takes effect, and that is no earlier than the signal; a baseline fill
-- either survives or is prevented.
pub record IsClassified (latency_ms : ℕ) (o : Order) : Type 0 where
  pub one_of_four :
      let c = apply_cancel latency_ms o in
      count_of c.fill_prevented
        + count_of c.cancel_too_late
        + count_of c.cancel_without_baseline_fill
        + count_of c.order_unaffected
      ≡ 1
  pub after_signal :
      (apply_cancel latency_ms o).fill_prevented ≡ true
      → or_zero o.crossing + latency_ms * 1000000 < o.fill_ns
  pub survives_or_prevented :
      let c = apply_cancel latency_ms o in
      count_of c.surviving_fill + count_of c.fill_prevented ≡ count_of o.filled

-- A longer latency prevents no fill that a shorter one does not.
pub apply_cancel_antitone :
    (short long : ℕ) (o : Order)
    → short ≤ long
    → (apply_cancel long o).fill_prevented ≡ true
    → (apply_cancel short o).fill_prevented ≡ true
unfolding apply_cancel effective_at
apply_cancel_antitone short long o l e = ground (arith, l, e)

-- A mark that counts as nothing where it is not finite.
abbrev pub mark_value : Option ℤ → ℤ
mark_value none = pos 0
mark_value (some m) = m

-- The sum of a value of each order.
abbrev pub sum_of : (Order → ℤ) → List Order → ℤ
sum_of f [] = pos 0
sum_of f (o ∷ os) = f o +ℤ sum_of f os

abbrev pub baseline_mark : Order → ℤ
baseline_mark o = if o.filled then mark_value o.markout else pos 0

abbrev pub surviving_mark : ℕ → Order → ℤ
surviving_mark latency_ms o =
    if (apply_cancel latency_ms o).surviving_fill then mark_value o.markout else pos 0

abbrev pub preserved : List ℕ → ℕ → Order → ℤ
preserved thresholds latency_ms o = (cancel_order thresholds latency_ms o).1.net_markout_preserved

-- One order's part of the account, by whether it is filled and whether the fill is prevented.
order_accounts :
    (thresholds : List ℕ) (filled prevented : Bool) (m : Option ℤ)
    → (prevented ≡ true → filled ≡ true)
    → let kept = if filled && not prevented then mark_value m else pos 0 in
      let base = if filled then mark_value m else pos 0 in
      let net = (classify thresholds prevented m).net_markout_preserved in
      pos_part kept + neg_part base + neg_part net ≡ neg_part kept + pos_part base + pos_part net
unfolding classify
order_accounts thresholds true true none h = ground arith
order_accounts thresholds true true (some m) h = ground arith
order_accounts thresholds true false m h = ground arith
order_accounts thresholds false true m h = absurd (ground (arith, h refl))
order_accounts thresholds false false m h = ground arith

preserved_lem :
    (thresholds : List ℕ) (latency_ms : ℕ) (o : Order)
    → surviving_mark latency_ms o ≡ baseline_mark o +ℤ preserved thresholds latency_ms o
unfolding apply_cancel cancel_order
preserved_lem thresholds latency_ms o =
    let prevented = (apply_cancel latency_ms o).fill_prevented in
    let filled : prevented ≡ true → o.filled ≡ true = λ e. ground (arith, e) in
    eq_of_parts _ _
      (omega (int_laws, order_accounts thresholds o.filled prevented o.markout filled))

interchange : (a b c d : ℤ) → (a +ℤ b) +ℤ (c +ℤ d) ≡ (a +ℤ c) +ℤ (b +ℤ d)
interchange a b c d = eq_of_parts _ _ (omega int_laws)

-- The marks of the fills that survive sum to the marks of the baseline's fills and the marks that
-- the cancellations preserve, net of those that they sacrifice.
pub sum_of-preserved :
    (thresholds : List ℕ) (latency_ms : ℕ) (os : List Order)
    → sum_of (surviving_mark latency_ms) os
      ≡ sum_of baseline_mark os +ℤ sum_of (preserved thresholds latency_ms) os
sum_of-preserved thresholds latency_ms [] = eq_of_parts _ _ (omega int_laws)
sum_of-preserved thresholds latency_ms (o ∷ os) =
    rw (preserved_lem thresholds latency_ms o, sum_of-preserved thresholds latency_ms os)
      (interchange (baseline_mark o) (preserved thresholds latency_ms o) (sum_of baseline_mark os)
        (sum_of (preserved thresholds latency_ms) os))
