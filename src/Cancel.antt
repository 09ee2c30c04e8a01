-- ===== src/Cancel.antt =====
-- The intervention of pyresearch/native/cancel/counterfactual.py: what cancelling an order when its
-- risk crosses a threshold would have done to its fill. Times are in nanoseconds, and a mark is a
-- scaled integer; one that is not finite is `none`.
use crypto_microstructure_ma.Prelude.Arrays.{finite_and, or_zero, when}
use crypto_microstructure_ma.Prelude.{
  ℕ, ◌+◌, ◌*◌, Bool, true, false, ◌&&◌, not, Option, none, some, List, [], ◌∷◌, map, ltb, leb, ◌==◌,
  if◌then◌else◌,
}
use crypto_microstructure_ma.Prelude.Int.{ℤ, pos, negsuc, sub_ℕ, leb_ℤ, ltb_ℤ, pos_part, neg_part}
pub mod Accounting
mod Tests

-- An order, with the instant at which its score crosses the threshold, as the merge with the
-- timeline gives it.
pub record Order : Type 0 where
  pub crossing : Option ℕ
  pub fill_ns : ℕ
  pub filled : Bool
  pub markout : Option ℤ

pub record CancelOutcome : Type 0 where
  pub cancel_signalled : Bool
  pub cancel_ns : Option ℕ
  pub effective_cancel_ns : Option ℕ
  pub fill_prevented : Bool
  pub cancel_too_late : Bool
  pub cancel_without_baseline_fill : Bool
  pub order_unaffected : Bool
  pub surviving_fill : Bool
  pub lead_time : Option ℤ

pub record CancelLabels : Type 0 where
  pub adverse_fill_avoided : Bool
  pub favourable_fill_sacrificed : Bool
  pub non_negative_fill_sacrificed : Bool
  pub prevented_fill_markout_censored : Bool
  pub catastrophic_avoided : List Bool
  pub adverse_ticks_avoided : ℕ
  pub favourable_ticks_sacrificed : ℕ
  pub net_markout_preserved : ℤ

-- `np.where(cancelled, crossing + int(latency_ms * 1e6), 0)`
unfoldable pub effective_at : ℕ → ℕ → ℕ
effective_at latency_ms crossing = if ltb 0 crossing then crossing + latency_ms * 1000000 else 0

-- `apply_cancel`, for one order.
unfoldable pub apply_cancel : ℕ → Order → CancelOutcome
apply_cancel latency_ms o =
    let crossing = or_zero o.crossing in
    let cancelled = ltb 0 crossing in
    let effective = effective_at latency_ms crossing in
    let prevented = cancelled && o.filled && ltb effective o.fill_ns in
    record {
      cancel_signalled = cancelled;
      cancel_ns = when cancelled crossing;
      effective_cancel_ns = when cancelled effective;
      fill_prevented = prevented;
      cancel_too_late = cancelled && o.filled && leb o.fill_ns effective;
      cancel_without_baseline_fill = cancelled && not o.filled;
      order_unaffected = not cancelled;
      surviving_fill = o.filled && not prevented;
      lead_time = when (cancelled && o.filled) (sub_ℕ o.fill_ns crossing);
    }

-- `-np.minimum(markout, 0.0)`, and `np.maximum(markout, 0.0)`.
abbrev pub adverse_ticks : Option ℤ → ℕ
adverse_ticks none = 0
adverse_ticks (some m) = neg_part m

abbrev pub favourable_ticks : Option ℤ → ℕ
favourable_ticks none = 0
favourable_ticks (some m) = pos_part m

abbrev is_none : Option ℤ → Bool
is_none none = true
is_none (some m) = false

-- `markout <= -threshold`
abbrev pub is_catastrophic : ℕ → ℤ → Bool
is_catastrophic threshold m = leb_ℤ m (sub_ℕ 0 threshold)

-- `classify`, for one order.
unfoldable pub classify : List ℕ → Bool → Option ℤ → CancelLabels
classify thresholds prevented m =
    let adverse = if prevented then adverse_ticks m else 0 in
    let favourable = if prevented then favourable_ticks m else 0 in
    record {
      adverse_fill_avoided = prevented && finite_and (λ x. ltb_ℤ x (pos 0)) m;
      favourable_fill_sacrificed = prevented && finite_and (λ x. ltb_ℤ (pos 0) x) m;
      non_negative_fill_sacrificed = prevented && finite_and (λ x. leb_ℤ (pos 0) x) m;
      prevented_fill_markout_censored = prevented && is_none m;
      catastrophic_avoided = map (λ t. prevented && finite_and (is_catastrophic t) m) thresholds;
      adverse_ticks_avoided = adverse;
      favourable_ticks_sacrificed = favourable;
      net_markout_preserved = sub_ℕ adverse favourable;
    }

unfoldable pub cancel_order : List ℕ → ℕ → Order → CancelOutcome × CancelLabels
cancel_order thresholds latency_ms o =
    let outcome = apply_cancel latency_ms o in
    (outcome, classify thresholds outcome.fill_prevented o.markout)
