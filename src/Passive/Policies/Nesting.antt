-- ===== src/Passive/Policies/Nesting.antt =====
-- How the filters of one signal lie in one another, and how the sessions divide the day.
use crypto_microstructure_ma.Prelude.{◌+◌, ◌≡◌, Bool, true, false, Option, none, some, arith}
use crypto_microstructure_ma.Prelude.Int.{ℤ, ◌≤ℤ◌}
use crypto_microstructure_ma.Prelude.Results.{Fallible, ok}
use crypto_microstructure_ma.Passive.Policies.{
  Rule, trend_tail, contrarian_tail, trend_half, contrarian_half, trend_broad, contrarian_broad,
  central, session_00_08, session_08_16, session_16_24, Family, PolicyError, Threshold, Thresholds,
  ProbeRow, rule_test, single_mask, vote, kind_mask,
}

-- Whether a rule selects a value.
abbrev pub Selects : Rule → Option ℤ → Bool → Threshold → Type 0
Selects r v is_bid t = single_mask r v is_bid t ≡ ok true

-- The rules of one signal for one value and side: a tail is in its half, and a half in its broad
-- part; the central part is what the two broad parts share; and the two tails share nothing.
pub record AreNested (v : Option ℤ) (is_bid : Bool) (t : Threshold) : Type 0 where
  pub trend_tail_half : Selects trend_tail v is_bid t → Selects trend_half v is_bid t
  pub trend_half_broad : Selects trend_half v is_bid t → Selects trend_broad v is_bid t
  pub contrarian_tail_half : Selects contrarian_tail v is_bid t → Selects contrarian_half v is_bid t
  pub contrarian_half_broad :
      Selects contrarian_half v is_bid t → Selects contrarian_broad v is_bid t
  pub central_broad :
      Selects central v is_bid t
      → Selects trend_broad v is_bid t × Selects contrarian_broad v is_bid t
  pub broad_central :
      Selects trend_broad v is_bid t
      → Selects contrarian_broad v is_bid t
      → Selects central v is_bid t
  pub tails_apart : Selects trend_tail v is_bid t → Selects contrarian_tail v is_bid t → ⊥

some-AreNested :
    (v : ℤ) (is_bid : Bool) (t : Threshold)
    → t.q20 ≤ℤ t.q50
    → t.q50 ≤ℤ t.q80
    → (t.q80 ≤ℤ t.q20 → ⊥)
    → AreNested (some v) is_bid t
unfolding single_mask rule_test
some-AreNested v true t h k n = record {
  trend_tail_half = λ e. ground (arith, e, h, k);
  trend_half_broad = λ e. ground (arith, e, h, k);
  contrarian_tail_half = λ e. ground (arith, e, h, k);
  contrarian_half_broad = λ e. ground (arith, e, h, k);
  central_broad = λ e. (ground (arith, e), ground (arith, e));
  broad_central = λ e f. ground (arith, e, f);
  tails_apart = λ e f. n (ground (arith, e, f));
}
some-AreNested v false t h k n = record {
  trend_tail_half = λ e. ground (arith, e, h, k);
  trend_half_broad = λ e. ground (arith, e, h, k);
  contrarian_tail_half = λ e. ground (arith, e, h, k);
  contrarian_half_broad = λ e. ground (arith, e, h, k);
  central_broad = λ e. (ground (arith, e), ground (arith, e));
  broad_central = λ e f. ground (arith, e, f);
  tails_apart = λ e f. n (ground (arith, e, f));
}

none-AreNested : (is_bid : Bool) (t : Threshold) → AreNested none is_bid t
unfolding single_mask
none-AreNested is_bid t = record {
  trend_tail_half = λ e. e;
  trend_half_broad = λ e. e;
  contrarian_tail_half = λ e. e;
  contrarian_half_broad = λ e. e;
  central_broad = λ e. (e, e);
  broad_central = λ e f. e;
  tails_apart = λ e f. absurd (ground (arith, e));
}

-- Where the quantiles of a signal are in order, and the outer ones differ, the rules of the signal
-- are nested for each value and each side.
pub single_mask-AreNested :
    (v : Option ℤ) (is_bid : Bool) (t : Threshold)
    → t.q20 ≤ℤ t.q50
    → t.q50 ≤ℤ t.q80
    → (t.q80 ≤ℤ t.q20 → ⊥)
    → AreNested v is_bid t
single_mask-AreNested none is_bid t h k n = none-AreNested is_bid t
single_mask-AreNested (some v) is_bid t h k n = some-AreNested v is_bid t h k n

-- Just one of three results selects.
abbrev pub ExactlyOne :
    Fallible PolicyError Bool → Fallible PolicyError Bool → Fallible PolicyError Bool → Type 0
ExactlyOne (ok a) (ok b) (ok c) = vote a + vote b + vote c ≡ 1
ExactlyOne _ _ _ = ⊥

-- Each probe is of just one of the three sessions of the day.
pub kind_mask-ExactlyOne :
    (family : Family) (ts : Thresholds) (row : ProbeRow)
    → ExactlyOne
        (kind_mask family session_00_08 ts row)
        (kind_mask family session_08_16 ts row)
        (kind_mask family session_16_24 ts row)
unfolding kind_mask
kind_mask-ExactlyOne family ts row = ground arith
