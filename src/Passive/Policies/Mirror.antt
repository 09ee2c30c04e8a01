-- ===== src/Passive/Policies/Mirror.antt =====
-- The filters treat the two sides alike: a probe of one side with its signals is selected just as
-- the probe of the other side with the signals negated.
use crypto_microstructure_ma.Prelude.Arrays.{finite_and}
use crypto_microstructure_ma.Prelude.{
  ℕ, ◌≡◌, refl, ap, inl, inr, Option-cases, Bool, true, false, ◌&&◌, not, Option, none, some, arith,
}
use crypto_microstructure_ma.Prelude.Int.{ℤ, pos, ◌-ℤ◌, leb_ℤ, -ℤ_parts}
use crypto_microstructure_ma.Prelude.Results.{ok}
use crypto_microstructure_ma.Passive.Policies.{
  Signal, obi_l5, combined_prediction_1s_ticks, Rule, trend_tail, contrarian_tail, trend_half,
  contrarian_half, trend_broad, contrarian_broad, central, other_rule, Kind, baseline, queue_low,
  queue_high, queue_middle, spread_one, spread_wide, session_00_08, session_08_16, session_16_24,
  other_kind, rule, consensus, joint, Family, Policy, AnyPolicy, single, combined, Threshold,
  Thresholds, ProbeRow, at_least, at_most, by_side, rule_test, single_mask, voters, vote, high_vote,
  low_vote, is_finite, all_finite, total, consensus_mask, signal_mask, kind_mask, signal_kind_mask,
  single_policy_mask, policy_mask,
}

abbrev pub negate : ℤ → ℤ
negate v = pos 0 -ℤ v

abbrev pub negate_value : Option ℤ → Option ℤ
negate_value none = none
negate_value (some v) = some (negate v)

-- The other side, with the signals negated.
abbrev pub mirror_row : ProbeRow → ProbeRow
mirror_row row = record row { is_bid = not row.is_bid; values = λ s. negate_value (row.values s) }

abbrev pub mirror_threshold : Threshold → Threshold
mirror_threshold t = record { q20 = negate t.q80; q50 = negate t.q50; q80 = negate t.q20 }

abbrev pub mirror_thresholds : Thresholds → Thresholds
mirror_thresholds ts = record ts { of_signal = λ s. mirror_threshold (ts.of_signal s) }

leb_ℤ-negate : (a b : ℤ) → leb_ℤ (negate a) (negate b) ≡ leb_ℤ b a
leb_ℤ-negate a b = ground (arith, -ℤ_parts (pos 0) a, -ℤ_parts (pos 0) b)

and_comm : (a b : Bool) → (a && b) ≡ (b && a)
and_comm true true = refl
and_comm true false = refl
and_comm false true = refl
and_comm false false = refl

rule_test-mirror :
    (r : Rule) (is_bid : Bool) (t : Threshold) (v : ℤ)
    → rule_test r (not is_bid) (mirror_threshold t) (negate v) ≡ rule_test r is_bid t v
unfolding rule_test
rule_test-mirror trend_tail true t v = ap ok (leb_ℤ-negate v t.q80)
rule_test-mirror trend_tail false t v = ap ok (leb_ℤ-negate t.q20 v)
rule_test-mirror contrarian_tail true t v = ap ok (leb_ℤ-negate t.q20 v)
rule_test-mirror contrarian_tail false t v = ap ok (leb_ℤ-negate v t.q80)
rule_test-mirror trend_half true t v = ap ok (leb_ℤ-negate v t.q50)
rule_test-mirror trend_half false t v = ap ok (leb_ℤ-negate t.q50 v)
rule_test-mirror contrarian_half true t v = ap ok (leb_ℤ-negate t.q50 v)
rule_test-mirror contrarian_half false t v = ap ok (leb_ℤ-negate v t.q50)
rule_test-mirror trend_broad true t v = ap ok (leb_ℤ-negate v t.q20)
rule_test-mirror trend_broad false t v = ap ok (leb_ℤ-negate t.q80 v)
rule_test-mirror contrarian_broad true t v = ap ok (leb_ℤ-negate t.q80 v)
rule_test-mirror contrarian_broad false t v = ap ok (leb_ℤ-negate v t.q20)
rule_test-mirror central is_bid t v =
    rw (leb_ℤ-negate t.q80 v, leb_ℤ-negate v t.q20)
      (ap ok (and_comm (leb_ℤ v t.q80) (leb_ℤ t.q20 v)))
rule_test-mirror other_rule is_bid t v = refl

single_mask-mirror :
    (r : Rule) (v : Option ℤ) (is_bid : Bool) (t : Threshold)
    → single_mask r (negate_value v) (not is_bid) (mirror_threshold t) ≡ single_mask r v is_bid t
unfolding single_mask
single_mask-mirror r none is_bid t = refl
single_mask-mirror r (some v) is_bid t = rule_test-mirror r is_bid t v

signal_mask-mirror :
    (r : Rule) (s : Signal) (ts : Thresholds) (row : ProbeRow)
    → signal_mask r s (mirror_thresholds ts) (mirror_row row) ≡ signal_mask r s ts row
unfolding signal_mask
signal_mask-mirror r s ts row = single_mask-mirror r (row.values s) row.is_bid (ts.of_signal s)

-- A high vote is a low one of the mirrored row.
finite_and-mirror :
    (v : Option ℤ) (a : ℤ)
    → finite_and (at_most (negate a)) (negate_value v) ≡ finite_and (at_least a) v
finite_and-mirror none a = refl
finite_and-mirror (some v) a = leb_ℤ-negate v a

low_vote-mirror :
    (use_tail : Bool) (ts : Thresholds) (row : ProbeRow) (s : Signal)
    → low_vote use_tail (mirror_thresholds ts) (mirror_row row) s ≡ high_vote use_tail ts row s
unfolding low_vote high_vote
low_vote-mirror true ts row s = ap vote (finite_and-mirror (row.values s) _)
low_vote-mirror false ts row s = ap vote (finite_and-mirror (row.values s) _)

finite_and-mirror_high :
    (v : Option ℤ) (a : ℤ)
    → finite_and (at_least (negate a)) (negate_value v) ≡ finite_and (at_most a) v
finite_and-mirror_high none a = refl
finite_and-mirror_high (some v) a = leb_ℤ-negate a v

high_vote-mirror :
    (use_tail : Bool) (ts : Thresholds) (row : ProbeRow) (s : Signal)
    → high_vote use_tail (mirror_thresholds ts) (mirror_row row) s ≡ low_vote use_tail ts row s
unfolding low_vote high_vote
high_vote-mirror true ts row s = ap vote (finite_and-mirror_high (row.values s) _)
high_vote-mirror false ts row s = ap vote (finite_and-mirror_high (row.values s) _)

is_finite-negate : (v : Option ℤ) → is_finite (negate_value v) ≡ is_finite v
is_finite-negate none = refl
is_finite-negate (some v) = refl

by_side-mirror : (is_bid a b : Bool) → by_side (not is_bid) b a ≡ by_side is_bid a b
by_side-mirror true a b = refl
by_side-mirror false a b = refl

-- The votes of three signals, mirrored.
total-cong :
    (f g : Signal → ℕ) (s : Signal × Signal × Signal)
    → ((x : Signal) → f x ≡ g x)
    → total f s ≡ total g s
total-cong f g (a, b, c) h = omega (arith, h a, h b, h c)

all_finite-mirror :
    (row : ProbeRow) (s : Signal × Signal × Signal)
    → all_finite (mirror_row row) s ≡ all_finite row s
unfolding all_finite
all_finite-mirror row (a, b, c) =
    rw
      (
        is_finite-negate (row.values a),
        is_finite-negate (row.values b),
        is_finite-negate (row.values c),
      )
      refl

consensus_mask-mirror :
    (family : Family) (trend use_tail : Bool) (ts : Thresholds) (row : ProbeRow)
    → consensus_mask family trend use_tail (mirror_thresholds ts) (mirror_row row)
      ≡ consensus_mask family trend use_tail ts row
unfolding consensus_mask
consensus_mask-mirror family trend use_tail ts row =
    let high = total-cong _ _ (voters family) (high_vote-mirror use_tail ts row) in
    let low = total-cong _ _ (voters family) (low_vote-mirror use_tail ts row) in
    rw (all_finite-mirror row (voters family), high, low)
      (ap (λ b. all_finite row (voters family) && b) (by_side-mirror row.is_bid _ _))

kind_mask-mirror :
    (family : Family) (k : Kind) (ts : Thresholds) (row : ProbeRow)
    → kind_mask family k (mirror_thresholds ts) (mirror_row row) ≡ kind_mask family k ts row
unfolding kind_mask
kind_mask-mirror family baseline ts row = refl
kind_mask-mirror family (rule r) ts row = refl
kind_mask-mirror family (consensus trend use_tail) ts row =
    ap ok (consensus_mask-mirror family trend use_tail ts row)
kind_mask-mirror family (joint r) ts row =
    rw
      (signal_mask-mirror r combined_prediction_1s_ticks ts row, signal_mask-mirror r obi_l5 ts row)
      refl
kind_mask-mirror family queue_low ts row = refl
kind_mask-mirror family queue_high ts row = refl
kind_mask-mirror family queue_middle ts row = refl
kind_mask-mirror family spread_one ts row = refl
kind_mask-mirror family spread_wide ts row = refl
kind_mask-mirror family session_00_08 ts row = refl
kind_mask-mirror family session_08_16 ts row = refl
kind_mask-mirror family session_16_24 ts row = refl
kind_mask-mirror family other_kind ts row = refl

signal_kind_mask-mirror :
    (k : Kind) (s : Signal) (ts : Thresholds) (row : ProbeRow)
    → signal_kind_mask k s (mirror_thresholds ts) (mirror_row row) ≡ signal_kind_mask k s ts row
unfolding signal_kind_mask
signal_kind_mask-mirror baseline s ts row = refl
signal_kind_mask-mirror (rule r) s ts row = signal_mask-mirror r s ts row
signal_kind_mask-mirror (consensus trend use_tail) s ts row = refl
signal_kind_mask-mirror (joint r) s ts row = refl
signal_kind_mask-mirror queue_low s ts row = refl
signal_kind_mask-mirror queue_high s ts row = refl
signal_kind_mask-mirror queue_middle s ts row = refl
signal_kind_mask-mirror spread_one s ts row = refl
signal_kind_mask-mirror spread_wide s ts row = refl
signal_kind_mask-mirror session_00_08 s ts row = refl
signal_kind_mask-mirror session_08_16 s ts row = refl
signal_kind_mask-mirror session_16_24 s ts row = refl
signal_kind_mask-mirror other_kind s ts row = refl

single_policy_mask-mirror :
    (p : Policy) (ts : Thresholds) (row : ProbeRow)
    → single_policy_mask p (mirror_thresholds ts) (mirror_row row) ≡ single_policy_mask p ts row
unfolding single_policy_mask
single_policy_mask-mirror p ts row = elim (Option-cases p.signal) [
  | inl e ↦ rw e (kind_mask-mirror p.family p.kind ts row)
  | inr (s, e) ↦ rw e (signal_kind_mask-mirror p.kind s ts row)
]

-- Every policy treats the two sides alike: it selects a probe, or fails, just as it does the probe
-- of the other side with all signals and their thresholds negated.
pub policy_mask-mirror :
    (p : AnyPolicy) (ts : Thresholds) (row : ProbeRow)
    → policy_mask p (mirror_thresholds ts) (mirror_row row) ≡ policy_mask p ts row
unfolding policy_mask
policy_mask-mirror (single p) ts row = single_policy_mask-mirror p ts row
policy_mask-mirror (combined l r) ts row =
    rw (single_policy_mask-mirror l ts row, single_policy_mask-mirror r ts row) refl
