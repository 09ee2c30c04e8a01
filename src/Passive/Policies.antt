-- ===== src/Passive/Policies.antt =====
-- The filters of pyresearch/passive/approach_search.py: which probes a policy selects, for one row
-- of the arrays. Signals and thresholds are scaled integers; what is not finite is `none`. Names and
-- descriptions, which only label reports, are left out, and the families that no mask asks for are
-- one. The lists of policies that the search tries are not modelled.
use crypto_microstructure_ma.Prelude.Arrays.{finite_and}
use crypto_microstructure_ma.Prelude.{
  ℕ, ◌+◌, ◌/◌, ◌%◌, Bool, true, false, ◌&&◌, not, Option, none, some, ltb, leb, if◌then◌else◌,
}
use crypto_microstructure_ma.Prelude.Int.{ℤ, pos, leb_ℤ}
use crypto_microstructure_ma.Prelude.Results.{Fallible, ok, err, ◌>>=◌}
pub mod Mirror
pub mod Nesting
mod Tests

pub data Signal : Type 0 where
  obi_l1 obi_l5 obi_l10 weighted_obi_l10 weighted_mid_minus_mid_ticks : Signal
  normalized_ofi_1s ti_1s combined_prediction_1s_ticks : Signal

pub data Rule : Type 0 where
  trend_tail contrarian_tail trend_half contrarian_half : Rule
  trend_broad contrarian_broad central other_rule : Rule

-- A policy's kind, where a prefix or a suffix of the source's names is an argument: a consensus is
-- of the trend or not, and in the tails or not.
pub data Kind : Type 0 where
  baseline queue_low queue_high queue_middle spread_one spread_wide : Kind
  session_00_08 session_08_16 session_16_24 other_kind : Kind
  rule : Rule → Kind
  consensus : Bool → Bool → Kind
  joint : Rule → Kind

pub data Family : Type 0 where
  obi_consensus micro_consensus other_family : Family

pub record Policy : Type 0 where
  pub family : Family
  pub kind : Kind
  pub signal : Option Signal

pub data AnyPolicy : Type 0 where
  single : Policy → AnyPolicy
  combined : Policy → Policy → AnyPolicy

pub data PolicyError : Type 0 where
  unknown_rule unknown_policy : PolicyError

pub record Threshold : Type 0 where
  pub q20 : ℤ
  pub q50 : ℤ
  pub q80 : ℤ

-- The thresholds of the signals and of the queue, and one tick with the comparison's tolerance.
pub record Thresholds : Type 0 where
  pub of_signal : Signal → Threshold
  pub queue_q20 : ℕ
  pub queue_q80 : ℕ
  pub one_tick : ℕ

pub record ProbeRow : Type 0 where
  pub is_bid : Bool
  pub values : Signal → Option ℤ
  pub queue_ahead_initial : Option ℕ
  pub spread_ticks : Option ℕ
  pub decision_time_us : ℕ

abbrev pub at_least : ℤ → ℤ → Bool
at_least low v = leb_ℤ low v

abbrev pub at_most : ℤ → ℤ → Bool
at_most high v = leb_ℤ v high

-- `np.where(is_bid, a, b)`
abbrev pub by_side : Bool → Bool → Bool → Bool
by_side true a b = a
by_side false a b = b

unfoldable pub rule_test : Rule → Bool → Threshold → ℤ → Fallible PolicyError Bool
rule_test trend_tail is_bid t v = ok (by_side is_bid (at_least t.q80 v) (at_most t.q20 v))
rule_test contrarian_tail is_bid t v = ok (by_side is_bid (at_most t.q20 v) (at_least t.q80 v))
rule_test trend_half is_bid t v = ok (by_side is_bid (at_least t.q50 v) (at_most t.q50 v))
rule_test contrarian_half is_bid t v = ok (by_side is_bid (at_most t.q50 v) (at_least t.q50 v))
rule_test trend_broad is_bid t v = ok (by_side is_bid (at_least t.q20 v) (at_most t.q80 v))
rule_test contrarian_broad is_bid t v = ok (by_side is_bid (at_most t.q80 v) (at_least t.q20 v))
rule_test central is_bid t v = ok (at_least t.q20 v && at_most t.q80 v)
rule_test other_rule is_bid t v = err unknown_rule

-- The rules that `_single_mask` knows.
abbrev pub is_rule : Rule → Bool
is_rule other_rule = false
is_rule _ = true

-- `_single_mask`
unfoldable pub single_mask : Rule → Option ℤ → Bool → Threshold → Fallible PolicyError Bool
single_mask r none is_bid t = if is_rule r then ok false else err unknown_rule
single_mask r (some v) is_bid t = rule_test r is_bid t v

-- The signals that vote in a consensus.
abbrev pub voters : Family → Signal × Signal × Signal
voters obi_consensus = (obi_l1, obi_l5, obi_l10)
voters micro_consensus = (combined_prediction_1s_ticks, normalized_ofi_1s, ti_1s)
voters other_family = (combined_prediction_1s_ticks, normalized_ofi_1s, ti_1s)

abbrev pub vote : Bool → ℕ
vote true = 1
vote false = 0

unfoldable pub high_vote : Bool → Thresholds → ProbeRow → Signal → ℕ
high_vote use_tail ts row s =
    let t = ts.of_signal s in
    vote (finite_and (at_least (if use_tail then t.q80 else t.q50)) (row.values s))

unfoldable pub low_vote : Bool → Thresholds → ProbeRow → Signal → ℕ
low_vote use_tail ts row s =
    let t = ts.of_signal s in
    vote (finite_and (at_most (if use_tail then t.q20 else t.q50)) (row.values s))

abbrev pub is_finite {ℓ} : {A : Type ℓ} → Option A → Bool
is_finite none = false
is_finite (some v) = true

unfoldable pub all_finite : ProbeRow → Signal × Signal × Signal → Bool
all_finite row (a, b, c) =
    is_finite (row.values a) && is_finite (row.values b) && is_finite (row.values c)

abbrev pub total : (Signal → ℕ) → Signal × Signal × Signal → ℕ
total votes (a, b, c) = votes a + votes b + votes c

unfoldable pub consensus_mask : Family → Bool → Bool → Thresholds → ProbeRow → Bool
consensus_mask family trend use_tail ts row =
    let high = leb 2 (total (high_vote use_tail ts row) (voters family)) in
    let low = leb 2 (total (low_vote use_tail ts row) (voters family)) in
    all_finite row (voters family)
    && by_side row.is_bid (if trend then high else low) (if trend then low else high)

unfoldable pub signal_mask : Rule → Signal → Thresholds → ProbeRow → Fallible PolicyError Bool
signal_mask r s ts row = single_mask r (row.values s) row.is_bid (ts.of_signal s)

unfoldable pub both :
    Fallible PolicyError Bool → Fallible PolicyError Bool → Fallible PolicyError Bool
both r q = r >>= (λ a. q >>= (λ b. ok (a && b)))

unfoldable pub hour_of : ℕ → ℕ
hour_of time = time / 3600000000 % 24

-- `policy_mask` of a policy without a signal, by its kind.
unfoldable pub kind_mask : Family → Kind → Thresholds → ProbeRow → Fallible PolicyError Bool
kind_mask family baseline ts row = ok true
kind_mask family (rule r) ts row = err unknown_policy
kind_mask family (consensus trend use_tail) ts row =
    ok (consensus_mask family trend use_tail ts row)
kind_mask family (joint r) ts row =
    both (signal_mask r combined_prediction_1s_ticks ts row) (signal_mask r obi_l5 ts row)
kind_mask family queue_low ts row =
    ok (finite_and (λ q. leb q ts.queue_q20) row.queue_ahead_initial)
kind_mask family queue_high ts row =
    ok (finite_and (λ q. leb ts.queue_q80 q) row.queue_ahead_initial)
kind_mask family queue_middle ts row =
    ok (finite_and (λ q. leb ts.queue_q20 q && leb q ts.queue_q80) row.queue_ahead_initial)
kind_mask family spread_one ts row = ok (finite_and (λ s. leb s ts.one_tick) row.spread_ticks)
kind_mask family spread_wide ts row = ok (finite_and (λ s. ltb ts.one_tick s) row.spread_ticks)
kind_mask family session_00_08 ts row = ok (ltb (hour_of row.decision_time_us) 8)
kind_mask family session_08_16 ts row =
    let hour = hour_of row.decision_time_us in ok (leb 8 hour && ltb hour 16)
kind_mask family session_16_24 ts row = ok (leb 16 (hour_of row.decision_time_us))
kind_mask family other_kind ts row = err unknown_policy

-- A policy with a signal is a rule of it, unless it is the baseline.
unfoldable pub signal_kind_mask : Kind → Signal → Thresholds → ProbeRow → Fallible PolicyError Bool
signal_kind_mask baseline s ts row = ok true
signal_kind_mask (rule r) s ts row = signal_mask r s ts row
signal_kind_mask _ s ts row = err unknown_rule

unfoldable pub single_policy_mask : Policy → Thresholds → ProbeRow → Fallible PolicyError Bool
single_policy_mask p ts row = elim p.signal [
  | none ↦ kind_mask p.family p.kind ts row
  | some s ↦ signal_kind_mask p.kind s ts row
]

unfoldable pub policy_mask : AnyPolicy → Thresholds → ProbeRow → Fallible PolicyError Bool
policy_mask (single p) ts row = single_policy_mask p ts row
policy_mask (combined l r) ts row = both (single_policy_mask l ts row) (single_policy_mask r ts row)
