-- ===== src/Passive/Policies/Tests.antt =====
-- The theorems of the filters at a bid with small signals.
use crypto_microstructure_ma.Prelude.{◌*◌, ◌≡◌, true, none, some, arith}
use crypto_microstructure_ma.Prelude.Int.{pos, negsuc}
use crypto_microstructure_ma.Prelude.Results.{ok}
use crypto_microstructure_ma.Passive.Policies.{
  session_08_16, consensus, obi_consensus, other_family, combined, AnyPolicy, Threshold, Thresholds,
  ProbeRow, high_vote, low_vote, all_finite, consensus_mask, both, hour_of, kind_mask,
  single_policy_mask, policy_mask,
}
use crypto_microstructure_ma.Passive.Policies.Mirror.{
  mirror_row, mirror_thresholds, policy_mask-mirror,
}
use crypto_microstructure_ma.Passive.Policies.Nesting.{AreNested, single_mask-AreNested}

abbrev small_threshold : Threshold
small_threshold = record { q20 = negsuc 4; q50 = pos 0; q80 = pos 5 }

abbrev small_thresholds : Thresholds
small_thresholds = record {
  of_signal = λ s. small_threshold;
  queue_q20 = 2;
  queue_q80 = 9;
  one_tick = 10;
}

-- A bid at nine in the morning.
abbrev small_row : ProbeRow
small_row = record {
  is_bid = true;
  values = λ s. some (pos 6);
  queue_ahead_initial = some 3;
  spread_ticks = some 10;
  decision_time_us = 9 * 3600000000;
}

abbrev small_policy : AnyPolicy
small_policy =
    combined (record { family = obi_consensus; kind = consensus true true; signal = none })
      (record { family = other_family; kind = session_08_16; signal = none })

policy_mask-mirror_example :
    policy_mask small_policy (mirror_thresholds small_thresholds) (mirror_row small_row) ≡ ok true
unfolding high_vote low_vote all_finite consensus_mask both hour_of kind_mask single_policy_mask
    policy_mask
policy_mask-mirror_example = policy_mask-mirror small_policy small_thresholds small_row

single_mask-AreNested_example : AreNested (some (pos 6)) true small_threshold
single_mask-AreNested_example =
    single_mask-AreNested (some (pos 6)) true small_threshold (ground arith) (ground arith)
      (λ h. ground (arith, h))
