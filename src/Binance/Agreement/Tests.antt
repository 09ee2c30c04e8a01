-- ===== src/Binance/Agreement/Tests.antt =====
-- The agreement at a small stream: a snapshot, its bridge, an update in sequence, and a gap that a
-- pending snapshot covers.
use crypto_microstructure_ma.Prelude.{◌≡◌, refl, true, none, some, List, [], map, length}
use crypto_microstructure_ma.Prelude.Int.{ℤ, pos}
use crypto_microstructure_ma.Historical.Message.{Text, ordering_key, key_leb}
use crypto_microstructure_ma.Historical.Samples.{base, stream}
use crypto_microstructure_ma.Historical.Decimal.{decimal, decimal_ltb, decimal_positive}
use crypto_microstructure_ma.Historical.Snapshot.{
  positive_prices, greatest, least, is_uncrossed, snapshot_is_usable,
}
use crypto_microstructure_ma.Historical.Packing.{
  PackState, live, Result, ok, err, write, emit_update, emit_all, flush_deferred_updates,
  replace_pending, on_snapshot_live, drop_before, replay_buffered, settle_rest, settle,
  on_snapshot_resync, is_empty, on_snapshot_in, on_update_awaiting, on_update_invalid, defer,
  on_contiguous, close_stamp, bridge_gap, lose_book, on_gap, on_update_live, on_update_in,
  on_candidate, on_ids, on_message, step, run, base_stamp, initial, finish_in, finish, base_of,
  pack,
}
use crypto_microstructure_ma.Historical.Emission.{as_update, as_snapshot}
use crypto_microstructure_ma.Binance.OrderBook.{Levels, order_book}
use crypto_microstructure_ma.Binance.Replay.{Parser, Replayer, replay, start}

abbrev whole : Text → ℤ
whole t = elim (decimal t) [ none ↦ pos 0 | some d ↦ pos d.coefficient ]

abbrev whole_levels : List (Text × Text) → Levels
whole_levels = map λ (l : Text × Text). (whole l.0, whole l.1)

abbrev value_of : Result PackState → PackState → PackState
value_of (ok p) q = p
value_of (err e) q = q

abbrev taking : Parser
taking = record { takes_snapshot = λ m. true; takes_update = λ u. true }

-- The code of the loop, for tests that run it.
packing_code : Unit {0}
unfolding ordering_key key_leb decimal decimal_ltb decimal_positive positive_prices greatest least
    is_uncrossed snapshot_is_usable as_update as_snapshot write emit_update emit_all
    flush_deferred_updates replace_pending on_snapshot_live drop_before replay_buffered settle_rest
    settle on_snapshot_resync is_empty on_snapshot_in on_update_awaiting on_update_invalid defer
    on_contiguous close_stamp bridge_gap lose_book on_gap on_update_live on_update_in on_candidate
    on_ids on_message step run base_stamp initial finish_in finish base_of pack
packing_code = tt

abbrev packed : PackState
packed = value_of (pack stream (some base) none 1000) (record {
  previous_u = 0;
  snapshot_anchor = 0;
  phase = live;
  buffered_while_invalid = [];
  pending_live_snapshot = none;
  deferred_live_updates = [];
  last_update_received_ns = none;
  written = [];
})

abbrev replayed : Replayer (order_book whole_levels)
replayed = replay (start (order_book whole_levels) taking 100000) packed.written

-- Three records, two updates, and the four that bridge the gap.
length-packed : length packed.written ≡ 9
unfolding packing_code
length-packed = refl
