-- ===== src/Historical/Samples.antt =====
-- A small stream that the tests share: a snapshot, its bridge, an update in sequence, and a gap
-- that a pending snapshot covers.
use crypto_microstructure_ma.Prelude.{ℕ, none, some, List, [], ◌∷◌}
use crypto_microstructure_ma.Prelude.Int.{pos}
use crypto_microstructure_ma.Historical.Message.{EventType, DepthMessage}

abbrev pub quiet : DepthMessage
quiet = record {
  received_time_ns = 0;
  event_time = pos 0;
  transaction_time = none;
  symbol = [];
  event_type = EventType.update;
  first_update_id = none;
  final_update_id = none;
  prev_final_update_id = none;
  last_update_id = none;
  source_object = [];
  source_ordinal = 0;
  bids = [];
  asks = [];
}

abbrev pub snapshot_at : ℕ → ℕ → DepthMessage
snapshot_at t id = record quiet {
  received_time_ns = t;
  event_type = EventType.snapshot;
  last_update_id = some id;
  bids = (b'7' ∷ [], b'2' ∷ []) ∷ [];
  asks = (b'9' ∷ [], b'2' ∷ []) ∷ [];
}

abbrev pub update_at : ℕ → ℕ → ℕ → ℕ → DepthMessage
update_at t first final prev = record quiet {
  received_time_ns = t;
  first_update_id = some first;
  final_update_id = some final;
  prev_final_update_id = some prev;
}

abbrev pub stream : List DepthMessage
stream =
    update_at 11 99 101 98
    ∷ update_at 12 102 103 101
    ∷ snapshot_at 13 110
    ∷ update_at 14 109 111 108
    ∷ []

abbrev pub base : DepthMessage
base = snapshot_at 10 100
