-- ===== src/Binance/Replay.antt =====
-- The replay of raw records through the synchronizer (cpp/replay/event_replayer.cpp): which call
-- each record makes, and what it does where the parser throws. Every record of the historical
-- adapter is on the depth stream.
use crypto_microstructure_ma.Prelude.{
  ◌≡◌, refl, ℕ, ◌+◌, Bool, true, false, ◌||◌, List, [], ◌∷◌, ◌++◌, if◌then◌else◌,
}
use crypto_microstructure_ma.Historical.Emission.{
  DepthUpdate, DepthSnapshot, Emission, connection_open, connection_close, instrument_info,
  depth_snapshot, depth_update,
}
use crypto_microstructure_ma.Binance.Book.{BookOps}
use crypto_microstructure_ma.Binance.DepthSync.{
  Sync, SyncResult, invalid_book, disconnected, on_connected, begin_resync, on_snapshot, on_depth,
}

-- `MessageParser` for one instrument: whether it takes the payload of a record, or throws.
pub record Parser : Type 0 where
  pub takes_snapshot : DepthSnapshot → Bool
  pub takes_update : DepthUpdate → Bool

-- The local variables of the replay. `rejected` notes that the order book has refused an event: a
-- call returned `InvalidBook`.
pub record Replayer (B : BookOps) : Type 0 where
  pub parser : Parser
  pub sync : Sync B
  pub depth_connected : Bool
  pub rejected : Bool
  pub parse_failures : ℕ

unfoldable pub is_invalid_book : SyncResult → Bool
is_invalid_book invalid_book = true
is_invalid_book _ = false

module _ {B : BookOps} where
  unfoldable pub after_call : Replayer B → Sync B × SyncResult → Replayer B
  unfolding is_invalid_book
  after_call r (s, result) = record r { sync = s; rejected = r.rejected || is_invalid_book result }

  unfoldable pub on_record : Replayer B → Emission → Replayer B
  on_record r (connection_open t) = record r { sync = on_connected r.sync; depth_connected = true }
  on_record r (connection_close t) = record r { depth_connected = false }
  on_record r (instrument_info t) = r
  on_record r (depth_snapshot t m) =
      if r.parser.takes_snapshot m
      then after_call r (on_snapshot m r.sync)
      else record r { parse_failures = r.parse_failures + 1 }
  on_record r (depth_update u) =
      if r.depth_connected
      then (if r.parser.takes_update u
          then after_call r (on_depth u r.sync)
          else record r { sync = begin_resync r.sync; parse_failures = r.parse_failures + 1 })
      else r

  unfoldable pub replay : Replayer B → List Emission → Replayer B
  replay r [] = r
  replay r (e ∷ es) = replay (on_record r e) es

  pub replay-append :
      (r : Replayer B) (es fs : List Emission) → replay r (es ++ fs) ≡ replay (replay r es) fs
  unfolding replay
  replay-append r [] fs = refl
  replay-append r (e ∷ es) fs = replay-append (on_record r e) es fs

-- A replayer at its start, with an empty book.
unfoldable pub start : (B : BookOps) → Parser → ℕ → Replayer B
start B parser limit = record {
  parser = parser;
  sync = record {
    book = B.empty_book;
    buffer = [];
    max_buffered_events = limit;
    state = disconnected;
    first_event_applied = false;
    snapshot_update_id = 0;
    gap_count = 0;
    applied_event_count = 0;
    stale_event_count = 0;
  };
  depth_connected = false;
  rejected = false;
  parse_failures = 0;
}
