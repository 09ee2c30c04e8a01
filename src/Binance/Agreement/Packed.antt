-- ===== src/Binance/Agreement/Packed.antt =====
-- The whole of `pack_for_existing_cpp_pipeline` against the synchronizer that reads its records.
use crypto_microstructure_ma.Prelude.{ℕ, ◌≡◌, ◌≢◌, []}
use crypto_microstructure_ma.Historical.Packing.{
  Phase, awaiting_bridge, live, invalid, PackState, Result, ok, err,
}
use crypto_microstructure_ma.Binance.Book.{BookOps}
use crypto_microstructure_ma.Binance.DepthSync.{Sync, disconnected}
use crypto_microstructure_ma.Binance.Replay.{Parser, Replayer, replay, start}
use crypto_microstructure_ma.Binance.Agreement.Calls.{IsSyncedAt, IsSyncing, IsWaitingWith}
use crypto_microstructure_ma.Binance.Agreement.Relation.{HoldsNothing, Unless}
use crypto_microstructure_ma.Binance.Agreement.Steps.{InStep}

module _ {B : BookOps} (r : Replayer B) where
  -- What a snapshot outside the live phase needs of the two sides.
  abbrev CanSettle : PackState → Sync B → Type 0
  CanSettle p s = (s.state ≢ disconnected) × (s.buffer ≡ p.buffered_while_invalid) × HoldsNothing p

  -- The result of a step, if it is one.
  abbrev Keeps : Result PackState → Type 0
  Keeps (err e) = Unit
  Keeps (ok p) = InStep r p

-- Where the synchronizer stands when the packing is done, by the phase that it ended in.
abbrev pub EndsAt : {B : BookOps} → Phase → PackState → Sync B → Type 0
EndsAt awaiting_bridge p s = IsSyncing p.snapshot_anchor s
EndsAt live p s = IsSyncedAt p.previous_u [] s
EndsAt invalid p s = IsWaitingWith p.buffered_while_invalid s

module _ (B : BookOps) (parser : Parser) (limit : ℕ) where
  -- The synchronizer at the end of a packing that succeeded.
  abbrev Ended : Result PackState → Type 0
  Ended (err e) = Unit
  Ended (ok p) = Unless (replay (start B parser limit) p.written) (EndsAt p.phase p)
