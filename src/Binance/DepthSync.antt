-- ===== src/Binance/DepthSync.antt =====
-- `DepthSynchronizer` (cpp/exchange/binance/depth_sync.cpp), over the operations of the order book.
use crypto_microstructure_ma.Prelude.{
  ℕ, ◌+◌, Bool, true, false, ◌&&◌, not, List, [], ◌∷◌, ◌++◌, ltb, leb, ◌==◌, if◌then◌else◌, length,
}
use crypto_microstructure_ma.Historical.Emission.{DepthUpdate, DepthSnapshot}
use crypto_microstructure_ma.Binance.Book.{BookOps}

pub data SyncState : Type 0 where
  disconnected buffering snapshot_pending syncing synced gap_detected broken resyncing : SyncState

pub data SyncResult : Type 0 where
  buffered applied stale gap need_snapshot invalid_book ignored_disconnected : SyncResult

pub record Sync (B : BookOps) : Type 0 where
  pub book : B.Book
  pub buffer : List DepthUpdate
  pub max_buffered_events : ℕ
  pub state : SyncState
  pub first_event_applied : Bool
  pub snapshot_update_id : ℕ
  pub gap_count : ℕ
  pub applied_event_count : ℕ
  pub stale_event_count : ℕ

module _ {B : BookOps} where
  unfoldable pub on_connected : Sync B → Sync B
  on_connected s = record s {
    book = B.clear s.book;
    buffer = [];
    first_event_applied = false;
    snapshot_update_id = 0;
    state = buffering;
  }

  unfoldable pub begin_resync : Sync B → Sync B
  begin_resync s = record s {
    book = B.invalidate s.book;
    first_event_applied = false;
    snapshot_update_id = 0;
    state = resyncing;
  }

  unfoldable pub buffer_event : DepthUpdate → Sync B → Sync B × SyncResult
  buffer_event u s =
      if leb s.max_buffered_events (length s.buffer)
      then (
        record s {
          book = B.invalidate s.book;
          buffer = [];
          gap_count = s.gap_count + 1;
          state = broken;
        },
        invalid_book,
      )
      else (record s { buffer = s.buffer ++ u ∷ [] }, buffered)

  unfoldable pub detect_gap : DepthUpdate → Sync B → Sync B × SyncResult
  detect_gap u s = (
    record s {
      book = B.invalidate s.book;
      buffer = u ∷ [];
      first_event_applied = false;
      snapshot_update_id = 0;
      gap_count = s.gap_count + 1;
      state = gap_detected;
    },
    gap,
  )

  unfoldable pub mark_stale : Sync B → Sync B × SyncResult
  mark_stale s = (record s { stale_event_count = s.stale_event_count + 1 }, stale)

  -- `book_.apply_depth_event`, and what follows it in both callers; `first` sets the flag.
  unfoldable pub apply_event : Bool → DepthUpdate → Sync B → Sync B × SyncResult
  apply_event first u s =
      let (book, done) = B.apply_depth_event u s.book in
      if done
      then (
        record s {
          book = book;
          first_event_applied = if first then true else s.first_event_applied;
          applied_event_count = s.applied_event_count + 1;
          state = synced;
        },
        applied,
      )
      else (record s { book = book; state = broken }, invalid_book)

  unfoldable pub apply_first_event : DepthUpdate → Sync B → Sync B × SyncResult
  unfolding mark_stale
  apply_first_event u s =
      if ltb u.final_update_id s.snapshot_update_id
      then mark_stale s
      else if ltb s.snapshot_update_id u.first_update_id
      then detect_gap u s
      else if not
          (leb u.first_update_id s.snapshot_update_id && leb s.snapshot_update_id u.final_update_id)
      then mark_stale s
      else apply_event true u s

  unfoldable pub apply_contiguous_event : DepthUpdate → Sync B → Sync B × SyncResult
  unfolding mark_stale
  apply_contiguous_event u s =
      if leb u.final_update_id (B.last_update_id s.book)
      then mark_stale s
      else if not (u.prev_final_update_id == B.last_update_id s.book)
      then detect_gap u s
      else apply_event false u s

  -- A gap found while the buffer is replayed, or while syncing, asks for another snapshot.
  unfoldable pub resync_on_gap : Sync B × SyncResult → Sync B × SyncResult
  unfolding begin_resync
  resync_on_gap (s, r) = elim r [ gap ↦ (begin_resync s, need_snapshot) | other ↦ (s, other) ]

  unfoldable pub drop_older : ℕ → List DepthUpdate → Sync B → Sync B
  drop_older anchor [] s = record s { buffer = [] }
  drop_older anchor (u ∷ us) s =
      let dropped =
        drop_older anchor us (record s { stale_event_count = s.stale_event_count + 1 }) in
      if ltb u.final_update_id anchor then dropped else record s { buffer = u ∷ us }

  -- What the loop over the buffer does with a result: it goes on, or returns.
  unfoldable pub next_buffered :
      (Sync B → Sync B × SyncResult) → Sync B × SyncResult → Sync B × SyncResult
  unfolding resync_on_gap
  next_buffered loop (s, r) = elim r [
    | gap ↦ resync_on_gap (s, gap)
    | invalid_book ↦ (s, invalid_book)
    | _ ↦ loop s
  ]

  -- The second loop of `on_snapshot`. Each event is popped before it is applied.
  unfoldable pub replay_buffer : List DepthUpdate → Sync B → Sync B × SyncResult
  replay_buffer [] s = (record s { buffer = [] }, applied)
  replay_buffer (u ∷ us) s =
      next_buffered (replay_buffer us) (apply_contiguous_event u (record s { buffer = us }))

  -- Behind the first event: the loop if it was applied, and a return if not.
  unfoldable pub next_first : List DepthUpdate → Sync B × SyncResult → Sync B × SyncResult
  unfolding resync_on_gap
  next_first us (s, r) = elim r [
    | applied ↦ replay_buffer us s
    | gap ↦ resync_on_gap (s, gap)
    | other ↦ (s, other)
  ]

  -- The first event behind the snapshot, popped from the buffer.
  unfoldable pub replay_first : List DepthUpdate → Sync B → Sync B × SyncResult
  replay_first [] s = (s, buffered)
  replay_first (u ∷ us) s = next_first us (apply_first_event u (record s { buffer = us }))

  unfoldable pub on_snapshot : DepthSnapshot → Sync B → Sync B × SyncResult
  on_snapshot m s =
      let (book, loaded) = B.load_snapshot m s.book in
      let s' = record s {
        book = book;
        state = syncing;
        first_event_applied = false;
        snapshot_update_id = m.last_update_id;
      } in
      let synced_up = drop_older m.last_update_id s'.buffer s' in
      elim s.state [
        | disconnected ↦ (s, ignored_disconnected)
        | _ ↦
            if loaded
            then replay_first synced_up.buffer synced_up
            else (record s' { state = broken }, invalid_book)
      ]

  unfoldable pub on_depth : DepthUpdate → Sync B → Sync B × SyncResult
  on_depth u s = elim s.state [
    | disconnected ↦ (s, ignored_disconnected)
    | buffering ↦ buffer_event u s
    | snapshot_pending ↦ buffer_event u s
    | resyncing ↦ buffer_event u s
    | gap_detected ↦ buffer_event u s
    | broken ↦ (s, invalid_book)
    | syncing ↦
        resync_on_gap
          (if s.first_event_applied then apply_contiguous_event u s else apply_first_event u s)
    | synced ↦ apply_contiguous_event u s
  ]
