-- ===== src/Historical/Tests.antt =====
-- The theorems of the historical adapter at small streams.
use crypto_microstructure_ma.Prelude.{◌≡◌, refl, none, some}
use crypto_microstructure_ma.Historical.Decimal.{decimal, decimal_ltb, decimal_positive}
use crypto_microstructure_ma.Historical.Snapshot.{
  greatest, is_uncrossed, least, positive_prices, snapshot_is_usable,
}
use crypto_microstructure_ma.Historical.Emission.{as_update}
use crypto_microstructure_ma.Historical.Samples.{base, stream}
use crypto_microstructure_ma.Historical.Packing.{pack}
use crypto_microstructure_ma.Historical.Packing.Totality.{Succeeds, pack-Succeeds}
use crypto_microstructure_ma.Historical.Continuity.{
  Audit, Result, ok, err, audit_continuity, begin_audit, audit_all, audit_message, audit_by_type,
  audit_usable, audit_ids, audit_snapshot, audit_update, count_message, snapshot_status,
  update_status, bridge_status, chain_status, apply_status, change_object, seen_in_object,
  snapshot_in_object, update_in_object,
}
use crypto_microstructure_ma.Prelude.{ℕ, List, [], ◌∷◌, ltb, if◌then◌else◌}
use crypto_microstructure_ma.Prelude.Int.{pos}
use crypto_microstructure_ma.Prelude.Results.{Fallible}
use crypto_microstructure_ma.Historical.Message.{
  Text, EventType, DepthMessage, sequence_anchor, type_rank, ordering_key, key_leb, add_level,
}
use crypto_microstructure_ma.Historical.Hours.{
  LevelRow, HourError, same_identity, new_message, spool, set_current, add_row, begin_message,
  group_with, group_rows, close_grouping, insert_message, sort_messages, hour_messages,
}
use crypto_microstructure_ma.Historical.Hours.Levels.{IsHour, hour_messages-IsHour}
use crypto_microstructure_ma.Historical.Discovery.{
  CachedHour, DiscoveryError, SnapshotSearch, keep_usable, keep_candidate, candidates,
  least_message, greatest_message, select, search_hour, or_search, search_from, discover_snapshot,
}

-- The code that reads snapshots and updates, for tests that run it.
reading_code : Unit {0}
unfolding decimal decimal_ltb decimal_positive greatest is_uncrossed least positive_prices
    snapshot_is_usable as_update
reading_code = tt

pack-Succeeds_example : Succeeds (pack stream (some base) none 1000)
unfolding reading_code
pack-Succeeds_example =
    pack-Succeeds stream base none 1000 refl
      ((λ w e. cc), ((λ w e. cc), ((λ w e. cc), ((λ w e. cc), tt))))

abbrev audit_or : Result Audit → Audit → Audit
audit_or (ok a) b = a
audit_or (err e) b = b

-- The code of the audit, for tests that run it.
audit_code : Unit {0}
unfolding reading_code audit_continuity begin_audit audit_all audit_message audit_by_type
    audit_usable audit_ids audit_snapshot audit_update count_message snapshot_status update_status
    bridge_status chain_status apply_status change_object seen_in_object snapshot_in_object
    update_in_object
audit_code = tt

abbrev audited : Audit
audited = audit_or (audit_continuity stream (some base)) (begin_audit none)

-- The bridge and the update behind it are contiguous, and the last update is a break.
audited_breaks : audited.summary.pu_breaks ≡ 1
unfolding audit_code
audited_breaks = refl

-- Three rows, of which the last two are one message that was received before the first.
abbrev row_at : ℕ → Text → LevelRow
row_at t side = record {
  received_time = t;
  event_time = pos t;
  transaction_time = none;
  symbol = [];
  event_type = EventType.update;
  first_update_id = some 3;
  final_update_id = some 4;
  prev_final_update_id = some 2;
  last_update_id = none;
  side = side;
  price = b'7' ∷ [];
  quantity = b'2' ∷ [];
}

abbrev rows : List LevelRow
rows =
    row_at 9 (b'b' ∷ b'i' ∷ b'd' ∷ [])
    ∷ row_at 8 (b'a' ∷ b's' ∷ b'k' ∷ [])
    ∷ row_at 8 (b'b' ∷ b'i' ∷ b'd' ∷ [])
    ∷ []

-- The code of an hour's messages, for tests that run it.
hour_code : Unit {0}
unfolding sequence_anchor type_rank ordering_key key_leb add_level same_identity new_message spool
    set_current add_row begin_message group_with group_rows close_grouping insert_message
    sort_messages hour_messages
hour_code = tt

abbrev messages_or : Fallible HourError (List DepthMessage) → List DepthMessage
messages_or (Fallible.ok ms) = ms
messages_or (Fallible.err e) = []

hour_messages-IsHour_example : IsHour rows (messages_or (hour_messages [] rows))
unfolding hour_code
hour_messages-IsHour_example =
    hour_messages-IsHour [] rows (messages_or (hour_messages [] rows)) refl

-- The snapshots lie one hour back, before the start.
abbrev cached_hours : ℕ → CachedHour
cached_hours n =
    if ltb n 1
    then record { snapshot_rows = 0; messages = [] }
    else record { snapshot_rows = 2; messages = base ∷ stream }

-- The code of the search, for tests that run it.
search_code : Unit {0}
unfolding reading_code hour_code keep_usable keep_candidate candidates least_message
    greatest_message select search_hour or_search search_from discover_snapshot
search_code = tt

abbrev search_or : Fallible DiscoveryError SnapshotSearch → SnapshotSearch
search_or (Fallible.ok s) = s
search_or (Fallible.err e) = record { snapshot = none; checked = [] }
