-- ===== src/Historical/Packing.antt =====
-- The loop of `pack_for_existing_cpp_pipeline` (pyresearch/historical/l2.py), one function for each
-- part of its body. The state is the function's local variables, with the writes so far.
pub mod Totality
use crypto_microstructure_ma.Prelude.{
  ℕ, ◌+◌, ◌-◌, Bool, true, false, ◌&&◌, ◌||◌, Option, none, some, List, [], ◌∷◌, ◌++◌, ltb, leb,
  ◌==◌, if◌then◌else◌, min,
}
use crypto_microstructure_ma.Historical.Message.{EventType, DepthMessage, ordering_key, key_leb}
use crypto_microstructure_ma.Historical.Snapshot.{snapshot_is_usable}
use crypto_microstructure_ma.Historical.Emission.{
  DepthUpdate, DepthSnapshot, as_update, as_snapshot, Emission, connection_open, connection_close,
  instrument_info, depth_snapshot, depth_update,
}

pub data Phase : Type 0 where
  awaiting_bridge live invalid : Phase

pub record PackState : Type 0 where
  pub previous_u : ℕ
  pub snapshot_anchor : ℕ
  pub phase : Phase
  pub buffered_while_invalid : List DepthUpdate
  pub pending_live_snapshot : Option DepthSnapshot
  pub deferred_live_updates : List DepthUpdate
  pub last_update_received_ns : Option ℕ
  pub written : List Emission

pub data PackError : Type 0 where
  no_usable_snapshot missing_sequence_ids invalid_decimal : PackError

pub data Result {ℓ} (A : Type ℓ) : Type ℓ where
  ok : A → Result A
  err : PackError → Result A

-- `writer.write`
unfoldable pub write : Emission → PackState → PackState
write e s = record s { written = s.written ++ e ∷ [] }

-- `emit_update`, and the assignment to `last_update_received_ns` that follows each call of it.
unfoldable pub emit_update : DepthUpdate → PackState → PackState
unfolding write
emit_update u s = record (write (depth_update u) s) {
  last_update_received_ns = some u.message.received_time_ns;
}

-- The loop of `flush_deferred_updates`.
unfoldable pub emit_all : List DepthUpdate → PackState → PackState
emit_all [] s = s
emit_all (u ∷ us) s = emit_all us (emit_update u s)

unfoldable pub flush_deferred_updates : PackState → PackState
flush_deferred_updates s = record (emit_all s.deferred_live_updates s) {
  deferred_live_updates = [];
}

-- By the snapshot that is pending so far.
unfoldable pub replace_pending : DepthSnapshot → Option DepthSnapshot → PackState → PackState
replace_pending m none s = record s { pending_live_snapshot = some m }
replace_pending m (some p) s =
    if m.last_update_id == p.last_update_id
    then s
    else record (flush_deferred_updates s) { pending_live_snapshot = some m }

-- A snapshot while the book is live becomes the pending one; what was deferred behind an earlier
-- pending snapshot is flushed.
unfoldable pub on_snapshot_live : DepthSnapshot → PackState → PackState
on_snapshot_live m s =
    if leb m.last_update_id s.previous_u then s else replace_pending m s.pending_live_snapshot s

-- `while buffered and buffered[0].final_update_id < snapshot_anchor: pop`
unfoldable pub drop_before : ℕ → List DepthUpdate → List DepthUpdate
drop_before anchor [] = []
drop_before anchor (u ∷ us) = if ltb u.final_update_id anchor then drop_before anchor us else u ∷ us

-- The `for buffered in …` loop: the last id reached, and the update at which the chain broke.
unfoldable pub replay_buffered : ℕ → List DepthUpdate → ℕ × Option DepthUpdate
replay_buffered previous [] = (previous, none)
replay_buffered previous (u ∷ us) =
    let skipped = replay_buffered previous us in
    let applied = replay_buffered u.final_update_id us in
    if leb u.final_update_id previous
    then skipped
    else if u.prev_final_update_id == previous
    then applied
    else (previous, some u)

-- Behind the bridging update: live if the chain holds, and invalid where it broke.
unfoldable pub settle_rest : ℕ × Option DepthUpdate → PackState → PackState
settle_rest r s = elim r.1 [
  | none ↦ record s { previous_u = r.0; buffered_while_invalid = []; phase = live }
  | some broken ↦ record s {
    previous_u = r.0;
    buffered_while_invalid = broken ∷ [];
    phase = invalid;
  }
]

-- What the buffered updates are brought to, once the snapshot is written.
unfoldable pub settle : List DepthUpdate → PackState → PackState
settle [] s = record s { buffered_while_invalid = []; phase = awaiting_bridge }
settle (u ∷ us) s =
    if leb u.first_update_id s.snapshot_anchor && leb s.snapshot_anchor u.final_update_id
    then settle_rest (replay_buffered u.final_update_id us) s
    else record s { buffered_while_invalid = u ∷ []; phase = invalid }

-- A snapshot while the book is not live is written, and the buffered updates are replayed on it.
unfoldable pub on_snapshot_resync : DepthSnapshot → PackState → PackState
on_snapshot_resync m s =
    settle (drop_before m.last_update_id s.buffered_while_invalid)
      (record (write (depth_snapshot m.message.received_time_ns m) s) {
        snapshot_anchor = m.last_update_id;
        previous_u = m.last_update_id;
      })

unfoldable pub is_empty : List DepthUpdate → Bool
is_empty [] = true
is_empty (u ∷ us) = false

-- A snapshot, by the phase that the loop is in.
unfoldable pub on_snapshot_in : Phase → DepthSnapshot → PackState → PackState
on_snapshot_in live m s = on_snapshot_live m s
on_snapshot_in invalid m s = on_snapshot_resync m s
on_snapshot_in awaiting_bridge m s =
    if is_empty s.buffered_while_invalid && m.last_update_id == s.snapshot_anchor
    then s
    else on_snapshot_resync m s

-- The first update that is not older than the snapshot must bridge it.
unfoldable pub on_update_awaiting : DepthUpdate → PackState → PackState
on_update_awaiting u s =
    if ltb u.final_update_id s.snapshot_anchor
    then s
    else if leb u.first_update_id s.snapshot_anchor && leb s.snapshot_anchor u.final_update_id
    then record (emit_update u s) { previous_u = u.final_update_id; phase = live }
    else record (emit_update u s) {
      previous_u = u.final_update_id;
      phase = invalid;
      buffered_while_invalid = u ∷ [];
    }

unfoldable pub on_update_invalid : DepthUpdate → PackState → PackState
on_update_invalid u s = record (emit_update u s) {
  buffered_while_invalid = s.buffered_while_invalid ++ u ∷ [];
}

-- The update is held back behind a pending snapshot.
unfoldable pub defer : DepthUpdate → PackState → PackState
defer u s = record s {
  previous_u = u.final_update_id;
  deferred_live_updates = s.deferred_live_updates ++ u ∷ [];
}

-- A contiguous update is emitted, or deferred while a snapshot is pending that it does not reach.
unfoldable pub on_contiguous : DepthUpdate → Option DepthSnapshot → PackState → PackState
on_contiguous u none s = record (emit_update u s) { previous_u = u.final_update_id }
on_contiguous u (some p) s =
    if leb p.last_update_id u.final_update_id
    then record (flush_deferred_updates (defer u s)) { pending_live_snapshot = none }
    else defer u s

-- The stamp of the close event: just behind the last update, and not behind the message.
unfoldable pub close_stamp : Option ℕ → ℕ → ℕ
close_stamp none received = min (received + 1) received
close_stamp (some last) received = min ((if last == 0 then received else last) + 1) received

-- A gap that the pending snapshot covers: the connection is written as closed and opened again.
unfoldable pub bridge_gap : DepthUpdate → DepthSnapshot → PackState → PackState
unfolding close_stamp
bridge_gap u p s =
    let received = u.message.received_time_ns in
    let flushed = flush_deferred_updates s in
    let closed =
      write (connection_close (close_stamp flushed.last_update_received_ns received)) flushed in
    let reopened = write (depth_snapshot received p) (write (connection_open received) closed) in
    record (emit_update u reopened) {
      previous_u = u.final_update_id;
      pending_live_snapshot = none;
      deferred_live_updates = [];
    }

-- A gap that nothing covers.
unfoldable pub lose_book : DepthUpdate → PackState → PackState
lose_book u s =
    record (emit_update u (record (flush_deferred_updates s) { pending_live_snapshot = none })) {
      phase = invalid;
      buffered_while_invalid = u ∷ [];
      previous_u = u.final_update_id;
    }

unfoldable pub on_gap : DepthUpdate → Option DepthSnapshot → PackState → PackState
on_gap u none s = lose_book u s
on_gap u (some p) s =
    if leb u.first_update_id p.last_update_id && leb p.last_update_id u.final_update_id
    then bridge_gap u p s
    else lose_book u s

unfoldable pub on_update_live : DepthUpdate → PackState → PackState
on_update_live u s =
    if leb u.final_update_id s.previous_u
    then s
    else if u.prev_final_update_id == s.previous_u
    then on_contiguous u s.pending_live_snapshot s
    else on_gap u s.pending_live_snapshot s

-- An update, by the phase that the loop is in.
unfoldable pub on_update_in : Phase → DepthUpdate → PackState → PackState
on_update_in awaiting_bridge u s = on_update_awaiting u s
on_update_in invalid u s = on_update_invalid u s
on_update_in live u s = on_update_live u s

-- A snapshot message, by its usability and its id: one that is not usable is passed over.
unfoldable pub on_candidate : Option Bool → Option DepthSnapshot → PackState → Result PackState
on_candidate none d s = err invalid_decimal
on_candidate (some false) d s = ok s
on_candidate (some true) none s = ok s
on_candidate (some true) (some d) s = ok (on_snapshot_in s.phase d s)

-- An update message, by its ids.
unfoldable pub on_ids : Option DepthUpdate → PackState → Result PackState
on_ids none s = err missing_sequence_ids
on_ids (some u) s = ok (on_update_in s.phase u s)

-- The message by its type: unknown types are passed over.
unfoldable pub on_message : EventType → DepthMessage → PackState → Result PackState
on_message EventType.snapshot m s = on_candidate (snapshot_is_usable m) (as_snapshot m) s
on_message EventType.update m s = on_ids (as_update m) s
on_message (EventType.other t) m s = ok s

-- Messages up to the snapshot, and from the end of the window on, are passed over.
unfoldable pub step : DepthMessage → ℕ → DepthMessage → PackState → Result PackState
step base end_ns m s =
    if key_leb (ordering_key m) (ordering_key base) || leb end_ns m.received_time_ns
    then ok s
    else on_message m.event_type m s

infixl 5 ◌>>=◌
abbrev pub ◌>>=◌ {ℓ κ} : {A : Type ℓ} {B : Type κ} → Result A → (A → Result B) → Result B
ok a >>= f = f a
err e >>= f = err e

unfoldable pub run : DepthMessage → ℕ → List DepthMessage → PackState → Result PackState
run base end_ns [] s = ok s
run base end_ns (m ∷ ms) s = step base end_ns m s >>= run base end_ns ms

-- The time of the first record: the research start, or just before the snapshot.
unfoldable pub base_stamp : Option ℕ → ℕ → ℕ
base_stamp none received = received - 2
base_stamp (some start_ns) received = if ltb (start_ns + 1) received then start_ns else received - 2

-- The three records before the loop, and the variables that it starts from.
unfoldable pub initial : DepthSnapshot → Option ℕ → PackState
unfolding base_stamp
initial base start_ns =
    let received = base.message.received_time_ns in
    let first = base_stamp start_ns received in
    record {
      previous_u = base.last_update_id;
      snapshot_anchor = base.last_update_id;
      phase = awaiting_bridge;
      buffered_while_invalid = [];
      pending_live_snapshot = none;
      deferred_live_updates = [];
      last_update_received_ns = none;
      written =
          instrument_info first ∷ connection_open (first + 1) ∷ depth_snapshot received base ∷ [];
    }

-- The flush behind the loop.
unfoldable pub finish_in : Phase → PackState → PackState
finish_in live s = flush_deferred_updates s
finish_in _ s = s

unfoldable pub finish : PackState → PackState
unfolding finish_in
finish s = finish_in s.phase s

-- The test of the snapshot that the replay starts from, and its id.
unfoldable pub base_of : Option Bool → Option DepthSnapshot → Result DepthSnapshot
base_of none d = err invalid_decimal
base_of (some false) d = err no_usable_snapshot
base_of (some true) none = err no_usable_snapshot
base_of (some true) (some d) = ok d

unfoldable pub pack : List DepthMessage → Option DepthMessage → Option ℕ → ℕ → Result PackState
pack messages none start_ns end_ns = err no_usable_snapshot
pack messages (some base) start_ns end_ns = do
  d ← base_of (snapshot_is_usable base) (as_snapshot base)
  s ← run base end_ns messages (initial d start_ns)
  ok (finish s)
