-- ===== src/Binance/Agreement/Snapshots.antt =====
-- What `on_snapshot` does with the buffered events: what the packing loop expects of it.
use crypto_microstructure_ma.Prelude.{
  ℕ, ◌≤◌, ◌<◌, ◌≡◌, refl, ◌∙◌, ◌≢◌, ◌⊎◌, inl, inr, true, false, Option, none, some, List, [], ◌∷◌,
  arith, Bool-cases,
}
use crypto_microstructure_ma.Historical.Emission.{DepthUpdate, DepthSnapshot}
use crypto_microstructure_ma.Historical.Packing.{drop_before, replay_buffered}
use crypto_microstructure_ma.Binance.Book.{BookOps}
use crypto_microstructure_ma.Binance.DepthSync.{
  Sync, syncing, disconnected, SyncResult, applied, invalid_book, detect_gap, drop_older,
  next_first, replay_first, on_snapshot,
}
use crypto_microstructure_ma.Binance.Agreement.Calls.{
  IsSyncedAt, IsWaitingWith, IsSyncing, Reached, apply_event_cases, apply_first_event_bridge,
  apply_first_event_gap, replay_buffer-Reached, drop_older_lem,
}

-- What is left at the front is not older than the snapshot.
pub drop_before-head :
    (a : ℕ) (us : List DepthUpdate) (v : DepthUpdate) (vs : List DepthUpdate)
    → drop_before a us ≡ v ∷ vs
    → a ≤ v.final_update_id
unfolding drop_before
drop_before-head a [] v vs e = cc
drop_before-head a (u ∷ us) v vs e = ground (arith, drop_before-head a us v vs)

module _ {B : BookOps} where
  -- The snapshot is in the book, and the buffered events are still to come.
  abbrev IsLoaded : DepthSnapshot → List DepthUpdate → Sync B → Type 0
  IsLoaded m us t =
      (t.state ≡ syncing)
      × (t.first_event_applied ≡ false)
      × (t.snapshot_update_id ≡ m.last_update_id)
      × (t.buffer ≡ us)

  on_snapshot_lem :
      (m : DepthSnapshot) (s : Sync B)
      → s.state ≢ disconnected
      → ((on_snapshot m s).1 ≡ invalid_book)
        ⊎ ((t : Sync B) × IsLoaded m (drop_before m.last_update_id s.buffer) t
            × (on_snapshot m s ≡ replay_first (drop_before m.last_update_id s.buffer) t))
  unfolding on_snapshot
  on_snapshot_lem m s open_state = elim (Bool-cases (B.load_snapshot m s.book).1) [
    | inl e ↦ inr (
      record loading {
        buffer = drop_before m.last_update_id s.buffer;
        stale_event_count = (drop_older m.last_update_id s.buffer loading).stale_event_count;
      },
      (refl, refl, refl, refl),
      ground (arith, drop_older_lem m.last_update_id s.buffer loading),
    )
    | inr e ↦ inl (ground arith)
  ]
    where
      loading : Sync B
      loading = record s {
        book = (B.load_snapshot m s.book).0;
        state = syncing;
        first_event_applied = false;
        snapshot_update_id = m.last_update_id;
      }

  next_first-Reached :
      (v : ℕ) (us : List DepthUpdate) (p : Sync B × SyncResult)
      → (p.1 ≡ invalid_book) ⊎ ((p.1 ≡ applied) × IsSyncedAt v us p.0)
      → Reached (replay_buffered v us) (next_first us p)
  unfolding next_first
  next_first-Reached v us (s, r) (inl e) = rw (e, next_first) (ended (replay_buffered v us))
    where
      ended : (q : ℕ × Option DepthUpdate) → Reached {B = B} q (s, invalid_book)
      ended (w, none) = inl refl
      ended (w, some u) = inl refl
  next_first-Reached v us (s, r) (inr e) =
      rw (e.0, next_first) (replay_buffer-Reached us v s e.1.0 e.1.2)

  -- The first buffered event bridges the snapshot: the rest is replayed behind it.
  replay_first-Reached :
      (m : DepthSnapshot) (u : DepthUpdate) (us : List DepthUpdate) (t : Sync B)
      → IsLoaded m (u ∷ us) t
      → u.first_update_id ≤ m.last_update_id
      → m.last_update_id ≤ u.final_update_id
      → Reached (replay_buffered u.final_update_id us) (replay_first (u ∷ us) t)
  unfolding replay_first
  replay_first-Reached m u us t (st, f, at, b) p h =
      rw (apply_first_event_bridge u (record t { buffer = us }) (ground arith) (ground arith))
        (next_first-Reached _ us _ (apply_event_cases true u (record t { buffer = us })))

  replay_first_gap :
      (m : DepthSnapshot) (u : DepthUpdate) (us : List DepthUpdate) (t : Sync B)
      → IsLoaded m (u ∷ us) t
      → m.last_update_id < u.first_update_id
      → m.last_update_id ≤ u.final_update_id
      → IsWaitingWith (u ∷ []) (replay_first (u ∷ us) t).0
  unfolding replay_first next_first detect_gap
  replay_first_gap m u us t (st, f, at, b) p h =
      rw (apply_first_event_gap u (record t { buffer = us }) (ground arith) (ground arith))
        (inr refl, refl)

  pub on_snapshot_empty :
      (m : DepthSnapshot) (s : Sync B)
      → s.state ≢ disconnected
      → drop_before m.last_update_id s.buffer ≡ []
      → ((on_snapshot m s).1 ≡ invalid_book) ⊎ IsSyncing m.last_update_id (on_snapshot m s).0
  unfolding replay_first
  on_snapshot_empty m s o e = elim (on_snapshot_lem m s o) [
    | inl refused ↦ inl refused
    | inr (t, (st, f, at, b), q) ↦ rw (q, e, replay_first) (inr (st, f, at, rw (b, e)))
  ]

  pub on_snapshot-Reached :
      (m : DepthSnapshot) (s : Sync B) (u : DepthUpdate) (us : List DepthUpdate)
      → s.state ≢ disconnected
      → drop_before m.last_update_id s.buffer ≡ u ∷ us
      → u.first_update_id ≤ m.last_update_id
      → ((on_snapshot m s).1 ≡ invalid_book)
        ⊎ Reached (replay_buffered u.final_update_id us) (on_snapshot m s)
  on_snapshot-Reached m s u us o e p = elim (on_snapshot_lem m s o) [
    | inl refused ↦ inl refused
    | inr (t, (st, f, at, b), q) ↦
        rw (q, e)
          (inr (
            replay_first-Reached m u us t (st, f, at, b ∙ e) p
              (drop_before-head m.last_update_id s.buffer u us e)))
  ]

  pub on_snapshot_gap :
      (m : DepthSnapshot) (s : Sync B) (u : DepthUpdate) (us : List DepthUpdate)
      → s.state ≢ disconnected
      → drop_before m.last_update_id s.buffer ≡ u ∷ us
      → m.last_update_id < u.first_update_id
      → ((on_snapshot m s).1 ≡ invalid_book) ⊎ IsWaitingWith (u ∷ []) (on_snapshot m s).0
  on_snapshot_gap m s u us o e p = elim (on_snapshot_lem m s o) [
    | inl refused ↦ inl refused
    | inr (t, (st, f, at, b), q) ↦
        rw (q, e)
          (inr (
            replay_first_gap m u us t (st, f, at, b ∙ e) p
              (drop_before-head m.last_update_id s.buffer u us e)))
  ]
