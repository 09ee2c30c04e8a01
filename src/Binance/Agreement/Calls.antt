-- ===== src/Binance/Agreement/Calls.antt =====
-- What single calls of the synchronizer do, by the update ids.
use crypto_microstructure_ma.Prelude.{
  ℕ, ◌+◌, ◌≤◌, ◌<◌, ◌≡◌, refl, ◌∙◌, ◌≢◌, ◌⊎◌, inl, inr, Bool, true, false, Option, none, some, List,
  [], ◌∷◌, ◌++◌, arith, Bool-cases, leb, ◌==◌,
}
use crypto_microstructure_ma.Historical.Emission.{DepthUpdate}
use crypto_microstructure_ma.Historical.Packing.{drop_before, replay_buffered}
use crypto_microstructure_ma.Binance.Book.{BookOps}
use crypto_microstructure_ma.Binance.DepthSync.{
  Sync, syncing, synced, gap_detected, resyncing, SyncResult, applied, invalid_book, buffer_event,
  detect_gap, apply_event, apply_first_event, apply_contiguous_event, resync_on_gap, mark_stale,
  begin_resync, drop_older, next_buffered, replay_buffer, on_depth,
}

module _ {B : BookOps} where
  -- The book stands at an update id, with nothing buffered.
  abbrev pub IsSyncedAt : ℕ → List DepthUpdate → Sync B → Type 0
  IsSyncedAt v us s = (s.state ≡ synced) × (s.buffer ≡ us) × (B.last_update_id s.book ≡ v)

  abbrev pub IsWaitingWith : List DepthUpdate → Sync B → Type 0
  IsWaitingWith us s = ((s.state ≡ gap_detected) ⊎ (s.state ≡ resyncing)) × (s.buffer ≡ us)

  pub apply_event_cases :
      (f : Bool) (u : DepthUpdate) (s : Sync B)
      → ((apply_event f u s).1 ≡ invalid_book)
        ⊎ (((apply_event f u s).1 ≡ applied)
            × IsSyncedAt u.final_update_id s.buffer (apply_event f u s).0)
  unfolding apply_event
  apply_event_cases f u s = ground (arith, B.apply_depth_event_id u s.book)

  pub apply_contiguous_event_chained :
      (u : DepthUpdate) (s : Sync B)
      → u.prev_final_update_id ≡ B.last_update_id s.book
      → B.last_update_id s.book < u.final_update_id
      → apply_contiguous_event u s ≡ apply_event false u s
  unfolding apply_contiguous_event
  apply_contiguous_event_chained u s p h = ground arith

  pub apply_contiguous_event_stale :
      (u : DepthUpdate) (s : Sync B)
      → u.final_update_id ≤ B.last_update_id s.book
      → apply_contiguous_event u s ≡ mark_stale s
  unfolding apply_contiguous_event
  apply_contiguous_event_stale u s h = ground arith

  pub apply_contiguous_event_gap :
      (u : DepthUpdate) (s : Sync B)
      → u.prev_final_update_id ≢ B.last_update_id s.book
      → B.last_update_id s.book < u.final_update_id
      → apply_contiguous_event u s ≡ detect_gap u s
  unfolding apply_contiguous_event
  apply_contiguous_event_gap u s p h = ground arith

  pub apply_first_event_bridge :
      (u : DepthUpdate) (s : Sync B)
      → u.first_update_id ≤ s.snapshot_update_id
      → s.snapshot_update_id ≤ u.final_update_id
      → apply_first_event u s ≡ apply_event true u s
  unfolding apply_first_event
  apply_first_event_bridge u s p h = ground arith

  pub apply_first_event_gap :
      (u : DepthUpdate) (s : Sync B)
      → s.snapshot_update_id < u.first_update_id
      → s.snapshot_update_id ≤ u.final_update_id
      → apply_first_event u s ≡ detect_gap u s
  unfolding apply_first_event
  apply_first_event_gap u s p h = ground arith

  -- The rest of a buffer, replayed: as far as `replay_buffered` comes, and no further.
  abbrev pub Reached : ℕ × Option DepthUpdate → Sync B × SyncResult → Type 0
  Reached (v, none) (s, r) = (r ≡ invalid_book) ⊎ IsSyncedAt v [] s
  Reached (v, some u) (s, r) = (r ≡ invalid_book) ⊎ IsWaitingWith (u ∷ []) s

  -- An outcome that was applied is followed by the loop; one that was refused ends it.
  next_buffered-Reached :
      (v : ℕ × Option DepthUpdate) (n : ℕ) (us : List DepthUpdate)
      (f : Sync B → Sync B × SyncResult) (p : Sync B × SyncResult)
      → (p.1 ≡ invalid_book) ⊎ ((p.1 ≡ applied) × IsSyncedAt n us p.0)
      → ((s : Sync B) → IsSyncedAt n us s → Reached v (f s))
      → Reached v (next_buffered f p)
  unfolding next_buffered
  next_buffered-Reached (v, none) n us f (s, r) (inl e) k = rw (e, next_buffered) (inl refl)
  next_buffered-Reached (v, some u) n us f (s, r) (inl e) k = rw (e, next_buffered) (inl refl)
  next_buffered-Reached v n us f (s, r) (inr e) k = rw (e.0, next_buffered) (k s e.1)

  next_buffered-mark_stale :
      (f : Sync B → Sync B × SyncResult) (s : Sync B)
      → next_buffered f (mark_stale s)
        ≡ f (record s { stale_event_count = s.stale_event_count + 1 })
  unfolding next_buffered mark_stale
  next_buffered-mark_stale f s = refl

  next_buffered-detect_gap :
      (v : ℕ) (u : DepthUpdate) (f : Sync B → Sync B × SyncResult) (s : Sync B)
      → Reached (v, some u) (next_buffered f (detect_gap u s))
  unfolding next_buffered detect_gap
  next_buffered-detect_gap v u f s = inr (inr refl, refl)

  pub replay_buffer-Reached :
      (us : List DepthUpdate) (v : ℕ) (s : Sync B)
      → s.state ≡ synced
      → B.last_update_id s.book ≡ v
      → Reached (replay_buffered v us) (replay_buffer us s)
  unfolding replay_buffer replay_buffered
  replay_buffer-Reached [] v s st at = inr (st, refl, at)
  replay_buffer-Reached (u ∷ us) v s st at =
      let popped : Sync B = record s { buffer = us } in
      elim (Bool-cases (leb u.final_update_id v)) [
        | inl old ↦
            rw (old, apply_contiguous_event_stale u popped (ground arith), next_buffered-mark_stale)
              (replay_buffer-Reached us v _ st at)
        | inr new ↦ elim (Bool-cases (u.prev_final_update_id == v)) [
          | inr apart ↦
              rw (new, apart, apply_contiguous_event_gap u popped (ground arith) (ground arith))
                (next_buffered-detect_gap v u _ popped)
          | inl chained ↦
              rw
                (
                  new,
                  chained,
                  apply_contiguous_event_chained u popped (ground arith) (ground arith),
                )
                (next_buffered-Reached _ _ us _ _ (apply_event_cases false u popped)
                  (λ t h. replay_buffer-Reached us u.final_update_id t h.0 h.2))
        ]
      ]

  pub drop_older_lem :
      (a : ℕ) (us : List DepthUpdate) (s : Sync B)
      → drop_older a us s ≡ record s {
        buffer = drop_before a us;
        stale_event_count = (drop_older a us s).stale_event_count;
      }
  unfolding drop_older drop_before
  drop_older_lem a [] s = refl
  drop_older_lem a (u ∷ us) s =
      ground (arith, drop_older_lem a us (record s { stale_event_count = s.stale_event_count + 1 }))

  -- `on_depth` in each state that a stream of records brings the synchronizer to.
  pub on_depth_chained :
      (u : DepthUpdate) (k : ℕ) (s : Sync B)
      → u.prev_final_update_id ≡ k
      → k < u.final_update_id
      → IsSyncedAt k [] s
      → ((on_depth u s).1 ≡ invalid_book) ⊎ IsSyncedAt u.final_update_id [] (on_depth u s).0
  unfolding on_depth
  on_depth_chained u k s p h (st, b, at) =
      rw (st, on_depth, apply_contiguous_event_chained u s (ground arith) (ground arith))
        (ground (arith, apply_event_cases false u s))

  pub on_depth_gap :
      (u : DepthUpdate) (k : ℕ) (s : Sync B)
      → u.prev_final_update_id ≢ k
      → k < u.final_update_id
      → IsSyncedAt k [] s
      → ((on_depth u s).1 ≡ invalid_book) ⊎ IsWaitingWith (u ∷ []) (on_depth u s).0
  unfolding on_depth detect_gap
  on_depth_gap u k s p h (st, b, at) =
      rw (st, on_depth, apply_contiguous_event_gap u s (λ e. p (e ∙ at)) (ground arith))
        (inr (inl refl, refl))

  -- Synchronizing: a snapshot is loaded, and no event has been applied to it.
  abbrev pub IsSyncing : ℕ → Sync B → Type 0
  IsSyncing anchor s =
      (s.state ≡ syncing)
      × (s.first_event_applied ≡ false)
      × (s.snapshot_update_id ≡ anchor)
      × (s.buffer ≡ [])

  on_depth_syncing :
      (u : DepthUpdate) (s : Sync B)
      → s.state ≡ syncing
      → s.first_event_applied ≡ false
      → on_depth u s ≡ resync_on_gap (apply_first_event u s)
  unfolding on_depth
  on_depth_syncing u s st f = ground arith

  pub on_depth_bridge :
      (u : DepthUpdate) (anchor : ℕ) (s : Sync B)
      → u.first_update_id ≤ anchor
      → anchor ≤ u.final_update_id
      → IsSyncing anchor s
      → ((on_depth u s).1 ≡ invalid_book) ⊎ IsSyncedAt u.final_update_id [] (on_depth u s).0
  unfolding resync_on_gap
  on_depth_bridge u anchor s p h (st, f, at, b) =
      rw (on_depth_syncing u s st f, apply_first_event_bridge u s (ground arith) (ground arith))
        (ground (arith, apply_event_cases true u s))

  pub on_depth_no_bridge :
      (u : DepthUpdate) (anchor : ℕ) (s : Sync B)
      → anchor < u.first_update_id
      → anchor ≤ u.final_update_id
      → IsSyncing anchor s
      → ((on_depth u s).1 ≡ invalid_book) ⊎ IsWaitingWith (u ∷ []) (on_depth u s).0
  unfolding resync_on_gap detect_gap begin_resync
  on_depth_no_bridge u anchor s p h (st, f, at, b) =
      rw (on_depth_syncing u s st f, apply_first_event_gap u s (ground arith) (ground arith))
        (inr (inr refl, refl))

  pub on_depth_waiting :
      (u : DepthUpdate) (us : List DepthUpdate) (s : Sync B)
      → IsWaitingWith us s
      → ((on_depth u s).1 ≡ invalid_book) ⊎ IsWaitingWith (us ++ u ∷ []) (on_depth u s).0
  unfolding on_depth buffer_event
  on_depth_waiting u us s (inl st, b) = rw (st, on_depth) (ground arith)
  on_depth_waiting u us s (inr st, b) = rw (st, on_depth) (ground arith)
