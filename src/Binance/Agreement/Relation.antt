-- ===== src/Binance/Agreement/Relation.antt =====
-- How the packing loop's variables stand to the synchronizer that has read its records.
use crypto_microstructure_ma.Prelude.{
  ℕ, ◌<◌, ◌≡◌, refl, sym, ◌∙◌, ◌≢◌, ◌⊎◌, inl, inr, true, ◌&&◌, ◌||◌, Option, none, some, List, [],
  ◌∷◌, ◌++◌, arith, Bool-cases, ltb, leb,
}
use crypto_microstructure_ma.Historical.Emission.{
  DepthUpdate, DepthSnapshot, Emission, depth_snapshot, depth_update,
}
use crypto_microstructure_ma.Historical.Packing.{
  Phase, awaiting_bridge, live, invalid, PackState, drop_before, settle, settle_rest,
}
use crypto_microstructure_ma.Binance.Book.{BookOps}
use crypto_microstructure_ma.Binance.DepthSync.{
  Sync, SyncResult, invalid_book, disconnected, on_snapshot, on_depth,
}
use crypto_microstructure_ma.Binance.Replay.{Replayer, on_record, replay, replay-append, after_call}
use crypto_microstructure_ma.Binance.Agreement.Calls.{IsSyncedAt, IsWaitingWith, IsSyncing, Reached}
use crypto_microstructure_ma.Binance.Agreement.Snapshots.{
  drop_before-head, on_snapshot_empty, on_snapshot-Reached, on_snapshot_gap,
}

-- Each update continues the one before it: from one update id to another.
abbrev pub Chain : ℕ → List DepthUpdate → ℕ → Type 0
Chain k [] v = k ≡ v
Chain k (u ∷ us) v =
    (u.prev_final_update_id ≡ k) × (k < u.final_update_id) × Chain u.final_update_id us v

pub Chain-snoc :
    (k : ℕ) (us : List DepthUpdate) (u : DepthUpdate) (v : ℕ)
    → Chain k us v
    → u.prev_final_update_id ≡ v
    → v < u.final_update_id
    → Chain k (us ++ u ∷ []) u.final_update_id
Chain-snoc k [] u v c p h = (p ∙ sym c, omega arith, refl)
Chain-snoc k (w ∷ us) u v c p h = (c.0, c.1, Chain-snoc w.final_update_id us u v c.2 p h)

-- Nothing is held back outside the live phase.
abbrev pub HoldsNothing : PackState → Type 0
HoldsNothing p = (p.pending_live_snapshot ≡ none) × (p.deferred_live_updates ≡ [])

module _ {B : BookOps} where
  -- In the live phase the book is behind by the deferred updates, which continue it.
  abbrev pub AgreesAt : Phase → PackState → Sync B → Type 0
  AgreesAt awaiting_bridge p s =
      IsSyncing p.snapshot_anchor s × (p.buffered_while_invalid ≡ []) × HoldsNothing p
  AgreesAt live p s =
      (k : ℕ) × IsSyncedAt k [] s
      × Chain k p.deferred_live_updates p.previous_u
      × (p.pending_live_snapshot ≡ none → p.deferred_live_updates ≡ [])
  AgreesAt invalid p s = IsWaitingWith p.buffered_while_invalid s × HoldsNothing p

  -- The order book has refused an event, or the parser a payload.
  abbrev pub HasRefused : Replayer B → Type 0
  HasRefused r = (r.rejected || ltb 0 r.parse_failures) ≡ true

  -- Unless something has been refused.
  abbrev pub Unless : Replayer B → (Sync B → Type 0) → Type 0
  Unless r P = HasRefused r ⊎ ((r.depth_connected ≡ true) × P r.sync)

  abbrev pub Agrees : PackState → Replayer B → Type 0
  Agrees p r = Unless r (AgreesAt p.phase p)

  -- A record that keeps a property of the synchronizer, but for a refusal by the book or the parser.
  pub Unless-depth_update :
      (P Q : Sync B → Type 0) (u : DepthUpdate) (r : Replayer B)
      → ((s : Sync B) → P s → ((on_depth u s).1 ≡ invalid_book) ⊎ Q (on_depth u s).0)
      → Unless r P
      → Unless (on_record r (depth_update u)) Q
  unfolding on_record after_call
  Unless-depth_update P Q u r k (inl e) = elim (Bool-cases r.depth_connected) [
    | inl c ↦ inl (ground arith)
    | inr c ↦ inl (ground arith)
  ]
  Unless-depth_update P Q u r k (inr (c, h)) = elim (Bool-cases (r.parser.takes_update u)) [
    | inr f ↦ inl (ground arith)
    | inl f ↦
        rw (c, f, on_record)
          (elim (k r.sync h) [ inl e ↦ inl (ground arith) | inr q ↦ inr (refl, q) ])
  ]

  pub Unless-depth_snapshot :
      (P Q : Sync B → Type 0) (t : ℕ) (m : DepthSnapshot) (r : Replayer B)
      → ((s : Sync B) → P s → ((on_snapshot m s).1 ≡ invalid_book) ⊎ Q (on_snapshot m s).0)
      → Unless r P
      → Unless (on_record r (depth_snapshot t m)) Q
  unfolding on_record after_call
  Unless-depth_snapshot P Q t m r k (inl e) = inl (ground arith)
  Unless-depth_snapshot P Q t m r k (inr (c, h)) = elim (Bool-cases (r.parser.takes_snapshot m)) [
    | inr f ↦ inl (ground arith)
    | inl f ↦
        rw (f, on_record) (elim (k r.sync h) [ inl e ↦ inl (ground arith) | inr q ↦ inr (c, q) ])
  ]

  pub replay-snoc :
      (r : Replayer B) (es : List Emission) (e : Emission)
      → replay r (es ++ e ∷ []) ≡ on_record (replay r es) e
  unfolding replay
  replay-snoc r es e = replay-append r es (e ∷ [])

  settle_rest-AgreesAt :
      (q : ℕ × Option DepthUpdate) (p : PackState) (t : Sync B × SyncResult)
      → HoldsNothing p
      → Reached q t
      → (t.1 ≡ invalid_book) ⊎ AgreesAt (settle_rest q p).phase (settle_rest q p) t.0
  unfolding settle_rest
  settle_rest-AgreesAt (v, none) p (s, r) held (inl e) = inl e
  settle_rest-AgreesAt (v, none) p (s, r) held (inr h) = inr (v, h, rw held.1 refl, λ n. held.1)
  settle_rest-AgreesAt (v, some u) p (s, r) held (inl e) = inl e
  settle_rest-AgreesAt (v, some u) p (s, r) held (inr h) = inr (h, held)

  -- The buffered updates behind a new snapshot: both sides come to the same end.
  pub settle-AgreesAt :
      (ws : List DepthUpdate) (m : DepthSnapshot) (p : PackState) (s : Sync B)
      → HoldsNothing p
      → p.snapshot_anchor ≡ m.last_update_id
      → s.state ≢ disconnected
      → drop_before m.last_update_id s.buffer ≡ ws
      → ((on_snapshot m s).1 ≡ invalid_book)
        ⊎ AgreesAt (settle ws p).phase (settle ws p) (on_snapshot m s).0
  unfolding settle
  settle-AgreesAt [] m p s held anchor o e = elim (on_snapshot_empty m s o e) [
    | inl refused ↦ inl refused
    | inr h ↦ inr (rw anchor h, refl, held)
  ]
  settle-AgreesAt (u ∷ us) m p s held anchor o e =
      let newer = drop_before-head m.last_update_id s.buffer u us e in
      elim (Bool-cases
        (leb u.first_update_id p.snapshot_anchor && leb p.snapshot_anchor u.final_update_id)) [
          | inr apart ↦ elim (on_snapshot_gap m s u us o e (ground arith)) [
            | inl refused ↦ inl refused
            | inr h ↦ rw apart (inr (h, held))
          ]
          | inl bridged ↦ elim (on_snapshot-Reached m s u us o e (ground arith)) [
            | inl refused ↦ inl refused
            | inr h ↦ rw bridged (settle_rest-AgreesAt _ p (on_snapshot m s) held h)
          ]
        ]
