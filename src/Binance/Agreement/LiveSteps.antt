-- ===== src/Binance/Agreement/LiveSteps.antt =====
-- The steps of the live phase keep the packing loop in agreement with the synchronizer that reads the
-- records (`pack_for_existing_cpp_pipeline` of pyresearch/historical/l2.py).
use crypto_microstructure_ma.Prelude.{
  ℕ, ◌≤◌, ◌<◌, ◌≡◌, refl, ap, subst, ◌∙◌, ◌≢◌, inl, inr, ◌&&◌, Option, none, some, List, [], ◌∷◌,
  ◌++◌, arith, Bool-cases, leb, ◌==◌,
}
use crypto_microstructure_ma.Historical.Emission.{
  DepthUpdate, DepthSnapshot, Emission, connection_open, connection_close, depth_snapshot,
  depth_update,
}
use crypto_microstructure_ma.Historical.Packing.{
  live, PackState, write, emit_update, replace_pending, on_snapshot_live, drop_before, defer,
  on_contiguous, bridge_gap, lose_book, on_gap, on_update_live,
}
use crypto_microstructure_ma.Binance.Book.{BookOps}
use crypto_microstructure_ma.Binance.DepthSync.{Sync, buffering, on_connected}
use crypto_microstructure_ma.Binance.Replay.{Replayer, on_record, replay}
use crypto_microstructure_ma.Binance.Agreement.Calls.{
  IsSyncedAt, IsWaitingWith, IsSyncing, on_depth_chained, on_depth_gap, on_depth_bridge,
}
use crypto_microstructure_ma.Binance.Agreement.Snapshots.{on_snapshot_empty}
use crypto_microstructure_ma.Binance.Agreement.Relation.{
  Chain, Chain-snoc, AgreesAt, Unless, Unless-depth_snapshot, replay-snoc,
}
use crypto_microstructure_ma.Binance.Agreement.Steps.{
  InStep, InPhase, emit_one, flush-IsSyncedAt, flush_lem, flush-InPhase, flush-phase, arrive,
}

module _ {B : BookOps} (r : Replayer B) where
  replace_pending-InStep :
      (m : DepthSnapshot) (o : Option DepthSnapshot) (p : PackState)
      → InPhase r live p
      → p.phase ≡ live
      → p.pending_live_snapshot ≡ o
      → InStep r (replace_pending m o p)
  unfolding replace_pending
  replace_pending-InStep m none p h ph e = arrive r live _ ph (elim h [
    | inl refused ↦ inl refused
    | inr (c, (k, at, chain, _)) ↦ inr (c, (k, at, chain, λ n. cc))
  ])
  replace_pending-InStep m (some q) p h ph e =
      elim (Bool-cases (m.last_update_id == q.last_update_id)) [
        | inl same ↦ rw same (arrive r live p ph h)
        | inr new ↦ rw new (arrive r live _ (flush-phase r p ∙ ph) (flush-InPhase r p (some m) h))
      ]

  pub on_snapshot_live-InStep :
      (m : DepthSnapshot) (p : PackState)
      → InPhase r live p
      → p.phase ≡ live
      → InStep r (on_snapshot_live m p)
  unfolding on_snapshot_live
  on_snapshot_live-InStep m p h ph = elim (Bool-cases (leb m.last_update_id p.previous_u)) [
    | inl old ↦ rw old (arrive r live p ph h)
    | inr new ↦ rw new (replace_pending-InStep m p.pending_live_snapshot p h ph refl)
  ]

  defer-InPhase :
      (u : DepthUpdate) (p : PackState)
      → (p.pending_live_snapshot ≡ none → ⊥)
      → u.prev_final_update_id ≡ p.previous_u
      → p.previous_u < u.final_update_id
      → InPhase r live p
      → InPhase r live (defer u p)
  unfolding defer
  defer-InPhase u p some_pending prev newer (inl refused) = inl refused
  defer-InPhase u p some_pending prev newer (inr (c, (k, at, chain, _))) = inr (
    c,
    (
      k,
      at,
      Chain-snoc k p.deferred_live_updates u p.previous_u chain prev newer,
      λ n. absurd (some_pending n),
    ),
  )

  defer-phase : (u : DepthUpdate) (p : PackState) → (defer u p).phase ≡ p.phase
  unfolding defer
  defer-phase u p = refl

  on_contiguous-InStep :
      (u : DepthUpdate) (o : Option DepthSnapshot) (p : PackState)
      → u.prev_final_update_id ≡ p.previous_u
      → p.previous_u < u.final_update_id
      → InPhase r live p
      → p.phase ≡ live
      → p.pending_live_snapshot ≡ o
      → InStep r (on_contiguous u o p)
  unfolding on_contiguous emit_update write
  on_contiguous-InStep u none p prev newer h ph e =
      let next : PackState = record (emit_update u p) { previous_u = u.final_update_id } in
      arrive r live next ph (
        emit_one r (AgreesAt live p) (AgreesAt live next) u p.written
          (λ s (k, at, chain, ends).
            let start : k ≡ p.previous_u = subst (λ d. Chain k d p.previous_u) (ends e) chain in
            elim (on_depth_chained u k s (omega arith) (omega arith) at) [
              | inl refused ↦ inl refused
              | inr done ↦ inr (u.final_update_id, done, rw (ends e) refl, ends)
            ])
          h)
  on_contiguous-InStep u (some q) p prev newer h ph e =
      let held = defer-InPhase u p (λ n. cc) prev newer h in
      elim (Bool-cases (leb q.last_update_id u.final_update_id)) [
        | inl reached ↦ rw reached (
            arrive r live _ (flush-phase r (defer u p) ∙ defer-phase u p ∙ ph)
              (flush-InPhase r (defer u p) none held))
        | inr ahead ↦ rw ahead (arrive r live (defer u p) (defer-phase u p ∙ ph) held)
      ]

  -- The close and open records bring any reader r to an empty buffer.
  reopen :
      (es : List Emission) (P : Sync B → Type 0) (close open_at : ℕ)
      → Unless (replay r es) P
      → Unless
          (replay r ((es ++ connection_close close ∷ []) ++ connection_open open_at ∷ []))
          (λ s. (s.state ≡ buffering) × (s.buffer ≡ []))
  unfolding on_record on_connected
  reopen es P close open_at h =
      rw
        (
          replay-snoc r (es ++ connection_close close ∷ []) (connection_open open_at),
          replay-snoc r es (connection_close close),
        )
        (elim h [ inl e ↦ inl e | inr _ ↦ inr (refl, (refl, refl)) ])

  -- A snapshot and its bridge, behind the reopened connection.
  rebuild :
      (es : List Emission) (t : ℕ) (m : DepthSnapshot) (u : DepthUpdate)
      → u.first_update_id ≤ m.last_update_id
      → m.last_update_id ≤ u.final_update_id
      → Unless (replay r es) (λ s. (s.state ≡ buffering) × (s.buffer ≡ []))
      → Unless
          (replay r ((es ++ depth_snapshot t m ∷ []) ++ depth_update u ∷ []))
          (IsSyncedAt u.final_update_id [])
  unfolding drop_before
  rebuild es t m u before reach h =
      emit_one r (IsSyncing m.last_update_id) (IsSyncedAt u.final_update_id []) u
        (es ++ depth_snapshot t m ∷ []) (λ s. on_depth_bridge u m.last_update_id s before reach)
        (rw (replay-snoc r es (depth_snapshot t m)) (
          Unless-depth_snapshot (λ s. (s.state ≡ buffering) × (s.buffer ≡ []))
            (IsSyncing m.last_update_id) t m _
            (λ s (st, b). on_snapshot_empty m s (ground arith) (rw b refl)) h))

  bridge_gap-InStep :
      (u : DepthUpdate) (m : DepthSnapshot) (p : PackState)
      → u.first_update_id ≤ m.last_update_id
      → m.last_update_id ≤ u.final_update_id
      → InPhase r live p
      → p.phase ≡ live
      → InStep r (bridge_gap u m p)
  unfolding bridge_gap emit_update write
  bridge_gap-InStep u m p before reach h ph =
      arrive r live _ (flush-phase r p ∙ ph)
        (elim (rebuild _ _ m u before reach
          (reopen _ (IsSyncedAt p.previous_u []) _ _ (flush-IsSyncedAt r p h))) [
            | inl refused ↦ inl refused
            | inr (c, at) ↦ inr (c, (u.final_update_id, at, refl, λ _. refl))
          ])

  lose_book-InStep :
      (u : DepthUpdate) (p : PackState)
      → u.prev_final_update_id ≢ p.previous_u
      → p.previous_u < u.final_update_id
      → InPhase r live p
      → InStep r (lose_book u p)
  unfolding lose_book emit_update write
  lose_book-InStep u p apart newer h =
      elim (emit_one r (IsSyncedAt p.previous_u []) (IsWaitingWith (u ∷ [])) u _
        (λ s. on_depth_gap u p.previous_u s apart newer) (flush-IsSyncedAt r p h)) [
          | inl refused ↦ inl refused
          | inr (c, at) ↦
              inr (c, (at, (refl, ap (λ (q : PackState). q.deferred_live_updates) (flush_lem r p))))
        ]

  on_gap-InStep :
      (u : DepthUpdate) (o : Option DepthSnapshot) (p : PackState)
      → u.prev_final_update_id ≢ p.previous_u
      → p.previous_u < u.final_update_id
      → InPhase r live p
      → p.phase ≡ live
      → InStep r (on_gap u o p)
  unfolding on_gap
  on_gap-InStep u none p apart newer h ph = lose_book-InStep u p apart newer h
  on_gap-InStep u (some m) p apart newer h ph =
      elim (Bool-cases
        (leb u.first_update_id m.last_update_id && leb m.last_update_id u.final_update_id)) [
          | inl covered ↦ rw covered (bridge_gap-InStep u m p (ground arith) (ground arith) h ph)
          | inr bare ↦ rw bare (lose_book-InStep u p apart newer h)
        ]

  pub on_update_live-InStep :
      (u : DepthUpdate) (p : PackState)
      → InPhase r live p
      → p.phase ≡ live
      → InStep r (on_update_live u p)
  unfolding on_update_live
  on_update_live-InStep u p h ph = elim (Bool-cases (leb u.final_update_id p.previous_u)) [
    | inl old ↦ rw old (arrive r live p ph h)
    | inr new ↦ elim (Bool-cases (u.prev_final_update_id == p.previous_u)) [
      | inl next ↦
          rw (new, next)
            (on_contiguous-InStep u p.pending_live_snapshot p (ground arith) (ground arith) h ph
              refl)
      | inr apart ↦
          rw (new, apart)
            (on_gap-InStep u p.pending_live_snapshot p (ground arith) (ground arith) h ph)
    ]
  ]
