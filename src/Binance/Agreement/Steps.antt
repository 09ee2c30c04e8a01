-- ===== src/Binance/Agreement/Steps.antt =====
-- Every step of the packing loop keeps it in agreement with the synchronizer that reads the records.
use crypto_microstructure_ma.Prelude.{
  ℕ, ◌≡◌, refl, sym, ap, subst, ◌⊎◌, inl, inr, ◌&&◌, Option, List, [], ◌∷◌, ◌++◌, arith, Bool-cases,
  ltb, leb,
}
use crypto_microstructure_ma.Historical.Emission.{
  DepthUpdate, DepthSnapshot, Emission, depth_update,
}
use crypto_microstructure_ma.Historical.Packing.{
  Phase, awaiting_bridge, live, invalid, PackState, write, emit_update, emit_all,
  flush_deferred_updates, on_update_awaiting, on_update_invalid,
}
use crypto_microstructure_ma.Binance.Book.{BookOps}
use crypto_microstructure_ma.Binance.DepthSync.{Sync, on_depth, invalid_book}
use crypto_microstructure_ma.Binance.Replay.{Replayer, replay}
use crypto_microstructure_ma.Binance.Agreement.Calls.{
  IsSyncedAt, on_depth_chained, on_depth_bridge, on_depth_no_bridge, on_depth_waiting,
}
use crypto_microstructure_ma.Binance.Agreement.Relation.{
  Chain, AgreesAt, HasRefused, Unless, Agrees, Unless-depth_update, replay-snoc,
}

module _ {B : BookOps} (r : Replayer B) where
  -- The replayer that has read what the loop has written.
  abbrev pub reader : PackState → Replayer B
  reader p = replay r p.written

  -- The loop and the reader of its records agree.
  abbrev pub InStep : PackState → Type 0
  InStep p = Agrees p (reader p)

  pub emit_one :
      (P Q : Sync B → Type 0) (u : DepthUpdate) (es : List Emission)
      → ((s : Sync B) → P s → ((on_depth u s).1 ≡ invalid_book) ⊎ Q (on_depth u s).0)
      → Unless (replay r es) P
      → Unless (replay r (es ++ depth_update u ∷ [])) Q
  emit_one P Q u es k h = rw (replay-snoc r es (depth_update u)) (Unless-depth_update P Q u _ k h)

  -- Writing out a chain of updates brings the book to its end.
  emit_all-IsSyncedAt :
      (us : List DepthUpdate) (k v : ℕ) (p : PackState)
      → Chain k us v
      → Unless (reader p) (IsSyncedAt k [])
      → Unless (reader (emit_all us p)) (IsSyncedAt v [])
  unfolding emit_all emit_update write
  emit_all-IsSyncedAt [] k v p c h = rw (sym c) h
  emit_all-IsSyncedAt (u ∷ us) k v p c h =
      emit_all-IsSyncedAt us u.final_update_id v (emit_update u p) c.2 (
        emit_one (IsSyncedAt k []) (IsSyncedAt u.final_update_id []) u p.written
          (λ s. on_depth_chained u k s c.0 c.1) h)

  -- The rest of the variables stay as they are.
  emit_all_lem :
      (us : List DepthUpdate) (p : PackState)
      → emit_all us p ≡ record p {
        last_update_received_ns = (emit_all us p).last_update_received_ns;
        written = (emit_all us p).written;
      }
  unfolding emit_all emit_update write
  emit_all_lem [] p = refl
  emit_all_lem (u ∷ us) p = emit_all_lem us (emit_update u p)

  -- The predicate on the synchronizer that a phase stands for.
  abbrev pub InPhase : Phase → PackState → Type 0
  InPhase f p = Unless (reader p) (AgreesAt f p)

  pub on_update_awaiting-InStep :
      (u : DepthUpdate) (p : PackState)
      → InPhase awaiting_bridge p
      → InStep p
      → InStep (on_update_awaiting u p)
  unfolding on_update_awaiting emit_update write
  on_update_awaiting-InStep u p h same =
      elim (Bool-cases (ltb u.final_update_id p.snapshot_anchor)) [
        | inl old ↦ rw old same
        | inr new ↦
            elim (Bool-cases (
              leb u.first_update_id p.snapshot_anchor && leb p.snapshot_anchor u.final_update_id)) [
                | inl bridged ↦
                    rw (new, bridged)
                      (emit_one (AgreesAt awaiting_bridge p)
                        (AgreesAt live (record p { previous_u = u.final_update_id })) u p.written
                        (λ s (at, b, held).
                          elim (on_depth_bridge u p.snapshot_anchor s (ground arith) (ground arith)
                            at) [
                              | inl refused ↦ inl refused
                              | inr done ↦
                                  inr (u.final_update_id, done, rw held.1 refl, λ n. held.1)
                            ])
                        h)
                | inr apart ↦
                    rw (new, apart)
                      (emit_one (AgreesAt awaiting_bridge p)
                        (AgreesAt invalid (record p { buffered_while_invalid = u ∷ [] })) u
                        p.written
                        (λ s (at, b, held).
                          elim (on_depth_no_bridge u p.snapshot_anchor s (ground arith)
                            (ground arith) at) [
                              | inl refused ↦ inl refused
                              | inr done ↦ inr (done, held)
                            ])
                        h)
              ]
      ]

  pub on_update_invalid-InStep :
      (u : DepthUpdate) (p : PackState)
      → InPhase invalid p
      → p.phase ≡ invalid
      → InStep (on_update_invalid u p)
  unfolding on_update_invalid emit_update write
  on_update_invalid-InStep u p h ph =
      let next : PackState = on_update_invalid u p in
      subst (λ f. Unless (reader next) (AgreesAt f next)) (sym ph)
        (emit_one (AgreesAt invalid p) (AgreesAt invalid next) u p.written
          (λ s (at, held). elim (on_depth_waiting u p.buffered_while_invalid s at) [
            | inl refused ↦ inl refused
            | inr done ↦ inr (done, held)
          ])
          h)

  -- A refusal is not forgotten while updates are written out.
  emit_all-HasRefused :
      (us : List DepthUpdate) (p : PackState)
      → HasRefused (reader p)
      → HasRefused (reader (emit_all us p))
  unfolding emit_all emit_update write
  emit_all-HasRefused [] p h = h
  emit_all-HasRefused (u ∷ us) p h =
      emit_all-HasRefused us (emit_update u p)
        (elim (emit_one (λ _. ⊥) (λ _. ⊥) u p.written (λ s b. absurd b) (inl h)) [
          | inl e ↦ e
          | inr (c, b) ↦ absurd b
        ])

  pub flush-IsSyncedAt :
      (p : PackState)
      → InPhase live p
      → Unless (reader (flush_deferred_updates p)) (IsSyncedAt p.previous_u [])
  unfolding flush_deferred_updates
  flush-IsSyncedAt p (inl e) = inl (emit_all-HasRefused p.deferred_live_updates p e)
  flush-IsSyncedAt p (inr (c, (k, at, chain, _))) =
      emit_all-IsSyncedAt p.deferred_live_updates k p.previous_u p chain (inr (c, at))

  pub flush_lem :
      (p : PackState)
      → flush_deferred_updates p ≡ record p {
        deferred_live_updates = [];
        last_update_received_ns = (flush_deferred_updates p).last_update_received_ns;
        written = (flush_deferred_updates p).written;
      }
  unfolding flush_deferred_updates
  flush_lem p =
      ap (λ (q : PackState). record q { deferred_live_updates = [] })
        (emit_all_lem p.deferred_live_updates p)

  -- A flush leaves nothing deferred, and the book where the loop stands.
  pub flush-InPhase :
      (p : PackState) (pending : Option DepthSnapshot)
      → InPhase live p
      → InPhase live (record (flush_deferred_updates p) { pending_live_snapshot = pending })
  unfolding flush_deferred_updates
  flush-InPhase p pending h = elim (flush-IsSyncedAt p h) [
    | inl e ↦ inl e
    | inr (c, at) ↦
        inr (
          c,
          (p.previous_u, at, sym (ap (λ (q : PackState). q.previous_u) (flush_lem p)), λ _. refl),
        )
  ]

  pub flush-phase : (p : PackState) → (flush_deferred_updates p).phase ≡ p.phase
  flush-phase p = ap (λ (q : PackState). q.phase) (flush_lem p)

  -- A step that ends in a known phase.
  pub arrive : (f : Phase) (p : PackState) → p.phase ≡ f → InPhase f p → InStep p
  arrive f p e h = subst (λ g. InPhase g p) (sym e) h
