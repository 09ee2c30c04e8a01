-- ===== src/Historical/Packing/Totality.antt =====
-- When the packing succeeds, and why it fails.
use crypto_microstructure_ma.Prelude.{
  ℕ, ◌≡◌, refl, ◌≢◌, inl, inr, Bool, true, false, ◌||◌, Option, none, some, List, [], ◌∷◌, arith,
  Bool-cases, Option-cases, leb, All,
}
use crypto_microstructure_ma.Historical.Message.{EventType, DepthMessage, ordering_key, key_leb}
use crypto_microstructure_ma.Historical.Snapshot.{snapshot_is_usable}
use crypto_microstructure_ma.Historical.Emission.{
  DepthUpdate, DepthSnapshot, as_update, as_snapshot,
}
use crypto_microstructure_ma.Historical.Packing.{
  PackState, Result, ok, on_candidate, on_ids, on_message, step, run, initial, finish, base_of,
  pack,
}

-- The message can be read: a snapshot's levels are decimals, and an update has its three ids.
abbrev pub Reads : EventType → DepthMessage → Type 0
Reads EventType.snapshot m = snapshot_is_usable m ≢ none
Reads EventType.update m = as_update m ≢ none
Reads (EventType.other t) m = Unit

abbrev pub Succeeds : Result PackState → Type 0
Succeeds r = (p : PackState) × (r ≡ ok p)

on_message-Succeeds :
    (e : EventType) (m : DepthMessage) (s : PackState) → Reads e m → Succeeds (on_message e m s)
unfolding on_message on_candidate on_ids
on_message-Succeeds EventType.snapshot m s h = by_candidate (snapshot_is_usable m) (as_snapshot m) h
  where
    by_candidate :
        (b : Option Bool) (d : Option DepthSnapshot) → b ≢ none → Succeeds (on_candidate b d s)
    by_candidate none d h = absurd (h refl)
    by_candidate (some false) d h = (s, refl)
    by_candidate (some true) none h = (s, refl)
    by_candidate (some true) (some d) h = (_, refl)
on_message-Succeeds EventType.update m s h = by_ids (as_update m) h
  where
    by_ids : (u : Option DepthUpdate) → u ≢ none → Succeeds (on_ids u s)
    by_ids none h = absurd (h refl)
    by_ids (some u) h = (_, refl)
on_message-Succeeds (EventType.other t) m s h = (s, refl)

-- A message inside the window: behind the snapshot, and before the end.
abbrev pub InWindow : DepthMessage → ℕ → DepthMessage → Type 0
InWindow base end_ns m =
    (key_leb (ordering_key m) (ordering_key base) || leb end_ns m.received_time_ns) ≡ false

run-Succeeds :
    (base : DepthMessage) (end_ns : ℕ) (ms : List DepthMessage) (s : PackState)
    → All (λ m. InWindow base end_ns m → Reads m.event_type m) ms
    → Succeeds (run base end_ns ms s)
unfolding run step
run-Succeeds base end_ns [] s h = (s, refl)
run-Succeeds base end_ns (m ∷ ms) s h =
    elim (Bool-cases
      (key_leb (ordering_key m) (ordering_key base) || leb end_ns m.received_time_ns)) [
        | inl skipped ↦ rw skipped (run-Succeeds base end_ns ms s h.1)
        | inr taken ↦
            let (t, e) = on_message-Succeeds m.event_type m s (h.0 taken) in
            rw (taken, e) (run-Succeeds base end_ns ms t h.1)
      ]

-- A usable snapshot has an id.
usable-as_snapshot :
    (m : DepthMessage)
    → snapshot_is_usable m ≡ some true
    → (d : DepthSnapshot) × (as_snapshot m ≡ some d)
unfolding snapshot_is_usable as_snapshot
usable-as_snapshot m h = elim (Option-cases m.last_update_id) [
  | inl e ↦ absurd (ground arith)
  | inr (v, e) ↦ (record { message = m; last_update_id = v }, rw e)
]

-- The packing succeeds from a usable snapshot, if every message inside the window can be read:
-- each update there has its ids, and each snapshot has decimals for levels.
pub pack-Succeeds :
    (ms : List DepthMessage) (base : DepthMessage) (start_ns : Option ℕ) (end_ns : ℕ)
    → snapshot_is_usable base ≡ some true
    → All (λ m. InWindow base end_ns m → Reads m.event_type m) ms
    → Succeeds (pack ms (some base) start_ns end_ns)
unfolding pack base_of
pack-Succeeds ms base start_ns end_ns usable h =
    let (d, e) = usable-as_snapshot base usable in
    let (s, r) = run-Succeeds base end_ns ms (initial d start_ns) h in (finish s, rw (usable, e, r))
