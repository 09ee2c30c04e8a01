-- ===== src/Historical/Continuity/Stages.antt =====
-- Each message that `audit_continuity` of pyresearch/historical/l2.py reads keeps the classes of the
-- updates in order.
use crypto_microstructure_ma.Prelude.{
  ℕ, ◌≡◌, refl, subst, sym, inl, inr, Bool, true, false, ◌&&◌, Option, none, some, List, [], ◌∷◌,
  ◌++◌, arith, All, Bool-cases, ltb, leb, ◌==◌, or_else,
}
use crypto_microstructure_ma.Historical.Message.{DepthMessage}
use crypto_microstructure_ma.Historical.Emission.{DepthUpdate}
use crypto_microstructure_ma.Historical.Continuity.{
  Status, duplicate_stale_before_snapshot, snapshot_bridge, snapshot_bridge_gap, initial_delta_only,
  duplicate_stale, contiguous, pu_break, Audit, Result, ok, err, count_message, snapshot_status,
  audit_snapshot, bridge_status, chain_status, apply_status, awaited, update_status, count_update,
  close_update, audit_update, begin_audit, audit_all,
}
use crypto_microstructure_ma.Historical.Continuity.Loop.{Checked, audit_all-Checked}
use crypto_microstructure_ma.Historical.Continuity.Classes.{
  is_of_update, classes, IsChained, IsOlder, IsInOrder, Stage, Stage-IsInOrder, All-snoc,
  IsOpened-snoc, IsBridged-snoc, older-IsBridged, classes-snoc_update, classes-snoc_snapshot,
}

-- The loop's variables behind an update of a class.
abbrev waits_behind : Status → Bool → Bool
waits_behind snapshot_bridge waits = false
waits_behind snapshot_bridge_gap waits = false
waits_behind _ waits = waits

abbrev previous_behind : Status → DepthUpdate → Option ℕ → Option ℕ
previous_behind snapshot_bridge u previous = some u.final_update_id
previous_behind snapshot_bridge_gap u previous = some u.final_update_id
previous_behind contiguous u previous = some u.final_update_id
previous_behind initial_delta_only u previous = some u.final_update_id
previous_behind pu_break u previous = some u.final_update_id
previous_behind _ u previous = previous

apply_status-behind :
    (status : Status) (after : ℕ) (u : DepthUpdate) (a : Audit)
    → ((apply_status status after u a).awaiting_initial_bridge
        ≡ waits_behind status a.awaiting_initial_bridge)
      × ((apply_status status after u a).previous_update_u
          ≡ previous_behind status u a.previous_update_u)
      × ((apply_status status after u a).records ≡ a.records)
unfolding apply_status
apply_status-behind snapshot_bridge after u a = (refl, refl, refl)
apply_status-behind _ after u a = (refl, refl, refl)

-- One update moves the stage on.
abbrev Moves : Option ℕ → Bool → Option ℕ → List Status → DepthUpdate → Status → Type 0
Moves i waits previous ss u s =
    Stage i (waits_behind s waits) (previous_behind s u previous) (ss ++ s ∷ [])
    × (is_of_update s ≡ true)

chained-Moves :
    (i : Option ℕ) (waits : Bool) (p : ℕ) (ss : List Status) (u : DepthUpdate)
    → ((s : Status) (v : ℕ) → IsChained s → Stage i waits (some v) (ss ++ s ∷ []))
    → Moves i waits (some p) ss u (chain_status (some p) u)
unfolding chain_status
chained-Moves i waits p ss u k = elim (Bool-cases (leb u.final_update_id p)) [
  | inl e ↦ rw e (k duplicate_stale p tt, refl)
  | inr e ↦ elim (Bool-cases (u.prev_final_update_id == p)) [
    | inl f ↦ rw (e, f) (k contiguous u.final_update_id tt, refl)
    | inr f ↦ rw (e, f) (k pu_break u.final_update_id tt, refl)
  ]
]

bridge-Moves :
    (id : ℕ) (previous : Option ℕ) (ss : List Status) (u : DepthUpdate)
    → All IsOlder ss
    → Moves (some id) true previous ss u (bridge_status id u)
unfolding bridge_status
bridge-Moves id previous ss u h = elim (Bool-cases (ltb u.final_update_id id)) [
  | inl e ↦ rw e (All-snoc IsOlder ss duplicate_stale_before_snapshot h refl, refl)
  | inr e ↦ elim (Bool-cases (leb u.first_update_id id && leb id u.final_update_id)) [
    | inl f ↦ rw (e, f) (older-IsBridged ss snapshot_bridge h tt, refl)
    | inr f ↦ rw (e, f) (older-IsBridged ss snapshot_bridge_gap h tt, refl)
  ]
]

update_status-Moves :
    (i : Option ℕ) (waits : Bool) (previous : Option ℕ) (ss : List Status) (u : DepthUpdate)
    → Stage i waits previous ss
    → Moves i waits previous ss u (update_status (awaited waits i) previous u).0
unfolding update_status chain_status
update_status-Moves none true none ss u h = rw h ((refl, tt), refl)
update_status-Moves none false none ss u h = rw h ((refl, tt), refl)
update_status-Moves none true (some p) ss u h =
    chained-Moves none true p ss u (λ s v c. IsOpened-snoc ss s h c)
update_status-Moves none false (some p) ss u h =
    chained-Moves none false p ss u (λ s v c. IsOpened-snoc ss s h c)
update_status-Moves (some id) true previous ss u h = bridge-Moves id previous ss u h
update_status-Moves (some id) false none ss u h = elim h [ ]
update_status-Moves (some id) false (some p) ss u h =
    chained-Moves (some id) false p ss u (λ s v c. IsBridged-snoc ss s h c)

abbrev IsAt : Option ℕ → Audit → Type 0
IsAt i a = Stage i a.awaiting_initial_bridge a.previous_update_u (classes a.records)

snapshot_status-snapshot :
    (i : Option ℕ) (usable : Bool) (id : Option ℕ) (a : Audit)
    → is_of_update (snapshot_status i usable id a) ≡ false
unfolding snapshot_status
snapshot_status-snapshot i usable none a = refl
snapshot_status-snapshot i false (some id) a = refl
snapshot_status-snapshot i true (some id) a = ground arith

count_message-IsAt :
    (i : Option ℕ) (m : DepthMessage) (a : Audit) → IsAt i a → IsAt i (count_message m a)
unfolding count_message
count_message-IsAt i m a h = h

audit_snapshot-IsAt :
    (i : Option ℕ) (usable : Bool) (m : DepthMessage) (a : Audit)
    → IsAt i a
    → IsAt i (audit_snapshot i usable m a)
unfolding audit_snapshot
audit_snapshot-IsAt i usable m a h =
    let status = snapshot_status i usable m.last_update_id a in
    subst (Stage i a.awaiting_initial_bridge a.previous_update_u)
      (sym (
        classes-snoc_snapshot a.records m status
          (snapshot_status-snapshot i usable m.last_update_id a)))
      h

audit_update-IsAt :
    (i : Option ℕ) (u : DepthUpdate) (a : Audit) → IsAt i a → IsAt i (audit_update i u a)
unfolding audit_update count_update close_update
audit_update-IsAt i u a h =
    let found = update_status (awaited a.awaiting_initial_bridge i) a.previous_update_u u in
    let (waits, previous, records) =
      apply_status-behind found.0 (or_else found.1 0) u (count_update u a) in
    let (stage, of_update) =
      update_status-Moves i a.awaiting_initial_bridge a.previous_update_u (classes a.records) u h in
    rw (waits, previous, records, classes-snoc_update a.records u.message found.0 of_update) stage

begin_audit-IsAt : (i : Option ℕ) → IsAt i (begin_audit i)
unfolding begin_audit
begin_audit-IsAt none = refl
begin_audit-IsAt (some id) = tt

-- The classes of the updates of an audit are in order.
pub audit_all-IsInOrder :
    (i : Option ℕ) (ms : List DepthMessage)
    → Checked (λ a. IsInOrder i (classes a.records)) (audit_all i ms (begin_audit i))
audit_all-IsInOrder i ms = weaken (audit_all i ms (begin_audit i)) (
    audit_all-Checked i (IsAt i) (IsAt i) (count_message-IsAt i)
      (λ b m a h. audit_snapshot-IsAt i b m a h) (audit_update-IsAt i) ms (begin_audit i)
      (begin_audit-IsAt i))
  where
    weaken :
        (r : Result Audit) → Checked (IsAt i) r → Checked (λ a. IsInOrder i (classes a.records)) r
    weaken (err e) h = tt
    weaken (ok a) h = Stage-IsInOrder i _ _ _ h
