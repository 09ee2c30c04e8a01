-- ===== src/Historical/Continuity/Loop.antt =====
-- What every message of an audit (`audit_continuity` of pyresearch/historical/l2.py) keeps, the whole
-- audit keeps.
use crypto_microstructure_ma.Prelude.{
  ℕ, inl, inr, Bool, Option, none, some, List, [], ◌∷◌, Bool-cases, ltb,
}
use crypto_microstructure_ma.Historical.Message.{EventType, DepthMessage}
use crypto_microstructure_ma.Historical.Snapshot.{snapshot_is_usable}
use crypto_microstructure_ma.Historical.Emission.{DepthUpdate, as_update}
use crypto_microstructure_ma.Historical.Continuity.{
  Audit, Result, ok, err, ◌>>=◌, count_message, audit_snapshot, audit_update, audit_ids,
  audit_usable, audit_by_type, audit_message, audit_all,
}

-- What holds of the audit that is returned, if one is.
abbrev pub Checked : (Audit → Type 0) → Result Audit → Type 0
Checked P (err e) = Unit
Checked P (ok a) = P a

-- A property of an audit between two messages, and one behind `count_message`.
module _ (i : Option ℕ) (P Q : Audit → Type 0)
    (counted : (m : DepthMessage) (a : Audit) → P a → Q (count_message m a))
    (snapshot : (usable : Bool) (m : DepthMessage) (a : Audit)
      → Q a
      → P (audit_snapshot i usable m a))
    (update : (u : DepthUpdate) (a : Audit) → Q a → P (audit_update i u a)) where
  audit_by_type-Checked :
      (e : EventType) (m : DepthMessage) (a : Audit) → Q a → Checked P (audit_by_type e i m a)
  unfolding audit_by_type audit_usable audit_ids
  audit_by_type-Checked EventType.snapshot m a h = by_use (snapshot_is_usable m)
    where
      by_use : (b : Option Bool) → Checked P (audit_usable i b m a)
      by_use none = tt
      by_use (some b) = snapshot b m a h
  audit_by_type-Checked _ m a h = by_ids (as_update m)
    where
      by_ids : (u : Option DepthUpdate) → Checked P (audit_ids i u a)
      by_ids none = tt
      by_ids (some u) = elim (Bool-cases (ltb u.final_update_id u.first_update_id)) [
        | inl e ↦ rw e tt
        | inr e ↦ rw e (update u a h)
      ]

  pub audit_all-Checked : (ms : List DepthMessage) (a : Audit) → P a → Checked P (audit_all i ms a)
  unfolding audit_all audit_message
  audit_all-Checked [] a h = h
  audit_all-Checked (m ∷ ms) a h =
      next (audit_message i m a)
        (audit_by_type-Checked m.event_type m (count_message m a) (counted m a h))
        (audit_all-Checked ms)
    where
      next :
          (r : Result Audit)
          → Checked P r
          → ((b : Audit) → P b → Checked P (audit_all i ms b))
          → Checked P (r >>= audit_all i ms)
      next (err e) c k = tt
      next (ok b) c k = k b c
