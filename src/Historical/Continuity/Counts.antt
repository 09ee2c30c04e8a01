-- ===== src/Historical/Continuity/Counts.antt =====
-- The counters of the continuity audit (`audit_continuity` of pyresearch/historical/l2.py) add up.
use crypto_microstructure_ma.Prelude.{ℕ, suc, ◌+◌, ◌≡◌, List, [], ◌∷◌, length}
use crypto_microstructure_ma.Historical.Message.{Text, DepthMessage}
use crypto_microstructure_ma.Historical.Continuity.{
  Status, initial_delta_only, duplicate_stale, contiguous, pu_break, snapshot_bridge,
  snapshot_bridge_gap, duplicate_stale_before_snapshot, Audit, ObjectCounts,
}
use crypto_microstructure_ma.Historical.Continuity.Classes.{classes}

abbrev is_initial : Status → ℕ
is_initial initial_delta_only = 1
is_initial _ = 0

-- The records of updates that opened a stream with no snapshot before it.
abbrev pub initials : List (DepthMessage × Status) → ℕ
initials [] = 0
initials ((m, status) ∷ rs) = is_initial status + initials rs

-- The updates that were counted by their class.
abbrev pub classed : Audit → ℕ
classed a =
    a.summary.contiguous_updates
    + a.summary.duplicate_stale_messages
    + a.summary.pu_breaks
    + initials a.records

-- Messages over all source objects.
abbrev pub total_messages : List (Text × ObjectCounts) → ℕ
total_messages [] = 0
total_messages ((k, c) ∷ d) = c.messages + total_messages d

pub record IsCounted (a : Audit) : Type 0 where
  pub by_type :
      a.summary.unique_depth_messages ≡ a.summary.update_messages + a.summary.snapshot_messages
  pub by_class : a.summary.update_messages ≡ classed a
  pub by_range : length a.summary.missing_ranges ≡ a.summary.pu_breaks
  pub by_record : length a.records ≡ a.summary.unique_depth_messages
  pub by_object : total_messages a.summary.per_object ≡ a.summary.unique_depth_messages

-- The state behind `count_message`: one message ahead of its class and its record.
record IsAhead (a : Audit) : Type 0 where
  by_type :
      a.summary.unique_depth_messages
      ≡ suc (a.summary.update_messages + a.summary.snapshot_messages)
  by_class : a.summary.update_messages ≡ classed a
  by_range : length a.summary.missing_ranges ≡ a.summary.pu_breaks
  by_record : suc (length a.records) ≡ a.summary.unique_depth_messages
  by_object : total_messages a.summary.per_object ≡ a.summary.unique_depth_messages

-- The classes of an update.
abbrev IsOfUpdate : Status → Type 0
IsOfUpdate initial_delta_only = Unit
IsOfUpdate duplicate_stale = Unit
IsOfUpdate contiguous = Unit
IsOfUpdate pu_break = Unit
IsOfUpdate snapshot_bridge = Unit
IsOfUpdate snapshot_bridge_gap = Unit
IsOfUpdate duplicate_stale_before_snapshot = Unit
IsOfUpdate _ = ⊥

-- Each class adds one to one counter, and a range where it adds a break.
record AddsOne (status : Status) (a b : Audit) : Type 0 where
  classes :
      b.summary.contiguous_updates
        + b.summary.duplicate_stale_messages
        + b.summary.pu_breaks
        + is_initial status
      ≡ a.summary.contiguous_updates + a.summary.duplicate_stale_messages + a.summary.pu_breaks + 1
  ranges :
      length b.summary.missing_ranges + a.summary.pu_breaks
      ≡ length a.summary.missing_ranges + b.summary.pu_breaks
  same_records : b.records ≡ a.records
  same_updates : b.summary.update_messages ≡ a.summary.update_messages
  same_snapshots : b.summary.snapshot_messages ≡ a.summary.snapshot_messages
  same_unique : b.summary.unique_depth_messages ≡ a.summary.unique_depth_messages
  same_objects : b.summary.per_object ≡ a.summary.per_object
